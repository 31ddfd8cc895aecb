-- ===== src/Solana/Tests.antt =====
-- Runs of the token instructions.
use ulmara_backend.Common.{[], length, none, refl, text, ℕ, ◌++◌, ◌∷◌, ◌≡◌, ◌≤◌}
use ulmara_backend.Solana.{
  TransferArgs, assert_decimals, create_transfer_instruction, le_bytes, max_u64, pos, read_u64_le,
  transfer_checked, transfer_of, write_u64_le,
}
use ulmara_backend.Solana.Encoded.{create_transfer_instruction_sound}

-- one USDC
abbrev one_coin : TransferArgs
one_coin = record {
  mint = text "m";
  source = text "s";
  destination = text "d";
  owner = text "o";
  amount = pos 1000000;
  decimals = pos 6;
  program = none;
}

one_coin_payload :
    (transfer_of one_coin 6 (le_bytes 8 1000000)).payload
    ≡ 12 ∷ 64 ∷ 66 ∷ 15 ∷ 0 ∷ 0 ∷ 0 ∷ 0 ∷ 0 ∷ 6 ∷ []
unfolding transfer_of le_bytes
one_coin_payload = refl

create_transfer_instruction_sound_example :
    (v d : ℕ) × (pos 1000000 ≡ pos v)
    × (v ≤ max_u64)
    × (pos 6 ≡ pos d)
    × (d ≤ 255)
    × ((transfer_of one_coin 6 (le_bytes 8 1000000)).payload
        ≡ transfer_checked ∷ le_bytes 8 v ++ d ∷ [])
    × (length (transfer_of one_coin 6 (le_bytes 8 1000000)).payload ≡ 10)
    × (read_u64_le 1 (transfer_of one_coin 6 (le_bytes 8 1000000)).payload ≡ v)
unfolding create_transfer_instruction assert_decimals write_u64_le
create_transfer_instruction_sound_example =
    create_transfer_instruction_sound one_coin (transfer_of one_coin 6 (le_bytes 8 1000000)) refl
