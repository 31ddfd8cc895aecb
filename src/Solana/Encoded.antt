-- ===== src/Solana/Encoded.antt =====
-- What the hand-encoded token instructions say when they are read back.
use ulmara_backend.Common.{
  Bool-cases, List, [], ap, arith, inl, inr, length, ltb, refl, sym, ℕ, ◌++◌, ◌∙◌, ◌∷◌, ◌≡◌, ◌≤◌,
}
use ulmara_backend.World.{Result-cases, ok}
use ulmara_backend.Solana.{
  TransactionInstruction, TransferArgs, assert_decimals, create_transfer_instruction, drop,
  le_bytes, max_u64, negsuc, pos, read_token_account_amount, read_u64_le,
  token_account_amount_offset, token_account_length, transfer_checked, transfer_of, write_u64_le, ℤ,
}
use ulmara_backend.Solana.Bytes.{le_value-le_bytes}

assert_decimals_sound : (z : ℤ) (d : ℕ) → assert_decimals z ≡ ok d → (z ≡ pos d) × (d ≤ 255)
unfolding assert_decimals
assert_decimals_sound (pos n) d h = ground arith
assert_decimals_sound (negsuc n) d h = absurd (cc)

write_u64_le_sound :
    (z : ℤ) (bytes : List ℕ)
    → write_u64_le z ≡ ok bytes
    → (v : ℕ) × (z ≡ pos v) × (v ≤ max_u64) × (bytes ≡ le_bytes 8 v)
unfolding write_u64_le
write_u64_le_sound (negsuc n) bytes h = absurd (cc)
write_u64_le_sound (pos v) bytes h = elim (Bool-cases (ltb max_u64 v)) [
  | inl large ↦ absurd (ground arith)
  | inr fits ↦ (v, refl, ground arith, ground arith)
]

read_u64_le_payload : (v d : ℕ) → v ≤ max_u64 → read_u64_le 1 (12 ∷ le_bytes 8 v ++ d ∷ []) ≡ v
unfolding read_u64_le drop
read_u64_le_payload v d h = le_value-le_bytes 8 v (d ∷ []) (omega arith)

length-payload : (v d : ℕ) → length (12 ∷ le_bytes 8 v ++ d ∷ []) ≡ 10
unfolding le_bytes
length-payload v d = refl

-- A transfer instruction is built only for an amount of 64 bits and decimals of 8 bits. Its payload
-- has ten bytes, the tag of TransferChecked first and the decimals last, and the number read from its
-- bytes 1 to 8 as the token program reads it is the amount.
pub create_transfer_instruction_sound :
    (args : TransferArgs) (i : TransactionInstruction)
    → create_transfer_instruction args ≡ ok i
    → (v d : ℕ) × (args.amount ≡ pos v)
      × (v ≤ max_u64)
      × (args.decimals ≡ pos d)
      × (d ≤ 255)
      × (i.payload ≡ transfer_checked ∷ le_bytes 8 v ++ d ∷ [])
      × (length i.payload ≡ 10)
      × (read_u64_le 1 i.payload ≡ v)
unfolding create_transfer_instruction transfer_of
create_transfer_instruction_sound args i h = elim (Result-cases (assert_decimals args.decimals)) [
  | inr (e, refused) ↦ absurd (ground arith)
  | inl (d, byte) ↦ elim (Result-cases (write_u64_le args.amount)) [
    | inr (e, refused) ↦ absurd (ground arith)
    | inl (bytes, written) ↦
        let (whole, small) = assert_decimals_sound args.decimals d byte in
        let (v, natural, fits, same) = write_u64_le_sound args.amount bytes written in
        let built : transfer_of args d bytes ≡ i = ground arith in
        let payload : i.payload ≡ transfer_checked ∷ le_bytes 8 v ++ d ∷ [] =
          ap (λ j. j.payload) (sym built) ∙ ap (λ b. transfer_checked ∷ b ++ d ∷ []) same in
        (
          v,
          d,
          natural,
          fits,
          whole,
          small,
          payload,
          ap length payload ∙ length-payload v d,
          ap (read_u64_le 1) payload ∙ read_u64_le_payload v d fits,
        )
  ]
]

drop-append : (front rest : List ℕ) → drop (length front) (front ++ rest) ≡ rest
unfolding drop
drop-append [] rest = refl
drop-append (x ∷ xs) rest = drop-append xs rest

-- The balance of a token account, which stands after the 64 bytes of its mint and its owner, is read
-- back from bytes that are long enough for an account.
read_token_account_amount_back :
    (front rest : List ℕ) (v : ℕ)
    → length front ≡ token_account_amount_offset
    → v ≤ max_u64
    → token_account_length ≤ length (front ++ (le_bytes 8 v ++ rest))
    → read_token_account_amount (front ++ (le_bytes 8 v ++ rest)) ≡ ok v
unfolding read_token_account_amount read_u64_le
read_token_account_amount_back front rest v h fits long =
    let placed : drop token_account_amount_offset (front ++ (le_bytes 8 v ++ rest))
        ≡ le_bytes 8 v ++ rest =
      rw (sym h) (drop-append front (le_bytes 8 v ++ rest)) in
    ground (arith, placed, le_value-le_bytes 8 v rest)
