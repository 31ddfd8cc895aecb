-- ===== src/Solana.antt =====
-- src/chains/solana/spl.ts: the two token instructions that the backend encodes by hand, and the amount
-- that it reads from the bytes of a token account. A public key is a text, the derivation of program
-- addresses is a parameter, and a buffer is the list of its bytes.
pub mod Bytes
pub mod Encoded
mod Tests
use ulmara_backend.Common.{
  Bool, List, Option, Text, [], false, if◌then◌else◌, leb, length, ltb, none, show_ℕ, some, suc,
  text, true, zero, ℕ, ◌%◌, ◌*◌, ◌++◌, ◌+◌, ◌/◌, ◌==◌, ◌∷◌,
}
use ulmara_backend.World.{Error, Result, err, ok, thrown}
use ulmara_backend.Tokens.Spl.{TokenProgram, spl_token, token_2022}

-- A `bigint` or an integral `number`.
pub data ℤ : Type 0 where
  pos : ℕ → ℤ
  negsuc : ℕ → ℤ

abbrev Key : Type 0
Key = Text

abbrev system_program_id : Key
system_program_id = text "11111111111111111111111111111111"

abbrev token_program_address : Key
token_program_address = text "TokenkegQfeZyiNwAJbNbGKPFXCWuBvf9Ss623VQ5DA"

abbrev token_2022_program_address : Key
token_2022_program_address = text "TokenzQdBNbLqP5VEhdkAS6EPFLC1PHnBqCXEpPxuEb"

abbrev associated_token_program_id : Key
associated_token_program_id = text "ATokenGPvbdGVxr1b2hvZbsiqW5xWH25efTNsLJA8knL"

abbrev pub transfer_checked : ℕ
transfer_checked = 12

abbrev pub token_account_length : ℕ
token_account_length = 165

abbrev pub token_account_amount_offset : ℕ
token_account_amount_offset = 64

-- `tokenProgramId`
unfoldable pub token_program_id : TokenProgram → Key
token_program_id token_2022 = token_2022_program_address
token_program_id spl_token = token_program_address

pub record AccountMeta : Type 0 where
  pub pubkey : Key
  pub is_signer : Bool
  pub is_writable : Bool

-- the field `data` of the source is `payload`
pub record TransactionInstruction : Type 0 where
  pub program_id : Key
  pub keys : List AccountMeta
  pub payload : List ℕ

abbrev shown_ℤ : ℤ → Text
shown_ℤ (pos n) = show_ℕ n
shown_ℤ (negsuc n) = text "-" ++ show_ℕ (suc n)

abbrev bad_decimals : ℤ → Error
bad_decimals d = thrown (
    text "SPL decimals must be an integer 0-255 (it is a u8 in the instruction); got " ++ shown_ℤ d)

-- `assertDecimals`: the byte
unfoldable pub assert_decimals : ℤ → Result ℕ
assert_decimals (pos d) = if leb d 255 then ok d else err (bad_decimals (pos d))
assert_decimals (negsuc d) = err (bad_decimals (negsuc d))

-- the bytes of `writeBigUInt64LE`, as many as are asked for
unfoldable pub le_bytes : (count : ℕ) → ℕ → List ℕ
le_bytes zero v = []
le_bytes (suc n) v = v % 256 ∷ le_bytes n (v / 256)

abbrev pub max_u64 : ℕ
max_u64 = 18446744073709551615

-- `writeU64LE`: the eight bytes
unfoldable pub write_u64_le : ℤ → Result (List ℕ)
write_u64_le (negsuc v) =
    err (thrown (text "SPL amount cannot be negative (got " ++ (shown_ℤ (negsuc v) ++ text ")")))
write_u64_le (pos v) =
    if ltb max_u64 v
    then err (thrown (text "SPL amount exceeds u64 (got " ++ (show_ℕ v ++ text ")")))
    else ok (le_bytes 8 v)

pub record TransferArgs : Type 0 where
  pub mint : Key
  pub source : Key
  pub destination : Key
  pub owner : Key
  pub amount : ℤ
  pub decimals : ℤ
  pub program : Option TokenProgram

abbrev program_or_default : Option TokenProgram → TokenProgram
program_or_default none = spl_token
program_or_default (some p) = p

abbrev account : Key → (is_signer is_writable : Bool) → AccountMeta
account k signer writable = record { pubkey = k; is_signer = signer; is_writable = writable }

unfoldable pub transfer_of : TransferArgs → (decimals : ℕ) → List ℕ → TransactionInstruction
transfer_of args decimals amount = record {
  program_id = token_program_id (program_or_default args.program);
  keys =
      account args.source false true
      ∷ account args.mint false false
      ∷ account args.destination false true
      ∷ account args.owner true false
      ∷ [];
  payload = transfer_checked ∷ amount ++ decimals ∷ [];
}

-- `createTransferInstruction`
unfoldable pub create_transfer_instruction : TransferArgs → Result TransactionInstruction
create_transfer_instruction args = elim (assert_decimals args.decimals) [
  | err e ↦ err e
  | ok d ↦ elim (write_u64_le args.amount) [
    | err e ↦ err e
    | ok bytes ↦ ok (transfer_of args d bytes)
  ]
]

-- `PublicKey.findProgramAddressSync`, from the seeds and the program
abbrev FindAddress : Type 0
FindAddress = List Key → Key → Key

-- `associatedTokenAddress`
unfoldable associated_token_address : FindAddress → (mint owner : Key) → Option TokenProgram → Key
associated_token_address find mint owner program =
    find (owner ∷ token_program_id (program_or_default program) ∷ mint ∷ [])
      associated_token_program_id

abbrev or_true : Option Bool → Bool
or_true none = true
or_true (some b) = b

-- `createAssociatedTokenAccountInstruction`
unfoldable create_associated_token_account_instruction :
    FindAddress
    → (funder owner mint : Key) → Option TokenProgram
    → (idempotent : Option Bool) → TransactionInstruction
create_associated_token_account_instruction find funder owner mint program idempotent = record {
  program_id = associated_token_program_id;
  keys =
      account funder true true
      ∷ account (associated_token_address find mint owner program) false true
      ∷ account owner false false
      ∷ account mint false false
      ∷ account system_program_id false false
      ∷ account (token_program_id (program_or_default program)) false false
      ∷ [];
  payload = (if or_true idempotent then 1 else 0) ∷ [];
}

unfoldable pub drop : ℕ → List ℕ → List ℕ
drop zero xs = xs
drop (suc n) [] = []
drop (suc n) (x ∷ xs) = drop n xs

-- the number that so many bytes say, the lowest first
unfoldable pub le_value : (count : ℕ) → List ℕ → ℕ
le_value zero xs = 0
le_value (suc n) [] = 0
le_value (suc n) (x ∷ xs) = x + 256 * le_value n xs

-- `readBigUInt64LE(offset)`
unfoldable pub read_u64_le : (offset : ℕ) → List ℕ → ℕ
read_u64_le offset xs = le_value 8 (drop offset xs)

-- `readTokenAccountAmount`
unfoldable pub read_token_account_amount : List ℕ → Result ℕ
read_token_account_amount xs =
    if ltb (length xs) token_account_length
    then err (
        thrown (
          text "Token account is "
          ++ (show_ℕ (length xs)
              ++ (text " bytes; expected 165. "
                  ++ text
                      "Refusing to read a balance from a buffer that is not a token account."))))
    else ok (read_u64_le token_account_amount_offset xs)

-- `isTokenAccountSize`
unfoldable is_token_account_size : Option (List ℕ) → Bool
is_token_account_size none = false
is_token_account_size (some xs) = length xs == token_account_length
