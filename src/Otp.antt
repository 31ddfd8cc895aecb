-- ===== src/Otp.antt =====
-- src/services/auth/verificationCodeStore.ts: the codes that verify an email address or a phone,
-- kept in Redis under one key for each user and channel. The two Lua scripts run as one step each;
-- a wait stands before them, since the record was read by an earlier command.
pub mod Keys
pub mod Verify
pub mod Budget
mod Tests
use mathlib.Core.Option
use ulmara_backend.Common.{
  Bool, Option, Text, all_digits, delete_where, false, find_where, if◌then◌else◌, leb, length, none,
  not, some, text, text_eq, true, ℕ, ◌&&◌, ◌+◌, ◌==◌, ◌∷◌,
}
use ulmara_backend.World.{
  Channel, Db, Env, M, OtpRow, StoredCode, await_others, coded, email_channel, garbage, gets,
  modify, phone_channel, pure, shapeless, stored, throw_if, ⊤, ◌>>=◌, ◌>>◌,
}

abbrev pub same_channel : Channel → Channel → Bool
same_channel email_channel email_channel = true
same_channel phone_channel phone_channel = true
same_channel _ _ = false

-- `storeKey`
abbrev pub is_key : ℕ → Channel → OtpRow → Bool
is_key id ch row = row.user_id == id && same_channel row.channel ch

abbrev pub otp_of : ℕ → Channel → Db → Option OtpRow
otp_of id ch db = find_where (is_key id ch) db.otps

abbrev redis_get : ℕ → Channel → M (Option OtpRow)
redis_get id ch = gets (otp_of id ch)

abbrev pub redis_del : ℕ → Channel → M ⊤
redis_del id ch = modify (λ db. record db { otps = delete_where (is_key id ch) db.otps })

abbrev pub put_code : ℕ → Channel → StoredCode → (ttl : ℕ) → Db → Db
put_code id ch value ttl db = record db {
  otps =
      record { user_id = id; channel = ch; value = value; ttl = ttl }
      ∷ delete_where (is_key id ch) db.otps;
}

-- `SET key value EX ttl`
abbrev redis_set : ℕ → Channel → StoredCode → (ttl : ℕ) → M ⊤
redis_set id ch value ttl = modify (put_code id ch value ttl)

-- `createVerificationCode`, with the code that it draws or is given
unfoldable pub create_verification_code : Env → ℕ → Channel → Text → M Text
create_verification_code env id ch code = do
  now ← gets (λ db. db.clock)
  redis_set id ch (stored (env.hash_code code) (now + env.code_ttl_ms) 0) env.retention_ttl
  pure code

-- `deleteVerificationCode`
unfoldable delete_verification_code : ℕ → Channel → M ⊤
delete_verification_code id ch = redis_del id ch

pub data VerifyOutcome : Type 0 where
  verified invalid expired no_code attempts_exhausted : VerifyOutcome

-- `CONSUME_SCRIPT`: whether the record was claimed
unfoldable pub consume_script : ℕ → Channel → Text → M Bool
consume_script id ch h = do
  raw ← redis_get id ch
  elim raw [
    | none ↦ pure false
    | some row ↦ elim row.value [
      | garbage ↦ redis_del id ch >> pure false
      | shapeless ↦ pure false
      | stored h' e a ↦ if text_eq h' h then redis_del id ch >> pure true else pure false
    ]
  ]

-- What `FAILURE_SCRIPT` does to a record with the hash that was read: the new count, or `none` for
-- the -1 that says that the budget is spent.
abbrev count_failure : ℕ → Channel → (max ttl : ℕ) → Text → (e a : ℕ) → M (Option ℕ)
count_failure id ch max ttl h e a =
    if leb ttl 0
    then redis_del id ch >> pure (some 0)
    else if leb max (a + 1)
    then redis_del id ch >> pure none
    else redis_set id ch (stored h e (a + 1)) ttl >> pure (some (a + 1))

-- `FAILURE_SCRIPT`
unfoldable pub failure_script : ℕ → Channel → Text → (max : ℕ) → M (Option ℕ)
failure_script id ch h max = do
  raw ← redis_get id ch
  elim raw [
    | none ↦ pure (some 0)
    | some row ↦ elim row.value [
      | garbage ↦ redis_del id ch >> pure (some 0)
      | shapeless ↦ pure (some 0)
      | stored h' e a ↦
          if text_eq h' h then count_failure id ch max row.ttl h' e a else pure (some 0)
    ]
  ]

abbrev failure_outcome : Option ℕ → VerifyOutcome
failure_outcome none = attempts_exhausted
failure_outcome (some count) = invalid

-- `/^\d{6}$/`
abbrev pub is_six_digits : Text → Bool
is_six_digits code = length code == 6 && all_digits code

-- A wrong code counts against the record that was read.
unfoldable pub reject_code : Env → ℕ → Channel → Text → M VerifyOutcome
reject_code env id ch h = do
  await_others env 0
  attempts ← failure_script id ch h env.otp_max_attempts
  pure (failure_outcome attempts)

-- A right code claims the record that was read.
unfoldable pub claim_code : Env → ℕ → Channel → Text → M VerifyOutcome
claim_code env id ch h = do
  await_others env 0
  consumed ← consume_script id ch h
  pure (if consumed then verified else invalid)

-- The part of `verifyVerificationCode` behind a record that parses.
unfoldable pub check_code : Env → ℕ → Channel → Text → Text → (e : ℕ) → M VerifyOutcome
check_code env id ch code h e = do
  now ← gets (λ db. db.clock)
  if leb e now
      then redis_del id ch >> pure expired
      else if text_eq h (env.hash_code code)
      then claim_code env id ch h
      else reject_code env id ch h

-- `verifyVerificationCode`
unfoldable pub verify_verification_code : Env → ℕ → Channel → Text → M VerifyOutcome
verify_verification_code env id ch code = do
  throw_if (not (is_six_digits code)) (coded 400 (text "Verification code must be 6 digits"))
  raw ← redis_get id ch
  elim raw [
    | none ↦ pure no_code
    | some row ↦ elim row.value [
      | garbage ↦ redis_del id ch >> pure no_code
      | shapeless ↦ redis_del id ch >> pure no_code
      | stored h e a ↦ check_code env id ch code h e
    ]
  ]

-- `verificationCodeTtlSeconds`
unfoldable verification_code_ttl_seconds : ℕ → Channel → M (Option ℕ)
verification_code_ttl_seconds id ch = gets (λ db. Option.map (λ row. row.ttl) (otp_of id ch db))
