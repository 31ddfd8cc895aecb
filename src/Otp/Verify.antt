-- ===== src/Otp/Verify.antt =====
-- When a code is accepted, and what a verification leaves behind.
use ulmara_backend.Common.{
  Option-cases, Text, ap, arith, eq_of_text_eq, false, inl, inr, none, refl, some, text_eq, ℕ, ◌<◌,
  ◌≡◌, ◌≢◌,
}
use ulmara_backend.World.{Channel, Db, Env, OtpRow, StoredCode, garbage, ok, shapeless, stored}
use ulmara_backend.Otp.{
  check_code, claim_code, consume_script, failure_script, invalid, otp_of, reject_code, verified,
  verify_verification_code,
}
use ulmara_backend.Otp.Keys.{otp_of-redis_del}

data IsStored (v : StoredCode) : Type 0 where
  is_stored : (h : Text) (e a : ℕ) → v ≡ stored h e a → IsStored v
  is_shapeless : v ≡ shapeless → IsStored v
  is_garbage : v ≡ garbage → IsStored v

StoredCode-cases : (v : StoredCode) → IsStored v
StoredCode-cases (stored h e a) = is_stored h e a refl
StoredCode-cases shapeless = is_shapeless refl
StoredCode-cases garbage = is_garbage refl

module _ (env : Env) (id : ℕ) (ch : Channel) where
  claim_code_sound :
      (h : Text) (db db' : Db)
      → claim_code env id ch h db ≡ (ok verified, db')
      → otp_of id ch db' ≡ none
  unfolding claim_code consume_script
  claim_code_sound h db db' e = ground (arith, otp_of-redis_del id ch (env.others 0 db))

  reject_code-ne-verified :
      (h : Text) (db db' : Db) → reject_code env id ch h db ≢ (ok verified, db')
  unfolding reject_code failure_script
  reject_code-ne-verified h db db' e = ground arith

  check_code_sound :
      (code h : Text) (t : ℕ) (db db' : Db)
      → check_code env id ch code h t db ≡ (ok verified, db')
      → (h ≡ env.hash_code code) × (db.clock < t) × (otp_of id ch db' ≡ none)
  unfolding check_code
  check_code_sound code h t db db' e = ground (
    arith,
    claim_code_sound h db db',
    reject_code-ne-verified h db db',
    eq_of_text_eq h (env.hash_code code),
  )

  -- A code is accepted only if a record for the key was stored whose hash is the code's and whose
  -- time has not run out; and then the record is gone.
  pub verify_sound :
      (code : Text) (db db' : Db)
      → verify_verification_code env id ch code db ≡ (ok verified, db')
      → (row : OtpRow) × (e : ℕ) × (a : ℕ) × (otp_of id ch db ≡ some row)
        × (row.value ≡ stored (env.hash_code code) e a)
        × (db.clock < e)
        × (otp_of id ch db' ≡ none)
  unfolding verify_verification_code
  verify_sound code db db' run = elim (Option-cases (otp_of id ch db)) [
    | inl missing ↦ absurd (ground arith)
    | inr (row, found) ↦ elim (StoredCode-cases row.value) [
      | is_shapeless shape ↦ absurd (ground arith)
      | is_garbage shape ↦ absurd (ground arith)
      | is_stored h e a shape ↦
          let checked : check_code env id ch code h e db ≡ (ok verified, db') = ground arith in
          let (same, live, gone) = check_code_sound code h e db db' checked in
          (row, e, a, found, rw shape (ap (λ x. stored x e a) same), live, gone)
    ]
  ]

  -- A record whose hash is not the one that was read, as after a resend, is left as it is, and the
  -- request answers "invalid", whether the old code was right or wrong.
  resend_survives :
      (code h h' : Text) (e e' a' : ℕ) (row : OtpRow) (db : Db)
      → db.clock < e
      → otp_of id ch (env.others 0 db) ≡ some row
      → row.value ≡ stored h' e' a'
      → text_eq h' h ≡ false
      → check_code env id ch code h e db ≡ (ok invalid, env.others 0 db)
  unfolding check_code claim_code reject_code consume_script failure_script
  resend_survives code h h' e e' a' row db live found shape changed = ground arith
