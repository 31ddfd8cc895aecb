-- ===== src/Otp/Budget.antt =====
-- The budget of wrong attempts on one code.
use ulmara_backend.Common.{
  All, List, Text, [], arith, false, none, refl, some, suc, text_eq, text_eq_refl, true, ℕ, ◌+◌,
  ◌<◌, ◌∷◌, ◌≡◌, ◌≤◌,
}
use ulmara_backend.World.{Channel, Db, Env, ok, stored}
use ulmara_backend.Otp.{
  attempts_exhausted, check_code, claim_code, consume_script, create_verification_code,
  failure_script, invalid, is_six_digits, no_code, otp_of, put_code, redis_del, reject_code,
  verified, verify_verification_code,
}
use ulmara_backend.Otp.Keys.{otp_of-put_code, otp_of-redis_del}

-- how many codes are submitted
unfoldable pub tries : List Text → ℕ
tries [] = 0
tries (code ∷ codes) = suc (tries codes)

module _ (env : Env) (quiet : (k : ℕ) (d : Db) → env.others k d ≡ d) (id : ℕ) (ch : Channel)
    (h : Text) (e ttl : ℕ) (lasting : 0 < ttl) where
  abbrev Holds : ℕ → Db → Type 0
  Holds a db =
      otp_of id ch db
      ≡ some (record { user_id = id; channel = ch; value = stored h e a; ttl = ttl })

  -- six digits that the record is not for
  abbrev pub IsWrong : Text → Type 0
  IsWrong code = (is_six_digits code ≡ true) × (text_eq h (env.hash_code code) ≡ false)

  -- A wrong code in time is counted while the budget lasts.
  wrong_code_counts :
      (code : Text) (a : ℕ) (db : Db)
      → IsWrong code
      → db.clock < e
      → Holds a db
      → a + 1 < env.otp_max_attempts
      → verify_verification_code env id ch code db
        ≡ (ok invalid, put_code id ch (stored h e (a + 1)) ttl db)
  unfolding verify_verification_code check_code reject_code failure_script
  wrong_code_counts code a db wrong live found room =
      ground (arith, wrong.0, wrong.1, quiet 0 db, text_eq_refl h)

  -- The wrong code that spends the budget discards the record.
  wrong_code_exhausts :
      (code : Text) (a : ℕ) (db : Db)
      → IsWrong code
      → db.clock < e
      → Holds a db
      → env.otp_max_attempts ≤ a + 1
      → verify_verification_code env id ch code db ≡ (ok attempts_exhausted, (redis_del id ch db).1)
  unfolding verify_verification_code check_code reject_code failure_script
  wrong_code_exhausts code a db wrong live found spent =
      ground (arith, wrong.0, wrong.1, quiet 0 db, text_eq_refl h)

  -- The state after the submission of each code.
  pub submissions : List Text → Db → Db
  submissions [] db = db
  submissions (code ∷ codes) db = submissions codes (verify_verification_code env id ch code db).1

  -- With no other request meanwhile, within the record's time and its Redis lifetime: any wrong codes,
  -- at least one, as many as are left in the budget, discard the record.
  pub wrong_codes_discard :
      (code : Text) (codes : List Text) (a : ℕ) (db : Db)
      → All IsWrong (code ∷ codes)
      → db.clock < e
      → Holds a db
      → a + tries (code ∷ codes) ≡ env.otp_max_attempts
      → otp_of id ch (submissions (code ∷ codes) db) ≡ none
  unfolding submissions tries
  wrong_codes_discard code [] a db wrong live found spent =
      rw (wrong_code_exhausts code a db wrong.0 live found (omega arith), submissions)
        (otp_of-redis_del id ch db)
  wrong_codes_discard code (next ∷ codes) a db wrong live found left =
      rw (wrong_code_counts code a db wrong.0 live found (omega arith), submissions)
        (wrong_codes_discard next codes (a + 1) (put_code id ch (stored h e (a + 1)) ttl db) wrong.1
          live (otp_of-put_code id ch (stored h e (a + 1)) ttl db) (omega arith))

issued_run :
    (env : Env)
    → ((k : ℕ) (d : Db) → env.others k d ≡ d)
    → (id : ℕ) (ch : Channel) (code : Text) (db : Db) → is_six_digits code ≡ true
    → 0 < env.code_ttl_ms
    → let issued = (create_verification_code env id ch code db).1 in
      verify_verification_code env id ch code issued ≡ (ok verified, (redis_del id ch issued).1)
unfolding create_verification_code verify_verification_code check_code claim_code consume_script
issued_run env quiet id ch code db six lasting =
    let h = env.hash_code code in
    let value = stored h (db.clock + env.code_ttl_ms) 0 in
    let issued = put_code id ch value env.retention_ttl db in
    ground (arith, otp_of-put_code id ch value env.retention_ttl db, text_eq_refl h, quiet 0 issued)

spent_run :
    (env : Env) (id : ℕ) (ch : Channel) (code : Text) (db : Db)
    → is_six_digits code ≡ true
    → otp_of id ch db ≡ none
    → verify_verification_code env id ch code db ≡ (ok no_code, db)
unfolding verify_verification_code
spent_run env id ch code db six missing = ground arith

-- With no other request meanwhile and a lifetime of codes that is not 0: a code that was just issued is
-- accepted if it is submitted at that time; then no record for the key is left, and the same code
-- submitted again answers that there is none and changes nothing.
pub verify-create :
    (env : Env)
    → ((k : ℕ) (d : Db) → env.others k d ≡ d)
    → (id : ℕ) (ch : Channel) (code : Text) (db : Db) → is_six_digits code ≡ true
    → 0 < env.code_ttl_ms
    → let issued = (create_verification_code env id ch code db).1 in
      let run = verify_verification_code env id ch code issued in
      (run.0 ≡ ok verified)
      × (otp_of id ch run.1 ≡ none)
      × (verify_verification_code env id ch code run.1 ≡ (ok no_code, run.1))
verify-create env quiet id ch code db six lasting =
    let issued = (create_verification_code env id ch code db).1 in
    let gone = otp_of-redis_del id ch issued in
    rw (issued_run env quiet id ch code db six lasting)
      (refl, gone, spent_run env id ch code (redis_del id ch issued).1 six gone)
