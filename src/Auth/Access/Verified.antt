-- ===== src/Auth/Access/Verified.antt =====
-- An email address is verified only by a code that was issued for it.
use ulmara_backend.Common.{
  Option-cases, Text, arith, false, find_where, inl, inr, lower, none, some, trim, true, ℕ, ◌<◌,
  ◌≡◌,
}
use ulmara_backend.World.{Db, Env, OtpRow, User, email_channel, ok, stored}
use ulmara_backend.Auth.{claims, require_auth}
use ulmara_backend.Auth.Access.{has_email, login, submit_code, verify_email, write_verified}
use ulmara_backend.Lockout.{user_of}
use ulmara_backend.Otp.{otp_of, verified, verify_verification_code}
use ulmara_backend.Otp.Verify.{verify_sound}

-- An email verification that answers for an address that was not verified found a stored record for
-- the user's email whose hash is the code's and whose time had not run out; and then no record for the
-- user's email is left.
pub verify_email_sound :
    (env : Env) (id : ℕ) (code : Text) (u : User) (db db' : Db)
    → verify_email env id code db ≡ (ok tt, db')
    → user_of id db ≡ some u
    → u.email_verified ≡ false
    → (row : OtpRow) × (e : ℕ) × (a : ℕ) × (otp_of id email_channel db ≡ some row)
      × (row.value ≡ stored (env.hash_code code) e a)
      × (db.clock < e)
      × (otp_of id email_channel db' ≡ none)
unfolding verify_email submit_code write_verified
verify_email_sound env id code u db db' e found unverified =
    let accepted : verify_verification_code env id email_channel code db
        ≡ (ok verified, (verify_verification_code env id email_channel code db).1) =
      ground arith in
    let (row, e', a, held, same, live, gone) =
      verify_sound env id email_channel code db _ accepted in
    (row, e', a, held, same, live, ground (arith, gone))

-- A login that answers was given the password of the user with that email, and the token that it
-- opened is then admitted for that user.
login_sound :
    (env : Env) (email password : Text) (token : ℕ) (u : User) (db db' : Db)
    → login env email password token db ≡ (ok u, db')
    → (find_where (has_email (lower (trim email))) db.users ≡ some u)
      × (env.compare_hash password u.password_hash ≡ true)
      × (require_auth (λ t. claims u.id) (some token) db' ≡ (ok u.id, db'))
unfolding login require_auth find_where
login_sound env email password token u db db' e =
    elim (Option-cases (find_where (has_email (lower (trim email))) db.users)) [
      | inl missing ↦ absurd (ground arith)
      | inr (v, found) ↦ (ground arith, ground arith, ground arith)
    ]
