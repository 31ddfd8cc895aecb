-- ===== src/Auth/Tests.antt =====
-- Runs of the PIN operations and the sessions on concrete states.
use ulmara_backend.Common.{
  [], all_digits, false, find_where, ltb, none, refl, some, text_eq, ℕ, ◌<◌, ◌∷◌, ◌≡◌,
}
use ulmara_backend.World.{Db, OtpRow, Session, email_channel, stored}
use ulmara_backend.Auth.{TokenCheck, claims, has_token, require_auth}
use ulmara_backend.Auth.Access.{submit_code, verify_email, write_verified}
use ulmara_backend.Auth.Access.Verified.{verify_email_sound}
use ulmara_backend.Auth.Sessions.{require_auth_sound}
use ulmara_backend.Otp.{check_code, claim_code, consume_script, otp_of, verify_verification_code}
use ulmara_backend.Sample.{ada, pin_digits, sample_db, sample_env}

abbrev sample_verify : ℕ → TokenCheck
sample_verify token = claims 1

require_auth_sound_example :
    (s : Session) × (find_where (has_token 500) sample_db.sessions ≡ some s)
    × (sample_verify 500 ≡ claims 1)
    × (s.user_id ≡ 1)
    × (ltb s.expires_at 1000 ≡ false)
unfolding require_auth find_where
require_auth_sound_example = require_auth_sound sample_verify 500 1 sample_db sample_db refl

abbrev unverified_db : Db
unverified_db = record sample_db {
  users = record ada { email_verified = false } ∷ [];
  otps =
      record { user_id = 1; channel = email_channel; value = stored pin_digits 3000 0; ttl = 60 }
      ∷ [];
}

verify_email_sound_example :
    (row : OtpRow) × (e : ℕ) × (a : ℕ) × (otp_of 1 email_channel unverified_db ≡ some row)
    × (row.value ≡ stored pin_digits e a)
    × (1000 < e)
    × (otp_of 1 email_channel (verify_email sample_env 1 pin_digits unverified_db).1 ≡ none)
unfolding verify_email find_where submit_code verify_verification_code all_digits check_code text_eq
    claim_code consume_script write_verified
verify_email_sound_example =
    verify_email_sound sample_env 1 pin_digits (record ada { email_verified = false }) unverified_db
      (verify_email sample_env 1 pin_digits unverified_db).1 refl refl refl
