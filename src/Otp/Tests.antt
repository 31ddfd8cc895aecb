-- ===== src/Otp/Tests.antt =====
-- Runs of the verification codes on concrete states.
use ulmara_backend.Common.{
  All, List, Text, [], all_digits, arith, find_where, none, refl, some, text_eq, ℕ, ◌<◌, ◌∷◌, ◌≡◌,
}
use ulmara_backend.World.{Db, OtpRow, email_channel, ok, stored}
use ulmara_backend.Otp.{
  check_code, claim_code, consume_script, create_verification_code, no_code, otp_of, verified,
  verify_verification_code,
}
use ulmara_backend.Otp.Budget.{IsWrong, submissions, tries, verify-create, wrong_codes_discard}
use ulmara_backend.Otp.Verify.{verify_sound}
use ulmara_backend.Sample.{other_digits, pin_digits, quiet_sample, sample_db, sample_env}

abbrev code_row : OtpRow
code_row = record {
  user_id = 1;
  channel = email_channel;
  value = stored pin_digits 3000 0;
  ttl = 60;
}

abbrev coded_db : Db
coded_db = record sample_db { otps = code_row ∷ [] }

abbrev claimed_db : Db
claimed_db = (verify_verification_code sample_env 1 email_channel pin_digits coded_db).1

verify_sound_example :
    (row : OtpRow) × (e : ℕ) × (a : ℕ) × (otp_of 1 email_channel coded_db ≡ some row)
    × (row.value ≡ stored pin_digits e a)
    × (1000 < e)
    × (otp_of 1 email_channel claimed_db ≡ none)
unfolding verify_verification_code all_digits find_where check_code text_eq claim_code
    consume_script
verify_sound_example = verify_sound sample_env 1 email_channel pin_digits coded_db claimed_db refl

positive_ttl : 0 < 60
positive_ttl = omega arith

abbrev guess : Text
guess = 49 ∷ 49 ∷ 49 ∷ 49 ∷ 49 ∷ 49 ∷ []

abbrev guesses : List Text
guesses = guess ∷ other_digits ∷ []

guesses-IsWrong :
    All
      (IsWrong sample_env quiet_sample 1 email_channel pin_digits 3000 60 positive_ttl)
      (other_digits ∷ guesses)
unfolding all_digits text_eq
guesses-IsWrong = ((refl, refl), ((refl, refl), ((refl, refl), tt)))

wrong_codes_discard_example :
    otp_of 1 email_channel (
      submissions sample_env quiet_sample 1 email_channel pin_digits 3000 60 positive_ttl
        (other_digits ∷ guesses)
        coded_db)
    ≡ none
unfolding find_where tries
wrong_codes_discard_example =
    wrong_codes_discard sample_env quiet_sample 1 email_channel pin_digits 3000 60 positive_ttl
      other_digits guesses 0 coded_db guesses-IsWrong (omega arith) refl refl

abbrev issued_db : Db
issued_db = (create_verification_code sample_env 1 email_channel pin_digits sample_db).1

verify-create_example :
    let run = verify_verification_code sample_env 1 email_channel pin_digits issued_db in
    (run.0 ≡ ok verified)
    × (otp_of 1 email_channel run.1 ≡ none)
    × (verify_verification_code sample_env 1 email_channel pin_digits run.1 ≡ (ok no_code, run.1))
unfolding all_digits
verify-create_example =
    verify-create sample_env quiet_sample 1 email_channel pin_digits sample_db refl (omega arith)
