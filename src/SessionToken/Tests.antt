-- ===== src/SessionToken/Tests.antt =====
-- Runs of the check of session tokens.
use ulmara_backend.Common.{[], if◌then◌else◌, none, refl, some, text, text_eq, ◌≡◌, ◌⊎◌}
use ulmara_backend.SessionToken.{
  Jwt, Keys, accepted, claims_payload, in_window, previous_secret_active, read_claims, read_current,
  read_previous, try_previous, unreadable, verify_session_token,
}
use ulmara_backend.SessionToken.Rotation.{
  IsPrevious, rotated, verify_session_token-rotated, verify_session_token_sound,
}

-- A token is valid under the secret that it equals, for the user "u".
abbrev test_jwt : Jwt
test_jwt = record {
  verify = λ now token secret.
      if text_eq token secret then claims_payload (some (text "u")) else unreadable;
  sign = λ now user jti secret expires_in. secret;
  time_of = λ t. some 100;
}

abbrev test_keys : Keys
test_keys = record {
  jwt_secret = text "old";
  previous_secret = none;
  retire_at = none;
  expires_in = text "7d";
}

verify_session_token-rotated_example :
    verify_session_token test_jwt (rotated test_keys (text "new") (text "date")) 50 (text "old")
    ≡ accepted (text "u")
unfolding text text_eq
verify_session_token-rotated_example =
    verify_session_token-rotated test_jwt test_keys (text "new") (text "date") 100 50 b'u' []
      (text "old") refl refl refl refl refl

verify_session_token_sound_example :
    (test_jwt.verify 50 (text "old") (text "new") ≡ claims_payload (some (text "u")))
    ⊎ IsPrevious test_jwt (rotated test_keys (text "new") (text "date")) 50 (text "old") (text "u")
unfolding verify_session_token read_current text_eq text try_previous previous_secret_active
    in_window read_previous read_claims
verify_session_token_sound_example =
    verify_session_token_sound test_jwt (rotated test_keys (text "new") (text "date")) 50
      (text "old") (text "u") refl
