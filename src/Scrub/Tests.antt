-- ===== src/Scrub/Tests.antt =====
-- Runs of the scrubber on concrete payloads.
use ulmara_backend.Common.{[], none, refl, starts_with, text, true, ◌++◌, ◌≡◌, ◌⊎◌}
use ulmara_backend.Scrub.{
  Payload, error_value, match_credential, match_user, no_properties, object_value, property, redact,
  redact_text, scrub_sentry_event, span, text_value,
}
use ulmara_backend.Scrub.Clean.{has_error, is_clean, is_short, scrub_sentry_event-clean}
use ulmara_backend.Scrub.Credential.{redact_credential}

abbrev login_payload : Payload
login_payload = object_value (
    property (text "userPin") (text_value (text "123456"))
      (property (text "cause") (error_value (text "Error") (text "pg://u:p@h") none) no_properties))

scrub_sentry_event-clean_example :
    (is_clean (scrub_sentry_event login_payload) ≡ true)
    × ((has_error login_payload ≡ true) ⊎ (is_short (scrub_sentry_event login_payload) ≡ true))
scrub_sentry_event-clean_example = scrub_sentry_event-clean login_payload

redact_credential_example :
    redact_text (text "pg://u:p@h")
    ≡ (text "pg" ++ (text "://" ++ (text "u" ++ (text ":" ++ (text "[redacted]" ++ text "@")))))
      ++ redact_text (text "h")
unfolding text
redact_credential_example =
    redact_credential b'p' (text "g") b'u' [] (text "p") (text "h") refl (refl, tt) (refl, tt)
      (refl, tt)

redact_run : redact_text (text "pg://u:p@h") ≡ text "pg://u:[redacted]@h"
unfolding text redact_text redact match_credential match_user span starts_with
redact_run = refl
