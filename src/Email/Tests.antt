-- ===== src/Email/Tests.antt =====
-- Runs of the mail services on concrete answers.
use mathlib.Core.Path.{refl}
use ulmara_backend.Common.{
  Bool, Text, [], false, first_chars, inl, join_words, lower, none, show_ℕ, some, text, text_eq,
  trim, true, words, ℕ, ◌++◌, ◌∷◌, ◌≡◌,
}
use ulmara_backend.Email.{
  EmailMessage, MailNet, MailSettings, post_request, read_posted, read_resend, resend_request,
  resend_send, truthy,
}
use ulmara_backend.Email.Accepted.{IsAccepted, try_send_email-IsAccepted}
use ulmara_backend.Email.Select.{
  LogLine, build_email_provider, create_resend_provider, create_ses_provider, email_send_failed,
  email_sent, get_email_provider, try_send_email,
}
use ulmara_backend.Email.Ses.{amz_date, canonical_headers, joined, read_ses, ses_send}
use ulmara_backend.Json.{Json, field, find_field, no_fields, object, string}
use ulmara_backend.Provider.{Request, response, without_slash}

-- the answer of a service that gives the message an id
abbrev accepted_answer : Json
accepted_answer = object (
    field (text "id") (string (text "m1"))
      (field (text "MessageId") (string (text "m2")) no_fields))

abbrev test_net : (status : ℕ) → MailNet
test_net status = record {
  fetch = λ log r. response status (text "x");
  parse_json = λ t. some accepted_answer;
  stringify = λ j. [];
  now_ms = λ log. text "7";
  now_iso = λ log. text "2026-01-02T03:04:05.678Z";
  sha256_hex = λ t. t;
  hmac_sha256 = λ k t. t;
  hmac_sha256_hex = λ k t. k;
}

abbrev test_settings : (service : Text) → MailSettings
test_settings service = record {
  email_provider = service;
  email_from = text "no-reply@ulmara.app";
  email_from_name = text "Ulmara";
  resend_api_key = some (text "re_key");
  sendgrid_api_key = none;
  sendgrid_from_email = none;
  ses_region = some (text "eu");
  ses_access_key_id = some (text "id");
  ses_secret_access_key = some (text "key");
}

abbrev test_message : EmailMessage
test_message = record {
  recipient = text "a@b.c";
  subject = text "Hello";
  html = text "<p>1</p>";
  plain = text "1";
}

abbrev answer_of : (status : ℕ) (service : Text) → Bool × LogLine
answer_of status service =
    (try_send_email (test_net status) (test_settings service) none test_message []).0

resend_run : answer_of 200 (text "resend") ≡ (true, email_sent (text "resend") (string (text "m1")))
unfolding try_send_email get_email_provider build_email_provider create_resend_provider resend_send
    read_resend read_posted resend_request post_request truthy text text_eq find_field without_slash
    first_chars show_ℕ
resend_run = refl

ses_run : answer_of 202 (text "ses") ≡ (true, email_sent (text "ses") (string (text "m2")))
unfolding try_send_email get_email_provider build_email_provider create_ses_provider ses_send
    read_ses truthy text text_eq find_field
ses_run = refl

rejected_run : answer_of 422 (text "resend") ≡ (
  false,
  email_send_failed (record {
    service = text "resend";
    code = text "send_failed";
    message = text "Resend rejected the message with status 422";
    status_code = some 422;
  }),
)
unfolding try_send_email get_email_provider build_email_provider create_resend_provider resend_send
    read_resend read_posted resend_request post_request truthy text text_eq find_field without_slash
    first_chars show_ℕ
rejected_run = refl

no_key_run : (answer_of 200 (text "sendgrid")).0 ≡ false
unfolding try_send_email get_email_provider build_email_provider text text_eq
no_key_run = refl

date_run : amz_date (text "2026-01-02T03:04:05.678Z") ≡ text "20260102T030405Z"
unfolding amz_date text
date_run = refl

headers_run :
    canonical_headers ((text "Host", text " a  b ") ∷ (text "accept", text "x") ∷ [])
    ≡ (text "accept:x" ++ (10 ∷ (text "host:a b" ++ (10 ∷ []))), text "accept;host")
unfolding canonical_headers text lower trim words join_words joined
headers_run = refl

try_send_email-IsAccepted_example :
    (r : Request) × ((try_send_email
        (test_net 200)
        (test_settings (text "resend"))
        none
        test_message
        []).1.1
      ≡ r ∷ [])
    × IsAccepted ((test_net 200).fetch [] r)
unfolding try_send_email get_email_provider build_email_provider create_resend_provider resend_send
    read_resend read_posted resend_request post_request truthy text text_eq find_field without_slash
    first_chars show_ℕ
try_send_email-IsAccepted_example =
    try_send_email-IsAccepted (test_net 200) (test_settings (text "resend")) none test_message []
      (inl refl) refl
