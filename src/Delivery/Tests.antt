-- ===== src/Delivery/Tests.antt =====
-- Runs of the webhook controller on concrete deliveries.
use ulmara_backend.Common.{
  Text, [], find_where, if◌then◌else◌, inl, lookup, lower, none, refl, some, text, text_eq, trim,
  true, ℕ, ◌∷◌, ◌≡◌, ◌⊎◌,
}
use ulmara_backend.World.{Db, Result, completed, ok}
use ulmara_backend.Delivery.{
  Answer, Inbound, accepted, header_value, raw_of, signature_valid, single, unsigned, webhook,
}
use ulmara_backend.Delivery.Applied.{webhook_applied, webhook_bitnob_signed}
use ulmara_backend.Delivery.Repeated.{webhook_repeated}
use ulmara_backend.Json.{Json, field, find_field, no_fields, object, string, text_at}
use ulmara_backend.Provider.{CanonicalEvent, Net, RampProvider, constant_time_equals, timed_out}
use ulmara_backend.Provider.Bitnob.{map_payout_status}
use ulmara_backend.Provider.Bitnob.Webhook.{
  bitnob_parse_webhook, bitnob_verify, event_of, read_event, reason_of, reference_of,
  sign_bitnob_webhook, status_of_event,
}
use ulmara_backend.Provider.Select.{
  Settings, bitnob_provider, build_provider, create_bitnob_provider, get_ramp_provider,
  get_ramp_webhook_signature_header,
}
use ulmara_backend.Ramp.{find_ramp, rank}
use ulmara_backend.Ramp.Webhook.{applied, duplicate, ignored}
use ulmara_backend.Ramp.Webhook.Applied.{status_of}
use ulmara_backend.Sample.{open_deposit, quiet_sample, sample_db, sample_env}

-- what `JSON.parse` says of the delivery's body
abbrev success_json : Json
success_json = object (
    field (text "event") (string (text "charge.success")) (
      field (text "event_id") (string (text "e1")) (
        field (text "data") (object (field (text "reference") (string (text "dep")) no_fields))
          no_fields)))

abbrev success_body : Text
success_body = text "body"

-- the digest of every text
abbrev digest : Text
digest = text "ab"

abbrev test_net : Net
test_net = record {
  fetch = λ log r. timed_out;
  parse_json = λ t. if text_eq t success_body then some success_json else none;
  stringify = λ j. [];
  hmac_sha256 = λ s t. digest;
  hmac_sha512 = λ s t. digest;
  hmac_sha256_base64 = λ s t. digest;
  sha256_base64 = λ t. digest;
  now_seconds = [];
  now_iso = [];
  nonce = λ log. [];
  encode_uri = λ t. t;
  to_number = λ t. t;
}

abbrev test_settings : Settings
test_settings = record {
  ramp_provider = text "bitnob";
  bitnob_config = record {
    client_id = text "id";
    client_secret = text "cs";
    webhook_secret = text "ws";
    base_url = [];
  };
  yellow_card_config = record { api_key = []; secret_key = []; base_url = [] };
}

abbrev test_key : Text → ℕ
test_key t = if text_eq t (text "dep") then 600 else 7

-- signed, with a digest in upper case and spaces around it
abbrev signed_delivery : Inbound
signed_delivery = record {
  raw_body = some success_body;
  json_body = none;
  headers = (text "x-bitnob-signature", single (text " AB ")) ∷ [];
}

abbrev success_event : CanonicalEvent
success_event = record {
  type = text "charge.success";
  reference = text "dep";
  status = completed;
  amount_ngn = none;
  provider_reference = none;
  failure_reason = none;
  event_id = text "e1";
}

abbrev deliver : Db → Result Answer × Db
deliver = webhook test_net test_settings test_key sample_env none signed_delivery

abbrev test_bitnob : RampProvider
test_bitnob = bitnob_provider test_net test_settings.bitnob_config

test_built : (get_ramp_provider test_net test_settings none).0 ≡ ok test_bitnob
unfolding get_ramp_provider build_provider create_bitnob_provider text text_eq
test_built = refl

test_valid : signature_valid test_net test_settings signed_delivery (ok test_bitnob) ≡ true
unfolding signature_valid bitnob_provider bitnob_verify raw_of header_value lookup
    get_ramp_webhook_signature_header text text_eq sign_bitnob_webhook constant_time_equals lower
    trim
test_valid = refl

test_parsed : test_bitnob.parse_webhook (raw_of test_net signed_delivery) ≡ ok success_event
unfolding bitnob_provider bitnob_parse_webhook raw_of read_event text text_eq text_at find_field
    event_of status_of_event lookup reference_of reason_of map_payout_status
test_parsed = refl

webhook_repeated_example :
    deliver (deliver sample_db).1 ≡ (ok (accepted (ignored duplicate)), (deliver sample_db).1)
unfolding text
webhook_repeated_example =
    webhook_repeated test_net test_settings test_key sample_env success_event none signed_delivery
      test_bitnob sample_db test_built test_valid test_parsed refl (λ k db. refl)

webhook_applied_example :
    ((deliver sample_db).0 ≡ ok (accepted applied))
    × (status_of 600 (deliver sample_db).1 ≡ some completed)
unfolding text find_where find_ramp text_eq rank
webhook_applied_example =
    webhook_applied test_net test_settings test_key sample_env success_event none signed_delivery
      test_bitnob open_deposit sample_db test_built test_valid test_parsed refl quiet_sample refl
      refl refl

webhook_bitnob_signed_example :
    (deliver sample_db ≡ (ok unsigned, sample_db))
    ⊎ ((s : Text) × (header_value signed_delivery (text "x-bitnob-signature") ≡ some s)
        × (digest ≡ lower (trim s)))
unfolding text_eq text
webhook_bitnob_signed_example =
    webhook_bitnob_signed test_net test_settings test_key sample_env none signed_delivery sample_db
      refl (inl refl)
