-- ===== src/Provider/Tests.antt =====
-- Runs of the two adapters on concrete answers.
use ulmara_backend.Common.{Text, [], find_where, refl, some, text, text_eq, ℕ, ◌∷◌, ◌≡◌}
use ulmara_backend.World.{Env, failed}
use ulmara_backend.Json.{Json, array, field, find_field, no_fields, no_items, object}
use ulmara_backend.Provider.{Net, response}
use ulmara_backend.Provider.Bitnob.{BitnobConfig, read_reply, request}
use ulmara_backend.Provider.Bitnob.Status.{
  bitnob_get_status, find_listed, find_payout, listed, read_page,
}
use ulmara_backend.Provider.Reconciled.{reconcile_bitnob_deposit, reply_of}
use ulmara_backend.Ramp.{find_ramp}
use ulmara_backend.Ramp.Reconcile.{reconcile}
use ulmara_backend.Ramp.Webhook.Applied.{status_of}
use ulmara_backend.Sample.{open_deposit, sample_db, sample_env}

-- a page of the list of payouts that holds none
abbrev empty_page : Json
empty_page = object (field (text "data") (array no_items) no_fields)

abbrev answering : Json → Net
answering j = record {
  fetch = λ log r. response 200 (text "x");
  parse_json = λ t. some j;
  stringify = λ v. [];
  hmac_sha256 = λ s t. [];
  hmac_sha512 = λ s t. [];
  hmac_sha256_base64 = λ s t. [];
  sha256_base64 = λ t. [];
  now_seconds = [];
  now_iso = [];
  nonce = λ log. [];
  encode_uri = λ t. t;
  to_number = λ t. t;
}

abbrev bitnob_keys : BitnobConfig
bitnob_keys = record { client_id = []; client_secret = []; webhook_secret = []; base_url = [] }

abbrev test_name : ℕ → Text
test_name n = n ∷ []

abbrev bitnob_env : Env
bitnob_env = record sample_env {
  ramp_status =
      λ r. reply_of (bitnob_get_status (answering empty_page) bitnob_keys (test_name r) []).0;
}

reconcile_bitnob_deposit_example :
    status_of 600 (reconcile bitnob_env 600 sample_db).1 ≡ some failed
unfolding read_page request read_reply text find_field text_eq find_listed listed find_payout
    find_ramp find_where
reconcile_bitnob_deposit_example =
    reconcile_bitnob_deposit (answering empty_page) bitnob_keys test_name [] bitnob_env 600
      open_deposit sample_db (λ r. refl) (λ page l. refl) (λ k db. refl) refl refl refl refl
