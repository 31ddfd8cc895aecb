-- ===== src/Provider/Bitnob.antt =====
-- src/services/ramp/providers/bitnob.provider.ts: the tables of statuses, the signed requests, and
-- the operations of the adapter. The fields of an answer have the types of the source's interfaces:
-- one of another type is read as missing.
pub mod Operations
pub mod Status
pub mod Paging
pub mod Webhook
use ulmara_backend.Common.{
  Bool, List, Option, Text, [], false, if◌then◌else◌, lookup, none, not, show_ℕ, some, text, true,
  upper, ℕ, ◌++◌, ◌||◌, ◌∷◌,
}
use ulmara_backend.World.{
  Result, TxStatus, completed, err, failed, ok, pending, processing, provider_failed,
}
use ulmara_backend.Json.{Json, boolean, is_null, member, string}
use ulmara_backend.Provider.{
  Calls, Net, Reply, Request, get_verb, is_success, network_error, parsed_body, post_verb,
  provider_error_message, response, send_request, timed_out, without_slash,
}

-- `PAYOUT_STATUS_MAP`
abbrev payout_status_map : List (Text × TxStatus)
payout_status_map =
    (text "QUOTE", pending)
    ∷ (text "INITIATED", pending)
    ∷ (text "PENDING", pending)
    ∷ (text "PROCESSING", processing)
    ∷ (text "COMPLETED", completed)
    ∷ (text "SUCCESS", completed)
    ∷ (text "FAILED", failed)
    ∷ (text "EXPIRED", failed)
    ∷ []

-- `mapPayoutStatus`
unfoldable pub map_payout_status : Option Text → TxStatus
map_payout_status none = pending
map_payout_status (some []) = pending
map_payout_status (some (c ∷ cs)) = elim (lookup (upper (c ∷ cs)) payout_status_map) [
  | none ↦ pending
  | some s ↦ s
]

pub record BitnobConfig : Type 0 where
  pub client_id : Text
  pub client_secret : Text
  pub webhook_secret : Text
  pub base_url : Text

abbrev colon : Text
colon = text ":"

-- what the request's signature covers
unfoldable pub canonical : BitnobConfig → (timestamp nonce body : Text) → Text
canonical config timestamp nonce body =
    config.client_id ++ (colon ++ (timestamp ++ (colon ++ (nonce ++ (colon ++ body)))))

-- `buildBitnobAuthHeaders`
unfoldable pub build_bitnob_auth_headers :
    Net → BitnobConfig → List Request → Text → List (Text × Text)
build_bitnob_auth_headers net config log body =
    (text "content-type", text "application/json")
    ∷ (text "X-Auth-Client", config.client_id)
    ∷ (text "X-Auth-Timestamp", net.now_seconds)
    ∷ (text "X-Auth-Nonce", net.nonce log)
    ∷ (
      text "X-Auth-Signature",
      net.hmac_sha256 config.client_secret (canonical config net.now_seconds (net.nonce log) body),
    )
    ∷ []

abbrev refuse : {A : Type 0} → Text → Text → Option ℕ → Result A
refuse failure message status = err (provider_failed (text "bitnob") failure message status)

abbrev described : Text → Text → Text → Text
described verb path tail = text "Bitnob " ++ (verb ++ (text " " ++ (path ++ tail)))

-- `parsed?.success === false`
abbrev says_failure : Option Json → Bool
says_failure (some (boolean false)) = true
says_failure _ = false

-- `if (parsed?.data === undefined)`
abbrev envelope_data : Text → Text → Option Json → Result Json
envelope_data verb path none =
    refuse (text "invalid_response") (described verb path (text " returned no data envelope")) none
envelope_data verb path (some data_field) = ok data_field

-- the body of `request` after the response
unfoldable pub read_reply : Net → (verb path : Text) → Reply → Result Json
read_reply net verb path timed_out =
    refuse (text "timeout") (described verb path (text " failed (timeout)")) none
read_reply net verb path network_error =
    refuse (text "network_error") (described verb path (text " failed (network_error)")) none
read_reply net verb path (response status body) =
    let parsed = parsed_body net body in
    let shown = if is_null parsed then string body else parsed in
    if not (is_success status) || says_failure (member (text "success") parsed)
    then refuse (text "api_error")
        (provider_error_message shown
          (described verb path (text " failed with status " ++ show_ℕ status)))
        (some status)
    else envelope_data verb path (member (text "data") parsed)

abbrev printed : Net → Option Json → Text
printed net none = []
printed net (some body) = net.stringify body

abbrev verb_of : Option Json → Text
verb_of none = get_verb
verb_of (some body) = post_verb

module _ (net : Net) (config : BitnobConfig) where
  -- `request`: a GET, which has no body, or a POST
  unfoldable pub request : (path : Text) → Option Json → Calls Json
  request path body log =
      let verb = verb_of body in
      let asked : Request = record {
        url = without_slash config.base_url ++ path;
        verb = verb;
        headers = build_bitnob_auth_headers net config log (printed net body);
        body = elim body [ none ↦ none | some b ↦ some (net.stringify b) ];
      } in
      let (reply, log') = send_request net asked log in (read_reply net verb path reply, log')
