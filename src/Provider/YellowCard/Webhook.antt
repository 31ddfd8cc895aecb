-- ===== src/Provider/YellowCard/Webhook.antt =====
-- The webhook of the Yellow Card adapter: its signature, and the event that its body says. The raw
-- body that the event carries along, with the direction that its name says, is left out.
use ulmara_backend.Common.{
  Bool, Option, Text, [], false, if◌then◌else◌, none, not, or_else, some, text, text_eq, trim, true,
  ◌==◌, ◌||◌, ◌∷◌,
}
use ulmara_backend.World.{Result, TxStatus, err, failed, ok, thrown}
use ulmara_backend.Json.{Json, as_number, member, non_empty, null, text_at}
use ulmara_backend.Provider.{CanonicalEvent, Net, constant_time_equals}
use ulmara_backend.Provider.YellowCard.{YellowCardConfig, map_status, yellow_refuse}

-- `signYellowCardWebhook`
unfoldable pub sign_yellow_card_webhook : Net → (secret raw_body : Text) → Text
sign_yellow_card_webhook net secret raw_body = net.hmac_sha256_base64 secret raw_body

-- the second comparison, on the body printed again
unfoldable pub verify_reprinted : Net → YellowCardConfig → Text → Text → Bool
verify_reprinted net config raw_body signature = elim (net.parse_json raw_body) [
  | none ↦ false
  | some parsed ↦
      constant_time_equals (sign_yellow_card_webhook net config.secret_key (net.stringify parsed))
        signature
]

-- `verifyWebhookSignature`
unfoldable pub yellow_verify : Net → YellowCardConfig → Text → Option Text → Bool
yellow_verify net config raw_body none = false
yellow_verify net config raw_body (some []) = false
yellow_verify net config raw_body (some (c ∷ cs)) =
    constant_time_equals (sign_yellow_card_webhook net config.secret_key raw_body) (trim (c ∷ cs))
    || verify_reprinted net config raw_body (trim (c ∷ cs))

abbrev text_or : Text → Option Text → Text
text_or t none = t
text_or t (some u) = u

-- `event.split(".")[1]`: the text between the first and the second dot
unfoldable pub to_dot : Text → Text
to_dot [] = []
to_dot (c ∷ cs) = let rest = to_dot cs in if c == b'.' then [] else c ∷ rest

unfoldable pub second_part : Text → Option Text
second_part [] = none
second_part (c ∷ cs) = let rest = second_part cs in if c == b'.' then some (to_dot cs) else rest

abbrev is_failed : TxStatus → Bool
is_failed failed = true
is_failed _ = false

unfoldable pub yellow_event : Json → Text → CanonicalEvent
yellow_event parsed event = record {
  type = event;
  reference = text_or [] (text_at (text "sequenceId") parsed);
  status = map_status (or_else (text_at (text "status") parsed) (second_part event));
  amount_ngn = as_number (member (text "localAmount") parsed);
  provider_reference = text_at (text "id") parsed;
  failure_reason =
      if is_failed (map_status (text_at (text "status") parsed))
      then or_else (text_at (text "errorCode") parsed) (text_at (text "error") parsed)
      else none;
  event_id =
      text_or event (or_else (text_at (text "id") parsed) (text_at (text "sequenceId") parsed));
}

-- `parsed.apiKey && parsed.apiKey !== config.apiKey`
unfoldable pub names_other_key : YellowCardConfig → Json → Bool
names_other_key config parsed = elim (non_empty (text_at (text "apiKey") parsed)) [
  | none ↦ false
  | some key ↦ not (text_eq key config.api_key)
]

-- `parseWebhook` after `JSON.parse`
unfoldable pub read_yellow_event : YellowCardConfig → Json → Result CanonicalEvent
read_yellow_event config null = err (thrown (text "Cannot read properties of null"))
read_yellow_event config parsed =
    let named : Result CanonicalEvent = elim (non_empty (text_at (text "event") parsed)) [
      | none ↦
          yellow_refuse (text "invalid_payload")
            (text "Yellow Card webhook is missing the `event` field") none
      | some event ↦ ok (yellow_event parsed event)
    ] in
    let mismatch = text "Yellow Card webhook apiKey does not match ours" in
    if names_other_key config parsed
    then yellow_refuse (text "api_key_mismatch") mismatch none
    else named

-- `parseWebhook`
unfoldable pub yellow_parse_webhook : Net → YellowCardConfig → Text → Result CanonicalEvent
yellow_parse_webhook net config raw_body = elim (net.parse_json raw_body) [
  | none ↦
      yellow_refuse (text "invalid_payload") (text "Yellow Card webhook body is not valid JSON")
        none
  | some parsed ↦ read_yellow_event config parsed
]
