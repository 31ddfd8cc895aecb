-- ===== src/Provider/Bitnob/Webhook.antt =====
-- The webhook of the Bitnob adapter: its signature, and the event that its body says.
use mathlib.Core.Option
use ulmara_backend.Common.{
  Bool, List, Option, Text, [], false, if◌then◌else◌, lookup, lower, none, or_else, some, text,
  trim, true, upper, ◌++◌, ◌∷◌,
}
use ulmara_backend.World.{
  Result, TxStatus, completed, err, failed, ok, pending, processing, provider_failed, thrown,
}
use ulmara_backend.Json.{Json, member, no_fields, non_empty, null, object, text_at}
use ulmara_backend.Provider.{CanonicalEvent, Net, constant_time_equals}
use ulmara_backend.Provider.Bitnob.{BitnobConfig, map_payout_status}

-- `PAYOUT_EVENT_MAP`
abbrev payout_event_map : List (Text × TxStatus)
payout_event_map =
    (text "payouts.initialized", pending)
    ∷ (text "payouts.processing", processing)
    ∷ (text "payouts.withdrawal.success", completed)
    ∷ (text "payouts.withdrawal.expired", failed)
    ∷ (text "payout.transfer.success", completed)
    ∷ (text "payout.transfer.failed", failed)
    ∷ (text "payout.initiated", pending)
    ∷ (text "payout.processing", processing)
    ∷ []

-- `DEPOSIT_EVENT_MAP`
abbrev deposit_event_map : List (Text × TxStatus)
deposit_event_map =
    (text "transaction.successful", completed)
    ∷ (text "charge.success", completed)
    ∷ (text "transaction.success", completed)
    ∷ (text "virtualaccount.receive.success", completed)
    ∷ (text "transaction.failed", failed)
    ∷ (text "charge.failed", failed)
    ∷ (text "virtualaccount.receive.failed", failed)
    ∷ (text "transaction.pending", pending)
    ∷ (text "transaction.processing", processing)
    ∷ []

-- `signBitnobWebhook`
unfoldable pub sign_bitnob_webhook : Net → (secret raw_body : Text) → Text
sign_bitnob_webhook net secret raw_body = net.hmac_sha512 secret raw_body

-- `verifyWebhookSignature`
unfoldable pub bitnob_verify : Net → BitnobConfig → Text → Option Text → Bool
bitnob_verify net config raw_body none = false
bitnob_verify net config raw_body (some []) = false
bitnob_verify net config raw_body (some (c ∷ cs)) =
    constant_time_equals (sign_bitnob_webhook net config.webhook_secret raw_body)
      (lower (trim (c ∷ cs)))

abbrev invalid : {A : Type 0} → Text → Result A
invalid message = err (provider_failed (text "bitnob") (text "invalid_payload") message none)

abbrev with_default : {A : Type 0} → A → Option A → A
with_default a none = a
with_default a (some b) = b

-- `PAYOUT_EVENT_MAP[event] ?? DEPOSIT_EVENT_MAP[event] ?? mapPayoutStatus(...)`
unfoldable pub status_of_event : Text → Json → TxStatus
status_of_event event body =
    with_default (map_payout_status (Option.map upper (text_at (text "status") body)))
      (or_else (lookup event payout_event_map) (lookup event deposit_event_map))

-- `data.reference`, if it is a text that is not empty, or else `data.order_id`, or else ""
unfoldable pub reference_of : Json → Text
reference_of body =
    with_default []
      (or_else (non_empty (text_at (text "reference") body)) (text_at (text "order_id") body))

abbrev is_failed : TxStatus → Bool
is_failed failed = true
is_failed _ = false

unfoldable pub reason_of : TxStatus → Json → Option Text
reason_of status body =
    let told = text_at (text "failure_reason") body in
    if is_failed status then or_else (text_at (text "payment_reason") body) told else told

unfoldable pub event_of : Json → Text → Json → CanonicalEvent
event_of parsed event body = record {
  type = event;
  reference = reference_of body;
  status = status_of_event event body;
  amount_ngn = text_at (text "settlement_amount") body;
  provider_reference = text_at (text "id") body;
  failure_reason = reason_of (status_of_event event body) body;
  event_id =
      with_default (event ++ (text ":" ++ reference_of body)) (text_at (text "event_id") parsed);
}

-- `parsed.data ?? {}`
abbrev data_of : Json → Json
data_of parsed = with_default (object no_fields) (member (text "data") parsed)

-- `parseWebhook` after `JSON.parse`
unfoldable pub read_event : Json → Result CanonicalEvent
read_event null = err (thrown (text "Cannot read properties of null"))
read_event parsed = elim (non_empty (text_at (text "event") parsed)) [
  | none ↦ invalid (text "Bitnob webhook is missing the `event` field")
  | some event ↦ ok (event_of parsed event (data_of parsed))
]

-- `parseWebhook`
unfoldable pub bitnob_parse_webhook : Net → Text → Result CanonicalEvent
bitnob_parse_webhook net raw_body = elim (net.parse_json raw_body) [
  | none ↦ invalid (text "Bitnob webhook body is not valid JSON")
  | some parsed ↦ read_event parsed
]
