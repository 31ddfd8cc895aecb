-- ===== src/Delivery.antt =====
-- src/controllers/ramp.controller.ts, `webhook`: a provider's delivery is checked against the raw
-- body before it is parsed, and parsed before it is applied. The ids that a provider writes as texts
-- are numbers in the ledger; `key` is the parameter that says which. The header of the address and
-- log lines are left out.
pub mod Checked
pub mod Repeated
pub mod Applied
mod Tests
use mathlib.Core.Option
use ulmara_backend.Common.{
  Bool, List, Option, Text, [], false, if◌then◌else◌, is_empty, lookup, none, some, text, true, ℕ,
  ◌∷◌,
}
use ulmara_backend.World.{Env, Error, M, Result, catch, err, ok, pure, ◌>>=◌}
use ulmara_backend.Json.{Json, no_fields, object}
use ulmara_backend.Provider.{CanonicalEvent, Net, RampProvider}
use ulmara_backend.Provider.Select.{Settings, get_ramp_provider, get_ramp_webhook_signature_header}
use ulmara_backend.Ramp.Webhook.{RampEvent, WebhookResult, handle_webhook}

-- a value of `request.headers`
pub data Header : Type 0 where
  single : Text → Header
  several : List Text → Header

pub record Inbound : Type 0 where
  pub raw_body : Option Text
  pub json_body : Option Json
  pub headers : List (Text × Header)

-- `headerValue`
unfoldable pub header_value : Inbound → Text → Option Text
header_value inbound name = elim (lookup name inbound.headers) [
  | none ↦ none
  | some (single t) ↦ some t
  | some (several []) ↦ none
  | some (several (t ∷ ts)) ↦ some t
]

-- `request.rawBody ?? Buffer.from(JSON.stringify(request.body ?? {}))`
unfoldable pub raw_of : Net → Inbound → Text
raw_of net inbound = elim inbound.raw_body [
  | some raw ↦ raw
  | none ↦ net.stringify (elim inbound.json_body [ none ↦ object no_fields | some b ↦ b ])
]

pub data Content : Type 0 where
  refused : Text → Content
  handled : WebhookResult → Content

pub record Answer : Type 0 where
  pub code : ℕ
  pub content : Content

abbrev pub unsigned : Answer
unsigned = record { code = 401; content = refused (text "Invalid signature") }

abbrev unparseable : Answer
unparseable = record { code = 400; content = refused (text "Unsupported webhook payload") }

abbrev broken : Answer
broken = record { code = 500; content = refused (text "Webhook processing failed") }

abbrev pub accepted : WebhookResult → Answer
accepted r = record { code = 200; content = handled r }

-- a provider's event as the service takes it
unfoldable pub to_ramp_event : (Text → ℕ) → CanonicalEvent → RampEvent
to_ramp_event key e = record {
  event_id = key e.event_id;
  event_reference = if is_empty e.reference then none else some (key e.reference);
  event_status = e.status;
  event_provider_reference = Option.map key e.provider_reference;
  event_failure = e.failure_reason;
  event_amount = e.amount_ngn;
}

-- the first `try`, where a throw is as good as an invalid signature
unfoldable pub signature_valid : Net → Settings → Inbound → Result RampProvider → Bool
signature_valid net settings inbound (err e) = false
signature_valid net settings inbound (ok p) =
    p.verify_webhook_signature (raw_of net inbound)
      (header_value inbound (get_ramp_webhook_signature_header settings))

module _ (net : Net) (settings : Settings) (key : Text → ℕ) (env : Env) where
  -- the last `try`
  unfoldable pub apply_parsed : CanonicalEvent → M Answer
  apply_parsed event =
      catch
        (handle_webhook env settings.ramp_provider (to_ramp_event key event) true >>= λ r.
          pure (accepted r))
        (λ (e : Error). pure broken)

  -- the second `try`, where `getRampProvider()` answers the provider that the first call kept
  unfoldable pub apply_raw : Text → Result RampProvider → M Answer
  apply_raw raw (err e) = pure unparseable
  apply_raw raw (ok p) = elim (p.parse_webhook raw) [
    | err e ↦ pure unparseable
    | ok event ↦ apply_parsed event
  ]

  -- `webhook`, with the module's provider as it is kept before
  unfoldable pub webhook : Option RampProvider → Inbound → M Answer
  webhook cached inbound =
      let (built, cached') = get_ramp_provider net settings cached in
      let again = get_ramp_provider net settings cached' in
      if signature_valid net settings inbound built
      then apply_raw (raw_of net inbound) again.0
      else pure unsigned
