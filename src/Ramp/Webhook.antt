-- ===== src/Ramp/Webhook.antt =====
-- `handleWebhook`: an event is recorded under its provider and id, and then applied to the row that
-- it names unless it would move the row's status backwards.
pub mod Once
pub mod Applied
use ulmara_backend.Common.{
  Bool, Option, Text, exists_where, if◌then◌else◌, leb, none, or_else, some, text, text_eq,
  update_where, ℕ, ◌&&◌, ◌==◌, ◌∷◌,
}
use ulmara_backend.World.{
  Env, Error, M, RampTx, Result, TxStatus, WebhookRow, await_others, err, failed, gets, modify, ok,
  pure, throw, unique_violation, ⊤, ◌>>=◌, ◌>>◌,
}
use ulmara_backend.Ramp.{find_ramp, rank, update_ramp}

pub record RampEvent : Type 0 where
  pub event_id : ℕ
  pub event_reference : Option ℕ
  pub event_status : TxStatus
  pub event_provider_reference : Option ℕ
  pub event_failure : Option Text
  pub event_amount : Option Text

pub data Reason : Type 0 where
  no_reference duplicate unmatched_reference invalid_signature stale_status : Reason

pub data WebhookResult : Type 0 where
  applied : WebhookResult
  ignored : Reason → WebhookResult

abbrev pub same_event : Text → ℕ → WebhookRow → Bool
same_event provider event w = text_eq w.provider provider && w.event_id == event

-- `prisma.rampWebhookEvent.create`: provider and event id are unique together.
unfoldable pub record_event : Text → RampEvent → ℕ → Bool → M ⊤
record_event provider event reference valid db =
    let row : WebhookRow = record {
      provider = provider;
      event_id = event.event_id;
      reference = reference;
      signature_valid = valid;
      status = event.event_status;
      processed_at = none;
    } in
    if exists_where (same_event provider event.event_id) db.webhook_events
    then (err unique_violation, db)
    else (ok tt, record db { webhook_events = row ∷ db.webhook_events })

abbrev pub processed_now : ℕ → WebhookRow → WebhookRow
processed_now now w = record w { processed_at = some now }

unfoldable pub mark_processed : Text → ℕ → M ⊤
mark_processed provider event = modify λ db. record db {
  webhook_events =
      update_where (same_event provider event) (processed_now db.clock) db.webhook_events;
}

abbrev failure_of : TxStatus → Option Text → Option Text
failure_of failed held = some (text "The provider reported a failure")
failure_of _ held = held

-- the row after the event, where `t` is the row as it was read
unfoldable pub after_event : RampEvent → ℕ → RampTx → RampTx → RampTx
after_event event now t row = record row {
  status = event.event_status;
  provider_reference = or_else event.event_provider_reference t.provider_reference;
  failure_reason = or_else event.event_failure (failure_of event.event_status t.failure_reason);
  provider_status_raw = some event.event_status;
  last_synced_at = some now;
  provider_amount_ngn = or_else event.event_amount row.provider_amount_ngn;
}

-- The update of the row that was read as `t`.
unfoldable pub write_now : Text → RampEvent → RampTx → M WebhookResult
write_now provider event t db =
    (update_ramp t.id (after_event event db.clock t) >>= λ _.
    mark_processed provider event.event_id >>= λ _. pure applied)
      db

-- Other requests may run between the read of the row and its update.
unfoldable pub write_event : Env → Text → RampEvent → RampTx → M WebhookResult
write_event env provider event t = await_others env 0 >> write_now provider event t

-- The part after the signature check: `if (RANK[current] >= RANK[nextStatus])`.
unfoldable pub apply_event : Env → Text → RampEvent → RampTx → M WebhookResult
apply_event env provider event t =
    if leb (rank event.event_status) (rank t.status)
    then mark_processed provider event.event_id >> pure (ignored stale_status)
    else write_event env provider event t

-- The part after the event's insert.
unfoldable pub match_event : Env → Text → RampEvent → ℕ → Bool → M WebhookResult
match_event env provider event reference valid = do
  found ← gets (find_ramp reference)
  elim found [
    | none ↦ mark_processed provider event.event_id >> pure (ignored unmatched_reference)
    | some t ↦ if valid then apply_event env provider event t else pure (ignored invalid_signature)
  ]

-- `isUniqueConstraintViolation` answers "duplicate", and another error is thrown on.
abbrev pub refused : Error → M WebhookResult
refused unique_violation = pure (ignored duplicate)
refused e = throw e

abbrev recorded : Env → Text → RampEvent → ℕ → Bool → Result ⊤ → M WebhookResult
recorded env provider event reference valid (ok u) = match_event env provider event reference valid
recorded env provider event reference valid (err e) = refused e

-- `handleWebhook` on an event with a reference
unfoldable pub handle_named : Env → Text → RampEvent → Bool → ℕ → M WebhookResult
handle_named env provider event valid reference db =
    let (r, db') = record_event provider event reference valid db in
    recorded env provider event reference valid r db'

-- `handleWebhook`
unfoldable pub handle_webhook : Env → Text → RampEvent → Bool → M WebhookResult
handle_webhook env provider event valid = elim event.event_reference [
  | none ↦ pure (ignored no_reference)
  | some reference ↦ handle_named env provider event valid reference
]
