-- ===== src/Ramp/Webhook/Once.antt =====
-- `handleWebhook`: the unique pair of provider and event id makes a redelivery a no-op.
use mathlib.Core.Option
use ulmara_backend.Common.{
  Bool, Bool-cases, Option, Option-cases, Text, arith, exists_where, false, find_where,
  find_where-update_where, inl, inr, is_some, none, refl, some, text_eq_refl, true, ℕ, ◌≡◌,
}
use ulmara_backend.World.{Db, Env, RampTx, err, ok, unique_violation}
use ulmara_backend.Ramp.{find_ramp, update_ramp}
use ulmara_backend.Ramp.Webhook.{
  RampEvent, after_event, apply_event, duplicate, handle_named, handle_webhook, ignored,
  mark_processed, match_event, processed_now, record_event, same_event, write_event, write_now,
}

abbrev IsRecorded : Text → ℕ → Db → Type 0
IsRecorded provider event db = exists_where (same_event provider event) db.webhook_events ≡ true

-- The other requests of an environment leave the recorded events as they are.
abbrev pub KeepsEvents : Env → Type 0
KeepsEvents env = (k : ℕ) (db : Db) → (env.others k db).webhook_events ≡ db.webhook_events

is_some-map : {A : Type 0} (f : A → A) (o : Option A) → is_some (Option.map f o) ≡ is_some o
is_some-map f none = refl
is_some-map f (some a) = refl

mark_processed-IsRecorded :
    (provider : Text) (event : ℕ) (db : Db)
    → IsRecorded provider event db
    → IsRecorded provider event (mark_processed provider event db).1
unfolding mark_processed
mark_processed-IsRecorded provider event db h =
    rw
      (
        find_where-update_where (same_event provider event) (same_event provider event)
            (processed_now db.clock) (λ w. refl) db.webhook_events,
        is_some-map,
      )
      h

update_ramp_events :
    (i : ℕ) (f : RampTx → RampTx) (db : Db)
    → (update_ramp i f db).1.webhook_events ≡ db.webhook_events
unfolding update_ramp
update_ramp_events i f db = ground arith

write_now-IsRecorded :
    (provider : Text) (event : RampEvent) (t : RampTx) (db : Db)
    → IsRecorded provider event.event_id db
    → IsRecorded provider event.event_id (write_now provider event t db).1
unfolding write_now
write_now-IsRecorded provider event t db h =
    let f = after_event event db.clock t in
    let kept : IsRecorded provider event.event_id (update_ramp t.id f db).1 =
      rw (update_ramp_events t.id f db) h in
    ground (arith, mark_processed-IsRecorded provider event.event_id (update_ramp t.id f db).1 kept)

write_event-IsRecorded :
    (env : Env) (provider : Text) (event : RampEvent) (t : RampTx) (db : Db)
    → KeepsEvents env
    → IsRecorded provider event.event_id db
    → IsRecorded provider event.event_id (write_event env provider event t db).1
unfolding write_event
write_event-IsRecorded env provider event t db quiet h =
    write_now-IsRecorded provider event t (env.others 0 db) (rw (quiet 0 db) h)

module _ (env : Env) (provider : Text) (event : RampEvent) (db : Db) (quiet : KeepsEvents env)
    (h : IsRecorded provider event.event_id db) where
  apply_event-IsRecorded :
      (t : RampTx) → IsRecorded provider event.event_id (apply_event env provider event t db).1
  unfolding apply_event
  apply_event-IsRecorded t = ground (
    arith,
    mark_processed-IsRecorded provider event.event_id db h,
    write_event-IsRecorded env provider event t db quiet h,
  )

  match_event-IsRecorded :
      (reference : ℕ) (valid : Bool)
      → IsRecorded provider event.event_id (match_event env provider event reference valid db).1
  unfolding match_event
  match_event-IsRecorded reference valid = elim (Option-cases (find_ramp reference db)) [
    | inl missing ↦ ground (arith, mark_processed-IsRecorded provider event.event_id db h)
    | inr (t, found) ↦ ground (arith, apply_event-IsRecorded t)
  ]

pub record_event_new :
    (provider : Text) (event : RampEvent) (reference : ℕ) (valid : Bool) (db : Db)
    → exists_where (same_event provider event.event_id) db.webhook_events ≡ false
    → ((record_event provider event reference valid db).0 ≡ ok tt)
      × IsRecorded provider event.event_id (record_event provider event reference valid db).1
unfolding record_event find_where
record_event_new provider event reference valid db h = ground (arith, text_eq_refl provider)

record_event_old :
    (provider : Text) (event : RampEvent) (reference : ℕ) (valid : Bool) (db : Db)
    → IsRecorded provider event.event_id db
    → record_event provider event reference valid db ≡ (err unique_violation, db)
unfolding record_event
record_event_old provider event reference valid db h = rw h refl

handle_named_duplicate :
    (env : Env) (provider : Text) (event : RampEvent) (valid : Bool) (reference : ℕ) (db : Db)
    → IsRecorded provider event.event_id db
    → handle_named env provider event valid reference db ≡ (ok (ignored duplicate), db)
unfolding handle_named
handle_named_duplicate env provider event valid reference db h =
    rw (record_event_old provider event reference valid db h) refl

handle_named-IsRecorded :
    (env : Env) (provider : Text) (event : RampEvent) (valid : Bool) (reference : ℕ) (db : Db)
    → KeepsEvents env
    → IsRecorded provider event.event_id (handle_named env provider event valid reference db).1
unfolding handle_named
handle_named-IsRecorded env provider event valid reference db quiet =
    elim (Bool-cases (exists_where (same_event provider event.event_id) db.webhook_events)) [
      | inl old ↦ rw (record_event_old provider event reference valid db old) old
      | inr new ↦
          let (answer, kept) = record_event_new provider event reference valid db new in
          rw answer (
            match_event-IsRecorded env provider event
              (record_event provider event reference valid db).1 quiet kept reference valid)
    ]

pub handle_webhook_named :
    (env : Env) (provider : Text) (event : RampEvent) (valid : Bool) (reference : ℕ)
    → event.event_reference ≡ some reference
    → (d : Db)
    → handle_webhook env provider event valid d ≡ handle_named env provider event valid reference d
unfolding handle_webhook
handle_webhook_named env provider event valid reference named d = ground arith

-- An event with a reference is handled at most once: whatever the first delivery did, also when it
-- threw after the event was recorded, the same delivery again answers "duplicate" and changes
-- nothing, as long as other requests leave the recorded events as they are.
pub handle_webhook_once :
    (env : Env) (provider : Text) (event : RampEvent) (valid : Bool) (reference : ℕ) (db : Db)
    → KeepsEvents env
    → event.event_reference ≡ some reference
    → handle_webhook env provider event valid (handle_webhook env provider event valid db).1
      ≡ (ok (ignored duplicate), (handle_webhook env provider event valid db).1)
handle_webhook_once env provider event valid reference db quiet named =
    let named_run = handle_webhook_named env provider event valid reference named in
    rw (named_run db, named_run (handle_named env provider event valid reference db).1)
      (handle_named_duplicate env provider event valid reference _
        (handle_named-IsRecorded env provider event valid reference db quiet))
