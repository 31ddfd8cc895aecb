-- ===== src/Ramp/Webhook/Applied.antt =====
-- `handleWebhook` on a new event with a valid signature: the status that the row ends with.
use mathlib.Core.Option
use ulmara_backend.Common.{
  Bool, Bool-cases, Option, Text, arith, exists_where, false, find_where, find_where-update_where,
  if◌then◌else◌, inl, inr, leb, refl, some, true, update_where, ℕ, ◌≡◌,
}
use ulmara_backend.World.{Db, Env, RampTx, TxStatus, ok}
use ulmara_backend.Ramp.{find_ramp, has_ramp_id, has_reference, rank, update_ramp}
use ulmara_backend.Ramp.Webhook.{
  RampEvent, after_event, applied, apply_event, handle_named, handle_webhook, ignored,
  mark_processed, match_event, record_event, same_event, stale_status, write_event, write_now,
}
use ulmara_backend.Ramp.Webhook.Once.{handle_webhook_named, record_event_new}

-- The later of two statuses by `RANK`; on a tie the first.
abbrev pub later : TxStatus → TxStatus → TxStatus
later held next = if leb (rank next) (rank held) then held else next

abbrev pub status_of : ℕ → Db → Option TxStatus
status_of reference db = Option.map (λ t. t.status) (find_ramp reference db)

module _ (reference : ℕ) (t : RampTx) where
  pub update_ramp_run :
      (f : RampTx → RampTx) (db : Db)
      → find_where (has_ramp_id t.id) db.ramp_txs ≡ some t
      → update_ramp t.id f db
        ≡ (ok (f t), record db { ramp_txs = update_where (has_ramp_id t.id) f db.ramp_txs })
  unfolding update_ramp
  update_ramp_run f db keyed = ground arith

  pub updated_found :
      (f : RampTx → RampTx) (db : Db)
      → ((r : RampTx) → (f r).reference ≡ r.reference)
      → find_ramp reference db ≡ some t
      → find_where (has_reference reference) (update_where (has_ramp_id t.id) f db.ramp_txs)
        ≡ some (f t)
  unfolding find_ramp
  updated_found f db keeps found =
      rw
        (
          find_where-update_where (has_reference reference) (has_ramp_id t.id) f
              (λ r. rw (keeps r) refl) db.ramp_txs,
          found,
        )
        (ground arith)

  module _ (provider : Text) (event : RampEvent) (db : Db) (found : find_ramp reference db ≡ some t)
      (keyed : find_where (has_ramp_id t.id) db.ramp_txs ≡ some t) where
    write_now_run :
        ((write_now provider event t db).0 ≡ ok applied)
        × (status_of reference (write_now provider event t db).1 ≡ some event.event_status)
    unfolding write_now after_event mark_processed find_ramp
    write_now_run = ground (
      arith,
      update_ramp_run (after_event event db.clock t) db keyed,
      updated_found (after_event event db.clock t) db (λ r. refl) found,
    )

    module _ (env : Env) (quiet : (k : ℕ) (d : Db) → env.others k d ≡ d) where
      write_event_run :
          ((write_event env provider event t db).0 ≡ ok applied)
          × (status_of reference (write_event env provider event t db).1 ≡ some event.event_status)
      unfolding write_event
      write_event_run = rw (quiet 0 db) write_now_run

      apply_event_run :
          ((apply_event env provider event t db).0
            ≡ ok (
                if leb (rank event.event_status) (rank t.status)
                then ignored stale_status
                else applied))
          × (status_of reference (apply_event env provider event t db).1
              ≡ some (later t.status event.event_status))
      unfolding apply_event mark_processed find_ramp
      apply_event_run =
          let (answer, held) = write_event_run in
          elim (Bool-cases (leb (rank event.event_status) (rank t.status))) [
            | inl stale ↦ rw (stale, found) (refl, refl)
            | inr fresh ↦ rw fresh (answer, held)
          ]

      match_event_run :
          ((match_event env provider event reference true db).0
            ≡ ok (
                if leb (rank event.event_status) (rank t.status)
                then ignored stale_status
                else applied))
          × (status_of reference (match_event env provider event reference true db).1
              ≡ some (later t.status event.event_status))
      unfolding match_event
      match_event_run = ground (arith, apply_event_run)

pub record_event_ramps :
    (provider : Text) (event : RampEvent) (reference : ℕ) (valid : Bool) (db : Db)
    → (record_event provider event reference valid db).1.ramp_txs ≡ db.ramp_txs
unfolding record_event
record_event_ramps provider event reference valid db = ground arith

-- A new event with a valid signature that names a row, with no other request in between, is applied
-- exactly when its status has a higher rank than the row's; the row ends with the later of the two
-- statuses, so a settled status is not walked backwards.
pub handle_webhook_applied :
    (env : Env) (provider : Text) (event : RampEvent) (reference : ℕ) (t : RampTx) (db : Db)
    → ((k : ℕ) (d : Db) → env.others k d ≡ d)
    → event.event_reference ≡ some reference
    → exists_where (same_event provider event.event_id) db.webhook_events ≡ false
    → find_ramp reference db ≡ some t
    → find_where (has_ramp_id t.id) db.ramp_txs ≡ some t
    → ((handle_webhook env provider event true db).0
        ≡ ok (
            if leb (rank event.event_status) (rank t.status)
            then ignored stale_status
            else applied))
      × (status_of reference (handle_webhook env provider event true db).1
          ≡ some (later t.status event.event_status))
unfolding handle_named find_ramp
handle_webhook_applied env provider event reference t db quiet named new found keyed =
    let db' = (record_event provider event reference true db).1 in
    let same = record_event_ramps provider event reference true db in
    rw
      (
        handle_webhook_named env provider event true reference named db,
        (record_event_new provider event reference true db new).0,
      )
      (match_event_run reference t provider event db' (rw same found) (rw same keyed) env quiet)
