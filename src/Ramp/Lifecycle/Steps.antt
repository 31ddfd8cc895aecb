-- ===== src/Ramp/Lifecycle/Steps.antt =====
-- Webhooks and reconciliations as steps of the abstract ledger, and whole histories of them.
use mathlib.Core.Path.{subst}
use ulmara_backend.Common.{
  Bool, Bool-cases, List, Option-cases, Text, arith, false, find_where, inl, inr, leb, none, not,
  refl, some, sym, update_where, ℕ, ◌<◌, ◌==◌, ◌||◌, ◌≡◌,
}
use ulmara_backend.World.{
  Db, Env, RampTx, Result-cases, StatusReply, TxStatus, completed, failed, other_error, pending,
  processing, provider_error, replied,
}
use ulmara_backend.Ramp.{find_ramp, has_ramp_id, rank, update_ramp}
use ulmara_backend.Ramp.Lifecycle.{IsKeyed, IsStep, same_rows, update-IsStep}
use ulmara_backend.Ramp.Reconcile.{
  apply_reply, ask_status, is_settled, reconcile, synced, unknown_to_provider,
}
use ulmara_backend.Ramp.Webhook.{
  RampEvent, after_event, apply_event, handle_named, handle_webhook, mark_processed, match_event,
  record_event, write_event, write_now,
}
use ulmara_backend.Ramp.Webhook.Applied.{record_event_ramps}

module _ (i : ℕ) (f : RampTx → RampTx) (db : Db) where
  -- `update` writes the rows with the id, or throws and changes nothing.
  update_ramp_rows :
      (t : RampTx)
      → find_where (has_ramp_id i) db.ramp_txs ≡ some t
      → (update_ramp i f db).1.ramp_txs ≡ update_where (has_ramp_id i) f db.ramp_txs
  unfolding update_ramp
  update_ramp_rows t keyed = ground arith

module _ (provider : Text) (event : RampEvent) (reference : ℕ) (t : RampTx) (db : Db)
    (keyed : IsKeyed db.ramp_txs) (found : find_ramp reference db ≡ some t) where
  write_now_rows :
      (write_now provider event t db).1.ramp_txs
      ≡ (update_ramp t.id (after_event event db.clock t) db).1.ramp_txs
  unfolding write_now mark_processed
  write_now_rows = ground arith

  write_now-IsStep :
      rank t.status < rank event.event_status
      → IsStep db.ramp_txs (write_now provider event t db).1.ramp_txs
  unfolding find_ramp after_event
  write_now-IsStep forward =
      let f = after_event event db.clock t in
      let rows = update_ramp_rows t.id f db t (keyed reference t found) in
      rw (write_now_rows, rows)
        (update-IsStep t f db.ramp_txs (λ a. refl) (λ a. refl) keyed reference found forward)

  module _ (env : Env) (quiet : (k : ℕ) (d : Db) → env.others k d ≡ d) where
    write_event-IsStep :
        rank t.status < rank event.event_status
        → IsStep db.ramp_txs (write_event env provider event t db).1.ramp_txs
    unfolding write_event
    write_event-IsStep forward = rw (quiet 0 db) (write_now-IsStep forward)

    apply_event-IsStep : IsStep db.ramp_txs (apply_event env provider event t db).1.ramp_txs
    unfolding apply_event mark_processed
    apply_event-IsStep = elim (Bool-cases (leb (rank event.event_status) (rank t.status))) [
      | inl stale ↦ rw stale (same_rows db.ramp_txs db.ramp_txs refl keyed)
      | inr fresh ↦ rw fresh (write_event-IsStep (ground arith))
    ]

as-IsStep :
    (rows : List RampTx) (d d' : Db) → d ≡ d' → IsStep rows d'.ramp_txs → IsStep rows d.ramp_txs
as-IsStep rows d d' e step = subst (λ x. IsStep rows x.ramp_txs) (sym e) step

unsettled_rank : (s : TxStatus) → is_settled s ≡ false → rank s < rank failed
unfolding rank
unsettled_rank pending h = omega arith
unsettled_rank processing h = omega arith
unsettled_rank completed h = absurd (cc)
unsettled_rank failed h = absurd (cc)

module _ (env : Env) (quiet : (k : ℕ) (d : Db) → env.others k d ≡ d) where
  match_event-IsStep :
      (provider : Text) (event : RampEvent) (reference : ℕ) (valid : Bool) (db : Db)
      → IsKeyed db.ramp_txs
      → IsStep db.ramp_txs (match_event env provider event reference valid db).1.ramp_txs
  unfolding match_event mark_processed
  match_event-IsStep provider event reference valid db keyed =
      let db' = (match_event env provider event reference valid db).1 in
      elim (Option-cases (find_ramp reference db)) [
        | inl missing ↦
            let same : db.ramp_txs ≡ db'.ramp_txs = ground arith in
            same_rows db.ramp_txs db'.ramp_txs same keyed
        | inr (t, found) ↦ elim (Bool-cases valid) [
          | inl genuine ↦
              let run : db' ≡ (apply_event env provider event t db).1 = ground arith in
              as-IsStep db.ramp_txs db' (apply_event env provider event t db).1 run
                (apply_event-IsStep provider event reference t db keyed found env quiet)
          | inr forged ↦
              let same : db.ramp_txs ≡ db'.ramp_txs = ground arith in
              same_rows db.ramp_txs db'.ramp_txs same keyed
        ]
      ]

  handle_named-IsStep :
      (provider : Text) (event : RampEvent) (valid : Bool) (reference : ℕ) (db : Db)
      → IsKeyed db.ramp_txs
      → IsStep db.ramp_txs (handle_named env provider event valid reference db).1.ramp_txs
  unfolding handle_named
  handle_named-IsStep provider event valid reference db keyed =
      let recorded_db = (record_event provider event reference valid db).1 in
      let db' = (handle_named env provider event valid reference db).1 in
      let rows = record_event_ramps provider event reference valid db in
      elim (Result-cases (record_event provider event reference valid db).0) [
        | inl (u, new) ↦
            let last = (match_event env provider event reference valid recorded_db).1 in
            let run : db' ≡ last = ground arith in
            let step =
              match_event-IsStep provider event reference valid recorded_db
                (subst IsKeyed (sym rows) keyed) in
            as-IsStep db.ramp_txs db' last run (subst (λ x. IsStep x last.ramp_txs) rows step)
        | inr (e, old) ↦
            let same : db.ramp_txs ≡ db'.ramp_txs = ground (arith, rows) in
            same_rows db.ramp_txs db'.ramp_txs same keyed
      ]

  -- A webhook is a step of the ledger.
  pub handle_webhook-IsStep :
      (provider : Text) (event : RampEvent) (valid : Bool) (db : Db)
      → IsKeyed db.ramp_txs
      → IsStep db.ramp_txs (handle_webhook env provider event valid db).1.ramp_txs
  unfolding handle_webhook
  handle_webhook-IsStep provider event valid db keyed =
      let db' = (handle_webhook env provider event valid db).1 in
      elim (Option-cases event.event_reference) [
        | inl anonymous ↦
            let same : db.ramp_txs ≡ db'.ramp_txs = ground arith in
            same_rows db.ramp_txs db'.ramp_txs same keyed
        | inr (reference, named) ↦
            let last = (handle_named env provider event valid reference db).1 in
            let run : db' ≡ last = ground arith in
            as-IsStep db.ramp_txs db' last run
              (handle_named-IsStep provider event valid reference db keyed)
      ]

  module _ (reference : ℕ) (t : RampTx) (db : Db) (keyed : IsKeyed db.ramp_txs)
      (found : find_ramp reference db ≡ some t) where
    updated-IsStep :
        (f : RampTx → RampTx)
        → ((a : RampTx) → (f a).reference ≡ a.reference)
        → ((a : RampTx) → (f a).id ≡ a.id)
        → rank t.status < rank (f t).status
        → IsStep db.ramp_txs (update_ramp t.id f db).1.ramp_txs
    unfolding find_ramp
    updated-IsStep f keeps_reference keeps_id forward =
        let rows = update_ramp_rows t.id f db t (keyed reference t found) in
        let step =
          update-IsStep t f db.ramp_txs keeps_reference keeps_id keyed reference found forward in
        subst (IsStep db.ramp_txs) (sym rows) step

    apply_reply-IsStep :
        (reply : StatusReply)
        → is_settled t.status ≡ false
        → IsStep db.ramp_txs (apply_reply t db.clock reply db).1.ramp_txs
    unfolding apply_reply
    apply_reply-IsStep (replied r) unsettled =
        let db' = (apply_reply t db.clock (replied r) db).1 in
        elim (Bool-cases (leb (rank r.status) (rank t.status))) [
          | inl stale ↦
              let same : db.ramp_txs ≡ db'.ramp_txs = ground arith in
              same_rows db.ramp_txs db'.ramp_txs same keyed
          | inr fresh ↦
              let last = (update_ramp t.id (synced r db.clock) db).1 in
              let run : db' ≡ last = ground arith in
              as-IsStep db.ramp_txs db' last run
                (updated-IsStep (synced r db.clock) (λ a. refl) (λ a. refl) (ground arith))
        ]
    apply_reply-IsStep (provider_error none) unsettled =
        same_rows db.ramp_txs db.ramp_txs refl keyed
    apply_reply-IsStep (provider_error (some code)) unsettled =
        let db' = (apply_reply t db.clock (provider_error (some code)) db).1 in
        elim (Bool-cases (code == 404)) [
          | inl missing ↦
              let last = (update_ramp t.id (unknown_to_provider db.clock) db).1 in
              let run : db' ≡ last = ground arith in
              as-IsStep db.ramp_txs db' last run (
                updated-IsStep (unknown_to_provider db.clock) (λ a. refl) (λ a. refl)
                  (unsettled_rank t.status unsettled))
          | inr other ↦
              let same : db.ramp_txs ≡ db'.ramp_txs = ground arith in
              same_rows db.ramp_txs db'.ramp_txs same keyed
        ]
    apply_reply-IsStep other_error unsettled = same_rows db.ramp_txs db.ramp_txs refl keyed

    ask_status-IsStep :
        is_settled t.status ≡ false → IsStep db.ramp_txs (ask_status env reference t db).1.ramp_txs
    unfolding ask_status
    ask_status-IsStep unsettled =
        rw (quiet 0 db) (apply_reply-IsStep (env.ramp_status reference) unsettled)

  -- A reconciliation is a step of the ledger.
  pub reconcile-IsStep :
      (reference : ℕ) (db : Db)
      → IsKeyed db.ramp_txs
      → IsStep db.ramp_txs (reconcile env reference db).1.ramp_txs
  unfolding reconcile
  reconcile-IsStep reference db keyed =
      let db' = (reconcile env reference db).1 in
      elim (Option-cases (find_ramp reference db)) [
        | inl missing ↦
            let same : db.ramp_txs ≡ db'.ramp_txs = ground arith in
            same_rows db.ramp_txs db'.ramp_txs same keyed
        | inr (t, found) ↦ elim (Bool-cases (is_settled t.status || not env.ramp_configured)) [
          | inl still ↦
              let same : db.ramp_txs ≡ db'.ramp_txs = ground arith in
              same_rows db.ramp_txs db'.ramp_txs same keyed
          | inr asking ↦
              let last = (ask_status env reference t db).1 in
              let run : db' ≡ last = ground arith in
              as-IsStep db.ramp_txs db' last run
                (ask_status-IsStep reference t db keyed found (ground arith))
        ]
      ]
