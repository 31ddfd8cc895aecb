-- ===== src/Ramp/Reconcile/Forward.antt =====
-- `reconcile`: the status that a row ends with after the provider answered.
use ulmara_backend.Common.{
  Bool-cases, arith, find_where, if◌then◌else◌, inl, inr, leb, refl, some, true, ℕ, ◌≡◌,
}
use ulmara_backend.World.{Db, Env, RampTx, StatusResult, replied}
use ulmara_backend.Ramp.{find_ramp, has_ramp_id, rank}
use ulmara_backend.Ramp.Reconcile.{apply_reply, ask_status, is_settled, reconcile, synced}
use ulmara_backend.Ramp.Webhook.Applied.{later, status_of, update_ramp_run, updated_found}

module _ (env : Env) (reference : ℕ) (t : RampTx) (r : StatusResult) (db : Db)
    (found : find_ramp reference db ≡ some t)
    (keyed : find_where (has_ramp_id t.id) db.ramp_txs ≡ some t) where
  apply_reply_run :
      status_of reference (apply_reply t db.clock (replied r) db).1 ≡ some (later t.status r.status)
  unfolding apply_reply find_ramp
  apply_reply_run = elim (Bool-cases (leb (rank r.status) (rank t.status))) [
    | inl stale ↦ rw (stale, found) refl
    | inr fresh ↦ ground (
      arith,
      update_ramp_run reference t (synced r db.clock) db keyed,
      updated_found reference t (synced r db.clock) db (λ q. refl) found,
    )
  ]

  ask_status_run :
      ((k : ℕ) (d : Db) → env.others k d ≡ d)
      → env.ramp_status reference ≡ replied r
      → status_of reference (ask_status env reference t db).1 ≡ some (later t.status r.status)
  unfolding ask_status
  ask_status_run quiet told = rw (quiet 0 db, told) apply_reply_run

-- With no other request in between, a reconciliation for which the provider answers leaves a settled
-- row's status as it is and moves any other row to the later of its status and the answered one.
reconcile_forward :
    (env : Env) (reference : ℕ) (t : RampTx) (r : StatusResult) (db : Db)
    → ((k : ℕ) (d : Db) → env.others k d ≡ d)
    → find_ramp reference db ≡ some t
    → find_where (has_ramp_id t.id) db.ramp_txs ≡ some t
    → env.ramp_configured ≡ true
    → env.ramp_status reference ≡ replied r
    → status_of reference (reconcile env reference db).1
      ≡ some (if is_settled t.status then t.status else later t.status r.status)
unfolding reconcile
reconcile_forward env reference t r db quiet found keyed up told =
    let run = ask_status_run env reference t r db found keyed quiet told in
    elim (Bool-cases (is_settled t.status)) [
      | inl done ↦ ground (arith, run)
      | inr open_row ↦ ground (arith, run)
    ]
