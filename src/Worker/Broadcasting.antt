-- ===== src/Worker/Broadcasting.antt =====
-- Broadcasting: the two ends of a job that carries signed bytes, and the receipts.
use mathlib.Core.Option
use ulmara_backend.Common.{
  Bool-cases, Option, Option-cases, arith, false, find_where, inl, inr, refl, some, text,
  update_where, ℕ, ◌∷◌, ◌≡◌, ◌⊎◌,
}
use ulmara_backend.World.{
  Chain, Db, Env, Error, Result, Result-cases, Transaction, TxStatus, check_transaction, err,
  failed, ok, process_transaction, processing, thrown,
}
use ulmara_backend.Transfer.Broadcast.{enqueue, set_status}
use ulmara_backend.Transfer.Send.{send}
use ulmara_backend.Worker.{
  JobResult, has_id, run_job, send_and_poll, send_signed_transaction, sent_as, sent_with,
}
use ulmara_backend.Worker.Check.{found_run, status_held, updated_tx}

abbrev sent_fields : Transaction → Option ℕ × TxStatus
sent_fields t = (t.tx_hash, t.status)

-- A broadcast's job that answers a hash left it on the row, PROCESSING, and queued its check.
abbrev pub IsSent : ℕ → ℕ → Db → Db → Type 0
IsSent i hash db after =
    (Option.map sent_fields (find_where (has_id i) after.transactions)
      ≡ some (some hash, processing))
    × (after.jobs ≡ check_transaction i hash ∷ db.jobs)

-- The chain's adapter broadcasts signed bytes, and answered these with a hash.
abbrev pub Gives : Env → Chain → (signed hash : ℕ) → Type 0
Gives env chain signed hash =
    (send : ℕ → Result ℕ) × (env.send_signed chain ≡ some send) × (send signed ≡ ok hash)

send_signed_transaction-Gives :
    (env : Env) (chain : Chain) (signed hash : ℕ) (db : Db)
    → (send_signed_transaction env chain signed db).0 ≡ ok hash
    → Gives env chain signed hash
unfolding send_signed_transaction
send_signed_transaction-Gives env chain signed hash db e =
    elim (Option-cases (env.send_signed chain)) [
      | inl missing ↦ absurd (ground arith)
      | inr (send, able) ↦ (send, able, ground arith)
    ]

send_signed_transaction_keeps :
    (env : Env) (chain : Chain) (signed : ℕ) (db : Db)
    → (send_signed_transaction env chain signed db).1 ≡ db
unfolding send_signed_transaction
send_signed_transaction_keeps env chain signed db = ground arith

-- The two ends of the `try`.
abbrev Ends : Env → Chain → (i signed : ℕ) → Db → Result JobResult × Db → Type 0
Ends env chain i signed db after =
    ((hash : ℕ) × Gives env chain signed hash
      × (after.0 ≡ ok (sent_as hash))
      × IsSent i hash db after.1)
    ⊎ ((e : Error) × (t : Transaction) × (after.0 ≡ err e)
        × (find_where (has_id i) after.1.transactions ≡ some t))

module _ (env : Env) (chain : Chain) (i signed : ℕ) (t : Transaction) (db : Db)
    (found : find_where (has_id i) db.transactions ≡ some t) where
  send_and_poll_sent :
      (hash : ℕ)
      → (send_signed_transaction env chain signed db).0 ≡ ok hash
      → Ends env chain i signed db (send_and_poll env chain i signed db)
  unfolding send_and_poll enqueue
  send_and_poll_sent hash answered =
      let kept = send_signed_transaction_keeps env chain signed db in
      let run = found_run i (sent_with hash) t db found in
      let held = updated_tx i (sent_with hash) t db.transactions (λ r. refl) found in
      elim (Bool-cases env.queue_up) [
        | inl up ↦ inl (
          hash,
          send_signed_transaction-Gives env chain signed hash db answered,
          ground (arith, run, kept),
          (ground (arith, run, kept, held), ground (arith, run, kept)),
        )
        | inr down ↦ inr (
          thrown (text "queue unavailable"),
          sent_with hash t,
          ground (arith, run, kept),
          ground (arith, run, kept, held),
        )
      ]

  send_and_poll-Ends : Ends env chain i signed db (send_and_poll env chain i signed db)
  unfolding send_and_poll
  send_and_poll-Ends = elim (Result-cases (send_signed_transaction env chain signed db).0) [
    | inl (hash, answered) ↦ send_and_poll_sent hash answered
    | inr (e, thrown_up) ↦
        inr (e, t, ground arith, ground (arith, send_signed_transaction_keeps env chain signed db))
  ]

-- A job with signed bytes for a transaction that exists ends in one of two ways. It answers the hash
-- that the chain's adapter gave for these bytes, the row is PROCESSING with that hash, and a check of
-- that hash is queued; or it throws, and the row is FAILED.
pub run_job_broadcast :
    (env : Env) (i signed : ℕ) (t : Transaction) (db : Db)
    → find_where (has_id i) db.transactions ≡ some t
    → ((hash : ℕ) × Gives env t.network signed hash
        × ((run_job env (process_transaction i signed) db).0 ≡ ok (sent_as hash))
        × IsSent i hash db (run_job env (process_transaction i signed) db).1)
      ⊎ ((e : Error) × ((run_job env (process_transaction i signed) db).0 ≡ err e)
          × (status_held i (run_job env (process_transaction i signed) db).1 ≡ some failed))
unfolding run_job status_held
run_job_broadcast env i signed t db found =
    let claimed : Db = record db {
      transactions = update_where (has_id i) (set_status processing) db.transactions;
    } in
    let run = found_run i (set_status processing) t db found in
    let held = updated_tx i (set_status processing) t db.transactions (λ r. refl) found in
    elim (send_and_poll-Ends env t.network i signed (set_status processing t) claimed held) [
      | inl (hash, given, answered, sent) ↦
          inl (hash, given, ground (arith, run), (ground (arith, run), ground (arith, run)))
      | inr (e, t', thrown_up, left) ↦
          let after = (send_and_poll env t.network i signed claimed).1 in
          let marked = found_run i (set_status failed) t' after left in
          let ended = updated_tx i (set_status failed) t' after.transactions (λ r. refl) left in
          inr (e, ground (arith, run, marked), ground (arith, run, marked, ended))
    ]

-- When the chain accepted the bytes but the queue refuses the check, the row ends FAILED with the
-- hash of the accepted transaction, and is otherwise as it was.
pub run_job_unqueued :
    (env : Env) (i signed hash : ℕ) (send : ℕ → Result ℕ) (t : Transaction) (db : Db)
    → find_where (has_id i) db.transactions ≡ some t
    → env.send_signed t.network ≡ some send
    → send signed ≡ ok hash
    → env.queue_up ≡ false
    → find_where (has_id i) (run_job env (process_transaction i signed) db).1.transactions
      ≡ some (record t { tx_hash = some hash; status = failed })
unfolding run_job send_and_poll send_signed_transaction enqueue
run_job_unqueued env i signed hash send t db found able answered down =
    let claimed : Db = record db {
      transactions = update_where (has_id i) (set_status processing) db.transactions;
    } in
    let t1 = set_status processing t in
    let held1 = updated_tx i (set_status processing) t db.transactions (λ r. refl) found in
    let sent : Db = record claimed {
      transactions = update_where (has_id i) (sent_with hash) claimed.transactions;
    } in
    let t2 = sent_with hash t1 in
    let held2 = updated_tx i (sent_with hash) t1 claimed.transactions (λ r. refl) held1 in
    ground (
      arith,
      found_run i (set_status processing) t db found,
      found_run i (sent_with hash) t1 claimed held1,
      found_run i (set_status failed) t2 sent held2,
      updated_tx i (set_status failed) t2 sent.transactions (λ r. refl) held2,
    )
