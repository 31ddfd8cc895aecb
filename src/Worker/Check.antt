-- ===== src/Worker/Check.antt =====
-- Polling: what the chain's answer leaves on the transaction, its receipt and the queue.
use mathlib.Core.Option
use ulmara_backend.Common.{
  List, Option, arith, exists_where, find_where, find_where-update_where, find_where_sound, none,
  refl, some, true, update_where, ℕ, ◌==◌, ◌∷◌, ◌≡◌,
}
use ulmara_backend.World.{
  ChainStatus, Db, Env, Result, Transaction, TxStatus, chain_failed, check_transaction, completed,
  confirmed, failed, in_flight, ok,
}
use ulmara_backend.Transfer.Broadcast.{enqueue, set_status}
use ulmara_backend.Worker.{JobResult, has_id, polled, run_job, settle, update_tx, upsert_receipt}

unfoldable pub status_held : ℕ → Db → Option TxStatus
status_held i db = Option.map (λ t. t.status) (find_where (has_id i) db.transactions)

pub updated_tx :
    (i : ℕ) (f : Transaction → Transaction) (t : Transaction) (rows : List Transaction)
    → ((r : Transaction) → (f r).id ≡ r.id)
    → find_where (has_id i) rows ≡ some t
    → find_where (has_id i) (update_where (has_id i) f rows) ≡ some (f t)
updated_tx i f t rows keeps found =
    let hit = find_where_sound (has_id i) t rows found in
    rw (find_where-update_where (has_id i) (has_id i) f (λ r. rw (keeps r) refl) rows, found)
      (ground (arith, hit))

pub found_run :
    (i : ℕ) (f : Transaction → Transaction) (t : Transaction) (db : Db)
    → find_where (has_id i) db.transactions ≡ some t
    → update_tx i f db
      ≡ (ok tt, record db { transactions = update_where (has_id i) f db.transactions })
unfolding update_tx
found_run i f t db found = ground arith

upsert_receipt-found :
    (i : ℕ) (db : Db)
    → ((upsert_receipt i db).0 ≡ ok tt)
      × ((upsert_receipt i db).1.transactions ≡ db.transactions)
      × (exists_where (λ r. r == i) (upsert_receipt i db).1.receipts ≡ true)
unfolding upsert_receipt find_where
upsert_receipt-found i db = (ground arith, ground arith, ground arith)

-- What the chain's answer leaves of a transaction: a confirmation completes it and it has a receipt,
-- a failure fails it, and while it is in flight the rows stay and the next check is queued.
abbrev pub Polled : ChainStatus → ℕ → ℕ → Db → Result JobResult × Db → Type 0
Polled confirmed i hash db after =
    (after.0 ≡ ok (polled (some completed)))
    × (status_held i after.1 ≡ some completed)
    × (exists_where (λ r. r == i) after.1.receipts ≡ true)
Polled chain_failed i hash db after =
    (after.0 ≡ ok (polled (some failed)))
    × (status_held i after.1 ≡ some failed)
    × (after.1.receipts ≡ db.receipts)
Polled in_flight i hash db after =
    after ≡ (ok (polled none), record db { jobs = check_transaction i hash ∷ db.jobs })

settle-Polled :
    (env : Env) (i hash : ℕ) (s : ChainStatus) (t : Transaction) (db : Db)
    → find_where (has_id i) db.transactions ≡ some t
    → env.queue_up ≡ true
    → Polled s i hash db (settle env i hash s db)
unfolding settle status_held enqueue
settle-Polled env i hash confirmed t db found up =
    let now_held = updated_tx i (set_status completed) t db.transactions (λ r. refl) found in
    let changed : Db = record db {
      transactions = update_where (has_id i) (set_status completed) db.transactions;
    } in
    let (done, same, given) = upsert_receipt-found i changed in
    let run = found_run i (set_status completed) t db found in
    (
      ground (arith, run, done),
      ground (arith, run, done, same, now_held),
      ground (arith, run, done, given),
    )
settle-Polled env i hash chain_failed t db found up =
    let run = found_run i (set_status failed) t db found in
    let now_held = updated_tx i (set_status failed) t db.transactions (λ r. refl) found in
    (ground (arith, run), ground (arith, run, now_held), ground (arith, run))
settle-Polled env i hash in_flight t db found up = rw up refl

-- A check of a transaction that exists, for which the chain answers and the queue takes jobs, leaves
-- what the answer says: COMPLETED with a receipt, FAILED, or the rows as they were with another
-- check queued.
pub run_job_check :
    (env : Env) (i hash : ℕ) (s : ChainStatus) (t : Transaction) (db : Db)
    → find_where (has_id i) db.transactions ≡ some t
    → env.chain_status t.network hash ≡ ok s
    → env.queue_up ≡ true
    → Polled s i hash db (run_job env (check_transaction i hash) db)
unfolding run_job
run_job_check env i hash s t db found told up =
    rw (found, told) (settle-Polled env i hash s t db found up)
