-- ===== src/Worker.antt =====
-- src/jobs/transaction.worker.ts: the consumer of the transaction queue, which broadcasts signed
-- bytes and then polls the chain. Delays and the best-effort events to the clients are left out, and so is a
-- payload without signed bytes, which no producer sends. No other request runs within a job.
pub mod Check
pub mod Broadcasting
mod Tests
use ulmara_backend.Common.{
  Bool, Option, exists_where, find_where, if◌then◌else◌, none, some, text, update_where, ℕ, ◌==◌,
  ◌∷◌,
}
use ulmara_backend.World.{
  Chain, ChainStatus, Env, Error, Job, M, Transaction, TxStatus, catch, chain_failed,
  check_transaction, completed, confirmed, err, failed, gets, in_flight, lift, ok, or_throw,
  process_transaction, processing, pure, reconcile_ramp, throw, thrown, ⊤, ◌>>=◌, ◌>>◌,
}
use ulmara_backend.Transfer.Broadcast.{enqueue, set_status}
use ulmara_backend.Transfer.Send.{send}

-- What a job answers: the hash of a broadcast, or the polled status (`none` is "pending").
pub data JobResult : Type 0 where
  sent_as : (tx_hash : ℕ) → JobResult
  polled : Option TxStatus → JobResult

abbrev pub has_id : ℕ → Transaction → Bool
has_id i t = t.id == i

-- `prisma.transaction.update`, which throws when no row has the id
unfoldable pub update_tx : ℕ → (Transaction → Transaction) → M ⊤
update_tx i f db = elim (find_where (has_id i) db.transactions) [
  | none ↦ (err (thrown (text "Record to update not found")), db)
  | some t ↦ (ok tt, record db { transactions = update_where (has_id i) f db.transactions })
]

-- `prisma.receipt.upsert` with an empty update
unfoldable pub upsert_receipt : ℕ → M ⊤
upsert_receipt i db =
    if exists_where (λ r. r == i) db.receipts
    then (ok tt, db)
    else (ok tt, record db { receipts = i ∷ db.receipts })

-- `checkOnly` with a hash, after the chain's answer
unfoldable pub settle : Env → (id tx_hash : ℕ) → ChainStatus → M JobResult
settle env id tx_hash confirmed =
    update_tx id (set_status completed) >> upsert_receipt id >> pure (polled (some completed))
settle env id tx_hash chain_failed = update_tx id (set_status failed) >> pure (polled (some failed))
settle env id tx_hash in_flight = enqueue env (check_transaction id tx_hash) >> pure (polled none)

abbrev pub sent_with : ℕ → Transaction → Transaction
sent_with hash t = record t { tx_hash = some hash; status = processing }

-- the adapter's call, which throws when the chain has no signed broadcast
unfoldable pub send_signed_transaction : Env → Chain → ℕ → M ℕ
send_signed_transaction env chain signed = elim (env.send_signed chain) [
  | none ↦ throw (thrown (text "Signed broadcast is not implemented for this chain"))
  | some send ↦ lift (send signed)
]

-- The `try` of a broadcast.
unfoldable pub send_and_poll : Env → Chain → (id signed : ℕ) → M JobResult
send_and_poll env chain id signed = do
  hash ← send_signed_transaction env chain signed
  update_tx id (sent_with hash)
  enqueue env (check_transaction id hash)
  pure (sent_as hash)

abbrev fail_tx : ℕ → Error → M JobResult
fail_tx id e = update_tx id (set_status failed) >> throw {A = JobResult} e

-- The processor of the queue, on the two payloads of the queue; a ramp job goes to another queue.
unfoldable pub run_job : Env → Job → M JobResult
run_job env (check_transaction id tx_hash) = do
  found ← gets (λ db. find_where (has_id id) db.transactions)
  t ← or_throw found (thrown (text "Transaction not found"))
  status ← lift (env.chain_status t.network tx_hash)
  settle env id tx_hash status
run_job env (process_transaction id signed) = do
  found ← gets (λ db. find_where (has_id id) db.transactions)
  t ← or_throw found (thrown (text "Transaction not found"))
  update_tx id (set_status processing)
  catch (send_and_poll env t.network id signed) (fail_tx id)
run_job env (reconcile_ramp id) = throw (thrown (text "not a job of this queue"))
