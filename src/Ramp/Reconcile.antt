-- ===== src/Ramp/Reconcile.antt =====
-- `reconcile`, and src/jobs/ramp.worker.ts, which calls it for a job of the ramp queue.
pub mod Forward
use ulmara_backend.Common.{
  Bool, Option, false, find_where, if◌then◌else◌, leb, none, not, or_else, some, text, true, ℕ,
  ◌==◌, ◌||◌,
}
use ulmara_backend.World.{
  Env, Error, M, RampTx, StatusReply, StatusResult, TxStatus, await_others, catch, completed,
  failed, gets, other_error, provider_error, pure, replied, throw_if, thrown, ◌>>=◌, ◌>>◌,
}
use ulmara_backend.Ramp.{find_ramp, has_ramp_id, rank, update_ramp}

-- what an answer says: the status ("UNKNOWN" is none) and whether it was applied
abbrev Reconciled : Type 0
Reconciled = Option TxStatus × Bool

abbrev pub is_settled : TxStatus → Bool
is_settled completed = true
is_settled failed = true
is_settled _ = false

abbrev pub synced : StatusResult → ℕ → RampTx → RampTx
synced r now t = record t {
  status = r.status;
  failure_reason = or_else r.failure_reason t.failure_reason;
  provider_status_raw = some r.status;
  last_synced_at = some now;
}

abbrev pub unknown_to_provider : ℕ → RampTx → RampTx
unknown_to_provider now t = record t {
  status = failed;
  failure_reason = some (text "The provider has no record of this transaction");
  last_synced_at = some now;
}

-- The status that the row was read with, and nothing applied: the answer of every failed attempt.
abbrev left_alone : RampTx → M Reconciled
left_alone t = pure (some t.status, false)

-- The `try` and `catch` of `reconcile` on a row that is not settled, after the provider's answer.
unfoldable pub apply_reply : RampTx → ℕ → StatusReply → M Reconciled
apply_reply t now (replied r) =
    if leb (rank r.status) (rank t.status)
    then left_alone t
    else catch (update_ramp t.id (synced r now) >> pure (some r.status, true))
        (λ (e : Error). left_alone t)
apply_reply t now (provider_error none) = left_alone t
apply_reply t now (provider_error (some code)) =
    if code == 404 then update_ramp t.id (unknown_to_provider now) >> left_alone t else left_alone t
apply_reply t now other_error = left_alone t

-- the row is read, the provider is asked while other requests run, and its answer is applied
unfoldable pub ask_status : Env → ℕ → RampTx → M Reconciled
ask_status env reference t = do
  await_others env 0
  now ← gets (λ db. db.clock)
  apply_reply t now (env.ramp_status reference)

-- `reconcile`
unfoldable pub reconcile : Env → ℕ → M Reconciled
reconcile env reference = do
  found ← gets (find_ramp reference)
  elim found [
    | none ↦ pure (none, false)
    | some t ↦
        if is_settled t.status || not env.ramp_configured
        then left_alone t
        else ask_status env reference t
  ]

-- The ramp worker on a job with the id of a row; `none` answers DELETED.
unfoldable run_ramp_job : Env → ℕ → M (Option Reconciled)
run_ramp_job env id = do
  throw_if (not env.ramp_configured) (thrown (text "Ramp provider is not configured"))
  found ← gets (λ db. find_where (has_ramp_id id) db.ramp_txs)
  elim found [ none ↦ pure none | some t ↦ reconcile env t.reference >>= λ r. pure (some r) ]
