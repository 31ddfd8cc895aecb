-- ===== src/Worker/Tests.antt =====
-- Runs of the worker on concrete states.
use ulmara_backend.Common.{false, find_where, refl, some, ℕ, ◌≡◌, ◌⊎◌}
use ulmara_backend.World.{
  Env, Error, check_transaction, confirmed, err, eth, failed, ok, process_transaction,
}
use ulmara_backend.Sample.{sample_db, sample_env, waiting_tx}
use ulmara_backend.Worker.{has_id, run_job, sent_as}
use ulmara_backend.Worker.Broadcasting.{Gives, IsSent, run_job_broadcast, run_job_unqueued}
use ulmara_backend.Worker.Check.{Polled, run_job_check, status_held}

run_job_broadcast_example :
    ((hash : ℕ) × Gives sample_env eth 7 hash
      × ((run_job sample_env (process_transaction 10 7) sample_db).0 ≡ ok (sent_as hash))
      × IsSent 10 hash sample_db (run_job sample_env (process_transaction 10 7) sample_db).1)
    ⊎ ((e : Error) × ((run_job sample_env (process_transaction 10 7) sample_db).0 ≡ err e)
        × (status_held 10 (run_job sample_env (process_transaction 10 7) sample_db).1
            ≡ some failed))
unfolding find_where
run_job_broadcast_example = run_job_broadcast sample_env 10 7 waiting_tx sample_db refl

run_job_check_example :
    Polled confirmed 10 9999 sample_db (run_job sample_env (check_transaction 10 9999) sample_db)
unfolding find_where
run_job_check_example =
    run_job_check sample_env 10 9999 confirmed waiting_tx sample_db refl refl refl

abbrev jammed_env : Env
jammed_env = record sample_env { queue_up = false }

run_job_unqueued_example :
    find_where (has_id 10) (run_job jammed_env (process_transaction 10 7) sample_db).1.transactions
    ≡ some (record waiting_tx { tx_hash = some 9999; status = failed })
unfolding find_where
run_job_unqueued_example =
    run_job_unqueued jammed_env 10 7 9999 (λ signed. ok 9999) waiting_tx sample_db refl refl refl
      refl
