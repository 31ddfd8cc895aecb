-- ===== src/Ramp/Tests.antt =====
-- Runs of the ramp's operations on concrete states.
use ulmara_backend.Common.{
  ==-refl, Bool-cases, List, [], arith, find_where, if◌then◌else◌, inl, inr, none, refl, some, sym,
  true, update_where, ℕ, ◌==◌, ◌∷◌, ◌≡◌,
}
use ulmara_backend.World.{Env, RampTx, completed, pending}
use ulmara_backend.Ramp.{find_ramp, has_reference, rank, update_ramp}
use ulmara_backend.Ramp.Lifecycle.{IsKeyed, Reaches, ledger_of}
use ulmara_backend.Ramp.Lifecycle.History.{
  Happening, delivered, reconciled, run_history, run_history_refines,
}
use ulmara_backend.Ramp.Start.{ask_provider}
use ulmara_backend.Ramp.Start.Provider.{ask_provider_overwrites, held_status}
use ulmara_backend.Ramp.Webhook.{
  RampEvent, after_event, apply_event, handle_named, handle_webhook, mark_processed, match_event,
  record_event, write_event, write_now,
}
use ulmara_backend.Sample.{
  amount_short, asset_name, open_deposit, quiet_sample, sample_db, sample_env,
}

-- the provider reports that the open deposit is complete
abbrev completion : RampEvent
completion = record {
  event_id = 1;
  event_reference = some 600;
  event_status = completed;
  event_provider_reference = none;
  event_failure = none;
  event_amount = none;
}

-- the completion arrives while the provider answers the deposit
abbrev eager_env : Env
eager_env = record sample_env {
  others =
      λ k db. if k == 1 then (handle_webhook sample_env asset_name completion true db).1 else db;
}

abbrev completed_deposit : RampTx
completed_deposit = record open_deposit {
  status = completed;
  provider_status_raw = some completed;
  last_synced_at = some 1000;
}

ask_provider_overwrites_example :
    held_status 60 (ask_provider eager_env [] amount_short 600 open_deposit sample_db).1
    ≡ some pending
unfolding find_where handle_webhook handle_named record_event match_event find_ramp apply_event rank
    write_event write_now update_ramp mark_processed update_where after_event
ask_provider_overwrites_example =
    ask_provider_overwrites eager_env [] amount_short 600 800
      (record { provider_reference = 900; status = pending }) open_deposit completed_deposit
      sample_db refl refl refl refl

one_row-IsKeyed : (t : RampTx) → IsKeyed (t ∷ [])
unfolding find_where
one_row-IsKeyed t r u h = elim (Bool-cases (has_reference r t)) [
  | inl hit ↦ let same : t ≡ u = ground arith in rw (sym same) (ground (arith, ==-refl t.id))
  | inr miss ↦ absurd (ground arith)
]

abbrev sample_history : List Happening
sample_history = delivered asset_name completion true ∷ reconciled 600 ∷ []

run_history_refines_example :
    IsKeyed (run_history sample_env sample_history sample_db).ramp_txs
    × ((r : ℕ)
        → Reaches
            (ledger_of sample_db.ramp_txs r)
            (ledger_of (run_history sample_env sample_history sample_db).ramp_txs r))
run_history_refines_example =
    run_history_refines sample_env sample_history sample_db quiet_sample
      (one_row-IsKeyed open_deposit)
