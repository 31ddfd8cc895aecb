-- ===== src/Ramp/Lifecycle/History.antt =====
-- Any history of webhooks and reconciliations refines the abstract ledger.
use ulmara_backend.Common.{Bool, List, Option, Text, [], arith, some, ℕ, ◌∷◌, ◌≡◌, ◌≤◌}
use ulmara_backend.World.{Db, Env, TxStatus, completed, failed, pending, processing}
use ulmara_backend.Ramp.{rank}
use ulmara_backend.Ramp.Lifecycle.{
  Advances, IsKeyed, IsStep, Reaches, after, here, ledger_of, moves, stays,
}
use ulmara_backend.Ramp.Lifecycle.Steps.{handle_webhook-IsStep, reconcile-IsStep}
use ulmara_backend.Ramp.Reconcile.{reconcile}
use ulmara_backend.Ramp.Webhook.{RampEvent, handle_webhook}

-- an operation that changes the status of rows, with what it is given
pub data Happening : Type 0 where
  delivered : (provider : Text) → RampEvent → (valid : Bool) → Happening
  reconciled : (reference : ℕ) → Happening

unfoldable pub happen : Env → Happening → Db → Db
happen env (delivered provider event valid) db = (handle_webhook env provider event valid db).1
happen env (reconciled reference) db = (reconcile env reference db).1

unfoldable pub run_history : Env → List Happening → Db → Db
run_history env [] db = db
run_history env (h ∷ hs) db = run_history env hs (happen env h db)

happen-IsStep :
    (env : Env) (h : Happening) (db : Db)
    → ((k : ℕ) (d : Db) → env.others k d ≡ d)
    → IsKeyed db.ramp_txs
    → IsStep db.ramp_txs (happen env h db).ramp_txs
unfolding happen
happen-IsStep env (delivered provider event valid) db quiet keyed =
    handle_webhook-IsStep env quiet provider event valid db keyed
happen-IsStep env (reconciled reference) db quiet keyed =
    reconcile-IsStep env quiet reference db keyed

-- The ledger refines the abstract one: whatever webhooks and reconciliations run one after another, in
-- any order, with whatever events and answers, each reference's status reaches its later one by steps
-- that only move forward by RANK, and rows stay found under their own ids.
pub run_history_refines :
    (env : Env) (hs : List Happening) (db : Db)
    → ((k : ℕ) (d : Db) → env.others k d ≡ d)
    → IsKeyed db.ramp_txs
    → IsKeyed (run_history env hs db).ramp_txs
      × ((r : ℕ) → Reaches (ledger_of db.ramp_txs r) (ledger_of (run_history env hs db).ramp_txs r))
unfolding run_history
run_history_refines env [] db quiet keyed = (keyed, λ r. here (ledger_of db.ramp_txs r))
run_history_refines env (h ∷ hs) db quiet keyed =
    let step = happen-IsStep env h db quiet keyed in
    let rest = run_history_refines env hs (happen env h db) quiet step.0 in
    (
      rest.0,
      λ r.
          after (ledger_of db.ramp_txs r) (ledger_of (happen env h db).ramp_txs r) _ (step.1 r)
            (rest.1 r),
    )

rank_bound : (s : TxStatus) → rank s ≤ rank completed
unfolding rank
rank_bound pending = omega arith
rank_bound processing = omega arith
rank_bound completed = omega arith
rank_bound failed = omega arith

Advances-completed :
    (o o' : Option TxStatus) → Advances o o' → o ≡ some completed → o' ≡ some completed
Advances-completed _ _ (stays o) h = h
Advances-completed _ _ (moves s s' up) h = absurd (ground (arith, rank_bound s'))

Reaches-completed :
    (o o' : Option TxStatus) → Reaches o o' → o ≡ some completed → o' ≡ some completed
Reaches-completed _ _ (here o) h = h
Reaches-completed _ _ (after a b c step rest) h =
    Reaches-completed b c rest (Advances-completed a b step h)

-- A completed row stays completed under every history of webhooks and reconciliations.
run_history_completed :
    (env : Env) (hs : List Happening) (db : Db) (r : ℕ)
    → ((k : ℕ) (d : Db) → env.others k d ≡ d)
    → IsKeyed db.ramp_txs
    → ledger_of db.ramp_txs r ≡ some completed
    → ledger_of (run_history env hs db).ramp_txs r ≡ some completed
run_history_completed env hs db r quiet keyed done =
    Reaches-completed _ _ ((run_history_refines env hs db quiet keyed).1 r) done
