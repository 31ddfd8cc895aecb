-- ===== src/Ramp.antt =====
-- src/services/ramp/ramp.service.ts: naira deposits and withdrawals. The provider is a parameter;
-- the ledger row, its status and the recorded webhook events are the state. A UUID that the code
-- draws is an argument.
pub mod Start
pub mod Webhook
pub mod Reconcile
pub mod Lifecycle
mod Tests
use ulmara_backend.Common.{
  Bool, Option, Text, find_where, first_chars, none, some, text, update_where, ℕ, ◌++◌, ◌==◌,
}
use ulmara_backend.World.{
  Db, Error, M, RampTx, TxStatus, catch, coded, completed, err, failed, http, ok, pending,
  processing, provider_failed, pure, thrown, unique_violation, ⊤, ◌>>=◌,
}

-- `RANK`
unfoldable pub rank : TxStatus → ℕ
rank pending = 0
rank processing = 1
rank failed = 2
rank completed = 3

abbrev pub has_reference : ℕ → RampTx → Bool
has_reference r t = t.reference == r

abbrev pub has_ramp_id : ℕ → RampTx → Bool
has_ramp_id i t = t.id == i

unfoldable pub find_ramp : ℕ → Db → Option RampTx
find_ramp r db = find_where (has_reference r) db.ramp_txs

-- `prisma.rampTransaction.update`, which throws when no row has the id
unfoldable pub update_ramp : ℕ → (RampTx → RampTx) → M RampTx
update_ramp i f db = elim (find_where (has_ramp_id i) db.ramp_txs) [
  | none ↦ (err (thrown (text "Record to update not found")), db)
  | some t ↦ (ok (f t), record db { ramp_txs = update_where (has_ramp_id i) f db.ramp_txs })
]

-- `describeError`
unfoldable pub describe_error : Error → Text
describe_error (provider_failed p c m s) = p ++ (text " " ++ (c ++ (text ": " ++ m)))
describe_error (http s m) = first_chars 300 m
describe_error (coded s m) = first_chars 300 m
describe_error (thrown m) = first_chars 300 m
describe_error unique_violation = text "Unique constraint failed"

abbrev pub set_failed : Text → RampTx → RampTx
set_failed reason t = record t { status = failed; failure_reason = some reason }

-- `markFailed`, which swallows the error of its update
unfoldable pub mark_failed : (id : ℕ) → Text → M ⊤
mark_failed id reason =
    catch (update_ramp id (set_failed reason) >>= λ _. pure tt) (λ (e : Error). pure tt)
