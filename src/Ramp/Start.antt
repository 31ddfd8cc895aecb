-- ===== src/Ramp/Start.antt =====
-- `deposit` and `withdraw`: the ledger row is created first, then the provider is asked, and its
-- answer is written on the row.
pub mod Provider
use ulmara_backend.Common.{
  Text, all_digits, exists_where, find_where, if◌then◌else◌, is_empty, length, none, not, some,
  text, trim, ℕ, ◌&&◌, ◌+◌, ◌==◌, ◌∷◌,
}
use ulmara_backend.World.{
  Env, Error, Instruction, M, RampTx, RampType, await_others, catch, deposit_type, err, gets, http,
  lift, ok, or_throw, pending, pure, reconcile_ramp, throw, throw_if, unique_violation,
  withdrawal_type, ◌>>=◌, ◌>>◌,
}
use ulmara_backend.Money.{assert_valid_ngn_amount}
use ulmara_backend.Ramp.{describe_error, find_ramp, has_reference, mark_failed, update_ramp}
use ulmara_backend.Transfer.Broadcast.{enqueue}

-- `loadUserCustomer`
unfoldable pub load_user_customer : ℕ → M Text
load_user_customer user db = elim (find_where (λ u. u.id == user) db.users) [
  | none ↦ (err (http 404 (text "Account not found")), db)
  | some u ↦ (ok u.email, db)
]

-- `prisma.rampTransaction.create`: the reference is unique in the table.
unfoldable pub create_ramp : Env → ℕ → RampType → Text → ℕ → M RampTx
create_ramp env user kind amount reference db =
    let fresh : RampTx = record {
      id = db.next_id;
      user_id = user;
      type = kind;
      amount_ngn = env.decimal amount;
      provider = env.ramp_name;
      reference = reference;
      status = pending;
      provider_reference = none;
      provider_customer_id = none;
      failure_reason = none;
      provider_amount_ngn = none;
      provider_status_raw = none;
      last_synced_at = none;
    } in
    if exists_where (has_reference reference) db.ramp_txs
    then (err unique_violation, db)
    else (ok fresh, record db { next_id = db.next_id + 1; ramp_txs = fresh ∷ db.ramp_txs })

abbrev pub instructed : ℕ → Instruction → RampTx → RampTx
instructed customer i t = record t {
  provider_reference = some i.provider_reference;
  provider_customer_id = some customer;
  status = i.status;
}

-- The second `try`: the provider's instruction, the row's update, and the reconciliation job.
-- Other requests run while the provider answers.
unfoldable pub instruct : Env → ℕ → Text → ℕ → ℕ → M RampTx
instruct env reference amount customer id = do
  i ← lift (env.create_instruction reference amount customer)
  await_others env 1
  updated ← update_ramp id (instructed customer i)
  enqueue env (reconcile_ramp id)
  pure updated

abbrev failing : ℕ → Error → M RampTx
failing id e = mark_failed id (describe_error e) >> throw {A = RampTx} e

-- What follows the creation of the row, in both operations; a withdrawal's bank account goes to the
-- provider alone.
unfoldable pub ask_provider : Env → Text → Text → ℕ → RampTx → M RampTx
ask_provider env email amount reference row = do
  await_others env 0
  customer ←
      catch (lift (env.create_customer email))
        (λ (e : Error). mark_failed row.id (describe_error e) >> throw {A = ℕ} e)
  catch (instruct env reference amount customer row.id) (failing row.id)

-- `deposit`
unfoldable deposit : Env → (user : ℕ) → (amount : Text) → (reference : ℕ) → M RampTx
deposit env user amount reference = do
  assert_valid_ngn_amount amount env.ramp_min_ngn env.ramp_max_ngn
  throw_if (not env.ramp_configured)
      (http 503 (text "Naira deposits are temporarily unavailable. Please try again shortly."))
  email ← load_user_customer user
  existing ← gets (find_ramp reference)
  elim existing [
    | some row ↦ pure row
    | none ↦
        create_ramp env user deposit_type amount reference
        >>= ask_provider env email amount reference
  ]

pub record BankAccount : Type 0 where
  pub account_number : Text
  pub bank_code : Text
  pub account_name : Text

-- `withdraw`
unfoldable pub withdraw :
    Env → (user : ℕ) → (amount : Text) → BankAccount → (reference : ℕ) → M RampTx
withdraw env user amount bank reference = do
  assert_valid_ngn_amount amount env.ramp_min_ngn env.ramp_max_ngn
  throw_if (not (all_digits bank.account_number && length bank.account_number == 10))
      (http 400 (text "Enter a valid 10-digit Nigerian account number"))
  throw_if (is_empty (trim bank.bank_code)) (http 400 (text "Select a bank"))
  throw_if (is_empty (trim bank.account_name)) (http 400 (text "Enter the account holder's name"))
  throw_if (not env.ramp_configured)
      (http 503 (text "Naira withdrawals are temporarily unavailable. Please try again shortly."))
  email ← load_user_customer user
  row ← create_ramp env user withdrawal_type amount reference
  ask_provider env email amount reference row

-- `getStatus`
unfoldable get_ramp_status : (user reference : ℕ) → M RampTx
get_ramp_status user reference = do
  found ← gets (λ db. find_where (λ t. has_reference reference t && t.user_id == user) db.ramp_txs)
  or_throw found (http 404 (text "Ramp transaction not found"))
