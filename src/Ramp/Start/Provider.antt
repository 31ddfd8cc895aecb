-- ===== src/Ramp/Start/Provider.antt =====
-- Deposits and withdrawals after the ledger row exists: what the provider's answer leaves on it,
-- and what a withdrawal has checked before.
use mathlib.Core.Option
use ulmara_backend.Common.{
  List, Option, Text, all_digits, arith, false, find_where, find_where-update_where,
  find_where_sound, is_empty, length, refl, some, trim, true, update_where, ℕ, ◌==◌, ◌≡◌,
}
use ulmara_backend.World.{Db, Env, Error, Instruction, RampTx, TxStatus, err, ok}
use ulmara_backend.Money.{assert_valid_ngn_amount}
use ulmara_backend.Ramp.{describe_error, has_ramp_id, mark_failed, set_failed, update_ramp}
use ulmara_backend.Ramp.Start.{BankAccount, ask_provider, instruct, instructed, withdraw}
use ulmara_backend.Transfer.Broadcast.{enqueue}

updated_by_id :
    (i : ℕ) (f : RampTx → RampTx) (held : RampTx) (rows : List RampTx)
    → ((r : RampTx) → (f r).id ≡ r.id)
    → find_where (has_ramp_id i) rows ≡ some held
    → find_where (has_ramp_id i) (update_where (has_ramp_id i) f rows) ≡ some (f held)
updated_by_id i f held rows keeps found =
    let hit = find_where_sound (has_ramp_id i) held rows found in
    rw
      (
        find_where-update_where (has_ramp_id i) (has_ramp_id i) f (λ r. rw (keeps r) refl) rows,
        found,
      )
      (ground (arith, hit))

update_ramp_found :
    (i : ℕ) (f : RampTx → RampTx) (held : RampTx) (db : Db)
    → find_where (has_ramp_id i) db.ramp_txs ≡ some held
    → update_ramp i f db
      ≡ (ok (f held), record db { ramp_txs = update_where (has_ramp_id i) f db.ramp_txs })
unfolding update_ramp
update_ramp_found i f held db found = ground arith

-- The status that the row with an id has.
abbrev pub held_status : ℕ → Db → Option TxStatus
held_status i db = Option.map (λ t. t.status) (find_where (has_ramp_id i) db.ramp_txs)

-- When the provider answers both calls and the queue takes the job, the row ends with the status of
-- the provider's instruction, whatever status another request gave it while the provider answered.
pub ask_provider_overwrites :
    (env : Env) (email amount : Text) (reference customer : ℕ) (i : Instruction) (row held : RampTx)
    (db : Db)
    → env.create_customer email ≡ ok customer
    → env.create_instruction reference amount customer ≡ ok i
    → env.queue_up ≡ true
    → find_where (has_ramp_id row.id) (env.others 1 (env.others 0 db)).ramp_txs ≡ some held
    → held_status row.id (ask_provider env email amount reference row db).1 ≡ some i.status
unfolding ask_provider instruct enqueue
ask_provider_overwrites env email amount reference customer i row held db named told up found =
    ground (
      arith,
      update_ramp_found row.id (instructed customer i) held (env.others 1 (env.others 0 db)) found,
      updated_by_id row.id (instructed customer i) held (env.others 1 (env.others 0 db)).ramp_txs
          (λ r. refl) found,
    )

-- When the provider refuses to create the customer, its error is thrown and the row ends FAILED with
-- the error's description.
ask_provider_refused :
    (env : Env) (email amount : Text) (reference : ℕ) (e : Error) (row held : RampTx) (db : Db)
    → env.create_customer email ≡ err e
    → find_where (has_ramp_id row.id) (env.others 0 db).ramp_txs ≡ some held
    → ((ask_provider env email amount reference row db).0 ≡ err e)
      × (find_where (has_ramp_id row.id) (ask_provider env email amount reference row db).1.ramp_txs
          ≡ some (set_failed (describe_error e) held))
unfolding ask_provider mark_failed
ask_provider_refused env email amount reference e row held db named found = ground (
  arith,
  update_ramp_found row.id (set_failed (describe_error e)) held (env.others 0 db) found,
  updated_by_id row.id (set_failed (describe_error e)) held (env.others 0 db).ramp_txs (λ r. refl)
      found,
)

-- A withdrawal that answers with a row had a valid amount, a ten-digit account number, a bank and an
-- account holder, and a configured provider.
withdraw_sound :
    (env : Env) (user : ℕ) (amount : Text) (bank : BankAccount) (reference : ℕ) (row : RampTx)
    (db db' : Db)
    → withdraw env user amount bank reference db ≡ (ok row, db')
    → (assert_valid_ngn_amount amount env.ramp_min_ngn env.ramp_max_ngn db ≡ (ok tt, db))
      × (all_digits bank.account_number ≡ true)
      × ((length bank.account_number == 10) ≡ true)
      × (is_empty (trim bank.bank_code) ≡ false)
      × (is_empty (trim bank.account_name) ≡ false)
      × (env.ramp_configured ≡ true)
unfolding withdraw assert_valid_ngn_amount
withdraw_sound env user amount bank reference row db db' e =
    (ground arith, ground arith, ground arith, ground arith, ground arith, ground arith)
