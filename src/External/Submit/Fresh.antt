-- ===== src/External/Submit/Fresh.antt =====
-- A submission whose signed bytes pass the checks.
use ulmara_backend.Common.{
  Bool, arith, false, find_where, find_where-update_where, find_where_sound, none, refl, some, text,
  true, update_where, ℕ, ◌+◌, ◌∙◌, ◌∷◌, ◌≡◌,
}
use ulmara_backend.World.{
  Db, Env, Intent, Job, Transaction, err, failed, ok, pending, process_transaction, thrown, used,
}
use ulmara_backend.External.{verify_signed_transaction}
use ulmara_backend.External.Submit.{
  after_claim, can_claim, created, insert_or_fold, insert_row, is_intent, ledger_row, link,
  link_and_enqueue, mark_used, shown, submit, verify_and_insert,
}
use ulmara_backend.External.Submit.Once.{claimed_intent, claimed_state, submit_claims}
use ulmara_backend.Transfer.{by_address, create_transaction, has_key}
use ulmara_backend.Transfer.Broadcast.{enqueue, set_status}
use ulmara_backend.Transfer.Broadcast.Budget.{is_row}

enqueue_up :
    (env : Env) (job : Job) (db : Db)
    → env.queue_up ≡ true
    → enqueue env job db ≡ (ok tt, record db { jobs = job ∷ db.jobs })
unfolding enqueue
enqueue_up env job db up = ground (arith, up)

enqueue_down :
    (env : Env) (job : Job) (db : Db)
    → env.queue_up ≡ false
    → enqueue env job db ≡ (err (thrown (text "queue unavailable")), db)
unfolding enqueue
enqueue_down env job db down = ground (arith, down)

create_free :
    (env : Env) (t : Transaction) (key : ℕ) (db : Db)
    → t.idempotency_key ≡ some key
    → find_where (has_key key) db.transactions ≡ none
    → let fresh = record t { id = db.next_id; amount = env.decimal t.amount } in
      create_transaction env t db
      ≡ (ok fresh, record db { next_id = db.next_id + 1; transactions = fresh ∷ db.transactions })
unfolding create_transaction
create_free env t key db keyed unused = ground arith

module _ (env : Env) (user id signed key : ℕ) (i : Intent) (kind : Bool) (db : Db)
    (quiet : env.others 30 db ≡ db) (unused : find_where (has_key key) db.transactions ≡ none)
    (found : find_where (is_intent id) db.intents ≡ some i)
    (open_claim : can_claim user id db.clock i ≡ true)
    (verified : verify_signed_transaction env (mark_used db.clock i) signed ≡ ok kind)
    (quiet_claimed : env.others 31 (claimed_state env user id signed key db)
      ≡ claimed_state env user id signed key db) where
  -- The ledger row of the submission.
  abbrev submitted_row : Transaction
  submitted_row = record {
    id = db.next_id;
    sender_id = user;
    recipient_account_id = none;
    recipient_address = some i.recipient;
    asset = i.asset;
    amount = env.decimal i.amount;
    network = i.chain;
    status = pending;
    tx_hash = none;
    idempotency_key = some key;
  }

  abbrev inserted : Db
  inserted = record (claimed_state env user id signed key db) {
    next_id = db.next_id + 1;
    transactions = submitted_row ∷ db.transactions;
  }

  abbrev linked : Db
  linked = record inserted {
    intents =
        update_where (is_intent id) (link db.next_id)
          (claimed_state env user id signed key db).intents;
  }

  start :
      submit env user id signed key db
      ≡ after_claim env user id signed key (claimed_state env user id signed key db)
  start = submit_claims env user id signed key i db quiet (ground (arith, unused)) found open_claim

  ledger_run :
      verify_and_insert env user id signed key (claimed_state env user id signed key db)
      ≡ (ok (created submitted_row), inserted)
  unfolding verify_and_insert insert_or_fold insert_row
  ledger_run = ground (
    arith,
    create_free env (ledger_row user key i) key (claimed_state env user id signed key db) refl
        unused,
    claimed_intent env user id signed key i db quiet (ground (arith, unused)) found open_claim,
    verified,
    quiet_claimed,
  )

  linked_intent :
      find_where (is_intent id) linked.intents ≡ some (link db.next_id (mark_used db.clock i))
  linked_intent =
      rw
        (
          find_where-update_where (is_intent id) (is_intent id) (link db.next_id) (λ a. refl)
              (claimed_state env user id signed key db).intents,
          claimed_intent env user id signed key i db quiet (ground (arith, unused)) found
              open_claim,
        )
        (ground (arith, find_where_sound (is_intent id) i db.intents found))

  -- Where the key is unused, the intent can be claimed, the signed bytes pass the checks and no other
  -- request runs meanwhile: if the queue accepts the job, the submission answers and writes one pending
  -- row with the intent's recipient, asset, amount and network under the key, queues that row once with
  -- the signed bytes, and leaves the intent used and linked to the row.
  pub submit_queued :
      env.queue_up ≡ true
      → let run = submit env user id signed key db in
        (run.0
          ≡ ok (record { row = submitted_row; sent = true; counterparty = by_address i.recipient }))
        × (run.1.transactions ≡ submitted_row ∷ db.transactions)
        × (run.1.jobs ≡ process_transaction db.next_id signed ∷ db.jobs)
        × (find_where (is_intent id) run.1.intents
            ≡ some (record i {
              status = used;
              used_at = some db.clock;
              transaction_id = some db.next_id;
            }))
  unfolding after_claim link_and_enqueue
  submit_queued up =
      let after : after_claim env user id signed key (claimed_state env user id signed key db) ≡ (
        ok (shown submitted_row),
        record linked { jobs = process_transaction db.next_id signed ∷ db.jobs },
      ) =
        ground
          (arith, ledger_run, enqueue_up env (process_transaction db.next_id signed) linked up) in
      rw (start ∙ after) (refl, refl, refl, linked_intent)

  -- If the queue refuses the job, the row stays in the ledger as failed, nothing is queued, and the
  -- intent stays used, so that no retry can create a second row for it.
  submit_unqueued :
      env.queue_up ≡ false
      → let run = submit env user id signed key db in
        (run.0 ≡ err (thrown (text "queue unavailable")))
        × (run.1.transactions
            ≡ update_where
                (is_row db.next_id)
                (set_status failed)
                (submitted_row ∷ db.transactions))
        × (run.1.jobs ≡ db.jobs)
        × (find_where (is_intent id) run.1.intents ≡ some (link db.next_id (mark_used db.clock i)))
  unfolding after_claim link_and_enqueue
  submit_unqueued down =
      let after : after_claim env user id signed key (claimed_state env user id signed key db) ≡ (
        err (thrown (text "queue unavailable")),
        record linked {
          transactions =
              update_where (is_row db.next_id) (set_status failed)
                (submitted_row ∷ db.transactions);
        },
      ) =
        ground (
          arith,
          ledger_run,
          enqueue_down env (process_transaction db.next_id signed) linked down,
        ) in
      rw (start ∙ after) (refl, refl, refl, linked_intent)
