-- ===== src/External/Submit.antt =====
-- `submit`: the replay lookup, the claim of the intent, and what follows a claim.
pub mod Once
pub mod Fresh
use ulmara_backend.Common.{
  Bool, exists_where, false, find_where, if◌then◌else◌, is_some, leb, ltb, none, not, some, text,
  true, update_where, ℕ, ◌&&◌, ◌==◌,
}
use ulmara_backend.World.{
  Env, Error, Intent, IntentStatus, M, Transaction, await_others, catch, coded, failed, gets, http,
  lift, ok, or_throw, pending, process_transaction, provider_failed, pure, ready, throw, throw_if,
  thrown, unique_violation, used, ⊤, ◌>>=◌, ◌>>◌,
}
use ulmara_backend.External.{verify_signed_transaction}
use ulmara_backend.Transfer.{
  Described, create_transaction, find_by_idempotency_key, sent_party, update_transactions,
}
use ulmara_backend.Transfer.Broadcast.{enqueue, set_status}

abbrev update_intents : (Intent → Bool) → (Intent → Intent) → M Bool
update_intents p f db =
    let hit = exists_where p db.intents in
    (ok hit, record db { intents = update_where p f db.intents })

abbrev pub is_ready : IntentStatus → Bool
is_ready ready = true
is_ready used = false

abbrev pub is_intent : ℕ → Intent → Bool
is_intent id i = i.id == id

-- the `where` of the claim, and of the release of a claim
abbrev pub can_claim : (user id now : ℕ) → Intent → Bool
can_claim user id now i =
    i.id == id && (i.user_id == user && (is_ready i.status && ltb now i.expires_at))

abbrev pub can_release : ℕ → Intent → Bool
can_release id i = i.id == id && (not (is_ready i.status) && not (is_some i.transaction_id))

abbrev pub mark_used : ℕ → Intent → Intent
mark_used now i = record i { status = used; used_at = some now }

abbrev pub mark_ready : Intent → Intent
mark_ready i = record i { status = ready; used_at = none }

abbrev pub link : ℕ → Intent → Intent
link tx i = record i { transaction_id = some tx }

-- `{ ...row, direction: "sent", counterpartyAccountId: row.recipientAddress }`
abbrev pub shown : Transaction → Described
shown row = record { row = row; sent = true; counterparty = sent_party none row.recipient_address }

-- What a request that lost the claim is told.
unfoldable pub refuse_claim : (user id : ℕ) → M Described
refuse_claim user id = do
  now ← gets (λ db. db.clock)
  found ← gets (λ db. find_where (is_intent id) db.intents)
  intent ← or_throw found (http 404 (text "Transfer intent not found"))
  throw_if (not (intent.user_id == user)) (http 404 (text "Transfer intent not found"))
  throw_if (not (is_ready intent.status)) (http 409 (text "This transfer was already submitted"))
  throw_if (leb intent.expires_at now)
      (http 410 (text "This transfer intent has expired. Start the transfer again."))
  throw (http 409 (text "This transfer can no longer be submitted"))

abbrev pub ledger_row : (user key : ℕ) → Intent → Transaction
ledger_row user key intent = record {
  id = 0;
  sender_id = user;
  recipient_account_id = none;
  recipient_address = some intent.recipient;
  asset = intent.asset;
  amount = intent.amount;
  network = intent.chain;
  status = pending;
  tx_hash = none;
  idempotency_key = some key;
}

unfoldable pub release_intent : ℕ → M ⊤
release_intent id = update_intents (can_release id) mark_ready >> pure tt

-- What the verification and the insert end in: a row of this request, or the row of another request
-- that won the race on the key.
pub data Ledger : Type 0 where
  created won_by_other : Transaction → Ledger

-- The `catch` of a lost race on the unique key: the intent is released, and the winner is shown.
unfoldable pub fold_key : (user key id : ℕ) → Error → M Ledger
fold_key user key id (http status message) = throw (http status message)
fold_key user key id (coded status message) = throw (coded status message)
fold_key user key id (provider_failed provider failure message status) =
    throw (provider_failed provider failure message status)
fold_key user key id (thrown message) = throw (thrown message)
fold_key user key id unique_violation = do
  found ← find_by_idempotency_key key user
  winner ← or_throw found unique_violation
  release_intent id
  pure (won_by_other winner)

unfoldable pub insert_row : Env → (user key : ℕ) → Intent → M Ledger
insert_row env user key intent = do
  row ← create_transaction env (ledger_row user key intent)
  pure (created row)

unfoldable pub insert_or_fold : Env → (user key id : ℕ) → Intent → M Ledger
insert_or_fold env user key id intent =
    catch (insert_row env user key intent) (fold_key user key id)

unfoldable pub verify_and_insert : Env → (user id signed key : ℕ) → M Ledger
verify_and_insert env user id signed key = do
  found ← gets (λ db. find_where (is_intent id) db.intents)
  intent ← or_throw found (thrown (text "the intent is gone"))
  lift (verify_signed_transaction env intent signed)
  await_others env 31
  insert_or_fold env user key id intent

-- The link of the intent to its row, and the enqueue.
unfoldable pub link_and_enqueue : Env → (id signed : ℕ) → Transaction → M Described
link_and_enqueue env id signed row = do
  update_intents (is_intent id) (link row.id)
  enqueue env (process_transaction row.id signed)
  pure (shown row)

abbrev fail_row : (id : ℕ) → Error → M Described
fail_row id e = update_transactions (λ t. t.id == id) (set_status failed) >> throw {A = Described} e

-- What follows a claim: before the row exists a failure releases the intent, and after that a failure
-- marks the row as failed and keeps the intent used.
unfoldable pub after_claim : Env → (user id signed key : ℕ) → M Described
after_claim env user id signed key = do
  ledger ←
      catch (verify_and_insert env user id signed key)
        λ e. release_intent id >> throw {A = Ledger} e
  elim ledger [
    | won_by_other row ↦ pure (shown row)
    | created row ↦ catch (link_and_enqueue env id signed row) (fail_row row.id)
  ]

unfoldable pub claim_or_refuse : Env → (user id signed key : ℕ) → M Described
claim_or_refuse env user id signed key = do
  now ← gets (λ db. db.clock)
  claimed ← update_intents (can_claim user id now) (mark_used now)
  raced ← find_by_idempotency_key key user
  let lost : M Described = elim raced [ some row ↦ pure (shown row) | none ↦ refuse_claim user id ]
  if claimed then after_claim env user id signed key else lost

-- `submit`
unfoldable pub submit : Env → (user id signed key : ℕ) → M Described
submit env user id signed key = do
  existing ← find_by_idempotency_key key user
  elim existing [
    | some row ↦ pure (shown row)
    | none ↦ await_others env 30 >> claim_or_refuse env user id signed key
  ]
