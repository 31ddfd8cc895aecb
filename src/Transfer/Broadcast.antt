-- ===== src/Transfer/Broadcast.antt =====
-- `getById`, `getStatus` and `broadcast`: the caller sees a transaction that it sent or receives,
-- and claims a pending one before the signed bytes are queued.
pub mod Budget
pub mod Claim
pub mod Recipient
use mathlib.Core.Option
use ulmara_backend.Common.{
  Bool, Option, false, find_where, if◌then◌else◌, is_id, is_some, none, not, some, text, true, ℕ,
  ◌&&◌, ◌==◌, ◌||◌, ◌∷◌,
}
use ulmara_backend.World.{
  Db, Env, Error, Job, M, Transaction, TxStatus, await_others, catch, coded, err, gets, ok,
  or_throw, pending, process_transaction, processing, pure, throw, thrown, ⊤, ◌>>=◌, ◌>>◌,
}
use ulmara_backend.Transfer.{
  Counterparty, Described, by_account, sent_party, unknown, update_transactions,
}

abbrev pub account_of : ℕ → Db → Option ℕ
account_of user db =
    Option.map (λ row. row.account_id) (find_where (λ row. row.user_id == user) db.account_ids)

-- `OR: [{ senderId: userId }, ...(account ? [{ recipientAccountId: account }] : [])]`
abbrev is_received : Option ℕ → Transaction → Bool
is_received none t = false
is_received (some account) t = is_id t.recipient_account_id account

abbrev pub is_visible : ℕ → Option ℕ → (id : ℕ) → Transaction → Bool
is_visible user account id t = t.id == id && (t.sender_id == user || is_received account t)

-- the other side of a transfer, as `getById` shows it
abbrev sender_account : Option ℕ → Counterparty
sender_account none = unknown
sender_account (some account) = by_account account

abbrev pub seen_by : ℕ → Db → Transaction → Described
seen_by user db t = record {
  row = t;
  sent = t.sender_id == user;
  counterparty =
      if t.sender_id == user
      then sent_party t.recipient_account_id t.recipient_address
      else sender_account (account_of t.sender_id db);
}

-- `getById`
unfoldable pub get_by_id : (user id : ℕ) → M Described
get_by_id user id = do
  account ← gets (account_of user)
  found ← gets (λ db. find_where (is_visible user account id) db.transactions)
  t ← or_throw found (coded 404 (text "Transaction not found"))
  gets (λ db. seen_by user db t)

-- `getStatus`
unfoldable get_status : (user id : ℕ) → M (ℕ × TxStatus × Option ℕ)
get_status user id = do
  found ← get_by_id user id
  pure (found.row.id, found.row.status, found.row.tx_hash)

abbrev pub is_pending : TxStatus → Bool
is_pending pending = true
is_pending _ = false

abbrev is_processing : TxStatus → Bool
is_processing processing = true
is_processing _ = false

abbrev pub set_status : TxStatus → Transaction → Transaction
set_status s t = record t { status = s }

abbrev pub claimable : (user id : ℕ) → Transaction → Bool
claimable user id t = t.id == id && (t.sender_id == user && is_pending t.status)

-- `{ id, status: "PROCESSING", txHash: null }`
abbrev pub releasable : ℕ → Transaction → Bool
releasable id t = t.id == id && (is_processing t.status && not (is_some t.tx_hash))

abbrev pub shown_processing : Described → Described
shown_processing d = record d { row = set_status processing d.row }

unfoldable pub enqueue : Env → Job → M ⊤
enqueue env job db =
    if env.queue_up
    then (ok tt, record db { jobs = job ∷ db.jobs })
    else (err (thrown (text "queue unavailable")), db)

-- The enqueue behind a claim, and the release of the claim when the queue refuses the job; other
-- requests may run before each.
unfoldable pub queue_or_release : Env → (id signed : ℕ) → Described → M Described
queue_or_release env id signed seen = do
  await_others env 1
  let queued = enqueue env (process_transaction id signed) >> pure (shown_processing seen)
  let release = λ (e : Error).
      await_others env 2
      >> update_transactions (releasable id) (set_status pending)
      >> throw {A = Described} e
  catch queued release

-- The claim and what follows it.
unfoldable pub claim_and_enqueue : Env → (user id signed : ℕ) → Described → M Described
claim_and_enqueue env user id signed seen = do
  claimed ← update_transactions (claimable user id) (set_status processing)
  if claimed then queue_or_release env id signed seen else pure (shown_processing seen)

-- `broadcast`
unfoldable pub broadcast : Env → (user id signed : ℕ) → M Described
broadcast env user id signed = do
  seen ← get_by_id user id
  elim seen.row.status [
    | pending ↦ await_others env 0 >> claim_and_enqueue env user seen.row.id signed seen
    | processing ↦ pure seen
    | _ ↦ throw (coded 409 (text "Transaction is no longer awaiting broadcast"))
  ]
