-- ===== src/Payment.antt =====
-- src/services/payment/payment.service.ts: payment requests and their links. A stored amount is the
-- text that the decimal column prints.
pub mod Fulfil
use mathlib.Core.Option
mod Tests
use ulmara_backend.Common.{
  Bool, Option, Text, exists_where, false, find_where, if◌then◌else◌, is_id, leb, ltb, none, not,
  some, text, text_eq, true, update_where, ℕ, ◌&&◌, ◌+◌, ◌==◌, ◌∷◌,
}
use ulmara_backend.World.{
  Db, Env, Error, M, PaymentRequest, RequestStatus, Transaction, TxStatus, await_others, cancelled,
  coded, completed, err, expired_request, fulfilled, gets, modify, ok, open_request, or_throw,
  throw, throw_if, thrown, unique_violation, ⊤, ◌>>=◌, ◌>>◌,
}

pub record RequestInput : Type 0 where
  pub wanted_asset : Option Text
  pub wanted_symbol : Option Text
  pub wanted_amount : Option Text
  pub wanted_expiry : Option ℕ
  pub wanted_note : Option Text

abbrev pub has_request_id : ℕ → PaymentRequest → Bool
has_request_id i r = r.id == i

abbrev text_or : Option Text → Text → Text
text_or none t = t
text_or (some a) t = a

abbrev stored_amount : Env → Option Text → Option Text
stored_amount env none = none
stored_amount env (some a) = some (env.decimal a)

-- `createRequest`, which answers the request's id
unfoldable create_request : Env → (user : ℕ) → RequestInput → M ℕ
create_request env user input db =
    let row : PaymentRequest = record {
      id = db.next_id;
      user_id = user;
      asset = text_or input.wanted_asset (text_or input.wanted_symbol (text "ETH"));
      amount = stored_amount env input.wanted_amount;
      note = input.wanted_note;
      status = open_request;
      expires_at = input.wanted_expiry;
      fulfilled_transaction_id = none;
      fulfilled_at = none;
    } in
    (
      ok db.next_id,
      record db { next_id = db.next_id + 1; payment_requests = row ∷ db.payment_requests },
    )

abbrev pub is_open : RequestStatus → Bool
is_open open_request = true
is_open _ = false

-- `expiresAt < now`, and `expiresAt <= now`
abbrev is_before : Option ℕ → ℕ → Bool
is_before none now = false
is_before (some e) now = ltb e now

abbrev pub is_reached : Option ℕ → ℕ → Bool
is_reached none now = false
is_reached (some e) now = leb e now

abbrev set_expired : PaymentRequest → PaymentRequest
set_expired r = record r { status = expired_request }

unfoldable pub expire_request : ℕ → M ⊤
expire_request i = modify λ db. record db {
  payment_requests = update_where (has_request_id i) set_expired db.payment_requests;
}

-- The public shape of a request: no internal user id; the requester's account id is none where the
-- program answers "".
pub record PublicRequest : Type 0 where
  pub public_id : ℕ
  pub public_status : RequestStatus
  pub public_amount : Option Text
  pub public_asset : Text
  pub public_note : Option Text
  pub requester_account : Option ℕ
  pub public_expiry : Option ℕ

abbrev pub account_id_of : ℕ → Db → Option ℕ
account_id_of user db =
    Option.map (λ row. row.account_id) (find_where (λ row. row.user_id == user) db.account_ids)

abbrev published : PaymentRequest → Db → PublicRequest
published r db = record {
  public_id = r.id;
  public_status = r.status;
  public_amount = r.amount;
  public_asset = r.asset;
  public_note = r.note;
  requester_account = account_id_of r.user_id db;
  public_expiry = r.expires_at;
}

abbrev pub not_found : Error
not_found = coded 404 (text "Payment request not found")

-- `getRequest`, which expires an open request whose time has passed
unfoldable get_request : ℕ → M PublicRequest
get_request i = do
  found ← gets (λ db. find_where (has_request_id i) db.payment_requests)
  r ← or_throw found not_found
  now ← gets (λ db. db.clock)
  let late = expire_request i >> gets (published (set_expired r))
  if is_before r.expires_at now && is_open r.status then late else gets (published r)

-- `transaction.recipientAccountId !== ownerAccount?.accountId`: null differs from undefined.
abbrev pub pays_account : Option ℕ → Option ℕ → Bool
pays_account none owner = false
pays_account (some a) owner = is_id owner a

abbrev pub amount_agrees : Option Text → Text → Bool
amount_agrees none paid = true
amount_agrees (some asked) paid = text_eq asked paid

abbrev pub is_completed : TxStatus → Bool
is_completed completed = true
is_completed _ = false

abbrev pub is_paid_by : (id payer : ℕ) → Transaction → Bool
is_paid_by id payer t = t.id == id && t.sender_id == payer

-- a transaction that is missing has no status
abbrev completed_row : Option Transaction → Option Transaction
completed_row none = none
completed_row (some t) = if is_completed t.status then some t else none

abbrev pub matches_request : PaymentRequest → Option ℕ → Transaction → Bool
matches_request r owner t =
    pays_account t.recipient_account_id owner
    && (text_eq t.asset r.asset && amount_agrees r.amount t.amount)

abbrev pub set_fulfilled : (transaction now : ℕ) → PaymentRequest → PaymentRequest
set_fulfilled transaction now r = record r {
  status = fulfilled;
  fulfilled_transaction_id = some transaction;
  fulfilled_at = some now;
}

-- another row than `i` that the transaction settles
abbrev pub settles_other : (i transaction : ℕ) → PaymentRequest → Bool
settles_other i transaction r = is_id r.fulfilled_transaction_id transaction && not (r.id == i)

-- The last update, which throws when the row is gone: `fulfilledTransactionId` is unique in the table,
-- and a row may be given the one that it has.
unfoldable pub write_fulfilled : (i transaction : ℕ) → M PaymentRequest
write_fulfilled i transaction db =
    let done = set_fulfilled transaction db.clock in
    elim (find_where (has_request_id i) db.payment_requests) [
      | none ↦ (err (thrown (text "Record to update not found")), db)
      | some r ↦
          if exists_where (settles_other i transaction) db.payment_requests
          then (err unique_violation, db)
          else (
            ok (done r),
            record db {
              payment_requests = update_where (has_request_id i) done db.payment_requests;
            },
          )
    ]

-- The checks of the payer's transaction, and the update; other requests may run in between.
unfoldable pub pay_request : Env → (i payer transaction : ℕ) → PaymentRequest → M PaymentRequest
pay_request env i payer transaction r = do
  throw_if (r.user_id == payer)
      (coded 400 (text "A payment request cannot be fulfilled by its owner"))
  owner ← gets (account_id_of r.user_id)
  found ← gets (λ db. find_where (is_paid_by transaction payer) db.transactions)
  t ←
      or_throw (completed_row found)
        (coded 400 (text "A completed transaction from the payer is required"))
  throw_if (not (matches_request r owner t))
      (coded 400 (text "Transaction does not match this payment request"))
  await_others env 0
  write_fulfilled i t.id

-- "Payment request is " and the status in lower case
unfoldable pub closed_message : RequestStatus → Text
closed_message open_request = text "Payment request is open"
closed_message fulfilled = text "Payment request is fulfilled"
closed_message expired_request = text "Payment request is expired"
closed_message cancelled = text "Payment request is cancelled"

-- `fulfillRequest`
unfoldable pub fulfill_request : Env → (i payer transaction : ℕ) → M PaymentRequest
fulfill_request env i payer transaction = do
  found ← gets (λ db. find_where (has_request_id i) db.payment_requests)
  r ← or_throw found not_found
  throw_if (not (is_open r.status)) (coded 409 (closed_message r.status))
  now ← gets (λ db. db.clock)
  let expired =
      expire_request i
      >> throw {A = PaymentRequest} (coded 409 (text "Payment request has expired"))
  if is_reached r.expires_at now then expired else pay_request env i payer transaction r
