-- ===== src/Payment/Fulfil.antt =====
-- `fulfillRequest`: which transaction may settle which request, and how often.
use mathlib.Core.Option
use mathlib.Core.Path.{subst}
use ulmara_backend.Common.{
  List, Option, Option-cases, Text, ap, arith, eq_of_text_eq, exists_where, false, find_where,
  find_where-update_where, find_where_sound, inl, inr, is_id, none, not, refl, some, sym, true,
  update_where, ℕ, ◌&&◌, ◌==◌, ◌≡◌, ◌⊎◌,
}
use ulmara_backend.World.{
  AccountRow, Db, Env, PaymentRequest, RequestStatus, Transaction, TxStatus, coded, completed, err,
  fulfilled, ok, open_request,
}
use ulmara_backend.Payment.{
  account_id_of, amount_agrees, closed_message, fulfill_request, has_request_id, is_completed,
  is_open, is_paid_by, is_reached, matches_request, pay_request, pays_account, set_fulfilled,
  settles_other, write_fulfilled,
}

module _ (env : Env) (i payer transaction : ℕ) (db db' : Db) (answer : PaymentRequest) where
  write_fulfilled_sound :
      write_fulfilled i transaction db ≡ (ok answer, db')
      → (exists_where (settles_other i transaction) db.payment_requests ≡ false)
        × ((r : PaymentRequest) × (find_where (has_request_id i) db.payment_requests ≡ some r)
            × (answer ≡ set_fulfilled transaction db.clock r)
            × (db' ≡ record db {
              payment_requests =
                  update_where
                    (has_request_id i)
                    (set_fulfilled transaction db.clock)
                    db.payment_requests;
            }))
  unfolding write_fulfilled
  write_fulfilled_sound e =
      elim (Option-cases (find_where (has_request_id i) db.payment_requests)) [
        | inl missing ↦ absurd (ground arith)
        | inr (r, found) ↦ (ground arith, (r, found, ground arith, ground arith))
      ]

  module _ (r : PaymentRequest) where
    pay_request_sound :
        pay_request env i payer transaction r db ≡ (ok answer, db')
        → (t : Transaction) × (find_where (is_paid_by transaction payer) db.transactions ≡ some t)
          × ((r.user_id == payer) ≡ false)
          × (is_completed t.status ≡ true)
          × (matches_request r (account_id_of r.user_id db) t ≡ true)
          × (write_fulfilled i t.id (env.others 0 db) ≡ (ok answer, db'))
    unfolding pay_request
    pay_request_sound e =
        elim (Option-cases (find_where (is_paid_by transaction payer) db.transactions)) [
          | inl missing ↦ absurd (ground arith)
          | inr (t, paid) ↦ (t, paid, ground arith, ground arith, ground arith, ground arith)
        ]

    fulfill_request_opened :
        find_where (has_request_id i) db.payment_requests ≡ some r
        → fulfill_request env i payer transaction db ≡ (ok answer, db')
        → (is_open r.status ≡ true)
          × (is_reached r.expires_at db.clock ≡ false)
          × (pay_request env i payer transaction r db ≡ (ok answer, db'))
    unfolding fulfill_request
    fulfill_request_opened found e = (ground arith, ground arith, ground arith)

  fulfill_request_found :
      fulfill_request env i payer transaction db ≡ (ok answer, db')
      → (r : PaymentRequest) × (find_where (has_request_id i) db.payment_requests ≡ some r)
  unfolding fulfill_request
  fulfill_request_found e =
      elim (Option-cases (find_where (has_request_id i) db.payment_requests)) [
        | inl missing ↦ absurd (ground arith)
        | inr (r, found) ↦ (r, found)
      ]

is_open_sound : (s : RequestStatus) → is_open s ≡ true → s ≡ open_request
is_open_sound s h = ground arith

is_completed_sound : (s : TxStatus) → is_completed s ≡ true → s ≡ completed
is_completed_sound s h = ground arith

-- The transaction pays the account of the request's owner, in the asked asset and, where an amount is
-- asked, that amount.
abbrev pub Pays : Db → PaymentRequest → Transaction → Type 0
Pays db r t =
    ((row : AccountRow) × (find_where (λ a. a.user_id == r.user_id) db.account_ids ≡ some row)
      × (t.recipient_account_id ≡ some row.account_id))
    × (t.asset ≡ r.asset)
    × ((r.amount ≡ none) ⊎ (r.amount ≡ some t.amount))

pays_account_sound :
    (paid : Option ℕ) (owner : Option AccountRow)
    → pays_account paid (Option.map (λ row. row.account_id) owner) ≡ true
    → (row : AccountRow) × (owner ≡ some row) × (paid ≡ some row.account_id)
pays_account_sound none owner h = absurd (cc)
pays_account_sound (some a) none h = absurd (cc)
pays_account_sound (some a) (some row) h = (row, refl, ground arith)

amount_agrees_sound :
    (asked : Option Text) (paid : Text)
    → amount_agrees asked paid ≡ true
    → (asked ≡ none) ⊎ (asked ≡ some paid)
amount_agrees_sound none paid h = inl refl
amount_agrees_sound (some a) paid h = inr (ap some (eq_of_text_eq a paid h))

matches_request_sound :
    (db : Db) (r : PaymentRequest) (t : Transaction)
    → matches_request r (account_id_of r.user_id db) t ≡ true
    → Pays db r t
matches_request_sound db r t h = (
  pays_account_sound t.recipient_account_id _ (ground arith),
  eq_of_text_eq t.asset r.asset (ground arith),
  amount_agrees_sound r.amount t.amount (ground arith),
)

-- A fulfilment that succeeds found the request open and not expired, the payer is not its owner, and
-- the transaction is a completed one of the payer that pays the owner's account in the asked asset
-- and, where an amount is asked, that amount; when the row is written, after the other requests that
-- ran meanwhile, that transaction settles no other request, and the answer is the row as it then
-- stands, FULFILLED by the transaction at that time.
pub fulfill_request_sound :
    (env : Env) (i payer transaction : ℕ) (db db' : Db) (answer : PaymentRequest)
    → fulfill_request env i payer transaction db ≡ (ok answer, db')
    → (r : PaymentRequest) × (t : Transaction) × (held : PaymentRequest) × (find_where
          (λ q. q.id == i)
          db.payment_requests
        ≡ some r)
      × (find_where (λ x. x.id == transaction && x.sender_id == payer) db.transactions ≡ some t)
      × (r.status ≡ open_request)
      × (is_reached r.expires_at db.clock ≡ false)
      × ((r.user_id == payer) ≡ false)
      × (t.status ≡ completed)
      × Pays db r t
      × (exists_where
            (λ q. is_id q.fulfilled_transaction_id t.id && not (q.id == i))
            (env.others 0 db).payment_requests
          ≡ false)
      × (find_where (λ q. q.id == i) (env.others 0 db).payment_requests ≡ some held)
      × (answer ≡ record held {
        status = fulfilled;
        fulfilled_transaction_id = some t.id;
        fulfilled_at = some (env.others 0 db).clock;
      })
fulfill_request_sound env i payer transaction db db' answer e =
    let (r, found) = fulfill_request_found env i payer transaction db db' answer e in
    let (opened, early, run) =
      fulfill_request_opened env i payer transaction db db' answer r found e in
    let (t, paid, other, completed_t, matching, written) =
      pay_request_sound env i payer transaction db db' answer r run in
    let (fresh, written_row) =
      write_fulfilled_sound env i payer t.id (env.others 0 db) db' answer written in
    let (held, held_found, same, after) = written_row in
    (
      r,
      t,
      held,
      found,
      paid,
      is_open_sound r.status opened,
      early,
      other,
      is_completed_sound t.status completed_t,
      matches_request_sound db r t matching,
      fresh,
      held_found,
      same,
    )

fulfill_request_closed :
    (env : Env) (i payer transaction : ℕ) (r : PaymentRequest) (db : Db)
    → find_where (has_request_id i) db.payment_requests ≡ some r
    → is_open r.status ≡ false
    → fulfill_request env i payer transaction db ≡ (err (coded 409 (closed_message r.status)), db)
unfolding fulfill_request
fulfill_request_closed env i payer transaction r db found closed = ground arith

set_fulfilled_found :
    (i transaction now : ℕ) (r : PaymentRequest) (rows : List PaymentRequest)
    → find_where (has_request_id i) rows ≡ some r
    → find_where
        (has_request_id i)
        (update_where (has_request_id i) (set_fulfilled transaction now) rows)
      ≡ some (set_fulfilled transaction now r)
set_fulfilled_found i transaction now r rows found =
    let hit = find_where_sound (has_request_id i) r rows found in
    rw
      (
        find_where-update_where (has_request_id i) (has_request_id i)
            (set_fulfilled transaction now) (λ q. refl) rows,
        found,
      )
      (ground (arith, hit))

-- After a fulfilment that succeeds, every further attempt to fulfil the request, by any payer and
-- with any transaction, is refused with status 409 and changes nothing.
fulfill_request_once :
    (env : Env) (i payer transaction payer' transaction' : ℕ) (db db' : Db)
    (answer : PaymentRequest)
    → fulfill_request env i payer transaction db ≡ (ok answer, db')
    → fulfill_request env i payer' transaction' db'
      ≡ (err (coded 409 (closed_message fulfilled)), db')
fulfill_request_once env i payer transaction payer' transaction' db db' answer e =
    let (r, found) = fulfill_request_found env i payer transaction db db' answer e in
    let (opened, early, run) =
      fulfill_request_opened env i payer transaction db db' answer r found e in
    let (t, paid, other, completed_t, matching, written) =
      pay_request_sound env i payer transaction db db' answer r run in
    let (fresh, written_row) =
      write_fulfilled_sound env i payer t.id (env.others 0 db) db' answer written in
    let (held, held_found, same, after) = written_row in
    fulfill_request_closed env i payer' transaction'
      (set_fulfilled t.id (env.others 0 db).clock held) db'
      (subst
        (λ d.
          find_where (has_request_id i) d.payment_requests
          ≡ some (set_fulfilled t.id (env.others 0 db).clock held))
        (sym after)
        (set_fulfilled_found i t.id (env.others 0 db).clock held (env.others 0 db).payment_requests
          held_found))
      refl
