-- ===== src/Transfer/Send/Replay.antt =====
-- What an answer of `send` stands for: the right PIN, and the stored row of the caller's key.
-- A transfer is answered only to a caller whose PIN is right while no lockout is in force.
use ulmara_backend.Common.{
  Option, Text, ap, arith, eq_of_text_eq, false, find_where, is_empty, is_id, none, refl, some, sym,
  text_eq, true, update_where, ℕ, ◌==◌, ◌∙◌, ◌≡◌,
}
use ulmara_backend.World.{Db, Env, Error, Result, Transaction, catch, err, ok, ⊤, ◌>>=◌}
use ulmara_backend.Lockout.{
  active_lock, assert_pin_authorized, get_lock_state, lock_field, pin_hash_of, reset, user_of,
}
use ulmara_backend.Lockout.Laws.{assert_pin_authorized_sound}
use ulmara_backend.Money.{is_plain_decimal, normalize_amount}
use ulmara_backend.Money.Normal.{IsTrimmed, normalize_amount-units}
use ulmara_backend.Money.Units.{units}
use ulmara_backend.Transfer.{
  Described, SendInput, create_transaction, describe_created, find_by_idempotency_key, has_key,
  matches_intent, own_row, same_chain,
}
use ulmara_backend.Transfer.Send.{
  check_recipient, create_once, create_or_fold, fold_race, new_row, send, send_new, send_to,
}

-- A send that answers found no lockout in force, and then, after what other requests did meanwhile,
-- that the given PIN matches the sender's.
pub send_requires_pin :
    (env : Env) (input : SendInput) (r : Described) (db db' : Db)
    → send env input db ≡ (ok r, db')
    → (hash : Text) × (pin_hash_of (user_of input.sender_id (env.others 40 db)) ≡ some hash)
      × (env.compare_hash input.pin hash ≡ true)
      × (active_lock (lock_field (user_of input.sender_id db)) db.clock ≡ none)
unfolding send
send_requires_pin env input r db db' e =
    let check = assert_pin_authorized env input.sender_id input.pin db in
    let passed : check.0 ≡ ok tt = ground arith in
    let (hash, has, right, free, _) =
      assert_pin_authorized_sound env input.sender_id input.pin db check.1
        (ap (λ (x : Result ⊤). (x, check.1)) passed) in
    (hash, has, right, free)

module _ (env : Env) (input : SendInput) where
  -- The row that the table holds under the input's key, if it is the sender's.
  abbrev stored_row : Db → Option Transaction
  stored_row db =
      own_row input.sender_id (find_where (has_key input.idempotency_key) db.transactions)

  create_transaction-stored :
      (address : Text) (t : Transaction) (db db' : Db)
      → create_transaction env (new_row input address) db ≡ (ok t, db')
      → stored_row db' ≡ some t
  unfolding create_transaction find_where
  create_transaction-stored address t db db' e = ground arith

  create_once-stored :
      (address : Text) (r : Described) (db db' : Db)
      → create_once env input address db ≡ (ok r, db')
      → stored_row db' ≡ some r.row
  unfolding create_once find_by_idempotency_key describe_created
  create_once-stored address r db db' e =
      ground (arith, create_transaction-stored address r.row (env.others 12 db) db')

  fold_race-stored :
      (address : Text) (x : Error) (r : Described) (db db' : Db)
      → fold_race input address x db ≡ (ok r, db')
      → stored_row db' ≡ some r.row
  unfolding fold_race find_by_idempotency_key describe_created
  fold_race-stored address x r db db' e = ground arith

  create_or_fold-stored :
      (address : Text) (r : Described) (db db' : Db)
      → create_or_fold env input address db ≡ (ok r, db')
      → stored_row db' ≡ some r.row
  unfolding create_or_fold
  create_or_fold-stored address r db db' =
      catch_cases (create_once env input address db).0 (create_once env input address db).1 refl
    where
      catch_cases :
          (q : Result Described) (d : Db)
          → create_once env input address db ≡ (q, d)
          → catch (λ _. (q, d)) (fold_race input address) d ≡ (ok r, db')
          → stored_row db' ≡ some r.row
      catch_cases (ok a) d run e = create_once-stored address r db db' (run ∙ e)
      catch_cases (err x) d run e = fold_race-stored address x r d db' e

  send_to-stored :
      (address : Text) (r : Described) (db db' : Db)
      → send_to env input address db ≡ (ok r, db')
      → stored_row db' ≡ some r.row
  unfolding send_to find_by_idempotency_key describe_created
  send_to-stored address r db db' e =
      ground (arith, create_or_fold-stored address r (env.others 11 (env.others 10 db)) db')

  send_new-stored :
      (r : Described) (db db' : Db)
      → send_new env input db ≡ (ok r, db')
      → stored_row db' ≡ some r.row
  unfolding send_new
  send_new-stored r db db' =
      bind_cases (check_recipient env input db).0 (check_recipient env input db).1
    where
      bind_cases :
          (q : Result Text) (d : Db)
          → ◌>>=◌ (λ _. (q, d)) (send_to env input) d ≡ (ok r, db')
          → stored_row db' ≡ some r.row
      bind_cases (ok a) d e = send_to-stored a r d db' e
      bind_cases (err x) d e = absurd (cc)

send_row-stored :
    (env : Env) (input : SendInput) (r : Described) (db db' : Db)
    → send env input db ≡ (ok r, db')
    → stored_row env input db' ≡ some r.row
unfolding send find_by_idempotency_key describe_created
send_row-stored env input r db db' e = ground (
  arith,
  send_new-stored env input r (assert_pin_authorized env input.sender_id input.pin db).1 db',
)

own_row_sound :
    (sender : ℕ) (found : Option Transaction) (t : Transaction)
    → own_row sender found ≡ some t
    → (found ≡ some t) × (t.sender_id ≡ sender)
own_row_sound sender none t h = absurd (cc)
own_row_sound sender (some u) t h = (ground arith, ground arith)

-- The row that `send` answers with, fresh or replayed, is the first row that the table then holds under
-- the input's idempotency key, and its sender is the caller, whatever other requests do.
pub send-stored :
    (env : Env) (input : SendInput) (r : Described) (db db' : Db)
    → send env input db ≡ (ok r, db')
    → (find_where (λ t. is_id t.idempotency_key input.idempotency_key) db'.transactions
        ≡ some r.row)
      × (r.row.sender_id ≡ input.sender_id)
send-stored env input r db db' e =
    own_row_sound input.sender_id _ r.row (send_row-stored env input r db db' e)

-- With no lockout in force and no other request during the PIN check, a retry with the right PIN that
-- describes the caller's stored transfer of its key answers with that row: it creates nothing, sets the
-- caller's counter to 0, clears the lockout that has run out, and changes nothing else.
pub send_replay :
    (env : Env) (input : SendInput) (hash : Text) (row : Transaction) (db : Db)
    → env.others 40 db ≡ db
    → env.others 41 db ≡ db
    → pin_hash_of (user_of input.sender_id db) ≡ some hash
    → env.compare_hash input.pin hash ≡ true
    → active_lock (lock_field (user_of input.sender_id db)) db.clock ≡ none
    → is_empty input.pin ≡ false
    → find_where (λ t. is_id t.idempotency_key input.idempotency_key) db.transactions ≡ some row
    → row.sender_id ≡ input.sender_id
    → matches_intent row input input.recipient_address ≡ true
    → send env input db ≡ (
      ok (describe_created row),
      record db {
        users =
            update_where
              (λ u. u.id == input.sender_id)
              (λ u. record u { pin_failed_attempts = 0; pin_locked_until = none })
              db.users;
      },
    )
unfolding send assert_pin_authorized get_lock_state reset find_by_idempotency_key
send_replay env input hash row db calm calm' has right free given held own same =
    let checked : assert_pin_authorized env input.sender_id input.pin db
        ≡ reset input.sender_id db =
      rw (free, calm, has) (ground (arith, calm')) in
    ground (arith, checked)

-- A stored transfer that a retry is taken for has the retry's network and asset, and its amount has
-- the same value at every scale, however the two amounts are written.
matches_intent_sound :
    (t : Transaction) (input : SendInput) (address : Option Text) (d : ℕ)
    → matches_intent t input address ≡ true
    → is_plain_decimal t.amount ≡ true
    → is_plain_decimal input.amount ≡ true
    → IsTrimmed t.amount
    → IsTrimmed input.amount
    → (same_chain t.network input.network ≡ true)
      × (t.asset ≡ input.asset)
      × (units d t.amount ≡ units d input.amount)
unfolding matches_intent
matches_intent_sound t input address d h plain plain' trimmed trimmed' =
    let alike : text_eq (normalize_amount t.amount) (normalize_amount input.amount) ≡ true =
      ground arith in
    let equal = eq_of_text_eq (normalize_amount t.amount) (normalize_amount input.amount) alike in
    let asset : text_eq t.asset input.asset ≡ true = ground arith in
    (
      ground arith,
      eq_of_text_eq t.asset input.asset asset,
      sym (normalize_amount-units d t.amount trimmed plain)
          ∙ ap (units d) equal
          ∙ normalize_amount-units d input.amount trimmed' plain',
    )
