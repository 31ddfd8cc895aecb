-- ===== src/Transfer/Send/Keys.antt =====
-- One row for each idempotency key, whatever other requests do.
use ulmara_backend.Common.{
  ==_iff, Bool, List, Option-cases, Text, ap, arith, count_where, count_where-eq-zero_of_find,
  count_where-pos_of_find, find_where, inl, inr, is_id, some, ℕ, ◌≡◌, ◌≤◌, ◌⊎◌,
}
use ulmara_backend.World.{
  Chain, Db, Env, Error, Result, Result-cases, Transaction, User, catch, err, ok, ◌>>=◌,
}
use ulmara_backend.Lockout.{assert_pin_authorized}
use ulmara_backend.Lockout.Frame.{assert_pin_authorized_keeps}
use ulmara_backend.Transfer.{
  Described, SendInput, create_transaction, find_by_idempotency_key, has_key, verify_address_exists,
}
use ulmara_backend.Transfer.Send.{
  check_recipient, create_once, create_or_fold, fold_race, new_row, resolve_recipient, send,
  send_new, send_to,
}
use ulmara_backend.Transfer.Send.Replay.{send-stored}

abbrev pub KeysUnique : Db → Type 0
KeysUnique db = (key : ℕ) → count_where (has_key key) db.transactions ≤ 1

-- An insert keeps the keys unique: a key that is taken makes it throw and write nothing.
create_transaction-KeysUnique :
    (env : Env) (t : Transaction) (db : Db)
    → KeysUnique db
    → KeysUnique (create_transaction env t db).1
unfolding create_transaction count_where
create_transaction-KeysUnique env t db h key = elim (Option-cases t.idempotency_key) [
  | inl absent ↦ ground (arith, h key)
  | inr (k, given) ↦
      ground (arith, h key, count_where-eq-zero_of_find (has_key k) db.transactions, ==_iff k key)
]

-- What `send` writes are the users' PIN counters and one insert.
module _ {I : Db → Type 0} (env : Env)
    (stable : (f : List User → List User) (db : Db) → I db → I (record db { users = f db.users }))
    (others : (k : ℕ) (db : Db) → I db → I (env.others k db))
    (insert : (t : Transaction) (db : Db) → I db → I (create_transaction env t db).1)
    (input : SendInput) where
  resolve_recipient_same : (db : Db) → (resolve_recipient input db).1 ≡ db
  unfolding resolve_recipient
  resolve_recipient_same db = ground arith

  verify_address_same :
      (chain : Chain) (address : Text) (db : Db)
      → (verify_address_exists env chain address db).1 ≡ db
  unfolding verify_address_exists
  verify_address_same chain address db = ground arith

  check_recipient_keeps : (db : Db) → I db → I (check_recipient env input db).1
  unfolding check_recipient
  check_recipient_keeps db h = grind (arith, resolve_recipient_same, verify_address_same)

  create_once_keeps : (address : Text) (db : Db) → I db → I (create_once env input address db).1
  unfolding create_once find_by_idempotency_key
  create_once_keeps address db h =
      ground (arith, others 12 db h, insert (new_row input address) (env.others 12 db))

  fold_race_keeps :
      (address : Text) (e : Error) (db : Db) → I db → I (fold_race input address e db).1
  unfolding fold_race find_by_idempotency_key
  fold_race_keeps address e db h = ground arith

  create_or_fold_keeps :
      (address : Text) (db : Db) → I db → I (create_or_fold env input address db).1
  unfolding create_or_fold
  create_or_fold_keeps address db h =
      let run = create_once env input address db in
      catch_cases run.0 run.1 (create_once_keeps address db h)
    where
      catch_cases :
          (r : Result Described) (d : Db)
          → I d
          → I (catch (λ _. (r, d)) (fold_race input address) d).1
      catch_cases (ok a) d k = k
      catch_cases (err e) d k = fold_race_keeps address e d k

  send_to_keeps : (address : Text) (db : Db) → I db → I (send_to env input address db).1
  unfolding send_to find_by_idempotency_key
  send_to_keeps address db h = ground (
    arith,
    others 10 db h,
    others 11 (env.others 10 db),
    create_or_fold_keeps address (env.others 11 (env.others 10 db)),
  )

  send_new_keeps : (db : Db) → I db → I (send_new env input db).1
  unfolding send_new
  send_new_keeps db h =
      let run = check_recipient env input db in bind_cases run.0 run.1 (check_recipient_keeps db h)
    where
      bind_cases :
          (r : Result Text) (d : Db) → I d → I (◌>>=◌ (λ _. (r, d)) (send_to env input) d).1
      bind_cases (ok a) d k = send_to_keeps a d k
      bind_cases (err e) d k = k

  send_keeps : (db : Db) → I db → I (send env input db).1
  unfolding send find_by_idempotency_key
  send_keeps db h =
      let start = (assert_pin_authorized env input.sender_id input.pin db).1 in
      ground (
        arith,
        assert_pin_authorized_keeps env stable others input.sender_id input.pin db h,
        send_new_keeps start,
      )

-- However many requests race, a send leaves at most one transaction for each idempotency key, as long
-- as the other requests do; and it throws, or it answers the one transaction that the table then has
-- under the input's key, which is the caller's.
pub send-KeysUnique :
    (env : Env)
    → ((k : ℕ) (db : Db) → KeysUnique db → KeysUnique (env.others k db))
    → (input : SendInput) (db : Db) → KeysUnique db
    → let run = send env input db in
      let mine : Transaction → Bool = λ t. is_id t.idempotency_key input.idempotency_key in
      KeysUnique run.1
      × (((r : Described) × (run.0 ≡ ok r)
            × (count_where mine run.1.transactions ≡ 1)
            × (find_where mine run.1.transactions ≡ some r.row)
            × (r.row.sender_id ≡ input.sender_id))
          ⊎ ((e : Error) × (run.0 ≡ err e)))
send-KeysUnique env others input db h =
    let run = send env input db in
    let mine : Transaction → Bool = λ t. is_id t.idempotency_key input.idempotency_key in
    let unique =
      send_keeps env (λ f d k. k) others (create_transaction-KeysUnique env) input db h in
    (
      unique,
      elim (Result-cases run.0) [
        | inl (r, answered) ↦
            let (held, own) =
              send-stored env input r db run.1
                (ap (λ (x : Result Described). (x, run.1)) answered) in
            let present = count_where-pos_of_find mine r.row run.1.transactions held in
            inl (r, answered, omega (arith, unique input.idempotency_key, present), held, own)
        | inr refused ↦ inr refused
      ],
    )
