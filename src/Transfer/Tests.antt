-- ===== src/Transfer/Tests.antt =====
-- Runs of internal transfers on concrete states.
use ulmara_backend.Common.{
  Text, [], arith, count_where, find_where, is_id, lower, none, refl, some, text_eq, trim, true,
  update_where, ◌==◌, ◌∷◌, ◌≡◌, ◌⊎◌,
}
use ulmara_backend.World.{Db, Error, Transaction, err, eth, ok}
use ulmara_backend.Lockout.{
  active_lock, assert_pin_authorized, get_lock_state, lock_field, pin_hash_of, reset, user_of,
}
use ulmara_backend.Money.{after_dot, normalize_amount, strip_dot, strip_zeros}
use ulmara_backend.Sample.{
  address_a, amount_long, asset_name, pin_digits, sample_db, sample_env, waiting_tx,
}
use ulmara_backend.Transfer.{
  Described, SendInput, create_transaction, describe_created, find_by_idempotency_key,
  matches_intent, verify_address_exists,
}
use ulmara_backend.Transfer.Send.{
  check_recipient, create_once, create_or_fold, new_row, resolve_recipient, send, send_new, send_to,
}
use ulmara_backend.Transfer.Send.Keys.{KeysUnique, send-KeysUnique}
use ulmara_backend.Transfer.Send.Replay.{send-stored, send_replay, send_requires_pin}

-- a transfer to an address under a fresh key, and the retry of the stored one in another spelling
abbrev new_send : SendInput
new_send = record {
  sender_id = 1;
  recipient_account_id = none;
  recipient_address = some address_a;
  asset = asset_name;
  amount = amount_long;
  network = eth;
  pin = pin_digits;
  idempotency_key = 88;
}

abbrev stored_tx : Transaction
stored_tx = record waiting_tx { recipient_account_id = none; recipient_address = some address_a }

abbrev stored_db : Db
stored_db = record sample_db { transactions = stored_tx ∷ [] }

abbrev retry_send : SendInput
retry_send = record new_send { idempotency_key = 77 }

abbrev created_tx : Transaction
created_tx = record (new_row new_send address_a) { id = 100 }

sample-KeysUnique : KeysUnique sample_db
unfolding count_where
sample-KeysUnique key = ground arith

send-KeysUnique_example :
    let run = send sample_env new_send sample_db in
    KeysUnique run.1
    × (((r : Described) × (run.0 ≡ ok r)
          × (count_where (λ t. is_id t.idempotency_key 88) run.1.transactions ≡ 1)
          × (find_where (λ t. is_id t.idempotency_key 88) run.1.transactions ≡ some r.row)
          × (r.row.sender_id ≡ 1))
        ⊎ ((e : Error) × (run.0 ≡ err e)))
send-KeysUnique_example =
    send-KeysUnique sample_env (λ k db h. h) new_send sample_db sample-KeysUnique

send_requires_pin_example :
    (hash : Text) × (pin_hash_of (user_of 1 sample_db) ≡ some hash)
    × (sample_env.compare_hash pin_digits hash ≡ true)
    × (active_lock (lock_field (user_of 1 sample_db)) 1000 ≡ none)
unfolding send assert_pin_authorized get_lock_state find_where text_eq reset find_by_idempotency_key
    send_new check_recipient resolve_recipient verify_address_exists send_to create_or_fold
    create_once create_transaction
send_requires_pin_example =
    send_requires_pin sample_env new_send (describe_created created_tx) sample_db
      (send sample_env new_send sample_db).1 refl

send-stored_example :
    (find_where
        (λ t. is_id t.idempotency_key 88)
        (send sample_env new_send sample_db).1.transactions
      ≡ some created_tx)
    × (created_tx.sender_id ≡ 1)
unfolding send assert_pin_authorized get_lock_state find_where text_eq reset find_by_idempotency_key
    send_new check_recipient resolve_recipient verify_address_exists send_to create_or_fold
    create_once create_transaction describe_created
send-stored_example =
    send-stored sample_env new_send (describe_created created_tx) sample_db
      (send sample_env new_send sample_db).1 refl

send_replay_example : send sample_env retry_send stored_db ≡ (
  ok (describe_created stored_tx),
  record stored_db {
    users =
        update_where
          (λ u. u.id == 1)
          (λ u. record u { pin_failed_attempts = 0; pin_locked_until = none })
          stored_db.users;
  },
)
unfolding find_where text_eq matches_intent normalize_amount after_dot trim strip_dot strip_zeros
    lower
send_replay_example =
    send_replay sample_env retry_send pin_digits stored_tx stored_db refl refl refl refl refl refl
      refl refl refl
