-- ===== src/Transfer/Send.antt =====
-- `send`, step by step.
pub mod Keys
pub mod Replay
use ulmara_backend.Common.{
  Bool, Option, Text, [], find_where, if◌then◌else◌, is_empty, none, not, some, text, ℕ, ◌&&◌, ◌++◌,
  ◌==◌, ◌∷◌,
}
use ulmara_backend.World.{
  AccountRow, Chain, Env, Error, M, Transaction, Wallet, await_others, catch, coded, gets, http,
  or_throw, pending, provider_failed, pure, throw, throw_if, thrown, unique_violation, ◌>>=◌, ◌>>◌,
}
use ulmara_backend.Lockout.{assert_pin_authorized}
use ulmara_backend.Transfer.{
  Described, SendInput, chain_name, create_transaction, describe_created, find_by_idempotency_key,
  matches_intent, same_chain, verify_address_exists,
}

abbrev pub is_wallet : ℕ → Chain → Wallet → Bool
is_wallet user chain w = w.user_id == user && same_chain w.chain chain

abbrev is_account : ℕ → AccountRow → Bool
is_account account row = row.account_id == account

-- The address that an Account ID or the given address stands for.
unfoldable pub resolve_recipient : SendInput → M (Option Text)
resolve_recipient input = elim input.recipient_account_id [
  | none ↦ pure input.recipient_address
  | some account ↦ do
    found ← gets (λ db. find_where (is_account account) db.account_ids)
    recipient ← or_throw found (coded 404 (text "Recipient Account ID not found"))
    throw_if (recipient.user_id == input.sender_id)
        (coded 400 (text "Cannot send to your own Account ID"))
    wallet ← gets (λ db. find_where (is_wallet recipient.user_id input.network) db.wallets)
    w ← or_throw wallet (coded 400 (text "Recipient has no wallet on " ++ chain_name input.network))
    pure (some w.address)
]

abbrev nonempty : Option Text → Option Text
nonempty none = none
nonempty (some []) = none
nonempty (some (c ∷ cs)) = some (c ∷ cs)

abbrev invalid_recipient : Error
invalid_recipient = coded 400 (text "Recipient address failed validation")

abbrev key_reused : Error
key_reused = coded 409 (text "This idempotency key was already used for a different transfer")

-- The address of the recipient, once its format and its existence on the chain are checked.
unfoldable pub check_recipient : Env → SendInput → M Text
check_recipient env input = do
  resolved ← resolve_recipient input
  address ← or_throw (nonempty resolved) invalid_recipient
  throw_if (not (env.is_valid_address input.network address)) invalid_recipient
  verify_address_exists env input.network address
  pure address

abbrev pub new_row : SendInput → Text → Transaction
new_row input address = record {
  id = 0;
  sender_id = input.sender_id;
  recipient_account_id = input.recipient_account_id;
  recipient_address = some address;
  asset = input.asset;
  amount = input.amount;
  network = input.network;
  status = pending;
  tx_hash = none;
  idempotency_key = some input.idempotency_key;
}

-- The interactive transaction.
unfoldable pub create_once : Env → SendInput → Text → M Described
create_once env input address = do
  raced ← find_by_idempotency_key input.idempotency_key input.sender_id
  elim raced [
    | some row ↦ pure (describe_created row)
    | none ↦ do
      await_others env 12
      row ← create_transaction env (new_row input address)
      pure (describe_created row)
  ]

-- The `catch` of a lost race on the unique key.
unfoldable pub fold_race : SendInput → Text → Error → M Described
fold_race input address (http status message) = throw (http status message)
fold_race input address (coded status message) = throw (coded status message)
fold_race input address (provider_failed provider failure message status) =
    throw (provider_failed provider failure message status)
fold_race input address (thrown message) = throw (thrown message)
fold_race input address unique_violation = do
  found ← find_by_idempotency_key input.idempotency_key input.sender_id
  winner ← or_throw found key_reused
  throw_if (not (matches_intent winner input (some address))) key_reused
  pure (describe_created winner)

-- The interactive transaction with its handler.
unfoldable pub create_or_fold : Env → SendInput → Text → M Described
create_or_fold env input address = catch (create_once env input address) (fold_race input address)

-- What follows the resolution of the recipient.
unfoldable pub send_to : Env → SendInput → Text → M Described
send_to env input address = do
  await_others env 10
  reused ← find_by_idempotency_key input.idempotency_key input.sender_id
  elim reused [
    | some row ↦ do
      throw_if (not (matches_intent row input (some address))) key_reused
      pure (describe_created row)
    | none ↦ await_others env 11 >> create_or_fold env input address
  ]

-- What follows the replay lookup.
unfoldable pub send_new : Env → SendInput → M Described
send_new env input = do address ← check_recipient env input; send_to env input address

-- The stored row of a retry, if there is one that describes the same transfer.
abbrev replayed : SendInput → Option Transaction → Option Transaction
replayed input none = none
replayed input (some row) =
    if matches_intent row input input.recipient_address then some row else none

-- `send`
unfoldable pub send : Env → SendInput → M Described
send env input = do
  throw_if (is_empty input.pin)
      (coded 400 (text "A 6-digit PIN is required to authorize this transfer"))
  assert_pin_authorized env input.sender_id input.pin
  fast ← find_by_idempotency_key input.idempotency_key input.sender_id
  elim (replayed input fast) [ some row ↦ pure (describe_created row) | none ↦ send_new env input ]
