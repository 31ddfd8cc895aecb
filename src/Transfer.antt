-- ===== src/Transfer.antt =====
-- src/services/transaction/transaction.service.ts: internal transfers. The interactive transaction
-- of `send` is one step but for the wait between its duplicate check and its insert, where another
-- request may commit. Fee estimates, list pages and the row lock on the wallet are left out.
pub mod Send
pub mod Broadcast
mod Tests
use ulmara_backend.Common.{
  Bool, List, Option, Text, [], exists_where, false, find_where, if◌then◌else◌, is_id, lower, none,
  not, some, text, text_eq, true, update_where, ℕ, ◌&&◌, ◌++◌, ◌+◌, ◌==◌, ◌∷◌,
}
use ulmara_backend.World.{
  Chain, Env, M, Transaction, base, bsc, btc, coded, err, eth, gets, lift, ok, polygon, pure, sol,
  throw_if, ton, tron, unique_violation, ◌>>=◌, ◌>>◌,
}
use ulmara_backend.Money.{normalize_amount}

abbrev chain_code : Chain → ℕ
chain_code ton = 0
chain_code bsc = 1
chain_code eth = 2
chain_code sol = 3
chain_code base = 4
chain_code polygon = 5
chain_code tron = 6
chain_code btc = 7

abbrev pub same_chain : Chain → Chain → Bool
same_chain a b = chain_code a == chain_code b

unfoldable pub chain_name : Chain → Text
chain_name ton = text "TON"
chain_name bsc = text "BSC"
chain_name eth = text "ETH"
chain_name sol = text "SOL"
chain_name base = text "BASE"
chain_name polygon = text "POLYGON"
chain_name tron = text "TRON"
chain_name btc = text "BTC"

pub record SendInput : Type 0 where
  pub sender_id : ℕ
  pub recipient_account_id : Option ℕ
  pub recipient_address : Option Text
  pub asset : Text
  pub amount : Text
  pub network : Chain
  pub pin : Text
  pub idempotency_key : ℕ

pub data Counterparty : Type 0 where
  by_account : ℕ → Counterparty
  by_address : Text → Counterparty
  unknown no_party : Counterparty

-- A row with the derived fields that every answer carries; `sent` is the direction.
pub record Described : Type 0 where
  pub row : Transaction
  pub sent : Bool
  pub counterparty : Counterparty

abbrev counterparty_of : Option ℕ → Option Text → Counterparty
counterparty_of (some a) address = by_account a
counterparty_of none (some address) = by_address address
counterparty_of none none = unknown

-- `recipientAccountId ?? recipientAddress`, which may be null
abbrev pub sent_party : Option ℕ → Option Text → Counterparty
sent_party (some a) address = by_account a
sent_party none (some address) = by_address address
sent_party none none = no_party

-- `describeCreated`
unfoldable pub describe_created : Transaction → Described
describe_created row = record {
  row = row;
  sent = true;
  counterparty = counterparty_of row.recipient_account_id row.recipient_address;
}

abbrev pub has_key : ℕ → Transaction → Bool
has_key key t = is_id t.idempotency_key key

abbrev pub own_row : ℕ → Option Transaction → Option Transaction
own_row sender none = none
own_row sender (some t) = if t.sender_id == sender then some t else none

-- `findByIdempotencyKey`
unfoldable pub find_by_idempotency_key : ℕ → ℕ → M (Option Transaction)
find_by_idempotency_key key sender =
    gets (λ db. own_row sender (find_where (has_key key) db.transactions))

-- `candidate.recipientAddress ? stored?.toLowerCase() === it.toLowerCase() : true`
abbrev address_agrees : Option Text → Option Text → Bool
address_agrees held none = true
address_agrees held (some []) = true
address_agrees none (some (c ∷ cs)) = false
address_agrees (some a) (some (c ∷ cs)) = text_eq (lower a) (lower (c ∷ cs))

-- `matchesIntent`, where the candidate's address is given apart
unfoldable pub matches_intent : Transaction → SendInput → Option Text → Bool
matches_intent t input address =
    same_chain t.network input.network
    && text_eq t.asset input.asset
    && text_eq (normalize_amount t.amount) (normalize_amount input.amount)
    && address_agrees t.recipient_address address

abbrev key_taken : Option ℕ → List Transaction → Bool
key_taken none rows = false
key_taken (some key) rows = exists_where (has_key key) rows

-- `prisma.transaction.create`: the key is unique in the table.
unfoldable pub create_transaction : Env → Transaction → M Transaction
create_transaction env t db =
    let fresh = record t { id = db.next_id; amount = env.decimal t.amount } in
    if key_taken t.idempotency_key db.transactions
    then (err unique_violation, db)
    else (ok fresh, record db { next_id = db.next_id + 1; transactions = fresh ∷ db.transactions })

-- `prisma.transaction.updateMany` on one id, with whether the row matched.
abbrev pub update_transactions : (Transaction → Bool) → (Transaction → Transaction) → M Bool
update_transactions p f db =
    let hit = exists_where p db.transactions in
    (ok hit, record db { transactions = update_where p f db.transactions })

-- `verifyAddressExists` of src/blockchain/triverify.ts
unfoldable pub verify_address_exists : Env → Chain → Text → M Bool
verify_address_exists env chain address = elim (env.is_valid_address chain address) [
  | false ↦ pure false
  | true ↦ do
    found ← lift (env.address_exists chain address)
    throw_if (not found) (coded 400 (text "Address could not be verified on " ++ chain_name chain))
    pure true
]
