-- ===== src/External/Prepare.antt =====
-- `prepare`: the checks in their order, and the intent that is stored. The messages that quote a
-- balance are shortened.
pub mod Stored
use ulmara_backend.Common.{Option, Text, find_where, none, not, some, text, ℕ, ◌++◌, ◌+◌, ◌∷◌}
use ulmara_backend.World.{
  Chain, Env, Intent, M, Result, Token, TokenPlan, await_others, err, gets, http, lift, ok,
  or_throw, pure, ready, throw_if, ⊤, ◌>>=◌, ◌>>◌,
}
use ulmara_backend.External.{intent_ttl_ms, is_at_least, resolve_asset}
use ulmara_backend.Lockout.{assert_pin_authorized}
use ulmara_backend.Transfer.{chain_name, verify_address_exists}
use ulmara_backend.Transfer.Send.{is_wallet}

pub record PrepareInput : Type 0 where
  pub user_id : ℕ
  pub chain : Chain
  pub asset : Text
  pub amount : Text
  pub to : Text
  pub pin : Text

pub record Prepared : Type 0 where
  pub id : ℕ
  pub input : PrepareInput
  pub fee : Text
  pub token : Option TokenPlan

-- `try { … } catch { fail(status, message) }` around a call of an adapter
abbrev or_fail : {A : Type 0} → Result A → ℕ → Text → Result A
or_fail (ok a) status message = ok a
or_fail (err e) status message = err (http status message)

abbrev or_bad : {A : Type 0} → Option A → ℕ → Text → Result A
or_bad none status message = err (http status message)
or_bad (some a) status message = ok a

-- The call of the token's contract, and the check that the wallet covers the amount.
unfoldable pub plan_token : Env → PrepareInput → Text → Token → M TokenPlan
plan_token env input from token = do
  build ← lift (
      or_bad env.build_token_transfer 501
        (text "Token transfers are not supported on " ++ chain_name input.chain))
  plan ← lift (
      or_fail (build input.chain from input.to input.amount token) 502
        (text "Could not build the token transfer right now. Try again shortly."))
  balance ← lift (
      or_bad env.get_token_balance 501
        (text "Token balance checks are not supported on " ++ chain_name input.chain))
  available ← lift (balance input.chain from input.asset)
  throw_if (not (is_at_least env available input.amount token.decimals))
      (http 400 (text "Insufficient token balance"))
  pure plan

unfoldable pub plan_asset : Env → PrepareInput → Text → Option Token → M (Option TokenPlan)
plan_asset env input from none = pure none
plan_asset env input from (some token) = do plan ← plan_token env input from token; pure (some plan)

-- The check that the wallet can pay the fee, where the adapter has one.
unfoldable pub check_gas : Env → PrepareInput → Text → (fee : Text) → M ⊤
check_gas env input from fee = elim env.pay_gas [
  | none ↦ pure tt
  | some pay ↦ do
    answer ← lift (
        or_fail (pay input.chain from fee) 502
          (text "Could not check your gas balance right now. Try again shortly."))
    throw_if (not answer.0) (http 400 (text "Insufficient balance for network fees"))
]

abbrev new_intent : Env → PrepareInput → (fee : Text) → (id now : ℕ) → Intent
new_intent env input fee id now = record {
  id = id;
  user_id = input.user_id;
  chain = input.chain;
  asset = input.asset;
  amount = env.decimal input.amount;
  recipient = input.to;
  fee = fee;
  status = ready;
  expires_at = now + intent_ttl_ms;
  used_at = none;
  transaction_id = none;
}

unfoldable pub store_intent : Env → PrepareInput → (fee : Text) → M Intent
store_intent env input fee db =
    let intent = new_intent env input fee db.next_id db.clock in
    (ok intent, record db { next_id = db.next_id + 1; intents = intent ∷ db.intents })

-- What follows the PIN and the check of the recipient: the wallet, the plan, the fee and the gas.
unfoldable pub price : Env → PrepareInput → Option Token → M (Text × Option TokenPlan)
price env input token = do
  wallet ← gets (λ db. find_where (is_wallet input.user_id input.chain) db.wallets)
  w ← or_throw wallet (http 400 (text "You have no wallet on " ++ chain_name input.chain))
  plan ← plan_asset env input w.address token
  fee ← lift (
      or_fail (env.estimate_fee input.chain w.address input.to input.asset input.amount) 502
        (text "Could not estimate the network fee right now. Try again shortly."))
  check_gas env input w.address fee
  pure (fee, plan)

-- The end of `prepare`: the intent is stored and shown.
unfoldable pub finish_prepare : Env → PrepareInput → Text × Option TokenPlan → M Prepared
finish_prepare env input (fee, plan) = do
  intent ← store_intent env input fee
  pure (record { id = intent.id; input = input; fee = fee; token = plan })

unfoldable pub price_and_store : Env → PrepareInput → Option Token → M Prepared
price_and_store env input token = do priced ← price env input token; finish_prepare env input priced

-- `prepare`
unfoldable pub prepare : Env → PrepareInput → M Prepared
prepare env input = do
  token ← lift (resolve_asset env input.chain input.asset)
  throw_if (not (env.is_valid_address input.chain input.to))
      (http 400 (text "Recipient address failed validation"))
  assert_pin_authorized env input.user_id input.pin
  await_others env 20
  verify_address_exists env input.chain input.to
  price_and_store env input token
