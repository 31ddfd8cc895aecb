-- ===== src/External.antt =====
-- src/services/transaction/externalTransfer.service.ts: transfers that the client signs. An intent is
-- prepared, claimed once, and checked against the signed bytes. The chain adapters, the decoder of
-- signed transactions, `parseUnits` and the token registry are parameters.
pub mod Verify
pub mod Prepare
pub mod Submit
mod Tests
use ulmara_backend.Common.{
  Bool, Option, Text, false, if◌then◌else◌, leb, lower, none, not, some, text, text_eq, true, ℕ,
  ◌++◌, ◌==◌,
}
use ulmara_backend.World.{
  Chain, Env, Intent, Parsed, Result, Token, base, bsc, btc, err, eth, http, ok, polygon, sol,
  thrown, ton, tron,
}
use ulmara_backend.Transfer.{chain_name}

abbrev pub intent_ttl_ms : ℕ
intent_ttl_ms = 600000

-- `NATIVE_ASSETS`
unfoldable pub native_asset : Chain → Text
native_asset ton = text "TON"
native_asset bsc = text "BNB"
native_asset eth = text "ETH"
native_asset sol = text "SOL"
native_asset base = text "ETH"
native_asset polygon = text "POL"
native_asset tron = text "TRX"
native_asset btc = text "BTC"

-- `isEvmChain` of src/chains/chain.network.ts
abbrev is_evm_chain : Chain → Bool
is_evm_chain eth = true
is_evm_chain bsc = true
is_evm_chain base = true
is_evm_chain polygon = true
is_evm_chain _ = false

-- `resolveAsset`: a configured token, or `none` for the native asset; the hint that lists the
-- supported assets is left out of the message.
unfoldable pub resolve_asset : Env → Chain → Text → Result (Option Token)
resolve_asset env chain asset = elim (env.resolve_token chain asset) [
  | some token ↦ ok (some token)
  | none ↦
      if text_eq asset (native_asset chain)
      then ok none
      else err (http 400 (asset ++ (text " transfers are not supported on " ++ chain_name chain)))
]

-- `isAtLeast`
unfoldable pub is_at_least : Env → Text → Text → ℕ → Bool
is_at_least env available required decimals = elim (env.parse_units available decimals) [
  | none ↦ false
  | some have ↦ elim (env.parse_units required decimals) [
    | none ↦ false
    | some need ↦ leb need have
  ]
]

abbrev pub same_address : Option Text → Text → Bool
same_address none b = false
same_address (some a) b = text_eq (lower a) (lower b)

abbrev pub bad : {A : Type 0} → Text → Result A
bad message = err (http 400 message)

-- The comparison with the prepared amount, and what follows it. `toBaseUnits` throws on an amount that
-- it cannot read, and that error carries no status.
unfoldable pub check_amount : Option ℕ → ℕ → (mismatch : Text) → Result Bool → Result Bool
check_amount none value mismatch rest = err (thrown (text "invalid amount"))
check_amount (some n) value mismatch rest = if value == n then rest else bad mismatch

-- The checks of a token transfer: a call of the token's contract that pays the recipient.
unfoldable pub verify_token : Env → Intent → Parsed → Token → Result Bool
verify_token env intent parsed token =
    if not (same_address parsed.to token.address)
    then bad (text "The signed transaction does not target the expected token contract")
    else if not (parsed.value == 0)
    then bad (text "A token transfer must not attach a native value")
    else if not parsed.has_data
    then bad (text "The signed transaction is missing the token transfer call")
    else elim parsed.call [
      | none ↦ bad (text "The signed transaction does not contain a valid token transfer")
      | some (to, amount) ↦
          if not (text_eq (lower to) (lower intent.recipient))
          then bad (
              text
                "The signed token transfer pays a different recipient than the prepared transfer")
          else check_amount (env.parse_units intent.amount token.decimals) amount
              (text "The signed token transfer amount does not match the prepared transfer")
              (ok true)
    ]

-- The checks of a native transfer: value and no data.
unfoldable pub verify_native : Env → Intent → Parsed → Result Bool
verify_native env intent parsed =
    let mismatch = text "The signed transaction does not match the prepared transfer" in
    if not (same_address parsed.to intent.recipient)
    then bad mismatch
    else check_amount (env.parse_units intent.amount 18) parsed.value mismatch (
        if parsed.has_data
        then bad (text "The signed transaction contains unexpected data")
        else ok false)

-- `verifySignedTransaction`: `true` for a token transfer, `false` for a native one
unfoldable pub verify_signed_transaction : Env → Intent → ℕ → Result Bool
verify_signed_transaction env intent signed =
    if not (is_evm_chain intent.chain)
    then bad
        (text "Signed-transaction verification is not implemented for " ++ chain_name intent.chain)
    else elim (env.parse_transaction signed) [
      | none ↦ bad (text "The signed transaction could not be decoded")
      | some parsed ↦
          if not (parsed.chain_id == env.chain_id intent.chain)
          then bad
              (text "The signed transaction targets a different network than the prepared transfer")
          else elim (env.resolve_token intent.chain intent.asset) [
            | none ↦ verify_native env intent parsed
            | some token ↦ verify_token env intent parsed token
          ]
    ]
