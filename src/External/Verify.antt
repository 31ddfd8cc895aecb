-- ===== src/External/Verify.antt =====
-- What a signed transaction that passes the checks does.
use mathlib.Core.Option
use ulmara_backend.Common.{
  Bool, Option, Option-cases, Text, ap, arith, eq_of_text_eq, false, if◌then◌else◌, inl, inr, lower,
  none, some, text, true, ℕ, ◌≡◌, ◌⊎◌,
}
use ulmara_backend.World.{Env, Intent, Parsed, Result, Token, ok}
use ulmara_backend.External.{
  bad, check_amount, same_address, verify_native, verify_signed_transaction, verify_token,
}

-- It pays the intent's recipient the intent's amount in the chain's native asset, with no data.
abbrev pub PaysNative : Env → Intent → Parsed → Type 0
PaysNative env intent p =
    (Option.map lower p.to ≡ some (lower intent.recipient))
    × (env.parse_units intent.amount 18 ≡ some p.value)
    × (p.has_data ≡ false)

-- It calls the token's contract, with no native value, to pay the recipient the amount.
abbrev pub PaysToken : Env → Intent → Parsed → Token → Type 0
PaysToken env intent p token =
    (Option.map lower p.to ≡ some (lower token.address))
    × (p.value ≡ 0)
    × (p.has_data ≡ true)
    × ((call : Text × ℕ) × (p.call ≡ some call)
        × (lower call.0 ≡ lower intent.recipient)
        × (env.parse_units intent.amount token.decimals ≡ some call.1))

same_address_sound :
    (o : Option Text) (b : Text) → same_address o b ≡ true → Option.map lower o ≡ some (lower b)
same_address_sound none b h = absurd (cc)
same_address_sound (some a) b h = ap some (eq_of_text_eq (lower a) (lower b) h)

check_amount_sound :
    (o : Option ℕ) (n : ℕ) (mismatch : Text) (rest : Result Bool) (kind : Bool)
    → check_amount o n mismatch rest ≡ ok kind
    → (o ≡ some n) × (rest ≡ ok kind)
unfolding check_amount
check_amount_sound none n mismatch rest kind h = absurd (cc)
check_amount_sound (some m) n mismatch rest kind h = (ground arith, ground arith)

verify_native_sound :
    (env : Env) (intent : Intent) (p : Parsed) (kind : Bool)
    → verify_native env intent p ≡ ok kind
    → PaysNative env intent p
unfolding verify_native
verify_native_sound env intent p kind e =
    let rest : Result Bool =
      if p.has_data
      then bad (text "The signed transaction contains unexpected data")
      else ok false in
    let (amount, after) =
      check_amount_sound (env.parse_units intent.amount 18) p.value
        (text "The signed transaction does not match the prepared transfer") rest kind
        (ground arith) in
    (same_address_sound p.to intent.recipient (ground arith), amount, ground arith)

verify_token_sound :
    (env : Env) (intent : Intent) (p : Parsed) (token : Token) (kind : Bool)
    → verify_token env intent p token ≡ ok kind
    → PaysToken env intent p token
unfolding verify_token
verify_token_sound env intent p token kind e = elim (Option-cases p.call) [
  | inl missing ↦ absurd (ground arith)
  | inr ((to, amount), called) ↦ (
    same_address_sound p.to token.address (ground arith),
    ground arith,
    ground arith,
    (
      (to, amount),
      called,
      eq_of_text_eq (lower to) (lower intent.recipient) (ground arith),
      (check_amount_sound (env.parse_units intent.amount token.decimals) amount
          (text "The signed token transfer amount does not match the prepared transfer") (ok true)
          kind (ground arith)).0,
    ),
  )
]

-- A signed transaction that passes is decoded to one on the intent's chain that pays the intent's
-- recipient exactly the intent's amount: of the token if the asset is one, else of the native asset.
pub verify_signed_transaction_sound :
    (env : Env) (intent : Intent) (signed : ℕ) (kind : Bool)
    → verify_signed_transaction env intent signed ≡ ok kind
    → (p : Parsed) × (env.parse_transaction signed ≡ some p)
      × (p.chain_id ≡ env.chain_id intent.chain)
      × (((env.resolve_token intent.chain intent.asset ≡ none) × PaysNative env intent p)
          ⊎ ((token : Token) × (env.resolve_token intent.chain intent.asset ≡ some token)
              × PaysToken env intent p token))
unfolding verify_signed_transaction
verify_signed_transaction_sound env intent signed kind e =
    elim (Option-cases (env.parse_transaction signed)) [
      | inl missing ↦ absurd (ground arith)
      | inr (p, parsed) ↦ elim (Option-cases (env.resolve_token intent.chain intent.asset)) [
        | inl native ↦ (
          p,
          parsed,
          ground arith,
          inl (native, verify_native_sound env intent p kind (ground arith)),
        )
        | inr (token, resolved) ↦ (
          p,
          parsed,
          ground arith,
          inr (token, resolved, verify_token_sound env intent p token kind (ground arith)),
        )
      ]
    ]
