-- ===== src/Provider/YellowCard.antt =====
-- src/services/ramp/providers/yellowcard.provider.ts: the table of statuses, the signed requests, and
-- the operations of the adapter. The fields of an answer have the types of the source's interface:
-- one of another type is read as missing.
pub mod Webhook
use ulmara_backend.Common.{
  List, Option, Text, [], if◌then◌else◌, is_text, lookup, lower, none, not, or_else, show_ℕ, some,
  text, upper, ℕ, ◌++◌, ◌∷◌,
}
use ulmara_backend.World.{
  Result, TxStatus, completed, err, failed, ok, pending, processing, provider_failed, ◌>>◌,
}
use ulmara_backend.Json.{
  Json, as_number, literal, member, no_fields, non_empty, null, number, object, quoted, quoted_if,
  text_at,
}
use ulmara_backend.Provider.{
  Bank, Calls, Net, PaymentInstructions, RampCustomer, RampInstruction, RampStatusResult, Reply,
  Request, done, get_verb, held, is_success, network_error, parsed_body, post_verb,
  provider_error_message, response, send_request, timed_out, without_slash, ◌>>=◌,
}

-- `STATUS_MAP`
abbrev yellow_status_map : List (Text × TxStatus)
yellow_status_map =
    (text "received", completed)
    ∷ (text "complete", completed)
    ∷ (text "success", completed)
    ∷ (text "succeeded", completed)
    ∷ (text "sent", completed)
    ∷ (text "pending", pending)
    ∷ (text "pending_approval", pending)
    ∷ (text "pending_provider", processing)
    ∷ (text "pending_liquidity", processing)
    ∷ (text "processing", processing)
    ∷ (text "failed", failed)
    ∷ (text "rejected", failed)
    ∷ (text "refused", failed)
    ∷ (text "cancelled", failed)
    ∷ (text "canceled", failed)
    ∷ (text "expired", failed)
    ∷ (text "expired_quote", failed)
    ∷ (text "denied", failed)
    ∷ (text "insufficient_funds", failed)
    ∷ []

-- `mapStatus`
unfoldable pub map_status : Option Text → TxStatus
map_status none = pending
map_status (some []) = pending
map_status (some (c ∷ cs)) = elim (lookup (lower (c ∷ cs)) yellow_status_map) [
  | none ↦ pending
  | some s ↦ s
]

pub record YellowCardConfig : Type 0 where
  pub api_key : Text
  pub secret_key : Text
  pub base_url : Text

-- the updates of the request's HMAC, one after another
abbrev body_digest : Net → Option Json → Text
body_digest net none = []
body_digest net (some body) = net.sha256_base64 (net.stringify body)

-- `buildYellowCardAuthHeaders`
unfoldable pub build_yellow_card_auth_headers :
    Net → YellowCardConfig → (path verb : Text) → Option Json → List (Text × Text)
build_yellow_card_auth_headers net config path verb body =
    let covered = net.now_iso ++ (path ++ (upper verb ++ body_digest net body)) in
    let signature = net.hmac_sha256_base64 config.secret_key covered in
    (text "content-type", text "application/json")
    ∷ (text "X-YC-Timestamp", net.now_iso)
    ∷ (text "Authorization", text "YcHmacV1 " ++ (config.api_key ++ (text ":" ++ signature)))
    ∷ []

abbrev pub yellow_refuse : {A : Type 0} → Text → Text → Option ℕ → Result A
yellow_refuse failure message status =
    err (provider_failed (text "yellowcard") failure message status)

abbrev described : Text → Text → Text → Text
described verb path tail = text "Yellow Card " ++ (verb ++ (text " " ++ (path ++ tail)))

-- `parsed ?? {}`
abbrev or_object : Json → Json
or_object null = object no_fields
or_object j = j

-- the body of `request` after the response
unfoldable pub yellow_reply : Net → (verb path : Text) → Reply → Result Json
yellow_reply net verb path timed_out =
    yellow_refuse (text "timeout") (described verb path (text " failed (timeout)")) none
yellow_reply net verb path network_error =
    yellow_refuse (text "network_error") (described verb path (text " failed (network_error)")) none
yellow_reply net verb path (response status body) =
    let parsed = parsed_body net body in
    let fallback = described verb path (text " failed with status " ++ show_ℕ status) in
    if not (is_success status)
    then yellow_refuse (text "api_error") (provider_error_message parsed fallback) (some status)
    else ok (or_object parsed)

abbrev body_text : Net → Option Json → Option Text
body_text net none = none
body_text net (some body) = some (net.stringify body)

-- what `value?.key` reads from
abbrev or_null : Option Json → Json
or_null none = null
or_null (some j) = j

abbrev instructions_of : Json → Text → PaymentInstructions
instructions_of answer amount =
    let bank = or_null (member (text "bankInfo") answer) in
    record {
      account_number = text_at (text "accountNumber") bank;
      bank_name = text_at (text "bankName") bank;
      account_name = text_at (text "accountName") bank;
      amount_ngn = some amount;
      checkout_url = text_at (text "redirectUrl") answer;
    }

unfoldable pub yellow_instruction : Text → Json → Option PaymentInstructions → RampInstruction
yellow_instruction reference answer shown = record {
  reference = reference;
  provider_reference = text_at (text "id") answer;
  status = map_status (text_at (text "status") answer);
  payment_instructions = shown;
}

abbrev bank_destination : Bank → List (Text × Option Json)
bank_destination bank =
    (text "type", quoted (text "bank"))
    ∷ (text "accountNumber", quoted bank.account_number)
    ∷ (text "bankCode", quoted bank.bank_code)
    ∷ (text "accountName", quoted bank.account_name)
    ∷ (text "countryCode", quoted (text "NG"))
    ∷ []

-- `String(data.localAmount)`, or the dollar amount of a naira transaction, or "0"
unfoldable pub amount_of : Json → Text
amount_of answer =
    let naira = is_text (text_at (text "localCurrency") answer) (text "NGN") in
    let dollars = as_number (member (text "usdAmount") answer) in
    elim (or_else (as_number (member (text "localAmount") answer))
      (if naira then dollars else none)) [ none ↦ text "0" | some a ↦ a ]

unfoldable pub yellow_status_of : Text → Text → Json → RampStatusResult
yellow_status_of reference id answer = record {
  reference = reference;
  provider_reference = some id;
  status = map_status (text_at (text "status") answer);
  amount_ngn = amount_of answer;
  failure_reason = or_else (text_at (text "error") answer) (text_at (text "reason") answer);
}

module _ (net : Net) (config : YellowCardConfig) where
  -- `request`
  unfoldable pub yellow_request : (path verb : Text) → Option Json → Calls Json
  yellow_request path verb body log =
      let asked : Request = record {
        url = without_slash config.base_url ++ path;
        verb = verb;
        headers = build_yellow_card_auth_headers net config path verb body;
        body = body_text net body;
      } in
      let (reply, log') = send_request net asked log in (yellow_reply net verb path reply, log')

  abbrev post : Text → List (Text × Option Json) → Calls Json
  post path fields = yellow_request path post_verb (some (object (literal fields)))

  -- `createCustomer`, which makes no request
  unfoldable pub yellow_create_customer : Text → Option Text → Text → Calls RampCustomer
  yellow_create_customer email name reference =
      done (record { provider_customer_id = some reference; email = email; name = name })

  -- `createDeposit`
  unfoldable pub yellow_create_deposit : Text → Text → RampCustomer → Calls RampInstruction
  yellow_create_deposit reference amount customer = do
    answer ← post (text "/business/transactions") (
        (text "sequenceId", quoted reference)
        ∷ (text "localAmount", some (number (net.to_number amount)))
        ∷ (text "localCurrency", quoted (text "NGN"))
        ∷ (text "countryCode", quoted (text "NG"))
        ∷ (text "reason", quoted (text "Ulmara wallet top-up"))
        ∷ (text "endUserId", quoted_if customer.provider_customer_id)
        ∷ (text "type", quoted (text "receive"))
        ∷ [])
    done (yellow_instruction reference answer (some (instructions_of answer amount)))

  -- `createWithdrawal`
  unfoldable pub yellow_create_withdrawal :
      Text → Text → RampCustomer → Bank → Calls RampInstruction
  yellow_create_withdrawal reference amount customer bank = do
    answer ← post (text "/business/transactions/send") (
        (text "sequenceId", quoted reference)
        ∷ (text "localAmount", some (number (net.to_number amount)))
        ∷ (text "localCurrency", quoted (text "NGN"))
        ∷ (text "countryCode", quoted (text "NG"))
        ∷ (text "reason", quoted (text "Ulmara wallet withdrawal"))
        ∷ (text "endUserId", quoted_if customer.provider_customer_id)
        ∷ (text "destination", some (object (literal (bank_destination bank))))
        ∷ [])
    done (yellow_instruction reference answer none)

  -- `getStatus`
  unfoldable pub yellow_get_status : Text → Calls RampStatusResult
  yellow_get_status reference = do
    answer ←
        yellow_request (text "/business/transactions/sequence/" ++ net.encode_uri reference)
          get_verb none
    held (elim (non_empty (text_at (text "id") answer)) [
      | none ↦
          yellow_refuse (text "not_found")
            (text "No Yellow Card transaction for reference " ++ reference) (some 404)
      | some id ↦ ok (yellow_status_of reference id answer)
    ])
