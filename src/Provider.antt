-- ===== src/Provider.antt =====
-- src/services/ramp/providers/types.ts and index.ts: the interface behind which the two naira
-- providers stand, the HTTP client that both are given, and the choice of one of them. What a
-- provider answers, `JSON.parse`, `JSON.stringify`, the digests and the clock are parameters.
pub mod Bitnob
pub mod YellowCard
pub mod Select
pub mod Signatures
pub mod Reconciled
mod Tests
use mathlib.Core.Option
use ulmara_backend.Common.{
  Bool, List, Option, Text, [], false, first_chars, if◌then◌else◌, leb, length, ltb, none, or_else,
  some, text, text_eq, ℕ, ◌&&◌, ◌==◌, ◌∷◌,
}
use ulmara_backend.World.{Result, TxStatus, err, ok}
use ulmara_backend.Json.{Json, array, as_text, find_field, item, member, null, object, string}

pub record Request : Type 0 where
  pub url : Text
  pub verb : Text
  pub headers : List (Text × Text)
  pub body : Option Text

-- What `fetch` comes to: an abort by the timer, another rejection, or a response with its text.
pub data Reply : Type 0 where
  timed_out network_error : Reply
  response : (status : ℕ) (body : Text) → Reply

-- `fetch` may answer by all requests made so far, the newest first.
pub record Net : Type 0 where
  pub fetch : List Request → Request → Reply
  pub parse_json : Text → Option Json
  pub stringify : Json → Text
  pub hmac_sha256 : Text → Text → Text
  pub hmac_sha512 : Text → Text → Text
  pub hmac_sha256_base64 : Text → Text → Text
  pub sha256_base64 : Text → Text
  pub now_seconds : Text
  pub now_iso : Text
  pub nonce : List Request → Text
  pub encode_uri : Text → Text
  pub to_number : Text → Text

-- An operation of a provider: the requests that it makes are kept.
abbrev pub Calls : Type 0 → Type 0
Calls A = List Request → Result A × List Request

infixl 5 ◌>>=◌
abbrev pub ◌>>=◌ : {A B : Type 0} → Calls A → (A → Calls B) → Calls B
◌>>=◌ m f log = let (r, log') = m log in elim r [ ok a ↦ f a log' | err e ↦ (err e, log') ]

abbrev pub done : {A : Type 0} → A → Calls A
done a log = (ok a, log)

abbrev pub held : {A : Type 0} → Result A → Calls A
held r log = (r, log)

-- `doFetch`
abbrev pub send_request : Net → Request → List Request → Reply × List Request
send_request net r log = (net.fetch log r, r ∷ log)

-- `response.ok`
abbrev pub is_success : ℕ → Bool
is_success status = leb 200 status && ltb status 300

-- `config.baseUrl.replace(/\/$/, "")`
unfoldable pub without_slash : Text → Text
without_slash [] = []
without_slash (c ∷ []) = if c == b'/' then [] else c ∷ []
without_slash (c ∷ d ∷ cs) = c ∷ without_slash (d ∷ cs)

-- `text ? JSON.parse(text) : null`, and null for a text that is no JSON
abbrev pub parsed_body : Net → Text → Json
parsed_body net [] = null
parsed_body net (c ∷ cs) = elim (net.parse_json (c ∷ cs)) [ none ↦ null | some j ↦ j ]

abbrev pub get_verb : Text
get_verb = text "GET"

abbrev pub post_verb : Text
post_verb = text "POST"

-- `timingSafeEqual` on the bytes of two texts of one length
unfoldable pub constant_time_equals : Text → Text → Bool
constant_time_equals a b = if length a == length b then text_eq a b else false

pub record RampCustomer : Type 0 where
  pub provider_customer_id : Option Text
  pub email : Text
  pub name : Option Text

pub record Bank : Type 0 where
  pub account_number : Text
  pub bank_code : Text
  pub account_name : Text

pub record PaymentInstructions : Type 0 where
  pub account_number : Option Text
  pub bank_name : Option Text
  pub account_name : Option Text
  pub amount_ngn : Option Text
  pub checkout_url : Option Text

pub record RampInstruction : Type 0 where
  pub reference : Text
  pub provider_reference : Option Text
  pub status : TxStatus
  pub payment_instructions : Option PaymentInstructions

pub record RampStatusResult : Type 0 where
  pub reference : Text
  pub provider_reference : Option Text
  pub status : TxStatus
  pub amount_ngn : Text
  pub failure_reason : Option Text

pub record CanonicalEvent : Type 0 where
  pub type : Text
  pub reference : Text
  pub status : TxStatus
  pub amount_ngn : Option Text
  pub provider_reference : Option Text
  pub failure_reason : Option Text
  pub event_id : Text

-- `RampProvider`
pub record RampProvider : Type 0 where
  pub provider_name : Text
  pub create_customer :
      (email : Text) → (name : Option Text) → (reference : Text) → Calls RampCustomer
  pub create_deposit : (reference amount : Text) → RampCustomer → Calls RampInstruction
  pub create_withdrawal : (reference amount : Text) → RampCustomer → Bank → Calls RampInstruction
  pub get_status : (reference : Text) → Calls RampStatusResult
  pub verify_webhook_signature : (raw_body : Text) → Option Text → Bool
  pub parse_webhook : (raw_body : Text) → Result CanonicalEvent

abbrev max_message : ℕ
max_message = 300

-- what the loop of `providerErrorMessage` returns for one key
unfoldable pub message_of : Option Json → Option Text
message_of (some (string (c ∷ cs))) = some (first_chars max_message (c ∷ cs))
message_of (some (array (item (string t) rest))) = some (first_chars max_message t)
message_of (some (object fs)) =
    Option.map (first_chars max_message) (as_text (find_field (text "message") fs))
message_of _ = none

unfoldable first_message : List Text → Json → Option Text
unfolding message_of
first_message [] body = none
first_message (k ∷ ks) body = or_else (message_of (member k body)) (first_message ks body)

abbrev message_keys : List Text
message_keys = text "message" ∷ text "error" ∷ text "detail" ∷ text "reason" ∷ text "errors" ∷ []

-- `providerErrorMessage`
unfoldable pub provider_error_message : Json → Text → Text
unfolding first_message
provider_error_message (string (c ∷ cs)) fallback = first_chars max_message (c ∷ cs)
provider_error_message (object fs) fallback = elim (first_message message_keys (object fs)) [
  | none ↦ fallback
  | some m ↦ m
]
provider_error_message _ fallback = fallback
