-- ===== src/World/Services.antt =====
-- What the services call and this model leaves open: bcrypt, the HMAC, ethers and the queue, which
-- are libraries, and the network clients of src/chains, src/blockchain/verify.ts,
-- src/services/ramp/providers and src/services/email; and what other requests do meanwhile.
use ulmara_backend.Common.{ℕ, Bool, Option, Text}
use ulmara_backend.World.Rows.{Chain, TxStatus, Db}
use ulmara_backend.World.Monad.{Result, M, ok}

-- The fields of a decoded signed transaction that the checks read; `call` is the ERC-20 transfer
-- that its data decodes to, and `has_data` says that the data is neither missing nor "0x".
pub record Parsed : Type 0 where
  pub chain_id : ℕ
  pub to : Option Text
  pub value : ℕ
  pub has_data : Bool
  pub call : Option (Text × ℕ)

pub record Token : Type 0 where
  pub symbol : Text
  pub address : Text
  pub decimals : ℕ

pub record TokenPlan : Type 0 where
  pub contract : Text
  pub call_data : Text

pub record Instruction : Type 0 where
  pub provider_reference : ℕ
  pub status : TxStatus

pub record StatusResult : Type 0 where
  pub status : TxStatus
  pub failure_reason : Option Text

-- What `provider.getStatus` may throw: a `RampProviderError` with its HTTP status, or another error.
pub data StatusReply : Type 0 where
  replied : StatusResult → StatusReply
  provider_error : (status : Option ℕ) → StatusReply
  other_error : StatusReply

pub data ChainStatus : Type 0 where
  confirmed chain_failed in_flight : ChainStatus

pub record Env : Type 0 where
  -- bcrypt and the keyed HMAC of a code
  pub compare_hash : Text → Text → Bool
  pub make_hash : Text → Text
  pub hash_code : Text → Text
  -- the random code that a user is sent
  pub fresh_code : ℕ → Text
  -- what the decimal column prints for an amount, and `parseUnits` of ethers
  pub decimal : Text → Text
  pub parse_units : Text → ℕ → Option ℕ
  -- the chain adapters
  pub is_valid_address : Chain → Text → Bool
  pub address_exists : Chain → Text → Result Bool
  pub estimate_fee : Chain → Text → Text → Text → Text → Result Text
  pub parse_transaction : ℕ → Option Parsed
  pub chain_id : Chain → ℕ
  pub resolve_token : Chain → Text → Option Token
  pub build_token_transfer : Option (Chain → Text → Text → Text → Token → Result TokenPlan)
  pub get_token_balance : Option (Chain → Text → Text → Result Text)
  pub pay_gas : Option (Chain → Text → Text → Result (Bool × Text))
  pub send_signed : Chain → Option (ℕ → Result ℕ)
  pub chain_status : Chain → ℕ → Result ChainStatus
  -- the queue, which accepts a job or throws
  pub queue_up : Bool
  -- the ramp provider
  pub ramp_configured : Bool
  pub ramp_name : Text
  pub create_customer : Text → Result ℕ
  pub create_instruction : ℕ → Text → ℕ → Result Instruction
  pub ramp_status : ℕ → StatusReply
  -- settings (src/config/env.ts)
  pub code_ttl_ms : ℕ
  pub retention_ttl : ℕ
  pub otp_max_attempts : ℕ
  pub session_ms : ℕ
  pub ramp_min_ngn : ℕ
  pub ramp_max_ngn : ℕ
  pub dev_verification : Bool
  pub email_configured : Bool
  pub email_sent : Text → Bool
  pub account_candidate : ℕ → ℕ
  -- what other requests commit while an operation waits: at its k-th wait, any change of the state
  pub others : ℕ → Db → Db
  -- the rounds in which other requests may win the compare-and-swap of a PIN failure
  pub rounds : ℕ

-- The k-th wait of an operation during which other requests may run.
abbrev pub await_others : Env → ℕ → M Unit
await_others env k db = (ok tt, env.others k db)
