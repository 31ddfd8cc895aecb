-- ===== src/World/Rows.antt =====
-- The rows of prisma/schema.prisma that the services read and write. Ids, tokens and keys are only
-- compared, so they are numbers; times are milliseconds; an amount is the text that the stored
-- decimal prints.
use ulmara_backend.Common.{ℕ, Bool, Option, List, Text}

pub data Chain : Type 0 where
  ton bsc eth sol base polygon tron btc : Chain

pub data TxStatus : Type 0 where
  pending processing completed failed : TxStatus

pub data IntentStatus : Type 0 where
  ready used : IntentStatus

pub data RequestStatus : Type 0 where
  open_request fulfilled expired_request cancelled : RequestStatus

pub data RampType : Type 0 where
  deposit_type withdrawal_type : RampType

pub data Channel : Type 0 where
  email_channel phone_channel : Channel

pub record User : Type 0 where
  pub id : ℕ
  pub email : Text
  pub phone : Option Text
  pub password_hash : Text
  pub pin_hash : Option Text
  pub name : Option Text
  pub email_verified : Bool
  pub phone_verified : Bool
  pub pin_failed_attempts : ℕ
  pub pin_locked_until : Option ℕ

pub record Session : Type 0 where
  pub id : ℕ
  pub user_id : ℕ
  pub token : ℕ
  pub expires_at : ℕ

pub record AccountRow : Type 0 where
  pub account_id : ℕ
  pub user_id : ℕ

pub record Wallet : Type 0 where
  pub user_id : ℕ
  pub chain : Chain
  pub address : Text

pub record Transaction : Type 0 where
  pub id : ℕ
  pub sender_id : ℕ
  pub recipient_account_id : Option ℕ
  pub recipient_address : Option Text
  pub asset : Text
  pub amount : Text
  pub network : Chain
  pub status : TxStatus
  pub tx_hash : Option ℕ
  pub idempotency_key : Option ℕ

pub record Intent : Type 0 where
  pub id : ℕ
  pub user_id : ℕ
  pub chain : Chain
  pub asset : Text
  pub amount : Text
  pub recipient : Text
  pub fee : Text
  pub status : IntentStatus
  pub expires_at : ℕ
  pub used_at : Option ℕ
  pub transaction_id : Option ℕ

pub record Contact : Type 0 where
  pub id : ℕ
  pub owner_id : ℕ
  pub account_id : Option ℕ
  pub name : Text
  pub address : Option Text
  pub chain : Option Chain

pub record PaymentRequest : Type 0 where
  pub id : ℕ
  pub user_id : ℕ
  pub asset : Text
  pub amount : Option Text
  pub note : Option Text
  pub status : RequestStatus
  pub expires_at : Option ℕ
  pub fulfilled_transaction_id : Option ℕ
  pub fulfilled_at : Option ℕ

pub record RampTx : Type 0 where
  pub id : ℕ
  pub user_id : ℕ
  pub type : RampType
  pub amount_ngn : Text
  pub provider : Text
  pub reference : ℕ
  pub status : TxStatus
  pub provider_reference : Option ℕ
  pub provider_customer_id : Option ℕ
  pub failure_reason : Option Text
  pub provider_amount_ngn : Option Text
  pub provider_status_raw : Option TxStatus
  pub last_synced_at : Option ℕ

pub record WebhookRow : Type 0 where
  pub provider : Text
  pub event_id : ℕ
  pub reference : ℕ
  pub signature_valid : Bool
  pub status : TxStatus
  pub processed_at : Option ℕ

-- What Redis holds under the key of a verification code: a record that parses, JSON of another
-- shape, or text that is no JSON.
pub data StoredCode : Type 0 where
  stored : (h : Text) (e a : ℕ) → StoredCode
  shapeless garbage : StoredCode

pub record OtpRow : Type 0 where
  pub user_id : ℕ
  pub channel : Channel
  pub value : StoredCode
  pub ttl : ℕ

-- The payloads of the two queues.
pub data Job : Type 0 where
  process_transaction : (transaction_id : ℕ) (signed_tx : ℕ) → Job
  check_transaction : (transaction_id tx_hash : ℕ) → Job
  reconcile_ramp : (ramp_transaction_id : ℕ) → Job

pub record Db : Type 0 where
  pub clock : ℕ
  pub next_id : ℕ
  pub users : List User
  pub sessions : List Session
  pub account_ids : List AccountRow
  pub wallets : List Wallet
  pub transactions : List Transaction
  pub receipts : List ℕ
  pub intents : List Intent
  pub contacts : List Contact
  pub payment_requests : List PaymentRequest
  pub ramp_txs : List RampTx
  pub webhook_events : List WebhookRow
  pub otps : List OtpRow
  pub jobs : List Job
