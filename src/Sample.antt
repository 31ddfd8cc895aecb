-- ===== src/Sample.antt =====
-- A small concrete state and environment, on which the tests of every component run.
use ulmara_backend.Common.{Text, [], false, none, refl, some, text_eq, true, ℕ, ◌+◌, ◌∷◌, ◌≡◌}
use ulmara_backend.World.{
  Db, Env, Intent, Parsed, PaymentRequest, RampTx, Transaction, User, confirmed, deposit_type, eth,
  ok, open_request, other_error, pending, ready,
}

-- the digits 1 to 6, and six zeros
abbrev pub pin_digits : Text
pin_digits = 49 ∷ 50 ∷ 51 ∷ 52 ∷ 53 ∷ 54 ∷ []

abbrev pub other_digits : Text
other_digits = 48 ∷ 48 ∷ 48 ∷ 48 ∷ 48 ∷ 48 ∷ []

-- "100.5" and "100.50"
abbrev pub amount_short : Text
amount_short = 49 ∷ 48 ∷ 48 ∷ 46 ∷ 53 ∷ []

abbrev pub amount_long : Text
amount_long = 49 ∷ 48 ∷ 48 ∷ 46 ∷ 53 ∷ 48 ∷ []

abbrev pub asset_name : Text
asset_name = 69 ∷ 84 ∷ 72 ∷ []

abbrev pub address_a : Text
address_a = 48 ∷ 120 ∷ 97 ∷ []

abbrev pub ada : User
ada = record {
  id = 1;
  email = 97 ∷ [];
  phone = none;
  password_hash = pin_digits;
  pin_hash = some pin_digits;
  name = none;
  email_verified = true;
  phone_verified = false;
  pin_failed_attempts = 0;
  pin_locked_until = none;
}

abbrev pub bola : User
bola = record ada { id = 2; pin_failed_attempts = 4 }

abbrev pub waiting_tx : Transaction
waiting_tx = record {
  id = 10;
  sender_id = 1;
  recipient_account_id = some 1002;
  recipient_address = none;
  asset = asset_name;
  amount = amount_short;
  network = eth;
  status = pending;
  tx_hash = none;
  idempotency_key = some 77;
}

abbrev pub ready_intent : Intent
ready_intent = record {
  id = 50;
  user_id = 1;
  chain = eth;
  asset = asset_name;
  amount = amount_short;
  recipient = address_a;
  fee = [];
  status = ready;
  expires_at = 2000;
  used_at = none;
  transaction_id = none;
}

abbrev pub open_deposit : RampTx
open_deposit = record {
  id = 60;
  user_id = 1;
  type = deposit_type;
  amount_ngn = amount_short;
  provider = asset_name;
  reference = 600;
  status = pending;
  provider_reference = none;
  provider_customer_id = none;
  failure_reason = none;
  provider_amount_ngn = none;
  provider_status_raw = none;
  last_synced_at = none;
}

abbrev pub asked_payment : PaymentRequest
asked_payment = record {
  id = 70;
  user_id = 2;
  asset = asset_name;
  amount = some amount_short;
  note = none;
  status = open_request;
  expires_at = none;
  fulfilled_transaction_id = none;
  fulfilled_at = none;
}

abbrev pub sample_db : Db
sample_db = record {
  clock = 1000;
  next_id = 100;
  users = ada ∷ bola ∷ [];
  sessions = record { id = 5; user_id = 1; token = 500; expires_at = 9000 } ∷ [];
  account_ids =
      record { account_id = 1001; user_id = 1 } ∷ record { account_id = 1002; user_id = 2 } ∷ [];
  wallets = record { user_id = 1; chain = eth; address = address_a } ∷ [];
  transactions = waiting_tx ∷ [];
  receipts = [];
  intents = ready_intent ∷ [];
  contacts = [];
  payment_requests = asked_payment ∷ [];
  ramp_txs = open_deposit ∷ [];
  webhook_events = [];
  otps = [];
  jobs = [];
}

-- the decoded form of every signed transaction of the environment
abbrev pub native_payment : Parsed
native_payment = record {
  chain_id = 1;
  to = some address_a;
  value = 42;
  has_data = false;
  call = none;
}

abbrev pub sample_env : Env
sample_env = record {
  compare_hash = text_eq;
  make_hash = λ t. t;
  hash_code = λ t. t;
  fresh_code = λ n. pin_digits;
  decimal = λ t. t;
  parse_units = λ t d. some 42;
  is_valid_address = λ c a. true;
  address_exists = λ c a. ok true;
  estimate_fee = λ c a b s n. ok [];
  parse_transaction = λ signed. some native_payment;
  chain_id = λ c. 1;
  resolve_token = λ c s. none;
  build_token_transfer = none;
  get_token_balance = none;
  pay_gas = none;
  send_signed = λ c. some (λ signed. ok 9999);
  chain_status = λ c h. ok confirmed;
  queue_up = true;
  ramp_configured = true;
  ramp_name = asset_name;
  create_customer = λ e. ok 800;
  create_instruction = λ r a c. ok (record { provider_reference = 900; status = pending });
  ramp_status = λ r. other_error;
  code_ttl_ms = 600000;
  retention_ttl = 900;
  otp_max_attempts = 3;
  session_ms = 1000;
  ramp_min_ngn = 1;
  ramp_max_ngn = 1000;
  dev_verification = false;
  email_configured = true;
  email_sent = λ e. true;
  account_candidate = λ n. 3000 + n;
  others = λ k db. db;
  rounds = 2;
}

-- No other request runs in the sample environment.
pub quiet_sample : (k : ℕ) (db : Db) → sample_env.others k db ≡ db
quiet_sample k db = refl
