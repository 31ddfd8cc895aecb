-- ===== src/External/Tests.antt =====
-- Runs of signed transfers on concrete states.
use ulmara_backend.Common.{
  [], false, find_where, lower, none, refl, some, text, text_eq, true, ◌==◌, ◌∷◌, ◌≡◌, ◌⊎◌,
}
use ulmara_backend.World.{
  Env, Parsed, Token, Transaction, err, eth, http, ok, pending, process_transaction, ready, used,
}
use ulmara_backend.External.{
  check_amount, native_asset, resolve_asset, verify_native, verify_signed_transaction,
}
use ulmara_backend.External.Prepare.{
  PrepareInput, Prepared, check_gas, finish_prepare, plan_asset, prepare, price, price_and_store,
  store_intent,
}
use ulmara_backend.External.Prepare.Stored.{prepare-stored}
use ulmara_backend.External.Submit.{is_intent, submit}
use ulmara_backend.External.Submit.Fresh.{submit_queued}
use ulmara_backend.External.Submit.Once.{submit_bad_signature}
use ulmara_backend.External.Verify.{PaysNative, PaysToken, verify_signed_transaction_sound}
use ulmara_backend.Lockout.{assert_pin_authorized, get_lock_state, reset}
use ulmara_backend.Sample.{
  address_a, amount_long, asset_name, pin_digits, ready_intent, sample_db, sample_env, waiting_tx,
}
use ulmara_backend.Transfer.{by_address, verify_address_exists}

verify_signed_transaction_sound_example :
    (p : Parsed) × (sample_env.parse_transaction 7 ≡ some p)
    × (p.chain_id ≡ 1)
    × (((sample_env.resolve_token eth asset_name ≡ none) × PaysNative sample_env ready_intent p)
        ⊎ ((token : Token) × (sample_env.resolve_token eth asset_name ≡ some token)
            × PaysToken sample_env ready_intent p token))
unfolding verify_signed_transaction verify_native check_amount text_eq lower
verify_signed_transaction_sound_example =
    verify_signed_transaction_sound sample_env ready_intent 7 false refl

abbrev submitted_tx : Transaction
submitted_tx = record {
  id = 100;
  sender_id = 1;
  recipient_account_id = none;
  recipient_address = some ready_intent.recipient;
  asset = ready_intent.asset;
  amount = ready_intent.amount;
  network = eth;
  status = pending;
  tx_hash = none;
  idempotency_key = some 88;
}

submit_queued_example :
    ((submit sample_env 1 50 7 88 sample_db).0
      ≡ ok (record {
        row = submitted_tx;
        sent = true;
        counterparty = by_address ready_intent.recipient;
      }))
    × ((submit sample_env 1 50 7 88 sample_db).1.transactions ≡ submitted_tx ∷ waiting_tx ∷ [])
    × ((submit sample_env 1 50 7 88 sample_db).1.jobs ≡ process_transaction 100 7 ∷ [])
    × (find_where (is_intent 50) (submit sample_env 1 50 7 88 sample_db).1.intents
        ≡ some
            (record ready_intent { status = used; used_at = some 1000; transaction_id = some 100 }))
unfolding find_where verify_signed_transaction verify_native check_amount text_eq lower
submit_queued_example =
    submit_queued sample_env 1 50 7 88 ready_intent false sample_db refl refl refl refl refl refl
      refl

-- bytes that no decoder reads
abbrev garbled_env : Env
garbled_env = record sample_env { parse_transaction = λ signed. none }

submit_bad_signature_example :
    ((submit garbled_env 1 50 7 88 sample_db).0
      ≡ err (http 400 (text "The signed transaction could not be decoded")))
    × ((submit garbled_env 1 50 7 88 sample_db).1.transactions ≡ waiting_tx ∷ [])
    × ((submit garbled_env 1 50 7 88 sample_db).1.jobs ≡ [])
    × (find_where (is_intent 50) (submit garbled_env 1 50 7 88 sample_db).1.intents
        ≡ some (record ready_intent { status = ready; used_at = none }))
unfolding verify_signed_transaction find_where
submit_bad_signature_example =
    submit_bad_signature garbled_env 1 50 7 88 ready_intent sample_db refl refl refl refl
      (http 400 (text "The signed transaction could not be decoded")) refl refl

abbrev sample_prepare : PrepareInput
sample_prepare = record {
  user_id = 1;
  chain = eth;
  asset = asset_name;
  amount = amount_long;
  to = address_a;
  pin = pin_digits;
}

abbrev sample_prepared : Prepared
sample_prepared = record { id = 100; input = sample_prepare; fee = []; token = none }

prepare-stored_example :
    find_where (λ i. i.id == 100) (prepare sample_env sample_prepare sample_db).1.intents
    ≡ some (record {
      id = 100;
      user_id = 1;
      chain = eth;
      asset = asset_name;
      amount = amount_long;
      recipient = address_a;
      fee = [];
      status = ready;
      expires_at = 601000;
      used_at = none;
      transaction_id = none;
    })
unfolding prepare resolve_asset text_eq native_asset text assert_pin_authorized get_lock_state
    find_where reset verify_address_exists price_and_store price plan_asset check_gas finish_prepare
    store_intent
prepare-stored_example =
    prepare-stored sample_env sample_prepare sample_prepared sample_db
      (prepare sample_env sample_prepare sample_db).1 refl
