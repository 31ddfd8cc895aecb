-- ===== src/External/Prepare/Stored.antt =====
-- `prepare`: what it has checked when it answers, and what it stores.
use ulmara_backend.Common.{
  Option, Text, arith, find_where, inl, inr, none, some, true, ◌+◌, ◌==◌, ◌≡◌,
}
use ulmara_backend.World.{Db, Env, Result-cases, Token, TokenPlan, ok, ready}
use ulmara_backend.External.{resolve_asset}
use ulmara_backend.External.Prepare.{
  PrepareInput, Prepared, finish_prepare, prepare, price, price_and_store, store_intent,
}
use ulmara_backend.Lockout.{active_lock, assert_pin_authorized, lock_field, pin_hash_of, user_of}
use ulmara_backend.Lockout.Laws.{assert_pin_authorized_sound}
use ulmara_backend.Transfer.{verify_address_exists}

finish_prepare-stored :
    (env : Env) (input : PrepareInput) (priced : Text × Option TokenPlan) (p : Prepared)
    (db db' : Db)
    → finish_prepare env input priced db ≡ (ok p, db')
    → find_where (λ i. i.id == p.id) db'.intents
      ≡ some (record {
        id = p.id;
        user_id = input.user_id;
        chain = input.chain;
        asset = input.asset;
        amount = env.decimal input.amount;
        recipient = input.to;
        fee = p.fee;
        status = ready;
        expires_at = db'.clock + 600000;
        used_at = none;
        transaction_id = none;
      })
unfolding finish_prepare store_intent find_where
finish_prepare-stored env input priced p db db' e = ground arith

-- The last steps of a preparation that answers.
prepare_last :
    (env : Env) (input : PrepareInput) (token : Option Token) (p : Prepared) (db db' : Db)
    → price_and_store env input token db ≡ (ok p, db')
    → (priced : Text × Option TokenPlan) × (d : Db) × (finish_prepare env input priced d
        ≡ (ok p, db'))
unfolding price_and_store
prepare_last env input token p db db' e = elim (Result-cases (price env input token db).0) [
  | inl (priced, answered) ↦ (priced, (price env input token db).1, ground arith)
  | inr (e', thrown_up) ↦ absurd (ground arith)
]

prepare_run :
    (env : Env) (input : PrepareInput) (p : Prepared) (db db' : Db)
    → prepare env input db ≡ (ok p, db')
    → (token : Option Token) × (d : Db) × (price_and_store env input token d ≡ (ok p, db'))
unfolding prepare
prepare_run env input p db db' e = elim (Result-cases (resolve_asset env input.chain input.asset)) [
  | inl (token, known) ↦ (
    token,
    (verify_address_exists env input.chain input.to
        (env.others 20 (assert_pin_authorized env input.user_id input.pin db).1)).1,
    ground arith,
  )
  | inr (e', thrown_up) ↦ absurd (ground arith)
]

-- A preparation that answers stored, under the id that it answers, an intent that is READY, that has
-- the input's user, chain, asset, amount and recipient and the answered fee, and that expires ten
-- minutes after.
pub prepare-stored :
    (env : Env) (input : PrepareInput) (p : Prepared) (db db' : Db)
    → prepare env input db ≡ (ok p, db')
    → find_where (λ i. i.id == p.id) db'.intents
      ≡ some (record {
        id = p.id;
        user_id = input.user_id;
        chain = input.chain;
        asset = input.asset;
        amount = env.decimal input.amount;
        recipient = input.to;
        fee = p.fee;
        status = ready;
        expires_at = db'.clock + 600000;
        used_at = none;
        transaction_id = none;
      })
prepare-stored env input p db db' e =
    let (token, d, run) = prepare_run env input p db db' e in
    let (priced, d', last) = prepare_last env input token p d db' run in
    finish_prepare-stored env input priced p d' db' last

-- A preparation that answers was given the user's PIN while no lockout was in force, and a recipient
-- that the chain's adapter holds for a valid address.
prepare_requires_pin :
    (env : Env) (input : PrepareInput) (p : Prepared) (db db' : Db)
    → prepare env input db ≡ (ok p, db')
    → (env.is_valid_address input.chain input.to ≡ true)
      × ((hash : Text) × (pin_hash_of (user_of input.user_id (env.others 40 db)) ≡ some hash)
          × (env.compare_hash input.pin hash ≡ true)
          × (active_lock (lock_field (user_of input.user_id db)) db.clock ≡ none))
unfolding prepare
prepare_requires_pin env input p db db' e =
    let passed : assert_pin_authorized env input.user_id input.pin db
        ≡ (ok tt, (assert_pin_authorized env input.user_id input.pin db).1) =
      ground arith in
    let (hash, has, same, free, after) =
      assert_pin_authorized_sound env input.user_id input.pin db _ passed in
    (ground arith, (hash, has, same, free))
