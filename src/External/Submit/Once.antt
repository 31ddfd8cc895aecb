-- ===== src/External/Submit/Once.antt =====
-- What a submission can do to an intent, to the ledger and to the queue.
use ulmara_backend.Common.{
  Option, arith, find_where, find_where-update_where, find_where_narrow, find_where_sound,
  if◌then◌else◌, leb, none, not, refl, some, text, true, update_where, update_where-none, ℕ, ◌==◌,
  ◌∙◌, ◌≡◌,
}
use ulmara_backend.World.{Db, Env, Error, Intent, Transaction, err, http, ready}
use ulmara_backend.External.{verify_signed_transaction}
use ulmara_backend.External.Submit.{
  after_claim, can_claim, can_release, claim_or_refuse, is_intent, is_ready, mark_ready, mark_used,
  refuse_claim, release_intent, submit, verify_and_insert,
}
use ulmara_backend.Transfer.{find_by_idempotency_key, has_key, own_row}

-- What a request is told whose intent cannot be claimed.
abbrev pub refusal : (user now : ℕ) → Option Intent → Error
refusal user now none = http 404 (text "Transfer intent not found")
refusal user now (some i) =
    if not (i.user_id == user)
    then http 404 (text "Transfer intent not found")
    else if not (is_ready i.status)
    then http 409 (text "This transfer was already submitted")
    else if leb i.expires_at now
    then http 410 (text "This transfer intent has expired. Start the transfer again.")
    else http 409 (text "This transfer can no longer be submitted")

refuse_claim_run :
    (user id : ℕ) (db : Db)
    → refuse_claim user id db
      ≡ (err (refusal user db.clock (find_where (is_intent id) db.intents)), db)
unfolding refuse_claim
refuse_claim_run user id db = ground arith

module _ (env : Env) (user id signed key : ℕ) where
  -- The state after the claim.
  abbrev pub claimed_state : Db → Db
  claimed_state db = record db {
    intents = update_where (can_claim user id db.clock) (mark_used db.clock) db.intents;
  }

  abbrev key_row : Db → Option Transaction
  key_row db = own_row user (find_where (has_key key) db.transactions)

  submit_new :
      (db : Db)
      → env.others 30 db ≡ db
      → key_row db ≡ none
      → submit env user id signed key db ≡ claim_or_refuse env user id signed key db
  unfolding submit find_by_idempotency_key
  submit_new db quiet fresh = ground (arith, quiet, fresh)

  -- A submission of an intent that is missing, another user's, used or expired is refused with the
  -- status 404, 409 or 410 of its case, and nothing changes: a used intent pays no second time.
  submit_unclaimable :
      (db : Db)
      → env.others 30 db ≡ db
      → key_row db ≡ none
      → find_where (can_claim user id db.clock) db.intents ≡ none
      → submit env user id signed key db
        ≡ (err (refusal user db.clock (find_where (is_intent id) db.intents)), db)
  unfolding claim_or_refuse find_by_idempotency_key
  submit_unclaimable db quiet fresh spent =
      submit_new db quiet fresh
      ∙ ground (
        arith,
        spent,
        fresh,
        update_where-none (can_claim user id db.clock) (mark_used db.clock) db.intents spent,
        refuse_claim_run user id db,
      )

  module _ (i : Intent) (db : Db) (quiet : env.others 30 db ≡ db) (fresh : key_row db ≡ none)
      (found : find_where (is_intent id) db.intents ≡ some i)
      (open_claim : can_claim user id db.clock i ≡ true) where
    claim_hits : find_where (can_claim user id db.clock) db.intents ≡ some i
    claim_hits =
        find_where_narrow (is_intent id) (can_claim user id db.clock) i (λ a e. ground arith)
          db.intents found open_claim

    pub submit_claims :
        submit env user id signed key db ≡ after_claim env user id signed key (claimed_state db)
    unfolding claim_or_refuse find_by_idempotency_key
    submit_claims = submit_new db quiet fresh ∙ ground (arith, claim_hits)

    pub claimed_intent :
        find_where (is_intent id) (claimed_state db).intents ≡ some (mark_used db.clock i)
    claimed_intent = rw (
      find_where-update_where (is_intent id) (can_claim user id db.clock) (mark_used db.clock)
          (λ a. refl) db.intents,
      found,
      open_claim,
    )

    released_intent :
        i.transaction_id ≡ none
        → find_where
            (is_intent id)
            (update_where (can_release id) mark_ready (claimed_state db).intents)
          ≡ some (mark_ready (mark_used db.clock i))
    released_intent unlinked =
        rw
          (
            find_where-update_where (is_intent id) (can_release id) mark_ready (λ a. refl)
                (claimed_state db).intents,
            claimed_intent,
          )
          (ground (arith, find_where_sound (is_intent id) i db.intents found))

    -- Where the key is unused, the intent can be claimed and is linked to no row, and no other request
    -- runs before the claim: a signed transaction that fails the checks is refused with their error;
    -- nothing is written to the ledger or queued, and the intent is READY with no time of use, and
    -- otherwise as before.
    pub submit_bad_signature :
        (e : Error)
        → verify_signed_transaction env (mark_used db.clock i) signed ≡ err e
        → i.transaction_id ≡ none
        → let run = submit env user id signed key db in
          (run.0 ≡ err e)
          × (run.1.transactions ≡ db.transactions)
          × (run.1.jobs ≡ db.jobs)
          × (find_where (is_intent id) run.1.intents
              ≡ some (record i { status = ready; used_at = none }))
    unfolding after_claim verify_and_insert release_intent
    submit_bad_signature e bad_one unlinked =
        let run = submit_claims in
        let after : after_claim env user id signed key (claimed_state db) ≡ (
          err e,
          record (claimed_state db) {
            intents = update_where (can_release id) mark_ready (claimed_state db).intents;
          },
        ) =
          ground (arith, claimed_intent, bad_one) in
        rw (run ∙ after) (refl, refl, refl, released_intent unlinked)
