-- ===== src/Lockout/Sequence.antt =====
-- Consecutive wrong PINs with no other request in between: each is counted, and the fifth arms the
-- lockout.
use ulmara_backend.Common.{
  All, Bool, List, Text, [], ap, arith, false, find_where, find_where-update_where,
  find_where_narrow, find_where_sound, if◌then◌else◌, leb, none, refl, some, suc, text,
  update_where, zero, ℕ, ◌&&◌, ◌+◌, ◌==◌, ◌∙◌, ◌∷◌, ◌≡◌,
}
use ulmara_backend.World.{Db, Env, M, Result, User, err, http, ok, ⊤}
use ulmara_backend.Lockout.{
  active_lock, assert_pin_authorized, failure_write, get_lock_state, is_expired, is_user,
  locked_message, pin_hash_of, pin_lockout_ms, pin_max_attempts, record_failure, record_round,
  swap_failure, user_of,
}

abbrev swap_test : ℕ → User → User → Bool
swap_test id u v = v.id == id && v.pin_failed_attempts == u.pin_failed_attempts

-- What a counted failure leaves, where `u` was the row that was read.
abbrev after_failure : ℕ → User → Db → Db
after_failure id u db = record db {
  users =
      update_where (swap_test id u)
        (failure_write u.pin_failed_attempts (is_expired u.pin_locked_until db.clock) db.clock)
        db.users;
}

-- The number that a counted failure returns.
abbrev next_count : User → Db → ℕ
next_count u db = (if is_expired u.pin_locked_until db.clock then 0 else u.pin_failed_attempts) + 1

module _ (id : ℕ) (u : User) (db : Db) (found : user_of id db ≡ some u) where
  swap_test_hits : find_where (swap_test id u) db.users ≡ some u
  swap_test_hits =
      find_where_narrow (is_user id) (swap_test id u) u (λ v e. ground arith) db.users found
        (ground (arith, find_where_sound (is_user id) u db.users found))

  user_after_failure :
      user_of id (after_failure id u db)
      ≡ some
          (failure_write u.pin_failed_attempts (is_expired u.pin_locked_until db.clock) db.clock u)
  user_after_failure =
      rw
        (
          find_where-update_where (is_user id) (swap_test id u)
              (failure_write u.pin_failed_attempts (is_expired u.pin_locked_until db.clock)
                db.clock)
              (λ v. refl) db.users,
          found,
        )
        (ground (arith, find_where_sound (is_user id) u db.users found))

  module _ (free : active_lock u.pin_locked_until db.clock ≡ none) where
    record_round_quiet :
        (meanwhile : M ⊤) (retry : M ℕ)
        → meanwhile db ≡ (ok tt, db)
        → record_round meanwhile retry id db ≡ (ok (next_count u db), after_failure id u db)
    unfolding record_round swap_failure
    record_round_quiet meanwhile retry calm = rw found (ground (arith, calm, swap_test_hits))

    record_failure_quiet :
        (env : Env)
        → ((k : ℕ) (d : Db) → env.others k d ≡ d)
        → (n : ℕ) → record_failure env n id db ≡ (ok (next_count u db), after_failure id u db)
    unfolding record_failure
    record_failure_quiet env quiet zero = record_round_quiet _ _ refl
    record_failure_quiet env quiet (suc n) =
        record_round_quiet _ _ (ap (λ d. (Result.ok tt, d)) (quiet n db))

-- how many PINs are given
unfoldable pub tries : List Text → ℕ
tries [] = 0
tries (pin ∷ pins) = suc (tries pins)

module _ (env : Env) (quiet : (k : ℕ) (d : Db) → env.others k d ≡ d) (id : ℕ) (hash : Text) where
  wrong_pin_run :
      (pin : Text) (u : User) (db : Db)
      → user_of id db ≡ some u
      → pin_hash_of (some u) ≡ some hash
      → env.compare_hash pin hash ≡ false
      → active_lock u.pin_locked_until db.clock ≡ none
      → assert_pin_authorized env id pin db ≡ (
        err (
            if leb pin_max_attempts (next_count u db)
            then http 423 locked_message
            else http 401 (text "Incorrect PIN. Try again.")),
        after_failure id u db,
      )
  unfolding assert_pin_authorized get_lock_state
  wrong_pin_run pin u db found has wrong free =
      rw (found, free, quiet 40 db, found)
        (ground (
          arith,
          has,
          wrong,
          quiet 41 db,
          record_failure_quiet id u db found free env quiet env.rounds,
        ))

  -- A wrong PIN is refused with status 401, or 423 if it is the fifth, and is counted.
  wrong_pin_counts :
      (pin : Text) (u : User) (db : Db)
      → user_of id db ≡ some u
      → pin_hash_of (some u) ≡ some hash
      → env.compare_hash pin hash ≡ false
      → active_lock u.pin_locked_until db.clock ≡ none
      → let next = next_count u db in
        let run = assert_pin_authorized env id pin db in
        (run.0
          ≡ err (
              if leb 5 next
              then http 423 locked_message
              else http 401 (text "Incorrect PIN. Try again.")))
        × (user_of id run.1
            ≡ some (
                failure_write u.pin_failed_attempts
                  (is_expired u.pin_locked_until db.clock)
                  db.clock
                  u))
        × (run.1.clock ≡ db.clock)
  wrong_pin_counts pin u db found has wrong free =
      rw (wrong_pin_run pin u db found has wrong free)
        (refl, user_after_failure id u db found, refl)

  -- The state after a check of each PIN.
  pub pin_attempts : List Text → Db → Db
  pin_attempts [] db = db
  pin_attempts (pin ∷ pins) db = pin_attempts pins (assert_pin_authorized env id pin db).1

  -- With no other request meanwhile, from a counter of `c` with no lockout on record, any `5 - c` wrong
  -- PINs in a row, at least one, arm a lockout of fifteen minutes, counted from the time of the checks,
  -- and the counter is back at 0.
  pub wrong_pins_lock :
      (pin : Text) (pins : List Text) (u : User) (db : Db)
      → user_of id db ≡ some u
      → pin_hash_of (some u) ≡ some hash
      → All (λ p. env.compare_hash p hash ≡ false) (pin ∷ pins)
      → u.pin_locked_until ≡ none
      → u.pin_failed_attempts + tries (pin ∷ pins) ≡ 5
      → (v : User) × (user_of id (pin_attempts (pin ∷ pins) db) ≡ some v)
        × (v.pin_locked_until ≡ some (db.clock + 900000))
        × (v.pin_failed_attempts ≡ 0)
        × ((pin_attempts (pin ∷ pins) db).clock ≡ db.clock)
  unfolding pin_attempts tries
  wrong_pins_lock pin [] u db found has wrong open_row count =
      let free : active_lock u.pin_locked_until db.clock ≡ none = ground arith in
      let step = wrong_pin_counts pin u db found has wrong.0 free in
      (
        failure_write u.pin_failed_attempts (is_expired u.pin_locked_until db.clock) db.clock u,
        step.1,
        ground arith,
        ground arith,
        step.2,
      )
  wrong_pins_lock pin (next ∷ pins) u db found has wrong open_row count =
      let free : active_lock u.pin_locked_until db.clock ≡ none = ground arith in
      let step = wrong_pin_counts pin u db found has wrong.0 free in
      let (v, row, lock, zero_count, time) =
        wrong_pins_lock next pins
          (failure_write u.pin_failed_attempts (is_expired u.pin_locked_until db.clock) db.clock u)
          (assert_pin_authorized env id pin db).1 step.1 has wrong.1 (ground arith)
          (ground arith) in
      (v, row, lock ∙ ap (λ t. some (t + pin_lockout_ms)) step.2, zero_count, time ∙ step.2)
