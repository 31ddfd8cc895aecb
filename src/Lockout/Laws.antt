-- ===== src/Lockout/Laws.antt =====
-- What one PIN check does: it is refused while a lockout is in force, it succeeds only on the right
-- PIN, and no counter ever reaches the limit, whatever other requests do.
use ulmara_backend.Common.{
  All, All-update_where, Bool, Option-cases, Text, arith, inl, inr, none, some, suc, true,
  update_where, zero, ℕ, ◌&&◌, ◌<◌, ◌==◌, ◌≡◌,
}
use ulmara_backend.World.{Db, Env, M, User, err, http, ok, or_throw, ⊤}
use ulmara_backend.Lockout.{
  active_lock, assert_pin_authorized, failure_write, get_lock_state, is_expired, lock_field,
  locked_for, pin_hash_of, pin_max_attempts, record_failure, record_round, reset, swap_failure,
  update_users, user_of,
}

abbrev IsBelowLimit : Db → Type 0
IsBelowLimit db = All (λ u. u.pin_failed_attempts < pin_max_attempts) db.users

-- While a lockout is in force, a check is refused with status 423, the right PIN included, and
-- nothing changes.
assert_pin_authorized_locked :
    (env : Env) (id : ℕ) (pin : Text) (u : User) (until : ℕ) (db : Db)
    → user_of id db ≡ some u
    → u.pin_locked_until ≡ some until
    → db.clock < until
    → assert_pin_authorized env id pin db ≡ (err (http 423 (locked_for until db.clock)), db)
unfolding assert_pin_authorized get_lock_state
assert_pin_authorized_locked env id pin u until db found locked early = ground arith

-- A check that succeeds found no lockout in force and then, after what other requests did meanwhile, a
-- PIN hash that the given PIN matches. Since that read and what other requests did during the
-- comparison, it set the user's counter to 0, cleared the lockout, and changed nothing else.
pub assert_pin_authorized_sound :
    (env : Env) (id : ℕ) (pin : Text) (db db' : Db)
    → assert_pin_authorized env id pin db ≡ (ok tt, db')
    → (hash : Text) × (pin_hash_of (user_of id (env.others 40 db)) ≡ some hash)
      × (env.compare_hash pin hash ≡ true)
      × (active_lock (lock_field (user_of id db)) db.clock ≡ none)
      × (db' ≡ record (env.others 41 (env.others 40 db)) {
        users =
            update_where
              (λ u. u.id == id)
              (λ u. record u { pin_failed_attempts = 0; pin_locked_until = none })
              (env.others 41 (env.others 40 db)).users;
      })
unfolding assert_pin_authorized get_lock_state reset
assert_pin_authorized_sound env id pin db db' e =
    elim (Option-cases (pin_hash_of (user_of id (env.others 40 db)))) [
      | inl missing ↦ absurd (ground arith)
      | inr (hash, has) ↦ (hash, has, ground arith, ground arith, ground arith)
    ]

module _ (meanwhile : M ⊤) (retry : M ℕ)
    (keep : (db : Db) → IsBelowLimit db → IsBelowLimit (meanwhile db).1)
    (again : (db : Db) → IsBelowLimit db → IsBelowLimit (retry db).1) (id : ℕ) where
  update-IsBelowLimit :
      (raw : ℕ) (expired : Bool) (now : ℕ) (db : Db)
      → IsBelowLimit db
      → IsBelowLimit
          (update_users
            (λ u. u.id == id && u.pin_failed_attempts == raw)
            (failure_write raw expired now)
            db).1
  update-IsBelowLimit raw expired now db h =
      All-update_where _ _ _ (λ u _ _. ground arith) db.users h

  swap_failure-IsBelowLimit :
      (raw : ℕ) (expired : Bool) (now : ℕ) (db : Db)
      → IsBelowLimit db
      → IsBelowLimit (swap_failure meanwhile retry id raw expired now db).1
  unfolding swap_failure
  swap_failure-IsBelowLimit raw expired now db h = ground (
    arith,
    keep db h,
    update-IsBelowLimit raw expired now (meanwhile db).1,
    again
        (update_users (λ u. u.id == id && u.pin_failed_attempts == raw)
          (failure_write raw expired now) (meanwhile db).1).1,
  )

  -- One round keeps the bound if what runs meanwhile and what is retried keep it.
  record_round-IsBelowLimit :
      (db : Db) → IsBelowLimit db → IsBelowLimit (record_round meanwhile retry id db).1
  unfolding record_round
  record_round-IsBelowLimit db h = elim (Option-cases (user_of id db)) [
    | inl missing ↦ rw (missing, or_throw) h
    | inr (u, found) ↦
        rw (found, or_throw)
          (ground (
            arith,
            swap_failure-IsBelowLimit u.pin_failed_attempts (is_expired u.pin_locked_until db.clock)
                db.clock db h,
          ))
  ]

-- Whatever other requests do, as long as they keep every counter below the limit, a recorded
-- failure keeps every counter below the limit.
record_failure-IsBelowLimit :
    (env : Env)
    → ((k : ℕ) (db : Db) → IsBelowLimit db → IsBelowLimit (env.others k db))
    → (n id : ℕ) (db : Db) → IsBelowLimit db
    → IsBelowLimit (record_failure env n id db).1
unfolding record_failure
record_failure-IsBelowLimit env keep zero id db h =
    record_round-IsBelowLimit _ _ (λ _ k. k) (λ _ k. k) id db h
record_failure-IsBelowLimit env keep (suc n) id db h =
    record_round-IsBelowLimit _ _ (keep n) (record_failure-IsBelowLimit env keep n id) id db h

reset-IsBelowLimit : (id : ℕ) (db : Db) → IsBelowLimit db → IsBelowLimit (reset id db).1
unfolding reset
reset-IsBelowLimit id db h = All-update_where _ _ _ (λ u _ _. omega arith) db.users h

-- Whatever other requests do, as long as they keep every counter below the limit, a PIN check keeps
-- every counter below the limit.
assert_pin_authorized-IsBelowLimit :
    (env : Env)
    → ((k : ℕ) (db : Db) → IsBelowLimit db → IsBelowLimit (env.others k db))
    → (id : ℕ) (pin : Text) (db : Db) → IsBelowLimit db
    → IsBelowLimit (assert_pin_authorized env id pin db).1
unfolding assert_pin_authorized get_lock_state
assert_pin_authorized-IsBelowLimit env keep id pin db h =
    let d = env.others 40 db in
    let d' = env.others 41 d in
    ground (
      arith,
      keep 40 db h,
      keep 41 d,
      reset-IsBelowLimit id d',
      record_failure-IsBelowLimit env keep env.rounds id d',
    )
