-- ===== src/Lockout/Frame.antt =====
-- A PIN check writes the table of users alone: it keeps every invariant that does not read it, as
-- long as the other requests do.
use ulmara_backend.Common.{
  Bool, List, Option-cases, Text, arith, inl, inr, none, suc, update_where, zero, ℕ, ◌&&◌, ◌==◌,
}
use ulmara_backend.World.{Db, Env, M, User, or_throw, ⊤}
use ulmara_backend.Lockout.{
  assert_pin_authorized, failure_write, get_lock_state, is_expired, is_user, record_failure,
  record_round, reset, swap_failure, user_of,
}

module _ {I : Db → Type 0} (env : Env)
    (stable : (f : List User → List User) (db : Db) → I db → I (record db { users = f db.users }))
    (others : (k : ℕ) (db : Db) → I db → I (env.others k db)) where
  swap_failure_keeps :
      (meanwhile : M ⊤) (retry : M ℕ)
      → ((db : Db) → I db → I (meanwhile db).1)
      → ((db : Db) → I db → I (retry db).1)
      → (id raw : ℕ) (gone : Bool) (now : ℕ) (db : Db) → I db
      → I (swap_failure meanwhile retry id raw gone now db).1
  unfolding swap_failure
  swap_failure_keeps meanwhile retry keep again id raw gone now db h =
      let f =
        update_where (λ (u : User). u.id == id && u.pin_failed_attempts == raw)
          (failure_write raw gone now) in
      let d = (meanwhile db).1 in
      ground (arith, keep db h, stable f d, again (record d { users = f d.users }))

  record_round_keeps :
      (meanwhile : M ⊤) (retry : M ℕ)
      → ((db : Db) → I db → I (meanwhile db).1)
      → ((db : Db) → I db → I (retry db).1)
      → (id : ℕ) (db : Db) → I db
      → I (record_round meanwhile retry id db).1
  unfolding record_round
  record_round_keeps meanwhile retry keep again id db h = elim (Option-cases (user_of id db)) [
    | inl missing ↦ rw (missing, or_throw) h
    | inr (u, found) ↦
        rw (found, or_throw)
          (ground (
            arith,
            swap_failure_keeps meanwhile retry keep again id u.pin_failed_attempts
                (is_expired u.pin_locked_until db.clock) db.clock db h,
          ))
  ]

  record_failure_keeps : (n id : ℕ) (db : Db) → I db → I (record_failure env n id db).1
  unfolding record_failure
  record_failure_keeps zero id db h = record_round_keeps _ _ (λ _ k. k) (λ _ k. k) id db h
  record_failure_keeps (suc n) id db h =
      record_round_keeps _ _ (others n) (record_failure_keeps n id) id db h

  pub assert_pin_authorized_keeps :
      (id : ℕ) (pin : Text) (db : Db) → I db → I (assert_pin_authorized env id pin db).1
  unfolding assert_pin_authorized get_lock_state reset
  assert_pin_authorized_keeps id pin db h =
      let d = env.others 40 db in
      let d' = env.others 41 d in
      ground (
        arith,
        others 40 db h,
        others 41 d,
        stable
            (update_where (is_user id)
              (λ u. record u { pin_failed_attempts = 0; pin_locked_until = none }))
            d',
        record_failure_keeps env.rounds id d',
      )
