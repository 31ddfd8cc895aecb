-- ===== src/Lockout/Race.antt =====
-- Two requests in the loop of `recordFailure` at once.
use ulmara_backend.Common.{
  Bool, arith, find_where, find_where-update_where, find_where_narrow, find_where_sound,
  if◌then◌else◌, none, refl, some, suc, true, update_where, ℕ, ◌&&◌, ◌+◌, ◌<◌, ◌==◌, ◌≡◌, ◌≤◌,
}
use ulmara_backend.World.{Db, Env, M, User, await_others, ok, ⊤}
use ulmara_backend.Lockout.{
  active_lock, failure_write, is_user, lock_field, record_failure, record_round, swap_failure,
  user_of,
}

module _ (id raw now : ℕ) (expired : Bool) (v : User) (d : Db) (found : user_of id d ≡ some v) where
  abbrev wins : User → Bool
  wins u = u.id == id && u.pin_failed_attempts == raw

  -- The swap wins exactly if the counter is still the one that was read.
  wins_found : v.pin_failed_attempts ≡ raw → find_where wins d.users ≡ some v
  wins_found same =
      find_where_narrow (is_user id) wins v (λ u e. ground arith) d.users found
        (ground (arith, find_where_sound (is_user id) v d.users found))

  module _ (meanwhile : M ⊤) (retry : M ℕ) (db : Db) (ran : meanwhile db ≡ (ok tt, d))
      (same : v.pin_failed_attempts ≡ raw) where
    swap_failure_run : swap_failure meanwhile retry id raw expired now db ≡ (
      ok ((if expired then 0 else raw) + 1),
      record d { users = update_where wins (failure_write raw expired now) d.users },
    )
    unfolding swap_failure
    swap_failure_run = ground (arith, ran, wins_found same)

    -- A swap that wins counts the failure on the row as the other requests left it.
    swap_failure_wins :
        ((swap_failure meanwhile retry id raw expired now db).0
          ≡ ok ((if expired then 0 else raw) + 1))
        × (user_of id (swap_failure meanwhile retry id raw expired now db).1
            ≡ some (failure_write raw expired now v))
    swap_failure_wins = rw swap_failure_run (
      refl,
      rw
          (
            find_where-update_where (is_user id) wins (failure_write raw expired now) (λ u. refl)
                d.users,
            found,
          )
          (ground (arith, find_where_sound (is_user id) v d.users found)),
    )

-- The swap compares the counter alone, and the counter returns to 0 when a lockout is armed.
-- If a request reads a row whose lockout has run out, with the counter at 0, and other requests arm
-- a new lockout before its swap, then the swap wins and clears the new lockout.
pub stale_swap_clears_lock :
    (env : Env) (n id old fresh : ℕ) (u v : User) (db : Db)
    → user_of id db ≡ some u
    → u.pin_failed_attempts ≡ 0
    → u.pin_locked_until ≡ some old
    → old ≤ db.clock
    → user_of id (env.others n db) ≡ some v
    → v.pin_failed_attempts ≡ 0
    → v.pin_locked_until ≡ some fresh
    → (env.others n db).clock < fresh
    → ((record_failure env (suc n) id db).0 ≡ ok 1)
      × (active_lock
            (lock_field (user_of id (record_failure env (suc n) id db).1))
            (env.others n db).clock
          ≡ none)
unfolding record_failure record_round
stale_swap_clears_lock env n id old fresh u v db found zero_u lock past found' zero_v armed future =
    let now = db.clock in
    let start : record_failure env (suc n) id db
        ≡ swap_failure (await_others env n) (record_failure env n id) id 0 true now db =
      rw (found, zero_u, lock) (ground arith) in
    let won =
      swap_failure_wins id 0 now true v (env.others n db) found' (await_others env n)
        (record_failure env n id) db refl zero_v in
    rw start (won.0, rw won.1 refl)
