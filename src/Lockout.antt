-- ===== src/Lockout.antt =====
-- src/services/auth/pinLockout.service.ts: the lockout that guards every check of a PIN. The counter
-- and the end of a lockout stand in the user's row. Log lines are left out.
pub mod Laws
pub mod Sequence
pub mod Race
pub mod Frame
mod Tests
use ulmara_backend.Common.{
  Bool, Option, Text, [], exists_where, false, find_where, if◌then◌else◌, is_some, leb, none, not,
  show_ℕ, some, suc, text, update_where, zero, ℕ, ◌&&◌, ◌++◌, ◌+◌, ◌-◌, ◌/◌, ◌==◌, ◌∷◌,
}
use ulmara_backend.World.{
  Db, Env, Error, M, User, await_others, gets, http, ok, or_throw, pure, throw, throw_if, thrown, ⊤,
  ◌>>=◌, ◌>>◌,
}

abbrev pub pin_max_attempts : ℕ
pin_max_attempts = 5

abbrev pub pin_lockout_ms : ℕ
pin_lockout_ms = 900000

abbrev pub is_user : ℕ → User → Bool
is_user id u = u.id == id

abbrev pub user_of : ℕ → Db → Option User
user_of id db = find_where (is_user id) db.users

abbrev pub find_user : ℕ → M (Option User)
find_user id = gets (user_of id)

-- `prisma.user.updateMany({ where, data })`, with whether a row matched: the `where` names the
-- primary key, so that a count is 0 or 1.
abbrev pub update_users : (User → Bool) → (User → User) → M Bool
update_users p f db =
    let hit = exists_where p db.users in (ok hit, record db { users = update_where p f db.users })

-- `until !== null && until.getTime() <= now`
abbrev pub is_expired : Option ℕ → ℕ → Bool
is_expired none now = false
is_expired (some until) now = leb until now

-- the end of a lockout that is in force
abbrev pub active_lock : Option ℕ → ℕ → Option ℕ
active_lock none now = none
active_lock (some until) now = if leb until now then none else some until

-- `user?.pinLockedUntil ?? null`
abbrev pub lock_field : Option User → Option ℕ
lock_field none = none
lock_field (some u) = u.pin_locked_until

-- `getLockState`: the end of the lockout if `locked`
unfoldable pub get_lock_state : ℕ → M (Option ℕ)
get_lock_state id = do
  user ← find_user id
  now ← gets (λ db. db.clock)
  pure (active_lock (lock_field user) now)

-- What one failure writes, from the values that were read.
abbrev pub failure_write : (raw : ℕ) (expired : Bool) (now : ℕ) → User → User
failure_write raw expired now u =
    let next = (if expired then 0 else raw) + 1 in
    let locking = leb pin_max_attempts next in
    record u {
      pin_failed_attempts = if locking then 0 else next;
      pin_locked_until =
          if locking
          then some (now + pin_lockout_ms)
          else if expired
          then none
          else u.pin_locked_until;
    }

abbrev pub not_found : Error
not_found = http 404 (text "Account not found")

-- The compare-and-swap on the raw counter. Before it, `meanwhile` is what other requests do since
-- the counter was read; if the swap loses, `retry` runs.
unfoldable pub swap_failure : M ⊤ → M ℕ → (id raw : ℕ) → Bool → (now : ℕ) → M ℕ
swap_failure meanwhile retry id raw expired now = do
  meanwhile
  won ←
      update_users (λ u. u.id == id && u.pin_failed_attempts == raw) (failure_write raw expired now)
  if won then pure ((if expired then 0 else raw) + 1) else retry

-- One round of the loop of `recordFailure`.
unfoldable pub record_round : M ⊤ → M ℕ → ℕ → M ℕ
record_round meanwhile retry id = do
  user ← or_throw (← find_user id) not_found
  now ← gets (λ db. db.clock)
  let expired = is_expired user.pin_locked_until now
  if not expired && is_some user.pin_locked_until
      then pure pin_max_attempts
      else swap_failure meanwhile retry id user.pin_failed_attempts expired now

-- `recordFailure`: other requests may win the swap in `rounds` rounds; then they leave it one.
unfoldable pub record_failure : Env → ℕ → ℕ → M ℕ
record_failure env zero id =
    record_round (pure tt) (throw (thrown (text "the counter changed again"))) id
record_failure env (suc n) id = record_round (await_others env n) (record_failure env n id) id

-- `reset`
unfoldable pub reset : ℕ → M ⊤
reset id = do
  update_users (is_user id) (λ u. record u { pin_failed_attempts = 0; pin_locked_until = none })
  pure tt

-- `Math.max(1, Math.ceil((until - now) / 60_000))`
abbrev minutes_left : ℕ → ℕ → ℕ
minutes_left until now = let m = (until - now + 59999) / 60000 in if m == 0 then 1 else m

unfoldable pub locked_for : ℕ → ℕ → Text
locked_for until now =
    let minutes = minutes_left until now in
    text "Too many incorrect PIN attempts. Try again in "
    ++ show_ℕ minutes
    ++ (text " minute" ++ ((if minutes == 1 then [] else text "s") ++ text "."))

abbrev pub locked_message : Text
locked_message = text "Too many incorrect PIN attempts. Try again in 15 minutes."

-- `user?.pinHash`, where an empty hash counts as none
abbrev pub pin_hash_of : Option User → Option Text
pin_hash_of none = none
pin_hash_of (some u) = elim u.pin_hash [
  | none ↦ none
  | some h ↦ elim h [ [] ↦ none | c ∷ cs ↦ some (c ∷ cs) ]
]

-- `assertPinAuthorized`: other requests may run before its read of the PIN's hash and, while the PIN is
-- compared, after it.
unfoldable pub assert_pin_authorized : Env → ℕ → Text → M ⊤
assert_pin_authorized env id pin = do
  lock ← get_lock_state id
  now ← gets (λ db. db.clock)
  elim lock [
    | some until ↦ throw (http 423 (locked_for until now))
    | none ↦ do
      await_others env 40
      user ← find_user id
      hash ← or_throw (pin_hash_of user) (http 409 (text "No PIN set for this account"))
      await_others env 41
      let refuse = do
        attempts ← record_failure env env.rounds id
        throw_if (leb pin_max_attempts attempts) (http 423 locked_message)
        throw (http 401 (text "Incorrect PIN. Try again."))
      if env.compare_hash pin hash then reset id else refuse
  ]
