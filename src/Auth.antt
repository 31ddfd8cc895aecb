-- ===== src/Auth.antt =====
-- src/services/auth/auth.service.ts: the PIN operations and the sessions. Account deletion is left
-- out, and so are log lines.
pub mod Pin
pub mod Sessions
pub mod Access
mod Tests
use ulmara_backend.Common.{
  Bool, List, Option, Text, all_digits, delete_where, find_where, if◌then◌else◌, is_some, leb,
  length, ltb, map, none, not, some, text, ℕ, ◌&&◌, ◌==◌,
}
use ulmara_backend.World.{
  Env, Error, M, Session, User, await_others, gets, http, modify, or_throw, pure, throw, throw_if,
  thrown, ⊤, ◌>>=◌, ◌>>◌,
}
use ulmara_backend.Lockout.{
  assert_pin_authorized, find_user, get_lock_state, is_user, locked_for, locked_message, not_found,
  pin_hash_of, record_failure, reset, update_users,
}

-- `/^\d{6}$/`
abbrev pub is_six : Text → Bool
is_six pin = length pin == 6 && all_digits pin

abbrev check_pin_shape : Text → M ⊤
check_pin_shape pin = throw_if (not (is_six pin)) (http 400 (text "PIN must be 6 digits"))

abbrev already_set : Error
already_set = http 409 (text "A PIN is already set for this account")

-- `where: { id: userId, pinHash: null }`
abbrev pub has_no_pin : ℕ → User → Bool
has_no_pin id u = u.id == id && not (is_some u.pin_hash)

abbrev pub with_pin : Text → User → User
with_pin hash u = record u { pin_hash = some hash }

-- `setPin`: other requests may run between the check and the claim.
unfoldable pub set_pin : Env → ℕ → Text → M ⊤
set_pin env id pin = do
  check_pin_shape pin
  found ← find_user id
  user ← or_throw found not_found
  throw_if (is_some (pin_hash_of (some user))) already_set
  await_others env 0
  claimed ← update_users (has_no_pin id) (with_pin (env.make_hash pin))
  throw_if (not claimed) already_set

-- A wrong PIN at the login gate is counted.
unfoldable pub refuse_pin : Env → ℕ → M ⊤
refuse_pin env id = do
  attempts ← record_failure env env.rounds id
  throw_if (leb 5 attempts) (http 423 locked_message)
  throw (http 401 (text "Incorrect PIN. Try again."))

-- `verifyPin`
unfoldable pub verify_pin : Env → ℕ → Text → M ⊤
verify_pin env id pin = do
  check_pin_shape pin
  lock ← get_lock_state id
  now ← gets (λ db. db.clock)
  elim lock [
    | some until ↦ throw (http 423 (locked_for until now))
    | none ↦ do
      await_others env 40
      user ← find_user id
      hash ← or_throw (pin_hash_of user) (http 409 (text "No PIN set for this account"))
      await_others env 41
      if env.compare_hash pin hash then reset id else refuse_pin env id
  ]

-- `changePin`
unfoldable pub change_pin : Env → ℕ → (current new : Text) → M ⊤
change_pin env id current new = do
  check_pin_shape new
  user ← find_user id
  or_throw (pin_hash_of user) (http 409 (text "No PIN set for this account"))
  await_others env 29
  assert_pin_authorized env id current
  await_others env 30
  found ← update_users (is_user id) (with_pin (env.make_hash new))
  throw_if (not found) (thrown (text "Record to update not found"))

abbrev has_session_id : ℕ → Session → Bool
has_session_id i s = s.id == i

abbrev pub has_token : ℕ → Session → Bool
has_token token s = s.token == token

abbrev own_session : ℕ → Option Session → Option Session
own_session user none = none
own_session user (some s) = if s.user_id == user then some s else none

-- `listSessions`, each with whether it is the current one
unfoldable list_sessions : (user token : ℕ) → M (List (ℕ × Bool))
list_sessions user token = gets (λ db.
    map (λ s. (s.id, s.token == token))
      (delete_where (λ s. not (s.user_id == user && ltb db.clock s.expires_at)) db.sessions))

abbrev delete_session : ℕ → M ⊤
delete_session i =
    modify (λ db. record db { sessions = delete_where (has_session_id i) db.sessions })

-- `revokeSession`
unfoldable revoke_session : (user id token : ℕ) → M ⊤
revoke_session user id token = do
  found ← gets (λ db. own_session user (find_where (has_session_id id) db.sessions))
  session ← or_throw found (http 404 (text "Session not found"))
  throw_if (session.token == token)
      (http 400 (text "Cannot revoke your current session — use POST /api/auth/logout to sign out"))
  delete_session id

-- `logout`
unfoldable pub logout : (token : ℕ) → M ⊤
logout token = modify (λ db. record db { sessions = delete_where (has_token token) db.sessions })

pub data TokenCheck : Type 0 where
  token_expired token_invalid : TokenCheck
  claims : (subject : ℕ) → TokenCheck

abbrev unauthorized : Text → Error
unauthorized message = http 401 message

-- `requireAuth` of src/middleware/auth.middleware.ts on a bearer token, where `verify` is the check of
-- the token's signature.
unfoldable pub require_auth : (verify : ℕ → TokenCheck) → Option ℕ → M ℕ
require_auth verify none = throw (unauthorized (text "Unauthorized"))
require_auth verify (some token) = elim (verify token) [
  | token_expired ↦ throw (unauthorized (text "Session expired"))
  | token_invalid ↦ throw (unauthorized (text "Invalid token"))
  | claims subject ↦ do
    found ← gets (λ db. find_where (has_token token) db.sessions)
    session ← or_throw found (unauthorized (text "Session expired"))
    now ← gets (λ db. db.clock)
    throw_if (ltb session.expires_at now) (unauthorized (text "Session expired"))
    throw_if (not (session.user_id == subject)) (unauthorized (text "Invalid token"))
    pure subject
]
