-- ===== src/SessionToken.antt =====
-- src/config/jwt.ts: the session tokens and the rotation of their key. The library jsonwebtoken, the
-- clock, the random id and `new Date(...)` are parameters.
pub mod Rotation
pub mod Expiry
mod Tests
use mathlib.Core.Option
use ulmara_backend.Common.{
  Bool, Option, Text, [], all_digits, false, if◌then◌else◌, is_empty, is_some, ltb, none, not, some,
  ℕ, ◌&&◌, ◌*◌, ◌+◌, ◌-◌, ◌==◌, ◌∷◌,
}
use ulmara_backend.Json.{non_empty}

-- What `jwt.verify` comes to: a payload that is a text, one with claims, of which only `sub` is read
-- (none if it is no text), an error named TokenExpiredError, or another error.
pub data Verified : Type 0 where
  text_payload : Text → Verified
  claims_payload : (sub : Option Text) → Verified
  expired_error unreadable : Verified

pub record Jwt : Type 0 where
  -- `jwt.verify(token, secret)` at a time
  pub verify : (now : ℕ) → (token secret : Text) → Verified
  -- `jwt.sign({ sub, jti }, secret, { expiresIn })` at a time
  pub sign : (now : ℕ) → (user jti secret expires_in : Text) → Text
  -- `new Date(text).getTime()`, none for NaN
  pub time_of : Text → Option ℕ

pub record Keys : Type 0 where
  pub jwt_secret : Text
  pub previous_secret : Option Text
  pub retire_at : Option Text
  pub expires_in : Text

pub data Failure : Type 0 where
  malformed expired : Failure

pub data Verdict : Type 0 where
  accepted : (user : Text) → Verdict
  rejected : Failure → Verdict

-- the tests of `previousSecretActive` on the two settings
unfoldable pub in_window : Jwt → (now : ℕ) → (secret date : Option Text) → Bool
in_window jwt now none date = false
in_window jwt now (some []) date = false
in_window jwt now (some (c ∷ cs)) none = false
in_window jwt now (some (c ∷ cs)) (some []) = false
in_window jwt now (some (c ∷ cs)) (some (d ∷ ds)) = elim (jwt.time_of (d ∷ ds)) [
  | none ↦ false
  | some at ↦ ltb now at
]

-- `previousSecretActive`
unfoldable pub previous_secret_active : Jwt → Keys → (now : ℕ) → Bool
previous_secret_active jwt keys now = in_window jwt now keys.previous_secret keys.retire_at

pub record RotationState : Type 0 where
  pub current_key_configured : Bool
  pub previous_key_configured : Bool
  pub previous_key_active : Bool
  pub previous_key_retires_at : Option Text
  pub left_ms : Option ℕ

-- `jwtRotationState`; the difference is not negative, since an active key retires later than now
unfoldable jwt_rotation_state : Jwt → Keys → (now : ℕ) → RotationState
jwt_rotation_state jwt keys now =
    let active = previous_secret_active jwt keys now in
    let left : Option ℕ = elim (non_empty keys.retire_at) [
      | none ↦ none
      | some date ↦ Option.map (λ at. at - now) (jwt.time_of date)
    ] in
    record {
      current_key_configured = not (is_empty keys.jwt_secret);
      previous_key_configured = is_some (non_empty keys.previous_secret);
      previous_key_active = active;
      previous_key_retires_at = keys.retire_at;
      left_ms = if active then left else none;
    }

-- `signSessionToken`
unfoldable sign_session_token : Jwt → Keys → (now : ℕ) → (user jti : Text) → Text
sign_session_token jwt keys now user jti = jwt.sign now user jti keys.jwt_secret keys.expires_in

-- the check of the payload at the end of `verifySessionToken`
unfoldable pub read_claims : Verified → Verdict
read_claims (claims_payload (some (c ∷ cs))) = accepted (c ∷ cs)
read_claims _ = rejected malformed

-- the second `try`, on what the previous key says
unfoldable pub read_previous : Verified → Verdict
read_previous expired_error = rejected expired
read_previous v = read_claims v

abbrev previous_or_empty : Keys → Text
previous_or_empty keys = elim keys.previous_secret [ none ↦ [] | some s ↦ s ]

-- the first `catch`, for an error other than TokenExpiredError
unfoldable pub try_previous : Jwt → Keys → (now : ℕ) → (token : Text) → Verdict
try_previous jwt keys now token =
    let tried = read_previous (jwt.verify now token (previous_or_empty keys)) in
    if previous_secret_active jwt keys now then tried else rejected malformed

-- `verifySessionToken` on what the current key says
unfoldable pub read_current : Verdict → Verified → Verdict
read_current fallback expired_error = rejected expired
read_current fallback unreadable = fallback
read_current fallback v = read_claims v

-- `verifySessionToken`
unfoldable pub verify_session_token : Jwt → Keys → (now : ℕ) → (token : Text) → Verdict
verify_session_token jwt keys now token =
    read_current (try_previous jwt keys now token) (jwt.verify now token keys.jwt_secret)

-- the milliseconds of a unit of `/^(\d+)([smhd])$/`
unfoldable pub multiplier : ℕ → Option ℕ
multiplier c =
    if c == b's'
    then some 1000
    else if c == b'm'
    then some 60000
    else if c == b'h'
    then some 3600000
    else if c == b'd'
    then some 86400000
    else none

-- the digits before the last character, and that character
unfoldable pub split_last : Text → Option (Text × ℕ)
split_last [] = none
split_last (c ∷ cs) =
    let rest = split_last cs in
    elim rest [ none ↦ some ([], c) | some (ds, unit) ↦ some (c ∷ ds, unit) ]

-- `Number(digits)`
unfoldable pub number_of : (seen : ℕ) → Text → ℕ
number_of n [] = n
number_of n (c ∷ cs) = number_of (n * 10 + (c - 48)) cs

abbrev week_ms : ℕ
week_ms = 604800000

unfoldable pub timed : Text → Option ℕ → ℕ
timed ds none = week_ms
timed ds (some ms) = if not (is_empty ds) && all_digits ds then number_of 0 ds * ms else week_ms

-- the time that a session lives for, by the digits and the unit of the setting
unfoldable pub lifetime_of : Option (Text × ℕ) → ℕ
lifetime_of none = week_ms
lifetime_of (some (ds, unit)) = timed ds (multiplier unit)

unfoldable pub lifetime_ms : Text → ℕ
lifetime_ms expires_in = lifetime_of (split_last expires_in)

-- `sessionExpiry`
unfoldable pub session_expiry : Keys → (now : ℕ) → ℕ
session_expiry keys now = now + lifetime_ms keys.expires_in
