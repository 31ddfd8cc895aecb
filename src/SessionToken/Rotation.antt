-- ===== src/SessionToken/Rotation.antt =====
-- The rotation of the key of session tokens.
use ulmara_backend.Common.{
  Bool-cases, Option, Option-cases, Text, [], arith, false, if◌then◌else◌, inl, inr, is_empty, ltb,
  none, refl, some, true, ℕ, ◌<◌, ◌∷◌, ◌≡◌, ◌⊎◌,
}
use ulmara_backend.SessionToken.{
  Jwt, Keys, Verdict, Verified, accepted, claims_payload, expired_error, in_window, malformed,
  previous_secret_active, read_claims, read_current, read_previous, rejected, text_payload,
  try_previous, unreadable, verify_session_token,
}

read_claims_sound :
    (v : Verified) (user : Text) → read_claims v ≡ accepted user → v ≡ claims_payload (some user)
unfolding read_claims
read_claims_sound (text_payload t) user h = absurd (cc)
read_claims_sound (claims_payload none) user h = absurd (cc)
read_claims_sound (claims_payload (some [])) user h = absurd (cc)
read_claims_sound (claims_payload (some (c ∷ cs))) user h = ground arith
read_claims_sound expired_error user h = absurd (cc)
read_claims_sound unreadable user h = absurd (cc)

read_previous_sound :
    (v : Verified) (user : Text) → read_previous v ≡ accepted user → v ≡ claims_payload (some user)
unfolding read_previous
read_previous_sound (text_payload t) user h = read_claims_sound (text_payload t) user h
read_previous_sound (claims_payload sub) user h = read_claims_sound (claims_payload sub) user h
read_previous_sound expired_error user h = absurd (cc)
read_previous_sound unreadable user h = read_claims_sound unreadable user h

read_current_sound :
    (fallback : Verdict) (v : Verified) (user : Text)
    → read_current fallback v ≡ accepted user
    → (v ≡ claims_payload (some user)) ⊎ (fallback ≡ accepted user)
unfolding read_current
read_current_sound fallback (text_payload t) user h =
    inl (read_claims_sound (text_payload t) user h)
read_current_sound fallback (claims_payload sub) user h =
    inl (read_claims_sound (claims_payload sub) user h)
read_current_sound fallback expired_error user h = absurd (cc)
read_current_sound fallback unreadable user h = inr h

in_window_secret :
    (jwt : Jwt) (now : ℕ) (secret date : Option Text)
    → in_window jwt now secret date ≡ true
    → (s : Text) × (secret ≡ some s)
unfolding in_window
in_window_secret jwt now none date h = absurd (cc)
in_window_secret jwt now (some s) date h = (s, refl)

in_window_date :
    (jwt : Jwt) (now : ℕ) (secret date : Option Text)
    → in_window jwt now secret date ≡ true
    → (d : Text) × (at : ℕ) × (date ≡ some d) × (jwt.time_of d ≡ some at) × (now < at)
unfolding in_window
in_window_date jwt now none date h = absurd (cc)
in_window_date jwt now (some []) date h = absurd (cc)
in_window_date jwt now (some (c ∷ cs)) none h = absurd (cc)
in_window_date jwt now (some (c ∷ cs)) (some []) h = absurd (cc)
in_window_date jwt now (some (c ∷ cs)) (some (d ∷ ds)) h =
    elim (Option-cases (jwt.time_of (d ∷ ds))) [
      | inl none_told ↦ absurd (ground arith)
      | inr (at, told) ↦ (d ∷ ds, at, refl, told, ground arith)
    ]

module _ (jwt : Jwt) (keys : Keys) (now : ℕ) (token user : Text) where
  -- The previous key vouches for the token, at a time before its retirement.
  abbrev pub IsPrevious : Type 0
  IsPrevious =
      (s : Text) × (date : Text) × (at : ℕ) × (keys.previous_secret ≡ some s)
      × (keys.retire_at ≡ some date)
      × (jwt.time_of date ≡ some at)
      × (now < at)
      × (jwt.verify now token s ≡ claims_payload (some user))

  try_previous_sound : try_previous jwt keys now token ≡ accepted user → IsPrevious
  unfolding try_previous previous_secret_active
  try_previous_sound h =
      let w = in_window jwt now keys.previous_secret keys.retire_at in
      elim (Bool-cases w) [
        | inl active ↦
            let (s, held) = in_window_secret jwt now keys.previous_secret keys.retire_at active in
            let (d, at, set, told, before) =
              in_window_date jwt now keys.previous_secret keys.retire_at active in
            let vouched : read_previous (jwt.verify now token s) ≡ accepted user =
              rw (active, held) at h in
            (s, d, at, held, set, told, before, read_previous_sound _ user vouched)
        | inr closed ↦ absurd (ground arith)
      ]

-- A token is accepted for a user only if the current key verifies it with that user as its subject,
-- or the previous key does, at a time before the one that JWT_PREVIOUS_SECRET_RETIRE_AT says. Without
-- that setting, or from that time on, the previous key is of no use.
pub verify_session_token_sound :
    (jwt : Jwt) (keys : Keys) (now : ℕ) (token user : Text)
    → verify_session_token jwt keys now token ≡ accepted user
    → (jwt.verify now token keys.jwt_secret ≡ claims_payload (some user))
      ⊎ IsPrevious jwt keys now token user
unfolding verify_session_token
verify_session_token_sound jwt keys now token user h =
    elim (read_current_sound (try_previous jwt keys now token) _ user h) [
      | inl current ↦ inl current
      | inr previous ↦ inr (try_previous_sound jwt keys now token user previous)
    ]

-- The keys after a rotation: the old key is kept as the previous one until a date.
abbrev pub rotated : Keys → (secret date : Text) → Keys
rotated keys secret date = record keys {
  jwt_secret = secret;
  previous_secret = some keys.jwt_secret;
  retire_at = some date;
}

-- A rotation loses no session and ends the old key: for a token that the old key verifies and the new
-- one cannot read, the user is accepted at each time before the date and rejected from it on, where
-- the old key and the date are not empty.
pub verify_session_token-rotated :
    (jwt : Jwt) (keys : Keys) (secret date : Text) (at now c : ℕ) (cs token : Text)
    → is_empty keys.jwt_secret ≡ false
    → is_empty date ≡ false
    → jwt.time_of date ≡ some at
    → jwt.verify now token keys.jwt_secret ≡ claims_payload (some (c ∷ cs))
    → jwt.verify now token secret ≡ unreadable
    → verify_session_token jwt (rotated keys secret date) now token
      ≡ (if ltb now at then accepted (c ∷ cs) else rejected malformed)
unfolding verify_session_token try_previous previous_secret_active read_current read_previous
    in_window read_claims
verify_session_token-rotated jwt keys secret date at now c cs token held dated told old new =
    ground arith
