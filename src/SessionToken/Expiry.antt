-- ===== src/SessionToken/Expiry.antt =====
-- The lifetime of a session that is written as a number and a unit.
use ulmara_backend.Common.{
  Bool-cases, Text, [], all_digits, arith, digits_of, false, inl, inr, is_digit, is_empty, ltb,
  refl, show_ℕ, some, suc, true, zero, ℕ, ◌%◌, ◌*◌, ◌++◌, ◌+◌, ◌-◌, ◌/◌, ◌<◌, ◌∷◌, ◌≡◌,
}
use ulmara_backend.SessionToken.{
  Keys, lifetime_ms, lifetime_of, multiplier, number_of, session_expiry, split_last, timed,
}

number_of_snoc : (n d : ℕ) (xs : Text) → number_of n (xs ++ d ∷ []) ≡ number_of n xs * 10 + (d - 48)
unfolding number_of
number_of_snoc n d [] = refl
number_of_snoc n d (x ∷ xs) = number_of_snoc (n * 10 + (x - 48)) d xs

all_digits_snoc :
    (d : ℕ) (xs : Text)
    → all_digits xs ≡ true
    → is_digit d ≡ true
    → all_digits (xs ++ d ∷ []) ≡ true
unfolding all_digits
all_digits_snoc d [] h k = ground arith
all_digits_snoc d (x ∷ xs) h k = ground (arith, all_digits_snoc d xs)

-- Enough fuel: the digits of a number below the fuel are digits, and they say the number.
digits_of_value :
    (fuel n : ℕ)
    → n < fuel
    → (number_of 0 (digits_of fuel n) ≡ n) × (all_digits (digits_of fuel n) ≡ true)
unfolding digits_of number_of all_digits
digits_of_value zero n h = absurd (omega arith)
digits_of_value (suc f) n h = elim (Bool-cases (ltb n 10)) [
  | inl one ↦ ground arith
  | inr more ↦
      let (value, digits) = digits_of_value f (n / 10) (ground arith) in
      let last = number_of_snoc 0 (48 + n % 10) (digits_of f (n / 10)) in
      let digit : is_digit (48 + n % 10) ≡ true = ground arith in
      let all = all_digits_snoc (48 + n % 10) (digits_of f (n / 10)) digits digit in
      rw more (ground (arith, last, value), all)
]

split_last_snoc : (unit : ℕ) (xs : Text) → split_last (xs ++ unit ∷ []) ≡ some (xs, unit)
unfolding split_last
split_last_snoc unit [] = refl
split_last_snoc unit (x ∷ xs) = rw (split_last_snoc unit xs) refl

snoc-nonempty : (d : ℕ) (xs : Text) → is_empty (xs ++ d ∷ []) ≡ false
snoc-nonempty d [] = refl
snoc-nonempty d (x ∷ xs) = refl

-- `String(n)` is read back as n.
show_ℕ_digits :
    (n : ℕ)
    → (number_of 0 (show_ℕ n) ≡ n) × (all_digits (show_ℕ n) ≡ true) × (is_empty (show_ℕ n) ≡ false)
unfolding show_ℕ digits_of
show_ℕ_digits n =
    let (value, digits) = digits_of_value (suc n) n (omega arith) in
    (value, digits, ground (arith, snoc-nonempty (48 + n % 10) (digits_of n (n / 10))))

lifetime_of_units :
    (ds : Text) (unit ms : ℕ)
    → multiplier unit ≡ some ms
    → all_digits ds ≡ true
    → is_empty ds ≡ false
    → lifetime_of (some (ds, unit)) ≡ number_of 0 ds * ms
unfolding lifetime_of timed
lifetime_of_units ds unit ms known digits full = rw (known, full, digits) refl

lifetime_ms_units :
    (ds : Text) (unit ms : ℕ)
    → multiplier unit ≡ some ms
    → all_digits ds ≡ true
    → is_empty ds ≡ false
    → lifetime_ms (ds ++ unit ∷ []) ≡ number_of 0 ds * ms
unfolding lifetime_ms
lifetime_ms_units ds unit ms known digits full =
    rw (split_last_snoc unit ds) (lifetime_of_units ds unit ms known digits full)

-- A setting JWT_EXPIRES_IN that is a number followed by s, m, h or d is read back: the session expires
-- that many seconds, minutes, hours or days from now.
session_expiry_units :
    (keys : Keys) (now n : ℕ) (unit ms : ℕ)
    → multiplier unit ≡ some ms
    → keys.expires_in ≡ show_ℕ n ++ unit ∷ []
    → session_expiry keys now ≡ now + n * ms
unfolding session_expiry
session_expiry_units keys now n unit ms known set =
    let (value, digits, full) = show_ℕ_digits n in
    rw (set, lifetime_ms_units (show_ℕ n) unit ms known digits full, value) refl
