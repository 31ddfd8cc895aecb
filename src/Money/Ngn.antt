-- ===== src/Money/Ngn.antt =====
-- The Naira amounts that a deposit or a withdrawal takes.
use ulmara_backend.Common.{
  Bool-cases, Option, Text, [], all_digits, arith, inl, inr, length, none, refl, some, true, ℕ, ◌*◌,
  ◌<◌, ◌↔◌, ◌∷◌, ◌≡◌, ◌≤◌, ◌⊎◌,
}
use ulmara_backend.World.{Db, ok}
use ulmara_backend.Money.{
  after_dot, assert_valid_ngn_amount, before_dot, fraction, has_nonzero, is_fraction, is_ngn_shape,
  kobo_of, nat_of, or_empty, pad_two,
}
use ulmara_backend.Money.Units.{frac_units, nat_of-pos_iff, units}

pad_two-units : (f : Text) → length f ≤ 2 → nat_of 0 (pad_two f) ≡ frac_units 2 f
unfolding nat_of frac_units
pad_two-units [] h = refl
pad_two-units (a ∷ []) h = omega arith
pad_two-units (a ∷ b ∷ []) h = omega arith
pad_two-units (a ∷ b ∷ c ∷ cs) h = absurd (omega arith)

frac_units_pos :
    (f : Text) → length f ≤ 2 → all_digits f ≡ true → (0 < frac_units 2 f) ↔ (has_nonzero f ≡ true)
unfolding frac_units all_digits has_nonzero
frac_units_pos [] h digits = ground arith
frac_units_pos (a ∷ []) h digits = ground arith
frac_units_pos (a ∷ b ∷ []) h digits = ground arith
frac_units_pos (a ∷ b ∷ c ∷ cs) h digits = absurd (omega arith)

-- For an amount of the accepted shape the kobo are the amount at two decimal places.
kobo_of-eq-units : (t : Text) → is_ngn_shape t ≡ true → kobo_of t ≡ units 2 t
unfolding kobo_of units
kobo_of-eq-units t h =
    let short : length (fraction t) ≤ 2 = ground arith in
    omega (arith, pad_two-units (fraction t) short)

fraction_digits : (o : Option Text) → is_fraction o ≡ true → all_digits (or_empty o) ≡ true
unfolding all_digits
fraction_digits none h = refl
fraction_digits (some f) h = ground arith

nonzero-units :
    (t : Text)
    → is_ngn_shape t ≡ true
    → (0 < units 2 t) ↔ ((has_nonzero (before_dot t) ≡ true) ⊎ (has_nonzero (fraction t) ≡ true))
unfolding units
nonzero-units t h =
    let short : length (fraction t) ≤ 2 = ground arith in
    let plain : is_fraction (after_dot t) ≡ true = ground arith in
    let whole : all_digits (before_dot t) ≡ true = ground arith in
    ground (
      arith,
      nat_of-pos_iff 0 (before_dot t) whole,
      frac_units_pos (fraction t) short (fraction_digits (after_dot t) plain),
    )

-- A Naira amount is accepted exactly if it is a plain decimal with at most two decimals and its
-- exact number of kobo is positive and within the bounds; nothing is written.
pub assert_valid_ngn_amount_iff :
    (t : Text) (lo hi : ℕ) (db : Db)
    → (assert_valid_ngn_amount t lo hi db ≡ (ok tt, db)) ↔ (
        (is_ngn_shape t ≡ true) × (0 < units 2 t) × (lo * 100 ≤ units 2 t) × (units 2 t ≤ hi * 100))
unfolding assert_valid_ngn_amount
assert_valid_ngn_amount_iff t lo hi db = elim (Bool-cases (is_ngn_shape t)) [
  | inl shape ↦ ground (arith, kobo_of-eq-units t shape, nonzero-units t shape)
  | inr bad ↦ ground arith
]
