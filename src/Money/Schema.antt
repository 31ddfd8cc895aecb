-- ===== src/Money/Schema.antt =====
-- What the request schema for amounts guarantees of an amount that it accepts.
use native.Mathlib.Nat.{pow-suc}
use ulmara_backend.Common.{
  Option, Text, [], all_digits, arith, length, none, refl, some, suc, true, zero, ℕ, ◌*◌, ◌+◌, ◌-◌,
  ◌<◌, ◌^◌, ◌||◌, ◌∷◌, ◌≡◌, ◌≤◌,
}
use ulmara_backend.Money.{
  after_dot, before_dot, decimal_places_of, drop_zeros, fraction, has_nonzero, is_fraction,
  is_plain_decimal, is_positive_decimal_string, money_string, nat_of, or_empty,
}
use ulmara_backend.Money.Units.{frac_units, nat_of-pos_iff, units}

pow-pos : (d : ℕ) → 0 < 10 ^ d
pow-pos zero = omega arith
pow-pos (suc d) = rw pow-suc (omega (arith, pow-pos d))

digit-mul-le : (c p : ℕ) → c ≤ 9 → c * p ≤ 9 * p
digit-mul-le c p h = grind arith

le-digit-mul : (c p : ℕ) → 0 < c → p ≤ c * p
le-digit-mul c p h = grind arith

frac_units-lt : (d : ℕ) (f : Text) → all_digits f ≡ true → frac_units d f < 10 ^ d
unfolding frac_units all_digits
frac_units-lt d [] h = pow-pos d
frac_units-lt zero (c ∷ cs) h = omega arith
frac_units-lt (suc d) (c ∷ cs) h =
    rw pow-suc (ground (arith, frac_units-lt d cs, digit-mul-le (c - 48) (10 ^ d)))

nat_of-lt : (acc : ℕ) (t : Text) → all_digits t ≡ true → nat_of acc t < (acc + 1) * 10 ^ length t
unfolding nat_of all_digits
nat_of-lt acc [] h = omega arith
nat_of-lt acc (c ∷ cs) h =
    let tail_digits : all_digits cs ≡ true = ground arith in
    let small : c - 48 ≤ 9 = ground arith in
    rw pow-suc (
      omega (
        arith,
        nat_of-lt (acc * 10 + (c - 48)) cs tail_digits,
        digit-mul-le (c - 48) (10 ^ length cs) small,
      ))

nat_of-drop_zeros : (t : Text) → nat_of 0 (drop_zeros t) ≡ nat_of 0 t
unfolding nat_of drop_zeros
nat_of-drop_zeros [] = refl
nat_of-drop_zeros (c ∷ cs) = ground (arith, nat_of-drop_zeros cs)

frac_units-pos : (d : ℕ) (f : Text) → length f ≤ d → has_nonzero f ≡ true → 0 < frac_units d f
unfolding frac_units has_nonzero
frac_units-pos d [] h e = absurd (ground arith)
frac_units-pos zero (c ∷ cs) h e = absurd (omega arith)
frac_units-pos (suc d) (c ∷ cs) h e =
    ground (arith, frac_units-pos d cs, le-digit-mul (c - 48) (10 ^ d), pow-pos d)

pow-le : (a b : ℕ) → a ≤ b → 10 ^ a ≤ 10 ^ b
pow-le zero b h = pow-pos b
pow-le (suc a) zero h = absurd (omega arith)
pow-le (suc a) (suc b) h = rw (pow-suc 10 a, pow-suc 10 b) (omega (arith, pow-le a b))

all_digits-drop_zeros : (t : Text) → all_digits t ≡ true → all_digits (drop_zeros t) ≡ true
unfolding all_digits drop_zeros
all_digits-drop_zeros [] h = refl
all_digits-drop_zeros (c ∷ cs) h = ground (arith, all_digits-drop_zeros cs)

whole-lt :
    (k : ℕ) (w : Text) → all_digits w ≡ true → length (drop_zeros w) ≤ k → nat_of 0 w < 10 ^ k
whole-lt k w h short = omega (
  arith,
  nat_of-drop_zeros w,
  nat_of-lt 0 (drop_zeros w) (all_digits-drop_zeros w h),
  pow-le (length (drop_zeros w)) k short,
)

join-lt : (w f p q : ℕ) → w < p → f < q → w * q + f < p * q
join-lt w f p q hw hf = grind arith

fraction_digits : (o : Option Text) → is_fraction o ≡ true → all_digits (or_empty o) ≡ true
unfolding all_digits
fraction_digits none h = refl
fraction_digits (some f) h = ground arith

-- What an accepted amount passed.
record Passed (places digits : ℕ) (t : Text) : Type 0 where
  plain : is_plain_decimal t ≡ true
  nonzero : (has_nonzero (before_dot t) || has_nonzero (fraction t)) ≡ true
  fits_places : length (fraction t) ≤ places
  fits_digits : length (drop_zeros (before_dot t)) ≤ digits

money_string-Passed :
    (label : Text) (places digits : ℕ) (t : Text)
    → money_string label places digits t ≡ none
    → Passed places digits t
unfolding money_string is_positive_decimal_string decimal_places_of
money_string-Passed label places digits t e = record {
  plain = ground arith;
  nonzero = ground arith;
  fits_places = ground arith;
  fits_digits = ground arith;
}

Passed-units :
    (places digits d : ℕ) (t : Text)
    → Passed places digits t
    → places ≤ d
    → (0 < units d t) × (units d t < 10 ^ digits * 10 ^ d)
unfolding units
Passed-units places digits d t p h =
    let p1 = p.plain in
    let w_digits : all_digits (before_dot t) ≡ true = ground arith in
    let f_digits : all_digits (fraction t) ≡ true = fraction_digits (after_dot t) (ground arith) in
    let below =
      join-lt (nat_of 0 (before_dot t)) (frac_units d (fraction t)) (10 ^ digits) (10 ^ d)
        (whole-lt digits (before_dot t) w_digits p.fits_digits)
        (frac_units-lt d (fraction t) f_digits) in
    let short : length (fraction t) ≤ d = omega (arith, p.fits_places) in
    (
      ground (
        arith,
        p.nonzero,
        nat_of-pos_iff 0 (before_dot t) w_digits,
        le-digit-mul (nat_of 0 (before_dot t)) (10 ^ d),
        pow-pos d,
        frac_units-pos d (fraction t) short,
      ),
      below,
    )

-- An amount that the schema accepts is a plain decimal with at most the given number of decimal
-- places; at every scale `d` that shows them all it is positive, and below the power of ten that the
-- given number of whole digits allows.
money_string_sound :
    (label : Text) (places digits d : ℕ) (t : Text)
    → money_string label places digits t ≡ none
    → places ≤ d
    → (is_plain_decimal t ≡ true)
      × (decimal_places_of t ≤ places)
      × (0 < units d t)
      × (units d t < 10 ^ digits * 10 ^ d)
unfolding decimal_places_of
money_string_sound label places digits d t e h =
    let p = money_string-Passed label places digits t e in
    let (positive, below) = Passed-units places digits d t p h in
    (p.plain, p.fits_places, positive, below)
