-- ===== src/Money/Units.antt =====
-- The number that an amount stands for, at a scale of `d` decimal places.
use ulmara_backend.Common.{
  Text, [], all_digits, arith, refl, suc, true, zero, ℕ, ◌*◌, ◌+◌, ◌-◌, ◌<◌, ◌^◌, ◌↔◌, ◌∷◌, ◌≡◌,
  ◌⊎◌,
}
use ulmara_backend.Money.{before_dot, fraction, has_nonzero, nat_of, strip_zeros}

unfoldable pub frac_units : ℕ → Text → ℕ
frac_units d [] = 0
frac_units zero (c ∷ cs) = 0
frac_units (suc d) (c ∷ cs) = (c - 48) * 10 ^ d + frac_units d cs

unfoldable pub units : ℕ → Text → ℕ
units d t = nat_of 0 (before_dot t) * 10 ^ d + frac_units d (fraction t)

pub frac_units-strip_zeros : (d : ℕ) (t : Text) → frac_units d (strip_zeros t) ≡ frac_units d t
unfolding frac_units strip_zeros
frac_units-strip_zeros d [] = refl
frac_units-strip_zeros zero (c ∷ cs) = ground arith
frac_units-strip_zeros (suc d) (c ∷ cs) = ground (arith, frac_units-strip_zeros d cs)

pub nat_of-pos_iff :
    (acc : ℕ) (t : Text)
    → all_digits t ≡ true
    → (0 < nat_of acc t) ↔ ((0 < acc) ⊎ (has_nonzero t ≡ true))
unfolding nat_of all_digits has_nonzero
nat_of-pos_iff acc [] h = ground arith
nat_of-pos_iff acc (c ∷ cs) h = ground (arith, nat_of-pos_iff (acc * 10 + (c - 48)) cs)
