-- ===== src/Money/Normal.antt =====
-- `normalizeAmount`: texts that normalise alike are the same amount.
use ulmara_backend.Common.{
  Option-cases, Text, [], all_digits, arith, inl, inr, refl, some, trim, true, ℕ, ◌∷◌, ◌≡◌,
}
use ulmara_backend.Money.{
  after_dot, before_dot, fraction, is_plain_decimal, normalize_amount, strip_dot, strip_zeros,
}
use ulmara_backend.Money.Units.{frac_units-strip_zeros, units}

before_dot-strip_dot : (t : Text) → before_dot (strip_dot t) ≡ before_dot t
unfolding before_dot strip_dot
before_dot-strip_dot [] = refl
before_dot-strip_dot (c ∷ cs) = ground (arith, before_dot-strip_dot cs)

after_dot-strip_zeros :
    (t f : Text) → after_dot t ≡ some f → after_dot (strip_zeros t) ≡ some (strip_zeros f)
unfolding after_dot strip_zeros
after_dot-strip_zeros [] f e = absurd (cc)
after_dot-strip_zeros (c ∷ cs) f e = ground (arith, after_dot-strip_zeros cs f)

before_dot-strip_zeros :
    (t f : Text) → after_dot t ≡ some f → before_dot (strip_zeros t) ≡ before_dot t
unfolding before_dot after_dot strip_zeros
before_dot-strip_zeros [] f e = absurd (cc)
before_dot-strip_zeros (c ∷ cs) f e =
    ground (arith, before_dot-strip_zeros cs f, after_dot-strip_zeros cs f)

strip_dot-digits : (t : Text) → all_digits t ≡ true → strip_dot t ≡ t
unfolding strip_dot all_digits
strip_dot-digits [] h = refl
strip_dot-digits (c ∷ cs) h = ground (arith, strip_dot-digits cs)

all_digits-strip_zeros : (t : Text) → all_digits t ≡ true → all_digits (strip_zeros t) ≡ true
unfolding strip_zeros all_digits
all_digits-strip_zeros [] h = refl
all_digits-strip_zeros (c ∷ cs) h = ground (arith, all_digits-strip_zeros cs)

fraction-strip_dot :
    (t f : Text) → after_dot t ≡ some f → all_digits f ≡ true → fraction (strip_dot t) ≡ f
unfolding after_dot strip_dot
fraction-strip_dot [] f e h = absurd (cc)
fraction-strip_dot (c ∷ cs) f e h = ground (arith, fraction-strip_dot cs f, strip_dot-digits f)

-- Taking the trailing zeros and then a trailing point off a decimal does not change its value.
strip-units :
    (d : ℕ) (t f : Text)
    → after_dot t ≡ some f
    → all_digits f ≡ true
    → units d (strip_dot (strip_zeros t)) ≡ units d t
unfolding units
strip-units d t f e h =
    let s = strip_zeros t in
    let f' = strip_zeros f in
    let same : fraction (strip_dot s) ≡ f' =
      fraction-strip_dot s f' (after_dot-strip_zeros t f e) (all_digits-strip_zeros f h) in
    ground (
      arith,
      e,
      same,
      before_dot-strip_dot s,
      before_dot-strip_zeros t f e,
      frac_units-strip_zeros d f,
    )

-- A text is its own trimmed form if no space stands at its ends.
abbrev pub IsTrimmed : Text → Type 0
IsTrimmed t = trim t ≡ t

-- Normalising keeps the value of a decimal at every scale.
pub normalize_amount-units :
    (d : ℕ) (t : Text)
    → IsTrimmed t
    → is_plain_decimal t ≡ true
    → units d (normalize_amount t) ≡ units d t
unfolding normalize_amount
normalize_amount-units d t trimmed plain = elim (Option-cases (after_dot t)) [
  | inl whole ↦ rw trimmed (ground arith)
  | inr (f, e) ↦
      let digits : all_digits f ≡ true = ground arith in
      rw trimmed (ground (arith, strip-units d t f e digits))
]
