-- ===== src/Scrub/Fuel.antt =====
-- `redactCredentialsInString` ends: the fuel given is enough.
use ulmara_backend.Common.{
  Bool, Option-cases, Text, [], arith, inl, inr, length, refl, some, suc, zero, ℕ, ◌<◌, ◌∷◌, ◌≡◌,
  ◌≤◌,
}
use ulmara_backend.Scrub.{
  is_scheme, is_secret, is_user, match_credential, match_user, redact, span, tail,
}

length-span : (p : ℕ → Bool) (t : Text) → length (span p t).1 ≤ length t
unfolding span
length-span p [] = omega arith
length-span p (c ∷ cs) = ground (arith, length-span p cs)

length-tail : (t : Text) → length (tail t) ≤ length t
length-tail [] = omega arith
length-tail (c ∷ cs) = omega arith

match_user-length :
    (scheme t shown rest : Text) → match_user scheme t ≡ some (shown, rest) → length rest ≤ length t
unfolding match_user
match_user-length scheme t shown rest h =
    let t1 = (span is_user t).1 in
    let t2 = (span is_secret (tail t1)).1 in
    ground (
      arith,
      length-span is_user t,
      length-tail t1,
      length-span is_secret (tail t1),
      length-tail t2,
    )

pub match_credential-length :
    (t shown rest : Text) → match_credential t ≡ some (shown, rest) → length rest < length t
unfolding match_credential
match_credential-length [] shown rest h = absurd (cc)
match_credential-length (c ∷ cs) shown rest h =
    let scheme = (span is_scheme cs).0 in
    let t = (span is_scheme cs).1 in
    let matched = match_user-length (c ∷ scheme) (tail (tail (tail t))) shown rest in
    ground (
      arith,
      matched,
      length-span is_scheme cs,
      length-tail t,
      length-tail (tail t),
      length-tail (tail (tail t)),
    )

-- Fuel beyond the number of characters changes nothing.
pub redact_fuel : (t : Text) (f g : ℕ) → length t < f → length t < g → redact f t ≡ redact g t
unfolding redact
redact_fuel t zero g h k = absurd (omega arith)
redact_fuel t (suc f) zero h k = absurd (omega arith)
redact_fuel [] (suc f) (suc g) h k = refl
redact_fuel (c ∷ cs) (suc f) (suc g) h k = elim (Option-cases (match_credential (c ∷ cs))) [
  | inl unmatched ↦
      let rest = redact_fuel cs f g (omega arith) (omega arith) in ground (arith, rest)
  | inr ((shown, rest), matched) ↦
      let shorter = match_credential-length (c ∷ cs) shown rest matched in
      let later = redact_fuel rest f g (omega arith) (omega arith) in ground (arith, later)
]
