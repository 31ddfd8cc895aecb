-- ===== src/Scrub/Credential.antt =====
-- What `redactCredentialsInString` does to a URL that carries a password.
-- Every character is in the class.
use ulmara_backend.Common.{
  All, Bool, Text, [], ap, arith, false, length, refl, some, starts_with, suc, text, true, ℕ, ◌++◌,
  ◌∙◌, ◌∷◌, ◌≡◌, ◌≤◌,
}
use ulmara_backend.Scrub.{
  is_letter, is_scheme, is_secret, is_user, match_credential, match_user, redact, redact_text, span,
}
use ulmara_backend.Scrub.Fuel.{match_credential-length, redact_fuel}

abbrev AllIn : (ℕ → Bool) → Text → Type 0
AllIn p = All (λ c. p c ≡ true)

span_run :
    (p : ℕ → Bool) (a : Text) (x : ℕ) (b : Text)
    → AllIn p a
    → p x ≡ false
    → span p (a ++ (x ∷ b)) ≡ (a, x ∷ b)
unfolding span
span_run p [] x b h out = ground arith
span_run p (c ∷ a) x b h out = let rest = span_run p a x b h.1 out in ground (arith, h.0)

-- A URL with a user and a password, in the text that it begins.
abbrev pub url : (scheme user password rest : Text) → Text
url scheme user password rest =
    scheme ++ (b':' ∷ b'/' ∷ b'/' ∷ (user ++ (b':' ∷ (password ++ (b'@' ∷ rest)))))

-- what the replacement puts in place of the URL's part before its host
abbrev hidden : (scheme user : Text) → Text
hidden scheme user =
    scheme ++ (text "://" ++ (user ++ (text ":" ++ (text "[redacted]" ++ text "@"))))

module _ (u : ℕ) (us password rest : Text) (user : AllIn is_user (u ∷ us))
    (secret : AllIn is_secret password) where
  match_user_run :
      (scheme : Text)
      → match_user scheme ((u ∷ us) ++ (b':' ∷ (password ++ (b'@' ∷ rest))))
        ≡ some (hidden scheme (u ∷ us), rest)
  unfolding match_user starts_with text
  match_user_run scheme =
      rw
        (
          span_run is_user (u ∷ us) b':' (password ++ (b'@' ∷ rest)) user refl,
          span_run is_secret password b'@' rest secret refl,
        )
        refl

  match_credential_run :
      (c : ℕ) (cs : Text)
      → is_letter c ≡ true
      → AllIn is_scheme cs
      → match_credential (url (c ∷ cs) (u ∷ us) password rest)
        ≡ some (hidden (c ∷ cs) (u ∷ us), rest)
  unfolding match_credential starts_with text
  match_credential_run c cs letter scheme =
      rw
        (
          span_run is_scheme cs b':'
              (b'/' ∷ b'/' ∷ ((u ∷ us) ++ (b':' ∷ (password ++ (b'@' ∷ rest))))) scheme refl,
          letter,
        )
        (match_user_run (c ∷ cs))

length-after : (a b : Text) → length b ≤ length (a ++ b)
length-after [] b = omega arith
length-after (c ∷ a) b = ground (arith, length-after a b)

redact_matched :
    (f : ℕ) (t shown rest : Text)
    → match_credential t ≡ some (shown, rest)
    → redact (suc f) t ≡ shown ++ redact f rest
unfolding redact match_credential
redact_matched f [] shown rest h = absurd (cc)
redact_matched f (c ∷ cs) shown rest h = ground arith

-- Where a text begins with a URL whose scheme starts with a letter, whose user is not empty and whose
-- three parts have the characters that each may have, whatever the password: the password is replaced
-- by "[redacted]", the scheme and the user are kept, and the rest of the text is treated the same.
pub redact_credential :
    (c : ℕ) (cs : Text) (u : ℕ) (us password rest : Text)
    → is_letter c ≡ true
    → AllIn is_scheme cs
    → AllIn is_user (u ∷ us)
    → AllIn is_secret password
    → redact_text (url (c ∷ cs) (u ∷ us) password rest)
      ≡ ((c ∷ cs) ++ (text "://" ++ ((u ∷ us) ++ (text ":" ++ (text "[redacted]" ++ text "@")))))
        ++ redact_text rest
unfolding redact_text
redact_credential c cs u us password rest letter scheme user secret =
    let matched = match_credential_run u us password rest user secret c cs letter scheme in
    let whole = url (c ∷ cs) (u ∷ us) password rest in
    let shorter = match_credential-length whole (hidden (c ∷ cs) (u ∷ us)) rest matched in
    redact_matched (length whole) whole (hidden (c ∷ cs) (u ∷ us)) rest matched
    ∙ ap (λ t. hidden (c ∷ cs) (u ∷ us) ++ t)
        (redact_fuel rest (length whole) (suc (length rest)) shorter (omega arith))
