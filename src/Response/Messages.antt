-- ===== src/Response/Messages.antt =====
-- Which messages of errors a client may read.
use ulmara_backend.Common.{
  Bool-cases, Text, [], arith, false, if◌then◌else◌, inl, inr, is_empty, leb, none, refl, some,
  text, true, ℕ, ◌<◌, ◌∷◌, ◌≡◌, ◌⊎◌,
}
use ulmara_backend.World.{Error, coded, http, provider_failed, thrown, unique_violation}
use ulmara_backend.Response.{
  Shown, error_handler, generic, handle_error, message_of, raised, show_error,
}

is_empty_sound : (t : Text) → is_empty t ≡ true → t ≡ []
is_empty_sound [] h = refl
is_empty_sound (c ∷ cs) h = absurd (cc)

handlers_alike :
    (e : Error) → is_empty (message_of e) ≡ false → handle_error (raised e) ≡ error_handler e
unfolding handle_error show_error error_handler
handlers_alike (http s m) named = ground arith
handlers_alike (coded s m) named = ground arith
handlers_alike unique_violation named = refl
handlers_alike (provider_failed p f m none) named = refl
handlers_alike (provider_failed p f m (some s)) named = ground arith
handlers_alike (thrown m) named = refl

-- What a client reads: a status below 500, the fixed text, or the message of an HttpError.
abbrev IsSafe : Error → Shown → Type 0
IsSafe e shown =
    (shown.code < 500)
    ⊎ (shown.message ≡ text "Something went wrong. Please try again.")
    ⊎ ((s : ℕ) × (m : Text) × (e ≡ http s m) × (shown.message ≡ m))

show_status :
    (e : Error) (s : ℕ) (m : Text)
    → IsSafe e (
        if leb 500 s
        then record { code = s; message = generic }
        else record { code = s; message = m })
show_status e s m = elim (Bool-cases (leb 500 s)) [
  | inl big ↦ inr (inl (rw big refl))
  | inr small ↦ inl (ground arith)
]

handle_error-IsSafe : (e : Error) → IsSafe e (handle_error (raised e))
unfolding handle_error show_error
handle_error-IsSafe (http s m) = inr (inr (s, m, refl, ground arith))
handle_error-IsSafe (coded s m) = show_status _ s m
handle_error-IsSafe unique_violation = inr (inl refl)
handle_error-IsSafe (provider_failed p f m none) = inr (inl refl)
handle_error-IsSafe (provider_failed p f m (some s)) = show_status _ s m
handle_error-IsSafe (thrown m) = inr (inl refl)

-- Of an error that is no ZodError, a response of 500 or more shows the fixed text, or the error is an
-- HttpError and its message, which is written for the client, is shown; and both handlers answer alike
-- to every such error whose message is not empty.
pub handle_error_safe :
    (e : Error)
    → (((handle_error (raised e)).code < 500)
        ⊎ ((handle_error (raised e)).message ≡ text "Something went wrong. Please try again.")
        ⊎ ((s : ℕ) × (m : Text) × (e ≡ http s m) × ((handle_error (raised e)).message ≡ m)))
      × ((message_of e ≡ []) ⊎ (handle_error (raised e) ≡ error_handler e))
handle_error_safe e = (
  handle_error-IsSafe e,
  elim (Bool-cases (is_empty (message_of e))) [
    | inl empty ↦ inl (is_empty_sound (message_of e) empty)
    | inr named ↦ inr (handlers_alike e named)
  ],
)
