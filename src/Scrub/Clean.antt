-- ===== src/Scrub/Clean.antt =====
-- What a scrubbed payload cannot hold.
use ulmara_backend.Common.{
  Bool, Bool-cases, Option, Text, [], arith, contains, false, first_chars, if◌then◌else◌, inl, inr,
  leb, length, lower, none, refl, some, starts_with, suc, text, text_eq, text_eq_refl, true, zero,
  ℕ, ◌&&◌, ◌++◌, ◌+◌, ◌||◌, ◌∷◌, ◌≡◌, ◌≤◌, ◌⊎◌,
}
use ulmara_backend.Json.{
  Fields, Items, Json, array, boolean, field, item, no_fields, no_items, null, number, object,
  string,
}
use ulmara_backend.Scrub.{
  Entries, Payload, Properties, boolean_value, contains_any, entry, error_value, is_sensitive,
  list_value, max_items, no_entries, no_properties, null_value, number_value, object_value,
  property, redact_text, redacted, scrub_error, scrub_sentry_event, scrub_text, sensitive_words,
  text_value, walk, walk_fields, walk_items,
}

-- the most characters that a scrubbed text has
abbrev max_shown : ℕ
max_shown = 526

abbrev is_redacted : Json → Bool
is_redacted (string t) = text_eq t redacted
is_redacted _ = false

unfoldable pub count_items : Items → ℕ
count_items no_items = 0
count_items (item x xs) = suc (count_items xs)

-- Every field with a sensitive key is redacted, and lists have few entries.
unfoldable mutual
  pub is_clean : Json → Bool
  is_clean (string t) = true
  is_clean (array xs) = leb (count_items xs) 50 && clean_items xs
  is_clean (object fs) = clean_fields fs
  is_clean null = true
  is_clean (boolean b) = true
  is_clean (number n) = true

  clean_items : Items → Bool
  clean_items no_items = true
  clean_items (item x xs) = is_clean x && clean_items xs

  clean_fields : Fields → Bool
  clean_fields no_fields = true
  clean_fields (field k v fs) =
      (if is_sensitive k then is_redacted v else is_clean v) && clean_fields fs

-- No text has more than 526 characters.
unfoldable mutual
  pub is_short : Json → Bool
  is_short (string t) = leb (length t) max_shown
  is_short (array xs) = short_items xs
  is_short (object fs) = short_fields fs
  is_short null = true
  is_short (boolean b) = true
  is_short (number n) = true

  short_items : Items → Bool
  short_items no_items = true
  short_items (item x xs) = is_short x && short_items xs

  short_fields : Fields → Bool
  short_fields no_fields = true
  short_fields (field k v fs) = is_short v && short_fields fs

-- An instance of Error stands somewhere in the payload.
unfoldable mutual
  pub has_error : Payload → Bool
  has_error (error_value name message stack) = true
  has_error (list_value xs) = error_in xs
  has_error (object_value fs) = error_under fs
  has_error null_value = false
  has_error (boolean_value b) = false
  has_error (number_value n) = false
  has_error (text_value t) = false

  error_in : Entries → Bool
  error_in no_entries = false
  error_in (entry x xs) = has_error x || error_in xs

  error_under : Properties → Bool
  error_under no_properties = false
  error_under (property k v fs) = has_error v || error_under fs

length-first_chars : (n : ℕ) (t : Text) → length (first_chars n t) ≤ n
unfolding first_chars
length-first_chars zero t = omega arith
length-first_chars (suc n) [] = omega arith
length-first_chars (suc n) (c ∷ cs) = ground (arith, length-first_chars n cs)

length-append : (a b : Text) → length (a ++ b) ≡ length a + length b
length-append [] b = omega arith
length-append (c ∷ a) b = ground (arith, length-append a b)

suffix_length : length (text "...[truncated]") ≡ 14
unfolding text
suffix_length = refl

scrub_text_short : (t : Text) → leb (length (scrub_text t)) max_shown ≡ true
unfolding scrub_text
scrub_text_short t =
    let shown = redact_text t in
    ground (
      arith,
      length-first_chars 512 shown,
      length-append (first_chars 512 shown) (text "...[truncated]"),
      suffix_length,
    )

truncated_short : is_short (string (text "[truncated]")) ≡ true
unfolding is_short text
truncated_short = refl

redacted_short : is_short (string redacted) ≡ true
unfolding is_short text
redacted_short = refl

shown_short :
    (covered : Bool) (w : Json)
    → is_short w ≡ true
    → is_short (if covered then string redacted else w) ≡ true
shown_short true w h = redacted_short
shown_short false w h = h

walk_items_count : (left depth : ℕ) (xs : Entries) → count_items (walk_items left depth xs) ≤ left
unfolding walk_items count_items
walk_items_count zero depth xs = omega arith
walk_items_count (suc left) depth no_entries = omega arith
walk_items_count (suc left) depth (entry x xs) = ground (arith, walk_items_count left depth xs)

error_keys_plain :
    (is_sensitive (text "name") ≡ false)
    × (is_sensitive (text "message") ≡ false)
    × (is_sensitive (text "stack") ≡ false)
unfolding is_sensitive sensitive_words contains_any contains starts_with lower text
error_keys_plain = (refl, refl, refl)

scrub_error-clean :
    (name message : Text) (stack : Option Text)
    → clean_fields (scrub_error name message stack) ≡ true
unfolding scrub_error is_clean
scrub_error-clean name message none = ground (arith, error_keys_plain)
scrub_error-clean name message (some stack) = ground (arith, error_keys_plain)

mutual
  unfolding walk is_clean

  walk-clean : (depth : ℕ) (v : Payload) → is_clean (walk depth v) ≡ true
  walk-clean depth null_value = ground arith
  walk-clean depth (boolean_value b) = ground arith
  walk-clean depth (number_value n) = ground arith
  walk-clean depth (text_value t) = ground arith
  walk-clean depth (list_value xs) =
      ground (
        arith,
        walk_items_count max_items (depth + 1) xs,
        walk_items-clean max_items (depth + 1) xs,
      )
  walk-clean depth (object_value fs) = ground (arith, walk_fields-clean (depth + 1) fs)
  walk-clean depth (error_value name message stack) =
      ground (arith, scrub_error-clean name message stack)

  walk_items-clean : (left depth : ℕ) (xs : Entries) → clean_items (walk_items left depth xs) ≡ true
  walk_items-clean zero depth xs = refl
  walk_items-clean (suc left) depth no_entries = refl
  walk_items-clean (suc left) depth (entry x xs) =
      ground (arith, walk-clean depth x, walk_items-clean left depth xs)

  walk_fields-clean : (depth : ℕ) (fs : Properties) → clean_fields (walk_fields depth fs) ≡ true
  walk_fields-clean depth no_properties = refl
  walk_fields-clean depth (property k v fs) =
      ground (arith, walk-clean depth v, walk_fields-clean depth fs, text_eq_refl redacted)

mutual
  unfolding walk is_short has_error

  walk-short : (depth : ℕ) (v : Payload) → has_error v ≡ false → is_short (walk depth v) ≡ true
  walk-short depth null_value h = ground (arith, truncated_short)
  walk-short depth (boolean_value b) h = ground (arith, truncated_short)
  walk-short depth (number_value n) h = ground (arith, truncated_short)
  walk-short depth (text_value t) h = ground (arith, truncated_short, scrub_text_short t)
  walk-short depth (list_value xs) h =
      ground (arith, truncated_short, walk_items-short max_items (depth + 1) xs h)
  walk-short depth (object_value fs) h =
      ground (arith, truncated_short, walk_fields-short (depth + 1) fs h)
  walk-short depth (error_value name message stack) h = absurd (cc)

  walk_items-short :
      (left depth : ℕ) (xs : Entries)
      → error_in xs ≡ false
      → short_items (walk_items left depth xs) ≡ true
  walk_items-short zero depth xs h = refl
  walk_items-short (suc left) depth no_entries h = refl
  walk_items-short (suc left) depth (entry x xs) h =
      ground (arith, walk-short depth x, walk_items-short left depth xs)

  walk_fields-short :
      (depth : ℕ) (fs : Properties)
      → error_under fs ≡ false
      → short_fields (walk_fields depth fs) ≡ true
  walk_fields-short depth no_properties h = refl
  walk_fields-short depth (property k v fs) h =
      rw (shown_short (is_sensitive k) (walk depth v) (walk-short depth v (ground arith)))
        (walk_fields-short depth fs (ground arith))

-- In a scrubbed payload, at every depth, a field whose key contains a sensitive word holds nothing but
-- "[redacted]", and no list has more than 50 entries; and no text has more than 526 characters, unless
-- an instance of Error stood in the payload.
pub scrub_sentry_event-clean :
    (event : Payload)
    → (is_clean (scrub_sentry_event event) ≡ true)
      × ((has_error event ≡ true) ⊎ (is_short (scrub_sentry_event event) ≡ true))
unfolding scrub_sentry_event
scrub_sentry_event-clean event = (
  walk-clean 0 event,
  elim (Bool-cases (has_error event)) [
    | inl has ↦ inl has
    | inr clear ↦ inr (walk-short 0 event clear)
  ],
)
