-- ===== src/Scrub.antt =====
-- src/config/sentry.ts, `scrubSentryEvent`: what is taken out of a payload before it leaves the
-- process. A payload holds JSON values and instances of Error. The start-up of the library and its
-- calls are left out.
pub mod Clean
pub mod Fuel
pub mod Credential
mod Tests
use ulmara_backend.Common.{
  Bool, List, Option, Text, [], contains, false, first_chars, if◌then◌else◌, is_digit, is_empty,
  is_space, leb, length, lower, ltb, none, not, some, starts_with, suc, text, zero, ℕ, ◌&&◌, ◌++◌,
  ◌+◌, ◌==◌, ◌||◌, ◌∷◌,
}
use ulmara_backend.Json.{
  Fields, Items, Json, array, boolean, field, item, no_fields, no_items, null, number, object,
  string,
}

-- the alternatives of `SENSITIVE_KEY`
unfoldable pub sensitive_words : List Text
sensitive_words =
    text "pin"
    ∷ text "password"
    ∷ text "passcode"
    ∷ text "secret"
    ∷ text "token"
    ∷ text "authorization"
    ∷ text "cookie"
    ∷ text "mnemonic"
    ∷ text "seed"
    ∷ text "privatekey"
    ∷ text "private_key"
    ∷ text "jwt"
    ∷ text "session"
    ∷ text "apikey"
    ∷ text "api_key"
    ∷ text "dsn"
    ∷ text "databaseurl"
    ∷ text "database_url"
    ∷ text "connectionstring"
    ∷ text "connection_string"
    ∷ text "credential"
    ∷ []

unfoldable pub contains_any : List Text → Text → Bool
contains_any [] t = false
contains_any (w ∷ ws) t = contains w t || contains_any ws t

-- `SENSITIVE_KEY.test(key)`, which ignores case
unfoldable pub is_sensitive : Text → Bool
is_sensitive key = contains_any sensitive_words (lower key)

abbrev pub redacted : Text
redacted = text "[redacted]"

abbrev pub is_letter : ℕ → Bool
is_letter c = (leb b'a' c && leb c b'z') || (leb b'A' c && leb c b'Z')

-- `[a-z0-9+.-]` without regard to case
abbrev pub is_scheme : ℕ → Bool
is_scheme c = is_letter c || (is_digit c || (c == b'+' || (c == b'.' || c == b'-')))

-- `[^\s:@/]`
abbrev pub is_user : ℕ → Bool
is_user c = not (is_space c || (c == b':' || (c == b'@' || c == b'/')))

-- `[^\s@/]`
abbrev pub is_secret : ℕ → Bool
is_secret c = not (is_space c || (c == b'@' || c == b'/'))

-- The longest start of a text in a class of characters, and the rest. No class holds the character
-- that the pattern wants next, so the longest start is the only one that can match.
unfoldable pub span : (ℕ → Bool) → Text → Text × Text
span p [] = ([], [])
span p (c ∷ cs) = let (a, b) = span p cs in if p c then (c ∷ a, b) else ([], c ∷ cs)

abbrev pub tail : Text → Text
tail [] = []
tail (c ∷ cs) = cs

-- the user, the colon, the password and the at sign, after a scheme: what is put in their place, and
-- the rest
unfoldable pub match_user : (scheme : Text) → Text → Option (Text × Text)
match_user scheme t =
    let (user, t1) = span is_user t in
    let (secret, t2) = span is_secret (tail t1) in
    let shown = scheme ++ (text "://" ++ (user ++ (text ":" ++ (redacted ++ text "@")))) in
    if not (is_empty user) && starts_with (text ":") t1 && starts_with (text "@") t2
    then some (shown, tail t2)
    else none

-- `CREDENTIAL_IN_VALUE` at the start of a text
unfoldable pub match_credential : Text → Option (Text × Text)
match_credential [] = none
match_credential (c ∷ cs) =
    let (rest_of_scheme, t) = span is_scheme cs in
    let matched = match_user (c ∷ rest_of_scheme) (tail (tail (tail t))) in
    if is_letter c && starts_with (text "://") t then matched else none

-- `redactCredentialsInString`, on fuel: each round uses up at least one character
unfoldable pub redact : (fuel : ℕ) → Text → Text
redact zero t = []
redact (suc f) [] = []
redact (suc f) (c ∷ cs) = elim (match_credential (c ∷ cs)) [
  | none ↦ c ∷ redact f cs
  | some (shown, rest) ↦ shown ++ redact f rest
]

abbrev max_text : ℕ
max_text = 512

-- `redactCredentialsInString`
unfoldable pub redact_text : Text → Text
redact_text t = redact (suc (length t)) t

-- `walk` on a text
unfoldable pub scrub_text : Text → Text
scrub_text t =
    let shown = redact_text t in
    if leb (length shown) max_text
    then shown
    else first_chars max_text shown ++ text "...[truncated]"

abbrev pub max_items : ℕ
max_items = 50

abbrev max_depth : ℕ
max_depth = 6

-- What `walk` is given: an instance of Error has a name, a message and perhaps a stack, and its other
-- properties are never read.
mutual
  pub data Payload : Type 0 where
    null_value : Payload
    boolean_value : Bool → Payload
    number_value : Text → Payload
    text_value : Text → Payload
    list_value : Entries → Payload
    object_value : Properties → Payload
    error_value : (name message : Text) (stack : Option Text) → Payload

  pub data Entries : Type 0 where
    no_entries : Entries
    entry : Payload → Entries → Entries

  pub data Properties : Type 0 where
    no_properties : Properties
    property : Text → Payload → Properties → Properties

-- an instance of Error, whose texts are redacted and not cut
unfoldable pub scrub_error : (name message : Text) → Option Text → Fields
scrub_error name message none =
    field (text "name") (string (redact_text name))
      (field (text "message") (string (redact_text message)) no_fields)
scrub_error name message (some stack) = field (text "name") (string (redact_text name)) (
    field (text "message") (string (redact_text message))
      (field (text "stack") (string (redact_text stack)) no_fields))

abbrev cut_deep : (depth : ℕ) → Json → Json
cut_deep depth walked = if ltb max_depth depth then string (text "[truncated]") else walked

-- `walk` at a depth; of a list, as many entries as are left are kept
unfoldable mutual
  pub walk : (depth : ℕ) → Payload → Json
  walk depth null_value = cut_deep depth null
  walk depth (boolean_value b) = cut_deep depth (boolean b)
  walk depth (number_value n) = cut_deep depth (number n)
  walk depth (text_value t) = cut_deep depth (string (scrub_text t))
  walk depth (list_value xs) = cut_deep depth (array (walk_items max_items (depth + 1) xs))
  walk depth (object_value fs) = cut_deep depth (object (walk_fields (depth + 1) fs))
  walk depth (error_value name message stack) =
      cut_deep depth (object (scrub_error name message stack))

  pub walk_items : (left depth : ℕ) → Entries → Items
  walk_items zero depth xs = no_items
  walk_items (suc left) depth no_entries = no_items
  walk_items (suc left) depth (entry x xs) = item (walk depth x) (walk_items left depth xs)

  pub walk_fields : (depth : ℕ) → Properties → Fields
  walk_fields depth no_properties = no_fields
  walk_fields depth (property k v fs) =
      let walked = walk depth v in
      field k (if is_sensitive k then string redacted else walked) (walk_fields depth fs)

-- `scrubSentryEvent`
unfoldable pub scrub_sentry_event : Payload → Json
scrub_sentry_event event = walk 0 event
