-- ===== src/Response.antt =====
-- src/utils/apiResponse.ts, `handleError`, and src/middleware/error.middleware.ts, `errorHandler`: the
-- status and the message that a client reads for an error. The logging and the report of
-- `errorHandler` are left out.
pub mod Messages
mod Tests
use ulmara_backend.Common.{
  Bool, List, Option, Text, [], false, if◌then◌else◌, is_empty, leb, none, some, text, true, ℕ,
  ◌++◌, ◌∷◌,
}
use ulmara_backend.World.{Error, coded, http, provider_failed, thrown, unique_violation}

-- one entry of a ZodError: its path, already joined by dots, and its message
pub record Issue : Type 0 where
  pub path : Text
  pub message : Text

-- What a controller's `catch` receives: a ZodError, an Error, or any other value.
pub data Caught : Type 0 where
  invalid_input : List Issue → Caught
  raised : Error → Caught
  other_value : Caught

pub record Shown : Type 0 where
  pub code : ℕ
  pub message : Text

abbrev pub generic : Text
generic = text "Something went wrong. Please try again."

-- the `statusCode` of an error, if it carries one
abbrev status_code : Error → Option ℕ
status_code (http s m) = some s
status_code (coded s m) = some s
status_code unique_violation = none
status_code (provider_failed p f m s) = s
status_code (thrown m) = none

abbrev pub message_of : Error → Text
message_of (http s m) = m
message_of (coded s m) = m
message_of unique_violation = text "Unique constraint failed"
message_of (provider_failed p f m s) = m
message_of (thrown m) = m

-- `err instanceof HttpError`
abbrev is_http : Error → Bool
is_http (http s m) = true
is_http _ = false

-- `?? 500`
abbrev or_500 : Option ℕ → ℕ
or_500 none = 500
or_500 (some s) = s

-- `${first.path.join(".") || "input"}: ${first.message}`, or "Invalid input"
unfoldable pub detail_of : List Issue → Text
detail_of [] = text "Invalid input"
detail_of (first ∷ rest) =
    (if is_empty first.path then text "input" else first.path) ++ (text ": " ++ first.message)

-- `handleError` after the status code and the message are read
unfoldable pub show_error : Error → Shown
show_error e =
    let code = or_500 (status_code e) in
    if leb 500 code
    then record { code = code; message = if is_http e then message_of e else generic }
    else record { code = code; message = message_of e }

-- `handleError`
unfoldable pub handle_error : Caught → Shown
handle_error (invalid_input issues) = record { code = 400; message = detail_of issues }
handle_error (raised e) = show_error e
handle_error other_value = record { code = 500; message = generic }

-- `errorHandler`, for what escapes a controller
unfoldable pub error_handler : Error → Shown
error_handler e =
    let code = or_500 (status_code e) in
    let own = if is_empty (message_of e) then text "Request failed" else message_of e in
    let safe = if is_http e then message_of e else generic in
    record { code = code; message = if leb 500 code then safe else own }
