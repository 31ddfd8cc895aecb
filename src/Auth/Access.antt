-- ===== src/Auth/Access.antt =====
-- `signup`, `login`, and the verification of an email address or a phone number. Tokens are
-- arguments, and `fresh_code` of the environment gives the random codes.
pub mod Verified
use ulmara_backend.Common.{
  Bool, List, Option, Text, exists_where, false, find_where, if◌then◌else◌, is_some, is_text,
  length, lower, ltb, none, not, some, text, text_eq, trim, true, ℕ, ◌&&◌, ◌+◌, ◌||◌, ◌∷◌,
}
use ulmara_backend.World.{
  Channel, Env, Error, M, User, await_others, catch, email_channel, err, gets, http, modify, ok,
  or_throw, phone_channel, pure, throw, throw_if, thrown, ⊤, ◌>>=◌, ◌>>◌,
}
use ulmara_backend.Lockout.{find_user, is_user, update_users}
use ulmara_backend.Otp.{
  VerifyOutcome, attempts_exhausted, create_verification_code, expired, verified,
  verify_verification_code,
}

abbrev pub has_email : Text → User → Bool
has_email email u = text_eq u.email email

abbrev has_phone : Text → User → Bool
has_phone phone u = is_text u.phone phone

abbrev phone_taken : Option Text → List User → Bool
phone_taken none users = false
phone_taken (some phone) users = exists_where (has_phone phone) users

-- `issueAndDeliverCode`: the code, and the copy that development mode shows
unfoldable issue_and_deliver_code : Env → (user : ℕ) → (email : Text) → Channel → M (Option Text)
issue_and_deliver_code env user email ch = do
  throw_if (not env.dev_verification && not env.email_configured)
      (http 503 (text "We could not send a verification code right now. Please try again shortly."))
  code ← create_verification_code env user ch (env.fresh_code 0)
  let undelivered : M (Option Text) =
      create_verification_code env user ch (env.fresh_code 1)
      >> throw (
          http 502
            (text "We could not send a verification code right now. Please try again shortly."))
  if env.dev_verification
      then pure (some code)
      else if env.email_sent email
      then pure none
      else undelivered

-- `verificationFailure`
abbrev verification_failure : VerifyOutcome → Error
verification_failure expired = http 400 (text "Verification code has expired. Request a new one.")
verification_failure attempts_exhausted =
    http 429 (text "Too many incorrect attempts. Request a new verification code.")
verification_failure _ = http 400 (text "Invalid or expired verification code")

abbrev fresh_user :
    Env → (id : ℕ) → (email : Text) → (phone : Option Text) → (password : Text) → User
fresh_user env id email phone password = record {
  id = id;
  email = email;
  phone = phone;
  password_hash = env.make_hash password;
  pin_hash = none;
  name = none;
  email_verified = false;
  phone_verified = false;
  pin_failed_attempts = 0;
  pin_locked_until = none;
}

-- `prisma.user.create`: email and phone are unique; the violation answers 409.
unfoldable create_user : Env → (email : Text) → (phone : Option Text) → (password : Text) → M User
create_user env email phone password db =
    let u = fresh_user env db.next_id email phone password in
    if exists_where (has_email email) db.users || phone_taken phone db.users
    then (
      err (
          http 409
            (text "An account with this email or phone already exists. Try logging in instead.")),
      db,
    )
    else (ok u, record db { next_id = db.next_id + 1; users = u ∷ db.users })

-- `prisma.session.create`
abbrev open_session : Env → (user token : ℕ) → M ⊤
open_session env user token = modify (λ db. record db {
  next_id = db.next_id + 1;
  sessions =
      record {
        id = db.next_id;
        user_id = user;
        token = token;
        expires_at = db.clock + env.session_ms;
      }
      ∷ db.sessions;
})

-- The end of `signup`, where the delivery's failure is swallowed.
unfoldable welcome : Env → User → (token : ℕ) → M (User × Option Text)
welcome env u token = do
  open_session env u.id token
  code ← catch (issue_and_deliver_code env u.id u.email email_channel) (λ (e : Error). pure none)
  pure (u, code)

-- `signup`
unfoldable signup :
    Env
    → (email : Text) → (phone : Option Text) → (password : Text) → (token : ℕ)
    → M (User × Option Text)
signup env given phone password token = do
  let email = lower (trim given)
  existing ← gets (λ db. exists_where (has_email email) db.users)
  throw_if existing
      (http 409 (text "An account with this email already exists. Try logging in instead."))
  other ← gets (λ db. phone_taken phone db.users)
  throw_if other
      (http 409 (text "An account with this phone number already exists. Try logging in instead."))
  throw_if (ltb (length password) 8) (http 400 (text "Password must be at least 8 characters"))
  await_others env 0
  u ← create_user env email phone password
  welcome env u token

-- `login`
unfoldable pub login : Env → (email password : Text) → (token : ℕ) → M User
login env given password token = do
  found ← gets (λ db. find_where (has_email (lower (trim given))) db.users)
  let refused =
      http 401 (text "Invalid email or password. Please check your details and try again.")
  u ← or_throw found refused
  throw_if (not (env.compare_hash password u.password_hash)) refused
  open_session env u.id token
  pure u

abbrev no_account : Error
no_account = http 404 (text "Account not found. Please sign up again.")

abbrev set_email_verified : User → User
set_email_verified u = record u { email_verified = true }

abbrev set_phone_verified : User → User
set_phone_verified u = record u { phone_verified = true }

-- The update after an accepted code, which throws when the row is gone.
unfoldable pub write_verified : (id : ℕ) → (User → User) → M ⊤
write_verified id f = do
  found ← update_users (is_user id) f
  throw_if (not found) (thrown (text "Record to update not found"))

-- A code is submitted for a channel, and the row is written if it is accepted.
unfoldable pub submit_code : Env → (id : ℕ) → Channel → (code : Text) → (User → User) → M ⊤
submit_code env id ch code f = do
  outcome ← verify_verification_code env id ch code
  elim outcome [ verified ↦ write_verified id f | o ↦ throw (verification_failure o) ]

-- `verifyEmail`
unfoldable pub verify_email : Env → (id : ℕ) → (code : Text) → M ⊤
verify_email env id code = do
  found ← find_user id
  u ← or_throw found no_account
  if u.email_verified then pure tt else submit_code env id email_channel code set_email_verified

-- `verifyPhone`
unfoldable verify_phone : Env → (id : ℕ) → (code : Text) → M ⊤
verify_phone env id code = do
  found ← find_user id
  u ← or_throw found no_account
  throw_if (not (is_some u.phone)) (http 400 (text "No phone number is linked to this account."))
  if u.phone_verified then pure tt else submit_code env id phone_channel code set_phone_verified

-- `resendVerificationCode`; for the phone every path throws
unfoldable resend_verification_code : Env → (id : ℕ) → Channel → M (Option Text)
resend_verification_code env id email_channel = do
  found ← find_user id
  u ← or_throw found no_account
  throw_if u.email_verified (http 400 (text "Your email is already verified."))
  issue_and_deliver_code env id u.email email_channel
resend_verification_code env id phone_channel = do
  found ← find_user id
  u ← or_throw found no_account
  throw_if (not (is_some u.phone) || u.phone_verified)
      (http 400 (text "Your phone number is already verified."))
  throw (http 501 (text "SMS verification is not available yet. Verify your email instead."))
