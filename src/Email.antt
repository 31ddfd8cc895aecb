-- ===== src/Email.antt =====
-- src/services/email/types.ts, resend.provider.ts and sendgrid.provider.ts: the interface of the mail
-- services, the shared POST, and two adapters. `fetch`, `JSON`, the digests, the environment and the
-- clock are parameters.
pub mod Ses
pub mod Select
pub mod Accepted
mod Tests
use mathlib.Core.Option
use ulmara_backend.Common.{
  Bool, List, Option, Text, [], false, first_chars, if◌then◌else◌, is_empty, none, not, show_ℕ,
  some, text, text_eq, true, ℕ, ◌++◌, ◌∷◌,
}
use ulmara_backend.Json.{
  Json, array, boolean, item, literal, member, no_items, null, number, object, quoted, string,
}
use ulmara_backend.Provider.{
  Reply, Request, is_success, network_error, post_verb, response, timed_out, without_slash,
}

pub record EmailMessage : Type 0 where
  pub recipient : Text
  pub subject : Text
  pub html : Text
  pub plain : Text

-- A message id is what the service answers, of any type.
pub record EmailSendResult : Type 0 where
  pub message_id : Json
  pub sent_by : Text

-- `EmailDeliveryError`
pub record EmailDeliveryError : Type 0 where
  pub service : Text
  pub code : Text
  pub message : Text
  pub status_code : Option ℕ

-- A value, an `EmailDeliveryError`, or another exception.
pub data Outcome (A : Type 0) : Type 0 where
  delivered : A → Outcome A
  undelivered : EmailDeliveryError → Outcome A
  crashed : Text → Outcome A

-- what the modules read of the environment
pub record MailSettings : Type 0 where
  pub email_provider : Text
  pub email_from : Text
  pub email_from_name : Text
  pub resend_api_key : Option Text
  pub sendgrid_api_key : Option Text
  pub sendgrid_from_email : Option Text
  pub ses_region : Option Text
  pub ses_access_key_id : Option Text
  pub ses_secret_access_key : Option Text

-- `fetch`, and the clock, may answer by all requests made so far, the newest first.
pub record MailNet : Type 0 where
  pub fetch : List Request → Request → Reply
  pub parse_json : Text → Option Json
  pub stringify : Json → Text
  pub now_ms : List Request → Text
  pub now_iso : List Request → Text
  pub sha256_hex : Text → Text
  pub hmac_sha256 : Text → Text → Text
  pub hmac_sha256_hex : Text → Text → Text

-- the name of a provider and its `send`
pub record EmailProvider : Type 0 where
  pub provider_name : Text
  pub send : EmailMessage → List Request → Outcome EmailSendResult × List Request

abbrev pub refused : {A : Type 0} → Text → Text → Text → Option ℕ → Outcome A
refused service code message status =
    undelivered (record { service = service; code = code; message = message; status_code = status })

-- `!value` of a parsed JSON value, negated
unfoldable pub truthy : Option Json → Bool
truthy none = false
truthy (some null) = false
truthy (some (boolean b)) = b
truthy (some (number t)) = not (text_eq t (text "0"))
truthy (some (string t)) = not (is_empty t)
truthy (some (array js)) = true
truthy (some (object fs)) = true

-- `Name <addr@host>`, or the bare address where there is no name
unfoldable pub format_from : (name address : Text) → Text
format_from [] address = address
format_from (c ∷ cs) address = (c ∷ cs) ++ (text " <" ++ (address ++ text ">"))

-- `fromEmail ?? env.EMAIL_FROM`
abbrev pub or_from : MailSettings → Option Text → Text
or_from settings none = settings.email_from
or_from settings (some from) = from

abbrev pub addresses : Text → Json
addresses to_address = array (item (string to_address) no_items)

-- the request of `postJson`
unfoldable pub post_request : MailNet → (url : Text) → List (Text × Text) → Json → Request
post_request net url headers body = record {
  url = url;
  verb = post_verb;
  headers = (text "content-type", text "application/json") ∷ headers;
  body = some (net.stringify body);
}

pub record Posted : Type 0 where
  pub is_ok : Bool
  pub status : ℕ
  pub json : Json
  pub shown : Text

abbrev max_shown : ℕ
max_shown = 500

abbrev parsed_or_null : MailNet → Text → Json
parsed_or_null net [] = null
parsed_or_null net (c ∷ cs) = elim (net.parse_json (c ∷ cs)) [ none ↦ null | some j ↦ j ]

-- what `postJson` makes of the reply
unfoldable pub read_posted : MailNet → (service : Text) → Reply → Outcome Posted
read_posted net service timed_out =
    refused service (text "timeout") (service ++ text " request failed (timeout)") none
read_posted net service network_error =
    refused service (text "network_error") (service ++ text " request failed (network_error)") none
read_posted net service (response status body) = delivered (record {
  is_ok = is_success status;
  status = status;
  json = parsed_or_null net body;
  shown = first_chars max_shown body;
})

abbrev bearer : Text → List (Text × Text)
bearer key = (text "authorization", text "Bearer " ++ key) ∷ []

module _ (net : MailNet) (settings : MailSettings) where
  -- the request that `send` of the Resend adapter makes
  unfoldable pub resend_request : (key base_url : Text) → EmailMessage → Request
  resend_request key base_url m =
      post_request net (without_slash base_url ++ text "/emails") (bearer key) (
        object (
          literal (
            (text "from", quoted (format_from settings.email_from_name settings.email_from))
            ∷ (text "to", some (addresses m.recipient))
            ∷ (text "subject", quoted m.subject)
            ∷ (text "html", quoted m.html)
            ∷ (text "text", quoted m.plain)
            ∷ [])))

  abbrev resend_id : Option Json → Outcome EmailSendResult
  resend_id none =
      refused (text "resend") (text "invalid_response")
        (text "Resend response did not include a message id") none
  resend_id (some j) = delivered (record { message_id = j; sent_by = text "resend" })

  -- what it makes of the answer
  unfoldable pub read_resend : Outcome Posted → Outcome EmailSendResult
  read_resend (undelivered e) = undelivered e
  read_resend (crashed t) = crashed t
  read_resend (delivered r) =
      if r.is_ok
      then (if truthy (member (text "id") r.json)
          then resend_id (member (text "id") r.json)
          else resend_id none)
      else refused (text "resend") (text "send_failed")
          (text "Resend rejected the message with status " ++ show_ℕ r.status) (some r.status)

  -- the `send` that `createResendProvider` returns
  unfoldable pub resend_send :
      (key base_url : Text) → EmailMessage → List Request → Outcome EmailSendResult × List Request
  resend_send key base_url m log =
      let r = resend_request key base_url m in
      (read_resend (read_posted net (text "resend") (net.fetch log r)), r ∷ log)

  abbrev sender_of : (name address : Text) → Json
  sender_of [] address = object (literal ((text "email", quoted address) ∷ []))
  sender_of (c ∷ cs) address =
      object (literal ((text "name", quoted (c ∷ cs)) ∷ (text "email", quoted address) ∷ []))

  abbrev content : (type value : Text) → Json
  content type value =
      object (literal ((text "type", quoted type) ∷ (text "value", quoted value) ∷ []))

  abbrev personalization : Text → Json
  personalization to_address = object (
      literal (
        (
          text "to",
          some (array (item (object (literal ((text "email", quoted to_address) ∷ []))) no_items)),
        )
        ∷ []))

  -- the request that `send` of the SendGrid adapter makes
  unfoldable pub sendgrid_request : (key base_url : Text) → Option Text → EmailMessage → Request
  sendgrid_request key base_url from_email m =
      let sender = or_from settings from_email in
      post_request net (without_slash base_url ++ text "/v3/mail/send") (bearer key) (
        object (
          literal (
            (text "personalizations", some (array (item (personalization m.recipient) no_items)))
            ∷ (text "from", some (sender_of settings.email_from_name sender))
            ∷ (text "subject", quoted m.subject)
            ∷ (
              text "content",
              some (
                  array (
                    item (content (text "text/plain") m.plain)
                      (item (content (text "text/html") m.html) no_items))),
            )
            ∷ [])))

  -- `message_id ?? ...`
  abbrev id_or_clock : List Request → Option Json → Json
  id_or_clock log none = string (text "sendgrid-" ++ net.now_ms log)
  id_or_clock log (some null) = string (text "sendgrid-" ++ net.now_ms log)
  id_or_clock log (some j) = j

  unfoldable pub read_sendgrid : List Request → Outcome Posted → Outcome EmailSendResult
  read_sendgrid log (undelivered e) = undelivered e
  read_sendgrid log (crashed t) = crashed t
  read_sendgrid log (delivered r) =
      if r.is_ok
      then delivered (record {
        message_id = id_or_clock log (member (text "message_id") r.json);
        sent_by = text "sendgrid";
      })
      else refused (text "sendgrid") (text "send_failed")
          (text "SendGrid rejected the message with status " ++ show_ℕ r.status) (some r.status)

  -- the `send` that `createSendGridProvider` returns
  unfoldable pub sendgrid_send :
      (key base_url : Text)
      → Option Text
      → EmailMessage
      → List Request
      → Outcome EmailSendResult × List Request
  sendgrid_send key base_url from_email m log =
      let r = sendgrid_request key base_url from_email m in
      (read_sendgrid (r ∷ log) (read_posted net (text "sendgrid") (net.fetch log r)), r ∷ log)
