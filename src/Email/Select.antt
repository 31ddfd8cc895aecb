-- ===== src/Email/Select.antt =====
-- src/services/email/index.ts: the choice of the mail service by the setting EMAIL_PROVIDER, kept for the
-- life of the process, and the send that never throws.
use ulmara_backend.Common.{
  Bool, List, Option, Text, [], false, if◌then◌else◌, none, some, text, text_eq, true, ◌++◌, ◌∷◌,
}
use ulmara_backend.Email.{
  EmailDeliveryError, EmailMessage, EmailProvider, EmailSendResult, MailNet, MailSettings, Outcome,
  crashed, delivered, refused, resend_send, sendgrid_send, undelivered,
}
use ulmara_backend.Email.Ses.{SesConfig, joined, ses_send}
use ulmara_backend.Json.{Json, non_empty}
use ulmara_backend.Provider.{Request}

abbrev resend_base : Text
resend_base = text "https://api.resend.com"

abbrev sendgrid_base : Text
sendgrid_base = text "https://api.sendgrid.com"

abbrev missing : {A : Type 0} → Text → Text → Outcome A
missing service message = refused service (text "missing_credentials") message none

-- a line of the log
pub data LogLine : Type 0 where
  email_sent : (service : Text) (message_id : Json) → LogLine
  email_send_failed : EmailDeliveryError → LogLine
  email_send_crashed : (thrown_text : Text) → LogLine

abbrev pub is_delivered : Outcome EmailSendResult → Bool
is_delivered (delivered r) = true
is_delivered _ = false

abbrev logged : Outcome EmailSendResult → LogLine
logged (delivered r) = email_sent r.sent_by r.message_id
logged (undelivered e) = email_send_failed e
logged (crashed t) = email_send_crashed t

module _ (net : MailNet) (settings : MailSettings) where
  abbrev pub resend_of : (key : Text) → EmailProvider
  resend_of key = record {
    provider_name = text "resend";
    send = resend_send net settings key resend_base;
  }

  -- `createResendProvider` with its default address
  unfoldable pub create_resend_provider : (key : Text) → Outcome EmailProvider
  create_resend_provider [] =
      missing (text "resend") (text "RESEND_API_KEY is required for the Resend provider")
  create_resend_provider (c ∷ cs) = delivered (resend_of (c ∷ cs))

  abbrev pub sendgrid_of : (key : Text) → Option Text → EmailProvider
  sendgrid_of key from_email = record {
    provider_name = text "sendgrid";
    send = sendgrid_send net settings key sendgrid_base from_email;
  }

  -- `createSendGridProvider` with its default address
  unfoldable pub create_sendgrid_provider : (key : Text) → Option Text → Outcome EmailProvider
  create_sendgrid_provider [] from_email =
      missing (text "sendgrid") (text "SENDGRID_API_KEY is required for the SendGrid provider")
  create_sendgrid_provider (c ∷ cs) from_email = delivered (sendgrid_of (c ∷ cs) from_email)

  abbrev pub absent : (key value : Text) → List Text
  absent key [] = key ∷ []
  absent key (c ∷ cs) = []

  abbrev missing_keys : SesConfig → List Text
  missing_keys config =
      absent (text "region") config.region
      ++ (absent (text "accessKeyId") config.access_key_id
          ++ absent (text "secretAccessKey") config.secret_access_key)

  abbrev pub ses_of : SesConfig → EmailProvider
  ses_of config = record { provider_name = text "ses"; send = ses_send net settings config }

  abbrev pub ses_or_missing : SesConfig → List Text → Outcome EmailProvider
  ses_or_missing config [] = delivered (ses_of config)
  ses_or_missing config (k ∷ ks) =
      missing (text "ses") (text "SES provider is missing: " ++ joined (text ", ") (k ∷ ks))

  -- `createSesProvider`
  unfoldable pub create_ses_provider : SesConfig → Outcome EmailProvider
  create_ses_provider config = ses_or_missing config (missing_keys config)

  abbrev pub from_resend_key : Option Text → Outcome EmailProvider
  from_resend_key none = missing (text "resend") (text "RESEND_API_KEY is not set")
  from_resend_key (some key) = create_resend_provider key

  abbrev pub from_sendgrid_key : Option Text → Outcome EmailProvider
  from_sendgrid_key none = missing (text "sendgrid") (text "SENDGRID_API_KEY is not set")
  from_sendgrid_key (some key) = create_sendgrid_provider key settings.sendgrid_from_email

  abbrev pub from_ses_keys : (region access_key secret_key : Option Text) → Outcome EmailProvider
  from_ses_keys (some region) (some access_key) (some secret_key) = create_ses_provider (record {
    region = region;
    access_key_id = access_key;
    secret_access_key = secret_key;
    from_email = settings.sendgrid_from_email;
    from_name = settings.email_from_name;
  })
  from_ses_keys _ _ _ =
      missing (text "ses")
        (text "AWS_SES_REGION, AWS_SES_ACCESS_KEY_ID and AWS_SES_SECRET_ACCESS_KEY must all be set")

  -- the `switch` of `getEmailProvider`
  unfoldable pub build_email_provider : Outcome EmailProvider
  build_email_provider =
      if text_eq settings.email_provider (text "resend")
      then from_resend_key (non_empty settings.resend_api_key)
      else if text_eq settings.email_provider (text "sendgrid")
      then from_sendgrid_key (non_empty settings.sendgrid_api_key)
      else if text_eq settings.email_provider (text "ses")
      then from_ses_keys (non_empty settings.ses_region) (non_empty settings.ses_access_key_id)
          (non_empty settings.ses_secret_access_key)
      else refused (text "unknown") (text "unsupported_provider")
          (text "Unsupported EMAIL_PROVIDER: " ++ settings.email_provider) none

  abbrev pub kept : Outcome EmailProvider → Option EmailProvider
  kept (delivered p) = some p
  kept _ = none

  -- `getEmailProvider`, with the module's `cached` before and after
  unfoldable pub get_email_provider :
      Option EmailProvider → Outcome EmailProvider × Option EmailProvider
  get_email_provider (some p) = (delivered p, some p)
  get_email_provider none = (build_email_provider, kept build_email_provider)

  -- `isEmailProviderConfigured`
  unfoldable is_email_provider_configured : Option EmailProvider → Bool × Option EmailProvider
  is_email_provider_configured cached =
      let (r, cached') = get_email_provider cached in
      (elim r [ delivered p ↦ true | undelivered e ↦ false | crashed t ↦ false ], cached')

  abbrev pub send_by :
      Outcome EmailProvider → EmailMessage → List Request → Outcome EmailSendResult × List Request
  send_by (delivered p) m log = p.send m log
  send_by (undelivered e) m log = (undelivered e, log)
  send_by (crashed t) m log = (crashed t, log)

  -- `trySendEmail`, with the line that it logs
  unfoldable pub try_send_email :
      Option EmailProvider
      → EmailMessage
      → List Request
      → (Bool × LogLine) × (Option EmailProvider × List Request)
  try_send_email cached m log =
      let (r, cached') = get_email_provider cached in
      let (sent, log') = send_by r m log in ((is_delivered sent, logged sent), (cached', log'))
