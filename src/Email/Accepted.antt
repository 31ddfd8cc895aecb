-- ===== src/Email/Accepted.antt =====
-- What a true answer of `trySendEmail` means: the mail service has accepted the message.
use mathlib.Core.Path.{subst}
use ulmara_backend.Common.{
  Bool-cases, List, Option, Text, [], arith, inl, inr, none, refl, some, text, text_eq, true, ℕ,
  ◌∷◌, ◌≡◌, ◌⊎◌,
}
use ulmara_backend.Email.{
  EmailMessage, EmailProvider, MailNet, MailSettings, Outcome, crashed, delivered, read_posted,
  read_resend, read_sendgrid, resend_send, sendgrid_send, undelivered,
}
use ulmara_backend.Email.Select.{
  build_email_provider, create_resend_provider, create_sendgrid_provider, create_ses_provider,
  from_resend_key, from_sendgrid_key, from_ses_keys, get_email_provider, is_delivered, kept,
  resend_of, send_by, sendgrid_of, ses_of, ses_or_missing, try_send_email,
}
use ulmara_backend.Email.Ses.{SesConfig, read_ses, ses_send}
use ulmara_backend.Json.{non_empty}
use ulmara_backend.Provider.{Reply, Request, is_success, network_error, response, timed_out}

-- the reply is a success
abbrev pub IsAccepted : Reply → Type 0
IsAccepted reply =
    (status : ℕ) × (body : Text) × (reply ≡ response status body) × (is_success status ≡ true)

-- Whatever is sent, one request is made, and a message id is returned only if it was accepted.
abbrev IsHonest : MailNet → EmailProvider → Type 0
IsHonest net p =
    (m : EmailMessage) (log : List Request)
    → (r : Request) × ((p.send m log).1 ≡ r ∷ log)
      × (is_delivered ((p.send m log).0) ≡ true → IsAccepted (net.fetch log r))

-- the module's `cached`: nothing, or what the settings build
abbrev IsKept : MailNet → MailSettings → Option EmailProvider → Type 0
IsKept net settings cached =
    (cached ≡ none)
    ⊎ ((p : EmailProvider) × (cached ≡ some p) × (build_email_provider net settings ≡ delivered p))

module _ (net : MailNet) (settings : MailSettings) where
  read_resend-IsAccepted :
      (reply : Reply)
      → is_delivered (read_resend net settings (read_posted net (text "resend") reply)) ≡ true
      → IsAccepted reply
  unfolding read_resend read_posted
  read_resend-IsAccepted timed_out h = absurd (cc)
  read_resend-IsAccepted network_error h = absurd (cc)
  read_resend-IsAccepted (response status body) h = (status, body, refl, ground arith)

  read_sendgrid-IsAccepted :
      (log : List Request) (reply : Reply)
      → is_delivered (read_sendgrid net settings log (read_posted net (text "sendgrid") reply))
        ≡ true
      → IsAccepted reply
  unfolding read_sendgrid read_posted
  read_sendgrid-IsAccepted log timed_out h = absurd (cc)
  read_sendgrid-IsAccepted log network_error h = absurd (cc)
  read_sendgrid-IsAccepted log (response status body) h = (status, body, refl, ground arith)

  read_ses-IsAccepted :
      (reply : Reply) → is_delivered (read_ses net reply) ≡ true → IsAccepted reply
  unfolding read_ses
  read_ses-IsAccepted timed_out h = absurd (cc)
  read_ses-IsAccepted network_error h = absurd (cc)
  read_ses-IsAccepted (response status body) h = (status, body, refl, ground arith)

  create_resend_provider-IsHonest :
      (key : Text) (p : EmailProvider)
      → create_resend_provider net settings key ≡ delivered p
      → IsHonest net p
  unfolding create_resend_provider resend_send
  create_resend_provider-IsHonest [] p h = absurd (cc)
  create_resend_provider-IsHonest (c ∷ cs) p h =
      let same : resend_of net settings (c ∷ cs) ≡ p = cc in
      subst (IsHonest net) same (λ m log. (_, refl, read_resend-IsAccepted _))

  create_sendgrid_provider-IsHonest :
      (key : Text) (from_email : Option Text) (p : EmailProvider)
      → create_sendgrid_provider net settings key from_email ≡ delivered p
      → IsHonest net p
  unfolding create_sendgrid_provider sendgrid_send
  create_sendgrid_provider-IsHonest [] from_email p h = absurd (cc)
  create_sendgrid_provider-IsHonest (c ∷ cs) from_email p h =
      let same : sendgrid_of net settings (c ∷ cs) from_email ≡ p = cc in
      subst (IsHonest net) same (λ m log. (_, refl, read_sendgrid-IsAccepted _ _))

  ses_or_missing-IsHonest :
      (config : SesConfig) (ks : List Text) (p : EmailProvider)
      → ses_or_missing net settings config ks ≡ delivered p
      → IsHonest net p
  unfolding ses_send
  ses_or_missing-IsHonest config [] p h =
      let same : ses_of net settings config ≡ p = cc in
      subst (IsHonest net) same (λ m log. (_, refl, read_ses-IsAccepted _))
  ses_or_missing-IsHonest config (k ∷ ks) p h = absurd (cc)

  from_resend_key-IsHonest :
      (key : Option Text) (p : EmailProvider)
      → from_resend_key net settings key ≡ delivered p
      → IsHonest net p
  from_resend_key-IsHonest none p h = absurd (cc)
  from_resend_key-IsHonest (some key) p h = create_resend_provider-IsHonest key p h

  from_sendgrid_key-IsHonest :
      (key : Option Text) (p : EmailProvider)
      → from_sendgrid_key net settings key ≡ delivered p
      → IsHonest net p
  from_sendgrid_key-IsHonest none p h = absurd (cc)
  from_sendgrid_key-IsHonest (some key) p h = create_sendgrid_provider-IsHonest key _ p h

  from_ses_keys-IsHonest :
      (region access_key secret_key : Option Text) (p : EmailProvider)
      → from_ses_keys net settings region access_key secret_key ≡ delivered p
      → IsHonest net p
  unfolding create_ses_provider
  from_ses_keys-IsHonest (some region) (some a) (some s) p h = ses_or_missing-IsHonest _ _ p h
  from_ses_keys-IsHonest none a s p h = absurd (cc)
  from_ses_keys-IsHonest (some region) none s p h = absurd (cc)
  from_ses_keys-IsHonest (some region) (some a) none p h = absurd (cc)

  build_email_provider-IsHonest :
      (p : EmailProvider) → build_email_provider net settings ≡ delivered p → IsHonest net p
  unfolding build_email_provider
  build_email_provider-IsHonest p h =
      elim (Bool-cases (text_eq settings.email_provider (text "resend"))) [
        | inl resend ↦ from_resend_key-IsHonest (non_empty settings.resend_api_key) p (ground arith)
        | inr other ↦ elim (Bool-cases (text_eq settings.email_provider (text "sendgrid"))) [
          | inl sendgrid ↦
              from_sendgrid_key-IsHonest (non_empty settings.sendgrid_api_key) p (ground arith)
          | inr another ↦ elim (Bool-cases (text_eq settings.email_provider (text "ses"))) [
            | inl ses ↦
                from_ses_keys-IsHonest (non_empty settings.ses_region)
                  (non_empty settings.ses_access_key_id) (non_empty settings.ses_secret_access_key)
                  p (ground arith)
            | inr unknown ↦ absurd (ground arith)
          ]
        ]
      ]

  kept_built :
      (r : Outcome EmailProvider)
      → build_email_provider net settings ≡ r
      → IsKept net settings (kept net settings r)
  kept_built (delivered p) e = inr (p, refl, e)
  kept_built (undelivered e') e = inl refl
  kept_built (crashed t) e = inl refl

  send_by-IsAccepted :
      (built : Outcome EmailProvider) (m : EmailMessage) (log : List Request)
      → build_email_provider net settings ≡ built
      → is_delivered ((send_by net settings built m log).0) ≡ true
      → (r : Request) × ((send_by net settings built m log).1 ≡ r ∷ log)
        × IsAccepted (net.fetch log r)
  send_by-IsAccepted (delivered p) m log e h =
      let (r, requests, accepted) = build_email_provider-IsHonest p e m log in
      (r, requests, accepted h)
  send_by-IsAccepted (undelivered e') m log e h = absurd (cc)
  send_by-IsAccepted (crashed t) m log e h = absurd (cc)

  -- What `getEmailProvider` keeps is again nothing or what the settings build.
  get_email_provider-IsKept :
      (cached : Option EmailProvider)
      → IsKept net settings cached
      → IsKept net settings ((get_email_provider net settings cached).1)
  unfolding get_email_provider
  get_email_provider-IsKept (some p) k = k
  get_email_provider-IsKept none k = kept_built _ refl

  -- While the provider that the module keeps is none or the one that the settings build: if
  -- `trySendEmail` answers true, then it made one request, and the mail service answered that request
  -- with a success.
  pub try_send_email-IsAccepted :
      (cached : Option EmailProvider) (m : EmailMessage) (log : List Request)
      → IsKept net settings cached
      → (try_send_email net settings cached m log).0.0 ≡ true
      → (r : Request) × ((try_send_email net settings cached m log).1.1 ≡ r ∷ log)
        × IsAccepted (net.fetch log r)
  unfolding try_send_email get_email_provider
  try_send_email-IsAccepted none m log k h = send_by-IsAccepted _ m log refl h
  try_send_email-IsAccepted (some p) m log (inl none_kept) h = absurd (cc)
  try_send_email-IsAccepted (some p) m log (inr (q, same, built)) h =
      send_by-IsAccepted (delivered p) m log (ground arith) h
