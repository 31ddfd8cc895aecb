-- ===== src/Delivery/Checked.antt =====
-- The controller of webhooks: nothing happens before the signature is checked.
use ulmara_backend.Common.{Bool-cases, Option, Text, inl, inr, refl, true, ℕ, ◌≡◌, ◌⊎◌}
use ulmara_backend.World.{Db, Env, Result, err, ok}
use ulmara_backend.Delivery.{Inbound, header_value, raw_of, signature_valid, unsigned, webhook}
use ulmara_backend.Provider.{Net, RampProvider}
use ulmara_backend.Provider.Select.{Settings, get_ramp_provider, get_ramp_webhook_signature_header}

module _ (net : Net) (settings : Settings) (cached : Option RampProvider) (inbound : Inbound) where
  abbrev sent_signature : Option Text
  sent_signature = header_value inbound (get_ramp_webhook_signature_header settings)

  -- The provider that answers is built, and its check accepts the raw body.
  abbrev IsSigned : Type 0
  IsSigned =
      (p : RampProvider) × ((get_ramp_provider net settings cached).0 ≡ ok p)
      × (p.verify_webhook_signature (raw_of net inbound) sent_signature ≡ true)

  signature_valid_sound :
      (r : Result RampProvider)
      → signature_valid net settings inbound r ≡ true
      → (p : RampProvider) × (r ≡ ok p)
        × (p.verify_webhook_signature (raw_of net inbound) sent_signature ≡ true)
  unfolding signature_valid
  signature_valid_sound (ok p) h = (p, refl, h)
  signature_valid_sound (err e) h = absurd (cc)

-- A delivery is answered 401 and changes nothing, or the selected provider exists and its signature
-- check accepts the raw body with the header that it signs.
pub webhook_signed :
    (net : Net) (settings : Settings) (key : Text → ℕ) (env : Env)
    → (cached : Option RampProvider) (inbound : Inbound) (db : Db)
    → (webhook net settings key env cached inbound db ≡ (ok unsigned, db))
      ⊎ IsSigned net settings cached inbound
unfolding webhook
webhook_signed net settings key env cached inbound db =
    let built = (get_ramp_provider net settings cached).0 in
    elim (Bool-cases (signature_valid net settings inbound built)) [
      | inl valid ↦ inr (signature_valid_sound net settings cached inbound built valid)
      | inr invalid ↦ inl (rw invalid refl)
    ]
