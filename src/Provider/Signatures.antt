-- ===== src/Provider/Signatures.antt =====
-- The signatures of webhooks that the two adapters accept.
use ulmara_backend.Common.{
  ==-refl, Bool-cases, Option, Option-cases, Text, [], arith, eq_of_text_eq, false, inl, inr,
  length, lower, none, refl, some, text_eq_refl, trim, true, ℕ, ◌↔◌, ◌∷◌, ◌≡◌, ◌⊎◌,
}
use ulmara_backend.World.{ok}
use ulmara_backend.Json.{Json}
use ulmara_backend.Provider.{Net, RampProvider, constant_time_equals}
use ulmara_backend.Provider.Bitnob.{BitnobConfig}
use ulmara_backend.Provider.Bitnob.Webhook.{bitnob_verify, sign_bitnob_webhook}
use ulmara_backend.Provider.Select.{
  Settings, bitnob_provider, build_provider, create_bitnob_provider, create_yellow_card_provider,
  yellow_card_provider,
}
use ulmara_backend.Provider.YellowCard.{YellowCardConfig}
use ulmara_backend.Provider.YellowCard.Webhook.{
  sign_yellow_card_webhook, verify_reprinted, yellow_verify,
}

constant_time_equals_iff : (a b : Text) → (constant_time_equals a b ≡ true) ↔ (a ≡ b)
unfolding constant_time_equals
constant_time_equals_iff a b = (
  (λ h. ground (arith, eq_of_text_eq a b)),
  (λ h. rw h (ground (arith, text_eq_refl b, ==-refl (length b)))),
)

bitnob_verify_iff_some :
    (net : Net) (config : BitnobConfig) (raw : Text) (c : ℕ) (cs : Text)
    → (bitnob_verify net config raw (some (c ∷ cs)) ≡ true)
      ↔ (net.hmac_sha512 config.webhook_secret raw ≡ lower (trim (c ∷ cs)))
unfolding bitnob_verify sign_bitnob_webhook
bitnob_verify_iff_some net config raw c cs = constant_time_equals_iff _ _

-- The Bitnob adapter accepts a signature only if it was sent and, trimmed and in lower case, is the
-- keyed digest of the raw body.
pub bitnob_verify_sound :
    (net : Net) (config : BitnobConfig) (raw : Text) (sent : Option Text)
    → bitnob_verify net config raw sent ≡ true
    → (s : Text) × (sent ≡ some s) × (net.hmac_sha512 config.webhook_secret raw ≡ lower (trim s))
unfolding bitnob_verify
bitnob_verify_sound net config raw none h = absurd (cc)
bitnob_verify_sound net config raw (some []) h = absurd (cc)
bitnob_verify_sound net config raw (some (c ∷ cs)) h =
    (c ∷ cs, refl, (bitnob_verify_iff_some net config raw c cs).0 h)

verify_reprinted_sound :
    (net : Net) (config : YellowCardConfig) (raw s : Text)
    → verify_reprinted net config raw s ≡ true
    → (j : Json) × (net.parse_json raw ≡ some j)
      × (net.hmac_sha256_base64 config.secret_key (net.stringify j) ≡ s)
unfolding verify_reprinted sign_yellow_card_webhook
verify_reprinted_sound net config raw s h = elim (Option-cases (net.parse_json raw)) [
  | inl bad ↦ absurd (ground arith)
  | inr (j, parsed) ↦ (
    j,
    parsed,
    (constant_time_equals_iff (net.hmac_sha256_base64 config.secret_key (net.stringify j)) s).0
        (ground arith),
  )
]

-- The Yellow Card adapter accepts a signature only if it was sent and, trimmed, is the keyed digest
-- of the raw body or of the body parsed and printed again.
yellow_verify_sound :
    (net : Net) (config : YellowCardConfig) (raw : Text) (sent : Option Text)
    → yellow_verify net config raw sent ≡ true
    → (s : Text) × (sent ≡ some s)
      × ((net.hmac_sha256_base64 config.secret_key raw ≡ trim s)
          ⊎ ((j : Json) × (net.parse_json raw ≡ some j)
              × (net.hmac_sha256_base64 config.secret_key (net.stringify j) ≡ trim s)))
unfolding yellow_verify sign_yellow_card_webhook
yellow_verify_sound net config raw none h = absurd (cc)
yellow_verify_sound net config raw (some []) h = absurd (cc)
yellow_verify_sound net config raw (some (c ∷ cs)) h =
    let expected = net.hmac_sha256_base64 config.secret_key raw in
    let s = trim (c ∷ cs) in
    (
      c ∷ cs,
      refl,
      elim (Bool-cases (constant_time_equals expected s)) [
        | inl same ↦ inl ((constant_time_equals_iff expected s).0 same)
        | inr other ↦ inr (verify_reprinted_sound net config raw s (rw other at h))
      ],
    )

pub create_bitnob_provider_built :
    (net : Net) (config : BitnobConfig) (p : RampProvider)
    → create_bitnob_provider net config ≡ ok p
    → bitnob_provider net config ≡ p
unfolding create_bitnob_provider
create_bitnob_provider_built net config p h = ground arith

create_yellow_card_provider_built :
    (net : Net) (config : YellowCardConfig) (p : RampProvider)
    → create_yellow_card_provider net config ≡ ok p
    → yellow_card_provider net config ≡ p
unfolding create_yellow_card_provider
create_yellow_card_provider_built net config p h = ground arith

bitnob_unsigned :
    (net : Net) (config : BitnobConfig) (raw : Text)
    → (bitnob_provider net config).verify_webhook_signature raw none ≡ false
unfolding bitnob_provider bitnob_verify
bitnob_unsigned net config raw = refl

yellow_unsigned :
    (net : Net) (config : YellowCardConfig) (raw : Text)
    → (yellow_card_provider net config).verify_webhook_signature raw none ≡ false
unfolding yellow_card_provider yellow_verify
yellow_unsigned net config raw = refl

-- Whatever RAMP_PROVIDER says, a provider that is built from the settings rejects a delivery without
-- a signature.
build_provider_unsigned :
    (net : Net) (settings : Settings) (p : RampProvider) (raw : Text)
    → build_provider net settings ≡ ok p
    → p.verify_webhook_signature raw none ≡ false
unfolding build_provider
build_provider_unsigned net settings p raw h = ground (
  arith,
  create_bitnob_provider_built net settings.bitnob_config p,
  create_yellow_card_provider_built net settings.yellow_card_config p,
  bitnob_unsigned net settings.bitnob_config raw,
  yellow_unsigned net settings.yellow_card_config raw,
)
