-- ===== src/Provider/Select.antt =====
-- The two adapters behind the interface, and src/services/ramp/providers/index.ts, which builds the one
-- that the setting RAMP_PROVIDER names and keeps it.
use ulmara_backend.Common.{
  Bool, Option, Text, false, if◌then◌else◌, is_empty, none, some, text, text_eq, true, ◌++◌, ◌||◌,
}
use ulmara_backend.World.{Result, err, ok, provider_failed}
use ulmara_backend.Provider.{Net, RampProvider}
use ulmara_backend.Provider.Bitnob.{BitnobConfig}
use ulmara_backend.Provider.Bitnob.Operations.{
  bitnob_create_customer, bitnob_create_deposit, bitnob_create_withdrawal,
}
use ulmara_backend.Provider.Bitnob.Status.{bitnob_get_status}
use ulmara_backend.Provider.Bitnob.Webhook.{bitnob_parse_webhook, bitnob_verify}
use ulmara_backend.Provider.YellowCard.{
  YellowCardConfig, yellow_create_customer, yellow_create_deposit, yellow_create_withdrawal,
  yellow_get_status,
}
use ulmara_backend.Provider.YellowCard.Webhook.{yellow_parse_webhook, yellow_verify}

unfoldable pub bitnob_provider : Net → BitnobConfig → RampProvider
bitnob_provider net config = record {
  provider_name = text "bitnob";
  create_customer = bitnob_create_customer net config;
  create_deposit = bitnob_create_deposit net config;
  create_withdrawal = bitnob_create_withdrawal net config;
  get_status = bitnob_get_status net config;
  verify_webhook_signature = bitnob_verify net config;
  parse_webhook = bitnob_parse_webhook net;
}

-- `createBitnobProvider`
unfoldable pub create_bitnob_provider : Net → BitnobConfig → Result RampProvider
create_bitnob_provider net config =
    if is_empty config.client_id || is_empty config.client_secret
    then err (
        provider_failed (text "bitnob") (text "missing_credentials")
          (text "BITNOB_CLIENT_ID and BITNOB_CLIENT_SECRET are required") none)
    else if is_empty config.webhook_secret
    then err (
        provider_failed (text "bitnob") (text "missing_webhook_secret")
          (text "BITNOB_WEBHOOK_SECRET is required to verify webhooks") none)
    else ok (bitnob_provider net config)

unfoldable pub yellow_card_provider : Net → YellowCardConfig → RampProvider
yellow_card_provider net config = record {
  provider_name = text "yellowcard";
  create_customer = yellow_create_customer net config;
  create_deposit = yellow_create_deposit net config;
  create_withdrawal = yellow_create_withdrawal net config;
  get_status = yellow_get_status net config;
  verify_webhook_signature = yellow_verify net config;
  parse_webhook = yellow_parse_webhook net config;
}

-- `createYellowCardProvider`
unfoldable pub create_yellow_card_provider : Net → YellowCardConfig → Result RampProvider
create_yellow_card_provider net config =
    if is_empty config.api_key || is_empty config.secret_key
    then err (
        provider_failed (text "yellowcard") (text "missing_credentials")
          (text "YELLOW_CARD_API_KEY and YELLOW_CARD_API_SECRET are required") none)
    else ok (yellow_card_provider net config)

-- what the module reads of the environment
pub record Settings : Type 0 where
  pub ramp_provider : Text
  pub bitnob_config : BitnobConfig
  pub yellow_card_config : YellowCardConfig

-- the `switch` of `getRampProvider`
unfoldable pub build_provider : Net → Settings → Result RampProvider
build_provider net settings =
    if text_eq settings.ramp_provider (text "bitnob")
    then create_bitnob_provider net settings.bitnob_config
    else if text_eq settings.ramp_provider (text "yellowcard")
    then create_yellow_card_provider net settings.yellow_card_config
    else err (
        provider_failed (text "unknown") (text "unsupported_provider")
          (text "Unsupported RAMP_PROVIDER: " ++ settings.ramp_provider) none)

abbrev kept_provider : Result RampProvider → Option RampProvider
kept_provider (ok p) = some p
kept_provider (err e) = none

-- `getRampProvider`, with the module's `cached` before and after
unfoldable pub get_ramp_provider :
    Net → Settings → Option RampProvider → Result RampProvider × Option RampProvider
get_ramp_provider net settings (some p) = (ok p, some p)
get_ramp_provider net settings none =
    (build_provider net settings, kept_provider (build_provider net settings))

-- `isRampProviderConfigured`
unfoldable is_ramp_provider_configured :
    Net → Settings → Option RampProvider → Bool × Option RampProvider
is_ramp_provider_configured net settings cached =
    let (r, cached') = get_ramp_provider net settings cached in
    (elim r [ ok p ↦ true | err e ↦ false ], cached')

-- `getRampWebhookSignatureHeader`
unfoldable pub get_ramp_webhook_signature_header : Settings → Text
get_ramp_webhook_signature_header settings =
    if text_eq settings.ramp_provider (text "bitnob")
    then text "x-bitnob-signature"
    else text "x-yc-signature"
