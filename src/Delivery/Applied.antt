-- ===== src/Delivery/Applied.antt =====
-- The controller of webhooks on a delivery that the Bitnob adapter signs, and on one that is applied.
use ulmara_backend.Common.{
  Option, Text, arith, exists_where, false, find_where, if◌then◌else◌, inl, inr, is_empty, leb,
  lower, none, some, sym, text, text_eq, trim, true, ℕ, ◌≡◌, ◌⊎◌,
}
use ulmara_backend.World.{Db, Env, RampTx, ok}
use ulmara_backend.Delivery.{
  Inbound, accepted, header_value, raw_of, signature_valid, to_ramp_event, unsigned, webhook,
}
use ulmara_backend.Delivery.Checked.{webhook_signed}
use ulmara_backend.Delivery.Repeated.{
  apply_parsed_answer, apply_parsed_state, to_ramp_event-named, webhook_run,
}
use ulmara_backend.Provider.{CanonicalEvent, Net, RampProvider}
use ulmara_backend.Provider.Select.{
  Settings, bitnob_provider, build_provider, get_ramp_provider, get_ramp_webhook_signature_header,
}
use ulmara_backend.Provider.Signatures.{bitnob_verify_sound, create_bitnob_provider_built}
use ulmara_backend.Ramp.{find_ramp, has_ramp_id, rank}
use ulmara_backend.Ramp.Webhook.{applied, ignored, same_event, stale_status}
use ulmara_backend.Ramp.Webhook.Applied.{handle_webhook_applied, later, status_of}

abbrev IsBitnob : Settings → Type 0
IsBitnob settings = text_eq settings.ramp_provider (text "bitnob") ≡ true

-- what the module may hold as `cached`: nothing, or the provider that the settings build
abbrev pub IsKept : Net → Settings → Option RampProvider → Type 0
IsKept net settings cached =
    (cached ≡ none)
    ⊎ ((p : RampProvider) × (cached ≡ some p) × (build_provider net settings ≡ ok p))

built_bitnob :
    (net : Net) (settings : Settings) (p : RampProvider)
    → IsBitnob settings
    → build_provider net settings ≡ ok p
    → bitnob_provider net settings.bitnob_config ≡ p
unfolding build_provider
built_bitnob net settings p chosen built =
    create_bitnob_provider_built net settings.bitnob_config p (rw chosen at built)

kept_built :
    (net : Net) (settings : Settings) (cached : Option RampProvider) (p : RampProvider)
    → IsKept net settings cached
    → (get_ramp_provider net settings cached).0 ≡ ok p
    → build_provider net settings ≡ ok p
unfolding get_ramp_provider
kept_built net settings none p kept built = built
kept_built net settings (some q) p (inl bad) built = absurd (cc)
kept_built net settings (some q) p (inr (q', same, from_settings)) built = ground arith

-- While the provider that the module keeps is none or the one that the settings build, with Bitnob
-- selected: a delivery is answered 401 and changes nothing, or it carries a signature in its
-- x-bitnob-signature header that, trimmed and in lower case, is the keyed digest of the raw body.
pub webhook_bitnob_signed :
    (net : Net) (settings : Settings) (key : Text → ℕ) (env : Env)
    → (cached : Option RampProvider) (inbound : Inbound) (db : Db) → IsBitnob settings
    → IsKept net settings cached
    → (webhook net settings key env cached inbound db ≡ (ok unsigned, db))
      ⊎ ((s : Text) × (header_value inbound (text "x-bitnob-signature") ≡ some s)
          × (net.hmac_sha512 settings.bitnob_config.webhook_secret (raw_of net inbound)
              ≡ lower (trim s)))
unfolding get_ramp_webhook_signature_header bitnob_provider
webhook_bitnob_signed net settings key env cached inbound db chosen kept =
    elim (webhook_signed net settings key env cached inbound db) [
      | inl rejected ↦ inl rejected
      | inr (p, built, valid) ↦
          let same =
            built_bitnob net settings p chosen (kept_built net settings cached p kept built) in
          inr (
            bitnob_verify_sound net settings.bitnob_config (raw_of net inbound) _
              (rw (sym same, chosen) at valid))
    ]

-- A delivery whose signature is valid and whose new event names a row, with no other request in
-- between, is answered 200, and the row ends with the later of its status and the event's.
pub webhook_applied :
    (net : Net) (settings : Settings) (key : Text → ℕ) (env : Env) (event : CanonicalEvent)
    → (cached : Option RampProvider) (inbound : Inbound) (p : RampProvider) (t : RampTx) (db : Db)
    → (get_ramp_provider net settings cached).0 ≡ ok p
    → signature_valid net settings inbound (ok p) ≡ true
    → p.parse_webhook (raw_of net inbound) ≡ ok event
    → is_empty event.reference ≡ false
    → ((k : ℕ) (d : Db) → env.others k d ≡ d)
    → exists_where (same_event settings.ramp_provider (key event.event_id)) db.webhook_events
      ≡ false
    → find_ramp (key event.reference) db ≡ some t
    → find_where (has_ramp_id t.id) db.ramp_txs ≡ some t
    → ((webhook net settings key env cached inbound db).0
        ≡ ok (
            accepted
              (if leb (rank event.status) (rank t.status) then ignored stale_status else applied)))
      × (status_of (key event.reference) (webhook net settings key env cached inbound db).1
          ≡ some (later t.status event.status))
unfolding to_ramp_event
webhook_applied net settings key env event cached inbound p t db built valid parsed named quiet new
      found keyed =
    let e = to_ramp_event key event in
    let (answer, state) =
      handle_webhook_applied env settings.ramp_provider e (key event.reference) t db quiet
        (to_ramp_event-named net settings key env event named) new found keyed in
    rw
      (
        webhook_run net settings key env event cached inbound p built valid parsed db,
        apply_parsed_state net settings key env event db,
      )
      (apply_parsed_answer net settings key env event _ db answer, state)
