-- ===== src/Delivery/Repeated.antt =====
-- The controller of webhooks on a delivery that comes again.
use ulmara_backend.Common.{Option, Text, arith, false, is_empty, none, refl, some, true, ℕ, ◌≡◌}
use ulmara_backend.World.{Db, Env, ok}
use ulmara_backend.Delivery.{
  Inbound, accepted, apply_parsed, apply_raw, raw_of, signature_valid, to_ramp_event, webhook,
}
use ulmara_backend.Provider.{CanonicalEvent, Net, RampProvider}
use ulmara_backend.Provider.Select.{Settings, get_ramp_provider}
use ulmara_backend.Ramp.Webhook.{WebhookResult, duplicate, handle_webhook, ignored}
use ulmara_backend.Ramp.Webhook.Once.{KeepsEvents, handle_webhook_once}

module _ (net : Net) (settings : Settings) (key : Text → ℕ) (env : Env)
    (event : CanonicalEvent) where
  pub to_ramp_event-named :
      is_empty event.reference ≡ false
      → (to_ramp_event key event).event_reference ≡ some (key event.reference)
  unfolding to_ramp_event
  to_ramp_event-named named = rw named refl

  pub apply_parsed_state :
      (db : Db)
      → (apply_parsed net settings key env event db).1
        ≡ (handle_webhook env settings.ramp_provider (to_ramp_event key event) true db).1
  unfolding apply_parsed
  apply_parsed_state db = ground arith

  apply_parsed_run :
      (r : WebhookResult) (db db' : Db)
      → handle_webhook env settings.ramp_provider (to_ramp_event key event) true db ≡ (ok r, db')
      → apply_parsed net settings key env event db ≡ (ok (accepted r), db')
  unfolding apply_parsed
  apply_parsed_run r db db' h = ground arith

  pub apply_parsed_answer :
      (r : WebhookResult) (db : Db)
      → (handle_webhook env settings.ramp_provider (to_ramp_event key event) true db).0 ≡ ok r
      → (apply_parsed net settings key env event db).0 ≡ ok (accepted r)
  unfolding apply_parsed
  apply_parsed_answer r db h = ground arith

  apply_parsed_twice :
      (db : Db)
      → KeepsEvents env
      → is_empty event.reference ≡ false
      → apply_parsed net settings key env event (apply_parsed net settings key env event db).1
        ≡ (ok (accepted (ignored duplicate)), (apply_parsed net settings key env event db).1)
  apply_parsed_twice db quiet named =
      let e = to_ramp_event key event in
      let once =
        handle_webhook_once env settings.ramp_provider e true (key event.reference) db quiet
          (to_ramp_event-named named) in
      rw (apply_parsed_state db) (apply_parsed_run (ignored duplicate) _ _ once)

  -- The provider that is kept answers the next call.
  get_ramp_provider_again :
      (cached : Option RampProvider) (p : RampProvider)
      → (get_ramp_provider net settings cached).0 ≡ ok p
      → (get_ramp_provider net settings (get_ramp_provider net settings cached).1).0 ≡ ok p
  unfolding get_ramp_provider
  get_ramp_provider_again (some q) p h = h
  get_ramp_provider_again none p h = rw h refl

  module _ (cached : Option RampProvider) (inbound : Inbound) (p : RampProvider)
      (built : (get_ramp_provider net settings cached).0 ≡ ok p)
      (valid : signature_valid net settings inbound (ok p) ≡ true)
      (parsed : p.parse_webhook (raw_of net inbound) ≡ ok event) where
    pub webhook_run :
        (db : Db)
        → webhook net settings key env cached inbound db
          ≡ apply_parsed net settings key env event db
    unfolding webhook apply_raw
    webhook_run db = rw (built, valid, get_ramp_provider_again cached p built, parsed) refl

-- A delivery whose signature is valid and that names a reference is applied at most once: the same
-- delivery again is answered 200 with "duplicate" and changes nothing, whatever was answered to the
-- first, 500 included, as long as other requests leave the recorded events as they are.
pub webhook_repeated :
    (net : Net) (settings : Settings) (key : Text → ℕ) (env : Env) (event : CanonicalEvent)
    → (cached : Option RampProvider) (inbound : Inbound) (p : RampProvider) (db : Db)
    → (get_ramp_provider net settings cached).0 ≡ ok p
    → signature_valid net settings inbound (ok p) ≡ true
    → p.parse_webhook (raw_of net inbound) ≡ ok event
    → is_empty event.reference ≡ false
    → KeepsEvents env
    → webhook net settings key env cached inbound (webhook net settings key env cached inbound db).1
      ≡ (ok (accepted (ignored duplicate)), (webhook net settings key env cached inbound db).1)
webhook_repeated net settings key env event cached inbound p db built valid parsed named quiet =
    let run = webhook_run net settings key env event cached inbound p built valid parsed in
    let twice = apply_parsed_twice net settings key env event db quiet named in
    rw (run db, run (apply_parsed net settings key env event db).1) twice
