-- ===== src/Provider/Reconciled.antt =====
-- `reconcile` (src/services/ramp/ramp.service.ts) on what the two adapters answer to `getStatus`.
use mathlib.Core.Option
use ulmara_backend.Common.{
  List, Option, Text, arith, false, find_where, leb, none, refl, some, text, true, ℕ, ◌++◌, ◌≡◌,
}
use ulmara_backend.World.{
  Db, Env, RampTx, Result, StatusReply, StatusResult, TxStatus, coded, completed, err, failed, http,
  ok, other_error, pending, provider_error, provider_failed, replied, thrown, unique_violation,
}
use ulmara_backend.Json.{Json, non_empty, text_at}
use ulmara_backend.Provider.{Calls, Net, RampStatusResult, Request, get_verb}
use ulmara_backend.Provider.Bitnob.{BitnobConfig}
use ulmara_backend.Provider.Bitnob.Paging.{search_pages-none}
use ulmara_backend.Provider.Bitnob.Status.{bitnob_get_status, max_pages, read_page, report}
use ulmara_backend.Provider.YellowCard.{
  YellowCardConfig, map_status, yellow_get_status, yellow_request, yellow_status_of,
}
use ulmara_backend.Ramp.{find_ramp, has_ramp_id, rank}
use ulmara_backend.Ramp.Reconcile.{
  apply_reply, ask_status, is_settled, reconcile, synced, unknown_to_provider,
}
use ulmara_backend.Ramp.Webhook.Applied.{status_of, update_ramp_run, updated_found}

-- What `reconcile` reads of the outcome of `getStatus`.
unfoldable pub reply_of : Result RampStatusResult → StatusReply
reply_of (ok r) = replied (record { status = r.status; failure_reason = r.failure_reason })
reply_of (err (provider_failed p f m status)) = provider_error status
reply_of (err (http s m)) = other_error
reply_of (err (coded s m)) = other_error
reply_of (err unique_violation) = other_error
reply_of (err (thrown m)) = other_error

-- The settings, the kept provider and the network from which the environment's status lookup is
-- made; `name` prints the reference of a row.
abbrev AsksProvider : Env → (ℕ → Text) → (Text → Calls RampStatusResult) → List Request → Type 0
AsksProvider env name get_status log =
    (reference : ℕ) → env.ramp_status reference ≡ reply_of (get_status (name reference) log).0

-- the status and the reason of failure that a row shows
abbrev pub outcome : RampTx → TxStatus × Option Text
outcome t = (t.status, t.failure_reason)

bitnob_unlisted :
    (net : Net) (config : BitnobConfig) (reference : Text) (log : List Request)
    → ((page : ℕ) (l : List Request) → (read_page net config reference page l).0 ≡ ok none)
    → reply_of (bitnob_get_status net config reference log).0 ≡ provider_error (some 404)
unfolding bitnob_get_status report reply_of
bitnob_unlisted net config reference log h =
    ground (arith, search_pages-none net config reference h max_pages 1 log)

module _ (env : Env) (reference : ℕ) (t : RampTx) (db : Db)
    (quiet : (k : ℕ) (d : Db) → env.others k d ≡ d) (found : find_ramp reference db ≡ some t)
    (keyed : find_where (has_ramp_id t.id) db.ramp_txs ≡ some t)
    (unsettled : is_settled t.status ≡ false) (up : env.ramp_configured ≡ true) where
  ask_status_quiet :
      ask_status env reference t db ≡ apply_reply t db.clock (env.ramp_status reference) db
  unfolding ask_status
  ask_status_quiet = rw (quiet 0 db) refl

  reconcile_asks :
      reconcile env reference db ≡ apply_reply t db.clock (env.ramp_status reference) db
  unfolding reconcile
  reconcile_asks = ground (arith, ask_status_quiet)

  reconcile_missing :
      env.ramp_status reference ≡ provider_error (some 404)
      → status_of reference (reconcile env reference db).1 ≡ some failed
  unfolding apply_reply find_ramp
  reconcile_missing told =
      rw (reconcile_asks, told)
        (ground (
          arith,
          update_ramp_run reference t (unknown_to_provider db.clock) db keyed,
          updated_found reference t (unknown_to_provider db.clock) db (λ r. refl) found,
        ))

  reconcile_told :
      (r : StatusResult) (m : Text)
      → env.ramp_status reference ≡ replied r
      → leb (rank r.status) (rank t.status) ≡ false
      → r.failure_reason ≡ some m
      → Option.map outcome (find_ramp reference (reconcile env reference db).1)
        ≡ some (r.status, some m)
  unfolding apply_reply find_ramp
  reconcile_told r m told fresh reason =
      rw (reconcile_asks, told, fresh)
        (ground (
          arith,
          update_ramp_run reference t (synced r db.clock) db keyed,
          updated_found reference t (synced r db.clock) db (λ q. refl) found,
        ))

-- Bitnob's `getStatus` searches the list of payouts only. With no other request in between, the
-- reconciliation of an open row whose reference names no payout, as the reference of a deposit into
-- a virtual account does, marks the row FAILED.
pub reconcile_bitnob_deposit :
    (net : Net) (config : BitnobConfig) (name : ℕ → Text) (log : List Request)
    → (env : Env) (reference : ℕ) (t : RampTx) (db : Db)
    → AsksProvider env name (bitnob_get_status net config) log
    → ((page : ℕ) (l : List Request) → (read_page net config (name reference) page l).0 ≡ ok none)
    → ((k : ℕ) (d : Db) → env.others k d ≡ d)
    → find_ramp reference db ≡ some t
    → find_where (has_ramp_id t.id) db.ramp_txs ≡ some t
    → is_settled t.status ≡ false
    → env.ramp_configured ≡ true
    → status_of reference (reconcile env reference db).1 ≡ some failed
reconcile_bitnob_deposit net config name log env reference t db asks unlisted quiet found keyed
      unsettled up =
    let told = asks reference in
    reconcile_missing env reference t db quiet found keyed unsettled up
      (rw (told, bitnob_unlisted net config (name reference) log unlisted) refl)

module _ (net : Net) (config : YellowCardConfig) (reference : Text) (log : List Request)
    (answer : Json) (id reason : Text) where
  abbrev lookup_path : Text
  lookup_path = text "/business/transactions/sequence/" ++ net.encode_uri reference

  yellow_told :
      (yellow_request net config lookup_path get_verb none log).0 ≡ ok answer
      → non_empty (text_at (text "id") answer) ≡ some id
      → text_at (text "error") answer ≡ none
      → text_at (text "reason") answer ≡ some reason
      → reply_of (yellow_get_status net config reference log).0
        ≡ replied (record {
          status = map_status (text_at (text "status") answer);
          failure_reason = some reason;
        })
  unfolding yellow_get_status reply_of yellow_status_of
  yellow_told got named fine echoed = ground arith

-- Yellow Card's `getStatus` reads the `reason` of a transaction, which the adapter itself sets when it
-- creates one, as its reason of failure. With no other request in between, the reconciliation of a
-- pending row whose transaction is complete and has no error leaves the row COMPLETED with that text
-- as its reason of failure.
reconcile_yellow_reason :
    (net : Net) (config : YellowCardConfig) (name : ℕ → Text) (log : List Request)
    → (answer : Json) (id reason : Text) → (env : Env) (reference : ℕ) (t : RampTx) (db : Db)
    → AsksProvider env name (yellow_get_status net config) log
    → (yellow_request net config
        (lookup_path net config (name reference) log answer id reason)
        get_verb
        none
        log).0
      ≡ ok answer
    → non_empty (text_at (text "id") answer) ≡ some id
    → text_at (text "error") answer ≡ none
    → text_at (text "reason") answer ≡ some reason
    → map_status (text_at (text "status") answer) ≡ completed
    → ((k : ℕ) (d : Db) → env.others k d ≡ d)
    → find_ramp reference db ≡ some t
    → find_where (has_ramp_id t.id) db.ramp_txs ≡ some t
    → t.status ≡ pending
    → env.ramp_configured ≡ true
    → Option.map outcome (find_ramp reference (reconcile env reference db).1)
      ≡ some (completed, some reason)
unfolding rank
reconcile_yellow_reason net config name log answer id reason env reference t db asks got named fine
      echoed complete quiet found keyed open_row up =
    let reply : StatusResult = record { status = completed; failure_reason = some reason } in
    let told : env.ramp_status reference ≡ replied reply =
      rw
        (
          asks reference,
          yellow_told net config (name reference) log answer id reason got named fine echoed,
          complete,
        )
        refl in
    reconcile_told env reference t db quiet found keyed (rw open_row refl) up reply reason told
      (rw open_row refl) refl
