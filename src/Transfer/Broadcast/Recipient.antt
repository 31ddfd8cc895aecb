-- ===== src/Transfer/Broadcast/Recipient.antt =====
-- A broadcast by a caller who sees a transaction that it did not send.
use ulmara_backend.Common.{ap, count_where, find_where, none, refl, ℕ, ◌∙◌, ◌≡◌}
use ulmara_backend.World.{Db, Env, ok, pending}
use ulmara_backend.Transfer.{Described}
use ulmara_backend.Transfer.Broadcast.{
  broadcast, claim_and_enqueue, claimable, get_by_id, shown_processing,
}
use ulmara_backend.Transfer.Broadcast.Budget.{claim_none, pending_row}
use ulmara_backend.Transfer.Broadcast.Claim.{broadcast_pending, claim_lost}

-- A caller who may see a pending transaction but did not send it, such as its recipient, is answered
-- that it is being processed, while nothing is queued and it is as pending as before.
broadcast_by_recipient :
    (env : Env) (user id signed : ℕ) (seen : Described) (db : Db)
    → env.others 0 db ≡ db
    → get_by_id user id db ≡ (ok seen, db)
    → seen.row.status ≡ pending
    → seen.row.id ≡ id
    → find_where (claimable user id) db.transactions ≡ none
    → let run = broadcast env user id signed db in
      (run.0 ≡ ok (shown_processing seen))
      × (run.1.jobs ≡ db.jobs)
      × (count_where (pending_row id) run.1.transactions
          ≡ count_where (pending_row id) db.transactions)
broadcast_by_recipient env user id signed seen db quiet run waiting same missing =
    let lost = claim_lost env user id signed seen db missing in
    let full =
      broadcast_pending env user id signed seen db run same waiting
      ∙ ap (claim_and_enqueue env user id signed seen) quiet
      ∙ lost in
    rw full (refl, refl, claim_none user id signed db missing)
