-- ===== src/Transfer/Broadcast/Claim.antt =====
-- A transaction is queued for broadcast at most once.
use ulmara_backend.Common.{arith, find_where, none, ℕ, ◌≡◌}
use ulmara_backend.World.{Db, Env, ok, pending}
use ulmara_backend.Transfer.{Described}
use ulmara_backend.Transfer.Broadcast.{
  broadcast, claim_and_enqueue, claimable, get_by_id, shown_processing,
}
use ulmara_backend.Transfer.Broadcast.Budget.{claimed}

module _ (env : Env) (user id signed : ℕ) (seen : Described) where
  pub claim_lost :
      (db : Db)
      → find_where (claimable user id) db.transactions ≡ none
      → claim_and_enqueue env user id signed seen db
        ≡ (ok (shown_processing seen), claimed user id signed db)
  unfolding claim_and_enqueue
  claim_lost db missing = ground (arith, missing)

pub broadcast_pending :
    (env : Env) (user id signed : ℕ) (seen : Described) (db : Db)
    → get_by_id user id db ≡ (ok seen, db)
    → seen.row.id ≡ id
    → seen.row.status ≡ pending
    → broadcast env user id signed db ≡ claim_and_enqueue env user id signed seen (env.others 0 db)
unfolding broadcast
broadcast_pending env user id signed seen db run same waiting = ground arith
