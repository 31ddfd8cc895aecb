-- ===== src/Transfer/Broadcast/Budget.antt =====
-- The one chance of a transaction to be queued, and what each step of a broadcast does to it.
-- The broadcast jobs of a transaction in the queue.
use ulmara_backend.Common.{
  ==-refl, Bool, List, [], arith, count_where, count_where-eq-zero_of_find, count_where-pos_of_find,
  count_where-update_out, count_where-update_where, count_where_mono, find_where, if◌then◌else◌,
  none, refl, some, update_where, ℕ, ◌&&◌, ◌+◌, ◌==◌, ◌∷◌, ◌≡◌, ◌≤◌,
}
use ulmara_backend.World.{Db, Job, Transaction, pending, process_transaction, processing}
use ulmara_backend.Transfer.Broadcast.{claimable, is_pending, releasable, set_status}

abbrev broadcast_jobs : ℕ → List Job → ℕ
broadcast_jobs id [] = 0
broadcast_jobs id (process_transaction t signed ∷ js) =
    (if t == id then 1 else 0) + broadcast_jobs id js
broadcast_jobs id (_ ∷ js) = broadcast_jobs id js

abbrev pub is_row : ℕ → Transaction → Bool
is_row id t = t.id == id

abbrev pub pending_row : ℕ → Transaction → Bool
pending_row id t = t.id == id && is_pending t.status

-- The id names one row at most; the row's waits for a broadcast, its jobs in the queue and the requests
-- that hold a claim on it without a job yet, `held` in number, are one at most.
pub record QueuedOnce (id held : ℕ) (db : Db) : Type 0 where
  pub one_row : count_where (is_row id) db.transactions ≤ 1
  pub one_chance :
      count_where (pending_row id) db.transactions + broadcast_jobs id db.jobs + held ≤ 1

module _ (user id signed : ℕ) where
  abbrev pub claimed : Db → Db
  claimed db = record db {
    transactions = update_where (claimable user id) (set_status processing) db.transactions;
  }

  abbrev pub released : Db → Db
  released db = record db {
    transactions = update_where (releasable id) (set_status pending) db.transactions;
  }

  abbrev pub queued : Db → Db
  queued db = record db { jobs = process_transaction id signed ∷ db.jobs }

  pub claim_none :
      (db : Db)
      → find_where (claimable user id) db.transactions ≡ none
      → count_where (pending_row id) (claimed db).transactions
        ≡ count_where (pending_row id) db.transactions
  claim_none db missing = omega (
    arith,
    count_where-update_out (pending_row id) (claimable user id) (set_status processing)
        (λ a e. (ground arith, ground arith)) db.transactions,
    count_where-eq-zero_of_find (claimable user id) db.transactions missing,
  )

  claimed-one_row :
      (held : ℕ) (db : Db)
      → QueuedOnce id held db
      → count_where (is_row id) (claimed db).transactions ≤ 1
  claimed-one_row held db h = omega (
    arith,
    count_where-update_where (is_row id) (claimable user id) (set_status processing) (λ a. refl)
        db.transactions,
  )

  -- A claim that hits turns the wait of the row into a claim that is held.
  pub claimed-QueuedOnce :
      (held : ℕ) (t : Transaction) (db : Db)
      → QueuedOnce id held db
      → find_where (claimable user id) db.transactions ≡ some t
      → QueuedOnce id (1 + held) (claimed db)
  claimed-QueuedOnce held t db h found = record {
    one_row = claimed-one_row held db h;
    one_chance = omega (
      arith,
      count_where-update_out (pending_row id) (claimable user id) (set_status processing)
          (λ a e. (ground arith, ground arith)) db.transactions,
      count_where-pos_of_find (claimable user id) t db.transactions found,
    );
  }

  pub missed-QueuedOnce :
      (held : ℕ) (db : Db)
      → QueuedOnce id held db
      → find_where (claimable user id) db.transactions ≡ none
      → QueuedOnce id held (claimed db)
  missed-QueuedOnce held db h missing = record {
    one_row = claimed-one_row held db h;
    one_chance = omega (arith, claim_none db missing);
  }

  -- The job takes the place of the held claim, and so does the wait that a release makes.
  pub queued-QueuedOnce :
      (held : ℕ) (db : Db) → QueuedOnce id (1 + held) db → QueuedOnce id held (queued db)
  queued-QueuedOnce held db h = record {
    one_row = h.one_row;
    one_chance = ground (arith, h.one_chance, ==-refl id);
  }

  pub released-QueuedOnce :
      (held : ℕ) (db : Db) → QueuedOnce id (1 + held) db → QueuedOnce id held (released db)
  released-QueuedOnce held db h =
      let kept =
        count_where-update_where (is_row id) (releasable id) (set_status pending) (λ a. refl)
          db.transactions in
      let fewer =
        count_where_mono (pending_row id) (is_row id) (λ a e. ground arith)
          (released db).transactions in
      record {
        one_row = omega (arith, h.one_row, kept);
        one_chance = omega (arith, h.one_row, h.one_chance, kept, fewer);
      }
