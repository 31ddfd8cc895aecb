-- ===== src/Account/Ids.antt =====
-- Account ids: each names one user, and each user has one.
use ulmara_backend.Common.{
  Bool-cases, arith, count_where, count_where-eq-zero_of_find, exists_where, false, find_where, inl,
  inr, some, suc, zero, ℕ, ◌==◌, ◌∷◌, ◌≡◌, ◌≤◌,
}
use ulmara_backend.World.{AccountRow, Db, Env, Result, ok}
use ulmara_backend.Account.{
  create_account_id, get_by_account_id, has_account, insert_account, is_owner, resolve_for_transfer,
  try_candidates,
}

abbrev IsOneToOne : Db → Type 0
IsOneToOne db =
    ((account : ℕ) → count_where (has_account account) db.account_ids ≤ 1)
    × ((user : ℕ) → count_where (is_owner user) db.account_ids ≤ 1)

insert_account-IsOneToOne :
    (account user : ℕ) (db : Db) → IsOneToOne db → IsOneToOne (insert_account account user db).1
unfolding insert_account count_where
insert_account-IsOneToOne account user db h = (
  λ a. ground (arith, h.0 a, count_where-eq-zero_of_find (has_account account) db.account_ids),
  λ u. ground (arith, h.1 u, count_where-eq-zero_of_find (is_owner user) db.account_ids),
)

try_candidates-IsOneToOne :
    (env : Env)
    → ((k : ℕ) (db : Db) → IsOneToOne db → IsOneToOne (env.others k db))
    → (n user : ℕ) (db : Db) → IsOneToOne db
    → IsOneToOne (try_candidates env n user db).1
unfolding try_candidates
try_candidates-IsOneToOne env keep zero user db h = h
try_candidates-IsOneToOne env keep (suc n) user db h =
    elim (Bool-cases (exists_where (has_account (env.account_candidate n)) db.account_ids)) [
      | inl taken ↦ rw taken (try_candidates-IsOneToOne env keep n user db h)
      | inr free ↦
          rw free (
            insert_account-IsOneToOne (env.account_candidate n) user (env.others n db)
              (keep n db h))
    ]

-- Whatever other requests do, as long as they keep it, creating an account id keeps each account id
-- with one user and each user with one account id.
create_account_id-IsOneToOne :
    (env : Env)
    → ((k : ℕ) (db : Db) → IsOneToOne db → IsOneToOne (env.others k db))
    → (user : ℕ) (db : Db) → IsOneToOne db
    → IsOneToOne (create_account_id env user db).1
unfolding create_account_id
create_account_id-IsOneToOne env keep user db h =
    elim (Bool-cases (exists_where (is_owner user) db.account_ids)) [
      | inl has ↦ rw has h
      | inr new ↦ rw new (try_candidates-IsOneToOne env keep 5 user db h)
    ]

-- A created row is found under its account id, and it is the user's.
abbrev IsFound : ℕ → AccountRow → Db → Type 0
IsFound user row after =
    (row.user_id ≡ user) × (find_where (has_account row.account_id) after.account_ids ≡ some row)

insert_account-IsFound :
    (account user : ℕ) (row : AccountRow) (db : Db)
    → (insert_account account user db).0 ≡ ok row
    → IsFound user row (insert_account account user db).1
unfolding insert_account find_where
insert_account-IsFound account user row db e = (ground arith, ground arith)

try_candidates-IsFound :
    (env : Env) (n user : ℕ) (row : AccountRow) (db : Db)
    → (try_candidates env n user db).0 ≡ ok row
    → IsFound user row (try_candidates env n user db).1
unfolding try_candidates
try_candidates-IsFound env zero user row db e = absurd (ground arith)
try_candidates-IsFound env (suc n) user row db e =
    elim (Bool-cases (exists_where (has_account (env.account_candidate n)) db.account_ids)) [
      | inl taken ↦ rw taken (try_candidates-IsFound env n user row db (rw taken at e))
      | inr free ↦ rw free (
          insert_account-IsFound (env.account_candidate n) user row (env.others n db)
            (rw free at e))
    ]

create_account_id-IsFound :
    (env : Env) (user : ℕ) (row : AccountRow) (db : Db)
    → (create_account_id env user db).0 ≡ ok row
    → IsFound user row (create_account_id env user db).1
unfolding create_account_id
create_account_id-IsFound env user row db e =
    elim (Bool-cases (exists_where (is_owner user) db.account_ids)) [
      | inl has ↦ absurd (ground arith)
      | inr new ↦ rw new (try_candidates-IsFound env 5 user row db (rw new at e))
    ]

-- An account id that was created resolves, for another user, to the row of the user that created it.
create_account_id-resolves :
    (env : Env) (user other : ℕ) (row : AccountRow) (db : Db)
    → (create_account_id env user db).0 ≡ ok row
    → (user == other) ≡ false
    → (row.user_id ≡ user)
      × (resolve_for_transfer other row.account_id (create_account_id env user db).1
          ≡ (ok row, (create_account_id env user db).1))
unfolding resolve_for_transfer get_by_account_id
create_account_id-resolves env user other row db e apart =
    let (own, found) = create_account_id-IsFound env user row db e in (own, ground arith)

module _ (env : Env) (quiet : (k : ℕ) (d : Db) → env.others k d ≡ d) (user : ℕ) (db : Db)
    (new : exists_where (is_owner user) db.account_ids ≡ false) where
  abbrev Creates : Result AccountRow × Db → Type 0
  Creates run =
      (j : ℕ) × (exists_where (λ a. a.account_id == env.account_candidate j) db.account_ids ≡ false)
      × (run.0 ≡ ok (record { account_id = env.account_candidate j; user_id = user }))
      × (run.1.account_ids
          ≡ record { account_id = env.account_candidate j; user_id = user } ∷ db.account_ids)
