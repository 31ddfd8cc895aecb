-- ===== src/Account.antt =====
-- src/services/account/account.service.ts: the account id of a user and its resolution. The random
-- candidates are a parameter; profiles and settings are left out.
pub mod Ids
mod Tests
use ulmara_backend.Common.{
  Bool, exists_where, find_where, if◌then◌else◌, suc, text, zero, ℕ, ◌==◌, ◌||◌, ◌∷◌,
}
use ulmara_backend.World.{
  AccountRow, Env, M, await_others, coded, err, gets, http, ok, or_throw, pure, throw_if,
  unique_violation, ◌>>=◌, ◌>>◌,
}

abbrev pub has_account : ℕ → AccountRow → Bool
has_account account row = row.account_id == account

abbrev pub is_owner : ℕ → AccountRow → Bool
is_owner user row = row.user_id == user

-- `prisma.accountId.create`: the account id and the user are unique in the table.
unfoldable pub insert_account : (account user : ℕ) → M AccountRow
insert_account account user db =
    let row : AccountRow = record { account_id = account; user_id = user } in
    if exists_where (has_account account) db.account_ids
      || exists_where (is_owner user) db.account_ids
    then (err unique_violation, db)
    else (ok row, record db { account_ids = row ∷ db.account_ids })

-- The loop over the attempts; other requests run between the test of a candidate and its insert.
unfoldable pub try_candidates : Env → (attempts user : ℕ) → M AccountRow
try_candidates env zero user db =
    (err (http 500 (text "Could not generate a unique Account ID, try again")), db)
try_candidates env (suc n) user db =
    let rest = try_candidates env n user db in
    let candidate = env.account_candidate n in
    let insert : M AccountRow = await_others env n >> insert_account candidate user in
    if exists_where (has_account candidate) db.account_ids then rest else insert db

-- `createAccountId`
unfoldable pub create_account_id : Env → (user : ℕ) → M AccountRow
create_account_id env user db =
    if exists_where (is_owner user) db.account_ids
    then (err (coded 409 (text "Account ID already created")), db)
    else try_candidates env 5 user db

-- `getByAccountId`, of which the row is kept
unfoldable pub get_by_account_id : ℕ → M AccountRow
get_by_account_id account = do
  found ← gets (λ db. find_where (has_account account) db.account_ids)
  or_throw found (coded 404 (text "Account ID not found"))

-- `resolveForTransfer`
unfoldable pub resolve_for_transfer : (user account : ℕ) → M AccountRow
resolve_for_transfer user account = do
  row ← get_by_account_id account
  throw_if (row.user_id == user)
      (coded 400 (text "Cannot resolve your own Account ID for transfer"))
  pure row
