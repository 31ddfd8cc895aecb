-- ===== src/Wallet.antt =====
-- src/services/wallet/wallet.service.ts: the registration of a user's addresses. A chain's type has
-- only the supported chains. Balances and other reads are left out.
pub mod Registered
mod Tests
use ulmara_backend.Common.{
  Bool, List, Text, [], exists_where, false, if◌then◌else◌, not, text, update_where, ℕ, ◌&&◌, ◌++◌,
  ◌||◌, ◌∷◌,
}
use ulmara_backend.World.{
  Chain, Env, M, Result, Wallet, base, bsc, btc, coded, err, eth, lift, modify, ok, polygon, pure,
  sol, throw_if, ton, tron, ⊤, ◌>>=◌, ◌>>◌,
}
use ulmara_backend.Transfer.{chain_name, same_chain}
use ulmara_backend.Transfer.Send.{is_wallet}

abbrev pub is_entry : Chain → Chain × Text → Bool
is_entry c (chain, address) = same_chain chain c

-- `new Set(chains).size !== addresses.length`
unfoldable pub has_repeats : List (Chain × Text) → Bool
has_repeats [] = false
has_repeats (x ∷ xs) = exists_where (is_entry x.0) xs || has_repeats xs

-- the loop over the adapters' checks
unfoldable pub check_addresses : Env → List (Chain × Text) → Result ⊤
check_addresses env [] = ok tt
check_addresses env (x ∷ xs) =
    let rest = check_addresses env xs in
    if env.is_valid_address x.0 x.1
    then rest
    else err (coded 400 (text "Invalid " ++ (chain_name x.0 ++ text " wallet address")))

abbrev pub has_entry : List (Chain × Text) → Chain → Bool
has_entry xs c = exists_where (is_entry c) xs

-- no required chain is missing
abbrev pub is_complete : List (Chain × Text) → Bool
is_complete xs =
    has_entry xs ton
    && (has_entry xs bsc
        && (has_entry xs eth
            && (has_entry xs sol
                && (has_entry xs base
                    && (has_entry xs polygon && (has_entry xs tron && has_entry xs btc))))))

abbrev pub with_address : Text → Wallet → Wallet
with_address a w = record w { address = a }

-- `prisma.wallet.upsert`
unfoldable pub upsert_wallet : (user : ℕ) → Chain → Text → List Wallet → List Wallet
upsert_wallet user chain address rows =
    if exists_where (is_wallet user chain) rows
    then update_where (is_wallet user chain) (with_address address) rows
    else record { user_id = user; chain = chain; address = address } ∷ rows

unfoldable pub upsert_wallets : (user : ℕ) → List (Chain × Text) → List Wallet → List Wallet
upsert_wallets user [] rows = rows
upsert_wallets user (x ∷ xs) rows = upsert_wallets user xs (upsert_wallet user x.0 x.1 rows)

-- `registerWallets`
unfoldable pub register_wallets : Env → (user : ℕ) → List (Chain × Text) → M (List (Chain × Text))
register_wallets env user addresses = do
  throw_if (has_repeats addresses) (coded 400 (text "Only one wallet per chain may be registered"))
  lift (check_addresses env addresses)
  throw_if (not (is_complete addresses))
      (coded 400 (text "Missing address(es) for required chain(s)"))
  modify (λ db. record db { wallets = upsert_wallets user addresses db.wallets })
  pure addresses
