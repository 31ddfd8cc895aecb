-- ===== src/Wallet/Tests.antt =====
-- Runs of a registration on concrete addresses.
use ulmara_backend.Common.{List, Text, [], find_where, refl, some, true, ◌∷◌, ◌≡◌}
use ulmara_backend.World.{Chain, Wallet, base, bsc, btc, eth, polygon, sol, ton, tron}
use ulmara_backend.Sample.{address_a, amount_short, sample_db, sample_env}
use ulmara_backend.Transfer.Send.{is_wallet}
use ulmara_backend.Wallet.{check_addresses, has_repeats, is_entry, register_wallets}
use ulmara_backend.Wallet.Registered.{register_wallets-registered}

abbrev every_chain : List (Chain × Text)
every_chain =
    (ton, address_a)
    ∷ (bsc, address_a)
    ∷ (eth, amount_short)
    ∷ (sol, address_a)
    ∷ (base, address_a)
    ∷ (polygon, address_a)
    ∷ (tron, address_a)
    ∷ (btc, address_a)
    ∷ []

register_wallets-registered_example :
    (e : Chain × Text) × (w : Wallet) × (find_where (is_entry eth) every_chain ≡ some e)
    × ((e.0 ≡ eth) × (sample_env.is_valid_address e.0 e.1 ≡ true))
    × (find_where (is_wallet 1 eth) (register_wallets sample_env 1 every_chain sample_db).1.wallets
        ≡ some w)
    × (w.address ≡ e.1)
unfolding register_wallets has_repeats find_where check_addresses
register_wallets-registered_example =
    register_wallets-registered sample_env 1 every_chain every_chain eth sample_db
      (register_wallets sample_env 1 every_chain sample_db).1 refl
