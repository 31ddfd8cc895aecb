-- ===== src/Tokens/Tests.antt =====
-- Runs of the two token registries.
use ulmara_backend.Common.{find_where, none, refl, some, text, text_eq, trim, true, upper, ◌≡◌}
use ulmara_backend.World.{bsc}
use ulmara_backend.Tokens.{ChainIds, Lib, TokenConfig}
use ulmara_backend.Tokens.Spl.{
  SplToken, devnet, in_cluster, list_spl_tokens, load_spl_overrides, resolve_spl_token,
  same_cluster, seed_tokens, spl_token,
}

abbrev test_lib : Lib
test_lib = record { parse_json = λ t. none; integer_of = λ t. none; locale_before = λ a b. true }

abbrev test_ids : ChainIds
test_ids = record {
  ethereum_chain_id = 1;
  bsc_chain_id = none;
  base_chain_id = none;
  polygon_chain_id = none;
}

abbrev usdc : TokenConfig
usdc = record {
  symbol = text "USDC";
  name = text "Binance-Peg USD Coin";
  decimals = 18;
  address = text "0x8AC76a51cc950d9822D68b83fE1Ad97B32Cd580d";
  chain = bsc;
  chain_id = 56;
  verified = true;
}

abbrev devnet_usdc : SplToken
devnet_usdc = record {
  symbol = text "USDC";
  name = text "USD Coin";
  decimals = 6;
  address = text "4zMMC9srt5Ri5X14GAgXhaHii3GnPAEERYPJgZJDncDU";
  cluster = devnet;
  program = spl_token;
}

test_resolved_spl : resolve_spl_token test_lib none devnet none (text " usdc") ≡ some devnet_usdc
unfolding resolve_spl_token list_spl_tokens load_spl_overrides in_cluster seed_tokens same_cluster
    find_where upper trim text text_eq
test_resolved_spl = refl
