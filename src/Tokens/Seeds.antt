-- ===== src/Tokens/Seeds.antt =====
-- The built-in tokens of src/chains/tokens/registry.ts, and the list of a chain's tokens.
use ulmara_backend.Common.{
  Bool, List, Option, Text, [], find_where, if◌then◌else◌, is_some, none, show_ℕ, some, text,
  text_eq, true, upper, ℕ, ◌&&◌, ◌++◌, ◌==◌, ◌∷◌,
}
use ulmara_backend.World.{Chain, Result, base, bsc, coded, err, eth, ok, polygon, ⊤}
use ulmara_backend.Json.{non_empty}
use ulmara_backend.Tokens.{
  ChainIds, Lib, TokenConfig, TokenOverride, apply_overrides, by_symbol, get_evm_chain_id,
  sort_tokens,
}
use ulmara_backend.Transfer.{chain_name}

abbrev seed : Chain → ℕ → (symbol name address : Text) → (decimals : ℕ) → TokenConfig
seed chain id symbol name address decimals = record {
  symbol = symbol;
  name = name;
  decimals = decimals;
  address = address;
  chain = chain;
  chain_id = id;
  verified = true;
}

-- `SEEDS`
unfoldable pub seeds : List TokenConfig
seeds =
    seed eth 1 (text "USDC") (text "USD Coin") (text "0xA0b86991c6218b36c1d19D4a2e9Eb0cE3606eB48") 6
    ∷ seed eth 1 (text "USDT") (text "Tether USD")
        (text "0xdAC17F958D2ee523a2206206994597C13D831ec7") 6
    ∷ seed eth 11155111 (text "USDC") (text "USD Coin")
        (text "0x1c7D4B196Cb0C7B01d743Fbc6116a902379C7238") 6
    ∷ seed bsc 56 (text "USDT") (text "Binance-Peg Tether USD")
        (text "0x55d398326f99059fF775485246999027B3197955") 18
    ∷ seed bsc 56 (text "USDC") (text "Binance-Peg USD Coin")
        (text "0x8AC76a51cc950d9822D68b83fE1Ad97B32Cd580d") 18
    ∷ seed base 8453 (text "USDC") (text "USD Coin")
        (text "0x833589fCD6eDb6E08f4c7C32D4f71b54bdA02913") 6
    ∷ seed base 84532 (text "USDC") (text "USD Coin")
        (text "0x036CbD53842c5426634e7929541eC2318f3dCF7e") 6
    ∷ seed polygon 137 (text "USDC") (text "USD Coin")
        (text "0x3c499c542cEF5E3811e1192ce70d8cC03d5c3359") 6
    ∷ seed polygon 80002 (text "USDC") (text "USD Coin")
        (text "0x41E94Eb019C0762f9Bfcf9Fb1E58725BfB0e7582") 6
    ∷ []

abbrev same_chain : Chain → Chain → Bool
same_chain a b = text_eq (chain_name a) (chain_name b)

-- the filter of `listTokens`
abbrev pub is_seed_of : Chain → ℕ → TokenConfig → Bool
is_seed_of chain id t = same_chain t.chain chain && t.chain_id == id

unfoldable pub filter_seeds : Chain → ℕ → List TokenConfig → List TokenConfig
filter_seeds chain id [] = []
filter_seeds chain id (t ∷ ts) =
    let rest = filter_seeds chain id ts in
    let shown : TokenConfig = record t { chain = chain; chain_id = id } in
    if is_seed_of chain id t then shown ∷ rest else rest

-- `listTokens` on the network with the given id
unfoldable pub list_tokens_of : Lib → Chain → ℕ → List TokenOverride → List TokenConfig
list_tokens_of lib chain id overrides =
    sort_tokens lib
      (by_symbol [] (filter_seeds chain id seeds ++ apply_overrides chain id overrides))

-- `chainIdOverride ?? getEvmChainId(chain)`
unfoldable pub network_of : ChainIds → Chain → Option ℕ → Result ℕ
network_of ids chain none = get_evm_chain_id ids chain
network_of ids chain (some id) = ok id

unfoldable pub tokens_on : Lib → List TokenOverride → Chain → Result ℕ → List TokenConfig
tokens_on lib overrides chain (err e) = []
tokens_on lib overrides chain (ok id) = list_tokens_of lib chain id overrides

-- `listTokens`; what is not an EVM chain has none
unfoldable pub list_tokens :
    Lib → ChainIds → List TokenOverride → Chain → Option ℕ → List TokenConfig
list_tokens lib ids overrides chain chosen =
    tokens_on lib overrides chain (network_of ids chain chosen)

-- `resolveToken`
unfoldable pub resolve_token :
    Lib → ChainIds → List TokenOverride → Chain → Option Text → Option ℕ → Option TokenConfig
resolve_token lib ids overrides chain asset chosen = elim (non_empty asset) [
  | none ↦ none
  | some a ↦
      find_where (λ (t : TokenConfig). text_eq t.symbol (upper a))
        (list_tokens lib ids overrides chain chosen)
]

-- `isTokenAsset`
unfoldable is_token_asset : Lib → ChainIds → List TokenOverride → Chain → Text → Option ℕ → Bool
is_token_asset lib ids overrides chain asset chosen =
    is_some (resolve_token lib ids overrides chain (some asset) chosen)

-- `join(", ")` of the symbols
unfoldable join_symbols : List TokenConfig → Text
join_symbols [] = []
join_symbols (t ∷ ts) = elim ts [
  | [] ↦ t.symbol
  | _ ∷ _ ↦ t.symbol ++ (text ", " ++ join_symbols ts)
]

abbrev hint : Chain → List TokenConfig → Text
hint chain [] = []
hint chain (t ∷ ts) =
    text " Supported on "
    ++ (chain_name chain ++ (text ": " ++ (join_symbols (t ∷ ts) ++ text ".")))

-- `requireToken`
unfoldable require_token :
    Lib → ChainIds → List TokenOverride → Chain → Text → Option ℕ → Result TokenConfig
require_token lib ids overrides chain asset chosen =
    elim (resolve_token lib ids overrides chain (some asset) chosen) [
      | some t ↦ ok t
      | none ↦ err (
          coded 400 (
            asset
            ++ (text " is not a supported token on "
                ++ (chain_name chain
                    ++ (text "." ++ hint chain (list_tokens lib ids overrides chain chosen))))))
    ]

-- `assertTokenMatchesNetwork`
unfoldable pub assert_token_matches_network : TokenConfig → (expected : ℕ) → Result ⊤
assert_token_matches_network t expected =
    if t.chain_id == expected
    then ok tt
    else err (
        coded 500 (
          t.symbol
          ++ (text " on "
              ++ (chain_name t.chain
                  ++ (text " is configured for chain id "
                      ++ (show_ℕ t.chain_id
                          ++ (text ", but this deployment is running chain id "
                              ++ show_ℕ expected)))))))
