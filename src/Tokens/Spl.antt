-- ===== src/Tokens/Spl.antt =====
-- src/chains/solana/tokens.ts: the tokens of the two Solana clusters, with the overrides of the setting
-- SOLANA_SPL_TOKENS, which is parsed once, for the cluster of that call, and kept.
pub mod Clusters
use ulmara_backend.Common.{
  Bool, List, Option, Text, [], contains, false, find_where, if◌then◌else◌, is_empty, leb, length,
  lower, none, some, text, text_eq, trim, true, upper, ℕ, ◌&&◌, ◌++◌, ◌||◌, ◌∷◌,
}
use ulmara_backend.World.{Result, coded, err, ok, ◌>>◌}
use ulmara_backend.Json.{Items, Json, array, item, member, no_items, number, string, text_at}
use ulmara_backend.Tokens.{Lib, ◌>>=◌}

pub data Cluster : Type 0 where
  devnet mainnet : Cluster

pub data TokenProgram : Type 0 where
  spl_token token_2022 : TokenProgram

pub record SplToken : Type 0 where
  pub symbol : Text
  pub name : Text
  pub decimals : ℕ
  pub address : Text
  pub cluster : Cluster
  pub program : TokenProgram

unfoldable pub same_cluster : Cluster → Cluster → Bool
same_cluster devnet devnet = true
same_cluster mainnet mainnet = true
same_cluster _ _ = false

-- `clusterFromRpcUrl`
unfoldable cluster_from_rpc_url : Option Text → Cluster
cluster_from_rpc_url none = devnet
cluster_from_rpc_url (some url) =
    if contains (text "devnet") (lower url)
    then devnet
    else if contains (text "mainnet") (lower url)
    then mainnet
    else devnet

-- `resolveSolanaCluster`
unfoldable resolve_solana_cluster : Option Cluster → Option Text → Cluster
resolve_solana_cluster none url = cluster_from_rpc_url url
resolve_solana_cluster (some c) url = c

-- `SEED_TOKENS`
unfoldable pub seed_tokens : List SplToken
seed_tokens =
    record {
      symbol = text "USDC";
      name = text "USD Coin";
      decimals = 6;
      address = text "4zMMC9srt5Ri5X14GAgXhaHii3GnPAEERYPJgZJDncDU";
      cluster = devnet;
      program = spl_token;
    }
    ∷ []

-- the characters of `/^[1-9A-HJ-NP-Za-km-z]{32,44}$/`
abbrev is_base58 : ℕ → Bool
is_base58 c =
    (leb b'1' c && leb c b'9')
    || ((leb b'A' c && leb c b'H')
        || ((leb b'J' c && leb c b'N')
            || ((leb b'P' c && leb c b'Z')
                || ((leb b'a' c && leb c b'k') || (leb b'm' c && leb c b'z')))))

unfoldable pub all_base58 : Text → Bool
all_base58 [] = true
all_base58 (c ∷ cs) = is_base58 c && all_base58 cs

unfoldable pub is_mint_address : Text → Bool
is_mint_address t = leb 32 (length t) && (leb (length t) 44 && all_base58 t)

-- `z.string().trim().min(1).max(n)`
unfoldable pub trimmed_upto : ℕ → Option Text → Option Text
trimmed_upto n found = do
  t ← found
  if leb 1 (length (trim t)) && leb (length (trim t)) n then some (trim t) else none

-- `z.number().int().min(0).max(18)`
unfoldable pub decimals_of : Lib → Option Json → Option ℕ
decimals_of lib (some (number t)) = lib.integer_of t >>= λ d. if leb d 18 then some d else none
decimals_of lib _ = none

-- `z.string().trim().regex(...)`
unfoldable pub mint_of : Option Text → Option Text
mint_of found = found >>= λ t. if is_mint_address (trim t) then some (trim t) else none

-- `z.enum(["spl-token", "token-2022"]).default("spl-token")`
unfoldable pub program_of : Option Json → Option TokenProgram
program_of none = some spl_token
program_of (some (string t)) =
    if text_eq t (text "spl-token")
    then some spl_token
    else if text_eq t (text "token-2022")
    then some token_2022
    else none
program_of (some _) = none

-- `overrideEntrySchema` on one entry, with the cluster added
unfoldable pub read_spl_entry : Lib → Cluster → Json → Option SplToken
read_spl_entry lib cluster e = do
  symbol ← trimmed_upto 20 (text_at (text "symbol") e)
  name ← trimmed_upto 80 (text_at (text "name") e)
  decimals ← decimals_of lib (member (text "decimals") e)
  address ← mint_of (text_at (text "address") e)
  program ← program_of (member (text "program") e)
  some (record {
    symbol = symbol;
    name = name;
    decimals = decimals;
    address = address;
    cluster = cluster;
    program = program;
  })

-- `z.array(overrideEntrySchema).parse`: one bad entry fails the whole array
unfoldable pub read_spl_entries : Lib → Cluster → Items → Option (List SplToken)
read_spl_entries lib cluster no_items = some []
read_spl_entries lib cluster (item e rest) =
    let later = read_spl_entries lib cluster rest in
    read_spl_entry lib cluster e >>= λ t. later >>= λ ts. some (t ∷ ts)

abbrev pub or_nothing : Option (List SplToken) → List SplToken
or_nothing none = []
or_nothing (some ts) = ts

unfoldable pub array_spl : Lib → Cluster → Option Json → List SplToken
array_spl lib cluster (some (array xs)) = or_nothing (read_spl_entries lib cluster xs)
array_spl lib cluster _ = []

unfoldable pub in_cluster : Cluster → List SplToken → List SplToken
in_cluster cluster [] = []
in_cluster cluster (t ∷ ts) =
    let rest = in_cluster cluster ts in if same_cluster t.cluster cluster then t ∷ rest else rest

-- `loadOverrides`: what it returns, and the module's `overrides` after it
unfoldable pub load_spl_overrides :
    Lib → (setting : Option Text) → Cluster → Option (List SplToken) → List SplToken × List SplToken
load_spl_overrides lib setting cluster (some kept) = (in_cluster cluster kept, kept)
load_spl_overrides lib none cluster none = ([], [])
load_spl_overrides lib (some []) cluster none = ([], [])
load_spl_overrides lib (some (c ∷ cs)) cluster none =
    let read = array_spl lib cluster (lib.parse_json (c ∷ cs)) in (read, read)

-- `listSplTokens`
unfoldable pub list_spl_tokens :
    Lib → Option Text → Cluster → Option (List SplToken) → List SplToken
list_spl_tokens lib setting cluster kept =
    (load_spl_overrides lib setting cluster kept).0 ++ in_cluster cluster seed_tokens

-- `resolveSplToken`
unfoldable pub resolve_spl_token :
    Lib → Option Text → Cluster → Option (List SplToken) → Text → Option SplToken
resolve_spl_token lib setting cluster kept symbol =
    find_where (λ (t : SplToken). text_eq (upper t.symbol) (upper (trim symbol)))
      (list_spl_tokens lib setting cluster kept)

-- `map((t) => t.symbol).join(", ")`
unfoldable join_spl : List SplToken → Text
join_spl [] = []
join_spl (t ∷ ts) = elim ts [ [] ↦ t.symbol | _ ∷ _ ↦ t.symbol ++ (text ", " ++ join_spl ts) ]

abbrev cluster_name : Cluster → Text
cluster_name devnet = text "devnet"
cluster_name mainnet = text "mainnet"

abbrev or_none_text : Text → Text
or_none_text t = if is_empty t then text "none" else t

-- `requireSplToken`
unfoldable require_spl_token :
    Lib → Option Text → Cluster → Option (List SplToken) → Text → Result SplToken
require_spl_token lib setting cluster kept symbol =
    elim (resolve_spl_token lib setting cluster kept symbol) [
      | some t ↦ ok t
      | none ↦ err (
          coded 400 (
            text "Unsupported SPL token: "
            ++ (symbol
                ++ (text ". Configured on "
                    ++ (cluster_name cluster
                        ++ (text ": "
                            ++ or_none_text
                                (join_spl (list_spl_tokens lib setting cluster kept))))))))
    ]
