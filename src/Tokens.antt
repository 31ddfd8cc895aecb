-- ===== src/Tokens.antt =====
-- src/chains/tokens/registry.ts: the ERC-20 tokens of the four EVM chains, with the overrides of the
-- setting ERC20_TOKEN_CONFIG, which is parsed once and kept. `JSON.parse` and `localeCompare` are
-- parameters, and so is the reading of a number as an integer. A number of decimals is natural, and a
-- network id of an override is compared as an integer. Warnings in the log are left out.
pub mod Seeds
pub mod Resolved
pub mod Spl
mod Tests
use ulmara_backend.Common.{
  Bool, List, Option, Text, [], false, if◌then◌else◌, is_digit, is_id, leb, length, none, some,
  text, text_eq, true, upper, ℕ, ◌&&◌, ◌++◌, ◌==◌, ◌||◌, ◌∷◌,
}
use ulmara_backend.World.{Chain, Result, base, bsc, coded, err, eth, ok, polygon, ◌>>◌}
use ulmara_backend.Json.{Items, Json, array, item, member, no_items, number, text_at}
use ulmara_backend.Transfer.{chain_name}

pub record TokenConfig : Type 0 where
  pub symbol : Text
  pub name : Text
  pub decimals : ℕ
  pub address : Text
  pub chain : Chain
  pub chain_id : ℕ
  pub verified : Bool

-- `TokenOverride`; an entry's chain id is missing, an integer, or a value that equals none
pub record TokenOverride : Type 0 where
  pub chain : Text
  pub chain_id : Option (Option ℕ)
  pub symbol : Text
  pub name : Option Text
  pub address : Text
  pub decimals : ℕ

pub record Lib : Type 0 where
  pub parse_json : Text → Option Json
  pub integer_of : Text → Option ℕ
  pub locale_before : Text → Text → Bool

-- the settings of the networks (src/config/env.ts)
pub record ChainIds : Type 0 where
  pub ethereum_chain_id : ℕ
  pub bsc_chain_id : Option ℕ
  pub base_chain_id : Option ℕ
  pub polygon_chain_id : Option ℕ

abbrev id_or : ℕ → Option ℕ → ℕ
id_or n none = n
id_or n (some i) = i

-- `getEvmChainId`
unfoldable pub get_evm_chain_id : ChainIds → Chain → Result ℕ
get_evm_chain_id ids eth = ok ids.ethereum_chain_id
get_evm_chain_id ids bsc = ok (id_or 56 ids.bsc_chain_id)
get_evm_chain_id ids base = ok (id_or 8453 ids.base_chain_id)
get_evm_chain_id ids polygon = ok (id_or 137 ids.polygon_chain_id)
get_evm_chain_id ids chain = err (coded 400 (text "Not an EVM chain: " ++ chain_name chain))

abbrev is_hex : ℕ → Bool
is_hex c = is_digit c || ((leb b'a' c && leb c b'f') || (leb b'A' c && leb c b'F'))

unfoldable pub all_hex : Text → Bool
all_hex [] = true
all_hex (c ∷ cs) = is_hex c && all_hex cs

-- `/^0x[0-9a-fA-F]{40}$/`
unfoldable pub is_hex_address : Text → Bool
is_hex_address (z ∷ x ∷ cs) = z == b'0' && (x == b'x' && (length cs == 40 && all_hex cs))
is_hex_address _ = false

abbrev integer_at : Lib → Option Json → Option ℕ
integer_at lib (some (number t)) = lib.integer_of t
integer_at lib _ = none

-- `entry.chainId === undefined`, or the value
abbrev id_at : Lib → Option Json → Option (Option ℕ)
id_at lib none = none
id_at lib v = some (integer_at lib v)

infixl 5 ◌>>=◌
abbrev pub ◌>>=◌ : {A B : Type 0} → Option A → (A → Option B) → Option B
none >>= f = none
some a >>= f = f a

-- The filter of `loadOverrides` on one entry, and the entry that it keeps.
unfoldable pub read_override : Lib → Json → Option TokenOverride
read_override lib e = do
  chain ← text_at (text "chain") e
  symbol ← text_at (text "symbol") e
  address ← text_at (text "address") e
  decimals ← integer_at lib (member (text "decimals") e)
  let kept : TokenOverride = record {
    chain = chain;
    chain_id = id_at lib (member (text "chainId") e);
    symbol = symbol;
    name = text_at (text "name") e;
    address = address;
    decimals = decimals;
  }
  if is_hex_address address then some kept else none

abbrev pub keep_override : Option TokenOverride → List TokenOverride → List TokenOverride
keep_override none later = later
keep_override (some o) later = o ∷ later

unfoldable pub read_overrides : Lib → Items → List TokenOverride
read_overrides lib no_items = []
read_overrides lib (item e rest) = keep_override (read_override lib e) (read_overrides lib rest)

-- a text that is no JSON array counts as no override
unfoldable pub array_overrides : Lib → Option Json → List TokenOverride
array_overrides lib (some (array xs)) = read_overrides lib xs
array_overrides lib _ = []

-- what `loadOverrides` keeps of the setting
unfoldable pub parse_overrides : Lib → Option Text → List TokenOverride
parse_overrides lib none = []
parse_overrides lib (some []) = []
parse_overrides lib (some (c ∷ cs)) = array_overrides lib (lib.parse_json (c ∷ cs))

-- `loadOverrides`, with the module's `overrides` as it is kept before
unfoldable pub load_overrides : Lib → Option Text → Option (List TokenOverride) → List TokenOverride
load_overrides lib setting none = parse_overrides lib setting
load_overrides lib setting (some kept) = kept

-- the condition on `entry.chainId`
abbrev pub is_for : ℕ → Option (Option ℕ) → Bool
is_for id none = true
is_for id (some v) = is_id v id

abbrev name_or : Text → Option Text → Text
name_or t none = t
name_or t (some n) = n

-- `applyOverrides`
unfoldable pub apply_overrides : Chain → (chain_id : ℕ) → List TokenOverride → List TokenConfig
apply_overrides chain id [] = []
apply_overrides chain id (o ∷ rest) =
    let later = apply_overrides chain id rest in
    let shown : TokenConfig = record {
      symbol = upper o.symbol;
      name = name_or (upper o.symbol) o.name;
      decimals = o.decimals;
      address = o.address;
      chain = chain;
      chain_id = id;
      verified = false;
    } in
    if text_eq (upper o.chain) (chain_name chain) && is_for id o.chain_id
    then shown ∷ later
    else later

-- `bySymbol.set(token.symbol, token)`: a key that is there keeps its place
unfoldable pub set_symbol : TokenConfig → List TokenConfig → List TokenConfig
set_symbol t [] = t ∷ []
set_symbol t (u ∷ us) =
    let rest = set_symbol t us in if text_eq u.symbol t.symbol then t ∷ us else u ∷ rest

-- the loop that fills `bySymbol`
unfoldable pub by_symbol : List TokenConfig → List TokenConfig → List TokenConfig
by_symbol seen [] = seen
by_symbol seen (t ∷ ts) = by_symbol (set_symbol t seen) ts

unfoldable pub insert_token : Lib → TokenConfig → List TokenConfig → List TokenConfig
insert_token lib t [] = t ∷ []
insert_token lib t (u ∷ us) =
    let rest = insert_token lib t us in
    if lib.locale_before u.symbol t.symbol then u ∷ rest else t ∷ u ∷ us

-- `sort((a, b) => a.symbol.localeCompare(b.symbol))`
unfoldable pub sort_tokens : Lib → List TokenConfig → List TokenConfig
sort_tokens lib [] = []
sort_tokens lib (t ∷ ts) = insert_token lib t (sort_tokens lib ts)
