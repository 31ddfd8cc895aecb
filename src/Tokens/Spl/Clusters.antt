-- ===== src/Tokens/Spl/Clusters.antt =====
-- A token of the Solana registry is one of the cluster asked for.
use mathlib.Core.Path.{subst}
use ulmara_backend.Common.{
  All, All-append, All-find_where, Bool, Bool-cases, List, Option, Option-cases, Text, [], arith,
  eq_of_text_eq, find_where_sound, inl, inr, none, refl, some, text_eq, trim, true, upper, ◌∷◌, ◌≡◌,
}
use ulmara_backend.Json.{Items, Json, array, boolean, item, no_items, null, number, object, string}
use ulmara_backend.Tokens.{Lib}
use ulmara_backend.Tokens.Spl.{
  Cluster, SplToken, array_spl, devnet, in_cluster, list_spl_tokens, load_spl_overrides, mainnet,
  or_nothing, read_spl_entries, read_spl_entry, resolve_spl_token, same_cluster, seed_tokens,
}

abbrev IsOn : Cluster → SplToken → Type 0
IsOn cluster t = t.cluster ≡ cluster

eq_of_same_cluster : (a b : Cluster) → same_cluster a b ≡ true → a ≡ b
unfolding same_cluster
eq_of_same_cluster devnet devnet h = refl
eq_of_same_cluster devnet mainnet h = cc
eq_of_same_cluster mainnet devnet h = cc
eq_of_same_cluster mainnet mainnet h = refl

in_cluster-All :
    (cluster : Cluster) (ts : List SplToken) → All (IsOn cluster) (in_cluster cluster ts)
unfolding in_cluster
in_cluster-All cluster [] = tt
in_cluster-All cluster (t ∷ ts) = elim (Bool-cases (same_cluster t.cluster cluster)) [
  | inl same ↦ rw same (eq_of_same_cluster t.cluster cluster same, in_cluster-All cluster ts)
  | inr other ↦ rw other (in_cluster-All cluster ts)
]

read_spl_entry-IsOn :
    (lib : Lib) (cluster : Cluster) (e : Json) (t : SplToken)
    → read_spl_entry lib cluster e ≡ some t
    → IsOn cluster t
unfolding read_spl_entry
read_spl_entry-IsOn lib cluster e t h = ground arith

read_spl_entries-All :
    (lib : Lib) (cluster : Cluster) (xs : Items) (ts : List SplToken)
    → read_spl_entries lib cluster xs ≡ some ts
    → All (IsOn cluster) ts
unfolding read_spl_entries
read_spl_entries-All lib cluster no_items ts h =
    let empty : [] ≡ ts = ground arith in subst (All (IsOn cluster)) empty tt
read_spl_entries-All lib cluster (item e rest) ts h =
    elim (Option-cases (read_spl_entry lib cluster e)) [
      | inl bad ↦ absurd (ground arith)
      | inr (t, good) ↦ elim (Option-cases (read_spl_entries lib cluster rest)) [
        | inl bad ↦ absurd (ground arith)
        | inr (later, fine) ↦
            let same : t ∷ later ≡ ts = ground arith in
            subst (All (IsOn cluster)) same (
              read_spl_entry-IsOn lib cluster e t good,
              read_spl_entries-All lib cluster rest later fine,
            )
      ]
    ]

or_nothing-All :
    (cluster : Cluster) (o : Option (List SplToken))
    → ((ts : List SplToken) → o ≡ some ts → All (IsOn cluster) ts)
    → All (IsOn cluster) (or_nothing o)
or_nothing-All cluster none h = tt
or_nothing-All cluster (some ts) h = h ts refl

array_spl-All :
    (lib : Lib) (cluster : Cluster) (j : Option Json) → All (IsOn cluster) (array_spl lib cluster j)
unfolding array_spl
array_spl-All lib cluster none = tt
array_spl-All lib cluster (some (array xs)) =
    or_nothing-All cluster (read_spl_entries lib cluster xs) (read_spl_entries-All lib cluster xs)
array_spl-All lib cluster (some null) = tt
array_spl-All lib cluster (some (boolean b)) = tt
array_spl-All lib cluster (some (number n)) = tt
array_spl-All lib cluster (some (string s)) = tt
array_spl-All lib cluster (some (object fs)) = tt

load_spl_overrides-All :
    (lib : Lib) (setting : Option Text) (cluster : Cluster) (kept : Option (List SplToken))
    → All (IsOn cluster) (load_spl_overrides lib setting cluster kept).0
unfolding load_spl_overrides
load_spl_overrides-All lib setting cluster (some ts) = in_cluster-All cluster ts
load_spl_overrides-All lib none cluster none = tt
load_spl_overrides-All lib (some []) cluster none = tt
load_spl_overrides-All lib (some (c ∷ cs)) cluster none =
    array_spl-All lib cluster (lib.parse_json (c ∷ cs))

-- A token that is resolved is one of the cluster asked for, whatever SOLANA_SPL_TOKENS holds and for
-- whatever cluster the overrides were kept before, and has the symbol asked for up to case.
resolve_spl_token_sound :
    (lib : Lib) (setting : Option Text) (cluster : Cluster) (kept : Option (List SplToken))
    → (symbol : Text) (t : SplToken) → resolve_spl_token lib setting cluster kept symbol ≡ some t
    → (t.cluster ≡ cluster) × (upper t.symbol ≡ upper (trim symbol))
unfolding resolve_spl_token list_spl_tokens
resolve_spl_token_sound lib setting cluster kept symbol t h =
    let wanted : SplToken → Bool = λ u. text_eq (upper u.symbol) (upper (trim symbol)) in
    let listed = list_spl_tokens lib setting cluster kept in
    let loaded = load_spl_overrides lib setting cluster kept in
    let all =
      All-append (IsOn cluster) loaded.0 (in_cluster cluster seed_tokens)
        (load_spl_overrides-All lib setting cluster kept) (in_cluster-All cluster seed_tokens) in
    (
      All-find_where (IsOn cluster) wanted t listed all h,
      eq_of_text_eq (upper t.symbol) (upper (trim symbol)) (find_where_sound wanted t listed h),
    )
