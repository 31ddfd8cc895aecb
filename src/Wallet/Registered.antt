-- ===== src/Wallet/Registered.antt =====
-- What a registration leaves for each chain.
use mathlib.Core.Path.{subst}
use ulmara_backend.Common.{
  Bool, Bool-cases, List, Option-cases, Text, [], arith, false, find_where, find_where-update_where,
  find_where_sound, inl, inr, refl, some, sym, true, update_where, ℕ, ◌∙◌, ◌∷◌, ◌≡◌,
}
use ulmara_backend.World.{
  Chain, Db, Env, Result-cases, Wallet, base, bsc, btc, eth, ok, polygon, sol, ton, tron,
}
use ulmara_backend.Transfer.{same_chain}
use ulmara_backend.Transfer.Send.{is_wallet}
use ulmara_backend.Wallet.{
  check_addresses, has_entry, has_repeats, is_complete, is_entry, register_wallets, upsert_wallet,
  upsert_wallets, with_address,
}

same_chain_sound : (a b : Chain) → same_chain a b ≡ true → a ≡ b
same_chain_sound a b h = ground arith

-- An update of rows that a test does not meet, before or after, does not change what it finds.
find_where-update_where_other :
    {A : Type 0} (p q : A → Bool) (f : A → A)
    → ((a : A) → q a ≡ true → (p a ≡ false) × (p (f a) ≡ false))
    → (xs : List A) → find_where p (update_where q f xs) ≡ find_where p xs
unfolding find_where update_where
find_where-update_where_other p q f apart [] = refl
find_where-update_where_other p q f apart (x ∷ xs) =
    ground (arith, apart x, find_where-update_where_other p q f apart xs)

is_wallet_apart :
    (user : ℕ) (c d : Chain) (w : Wallet)
    → same_chain d c ≡ false
    → is_wallet user d w ≡ true
    → is_wallet user c w ≡ false
is_wallet_apart user c d w apart hit = ground arith

module _ (user : ℕ) (c : Chain) where
  upsert_wallet-same :
      (a : Text) (rows : List Wallet)
      → (w : Wallet) × (find_where (is_wallet user c) (upsert_wallet user c a rows) ≡ some w)
        × (w.address ≡ a)
  unfolding upsert_wallet find_where
  upsert_wallet-same a rows = elim (Option-cases (find_where (is_wallet user c) rows)) [
    | inl missing ↦ (record { user_id = user; chain = c; address = a }, ground arith, refl)
    | inr (w, found) ↦ (
      with_address a w,
      rw
          (
            found,
            find_where-update_where (is_wallet user c) (is_wallet user c) (with_address a)
                (λ v. refl) rows,
          )
          (ground (arith, find_where_sound (is_wallet user c) w rows found)),
      refl,
    )
  ]

  upsert_wallet-other :
      (d : Chain) (a : Text) (rows : List Wallet)
      → same_chain d c ≡ false
      → find_where (is_wallet user c) (upsert_wallet user d a rows)
        ≡ find_where (is_wallet user c) rows
  unfolding upsert_wallet find_where
  upsert_wallet-other d a rows apart = ground (
    arith,
    find_where-update_where_other (is_wallet user c) (is_wallet user d) (with_address a)
        (λ w hit. (
          is_wallet_apart user c d w apart hit,
          is_wallet_apart user c d (with_address a w) apart hit,
        ))
        rows,
  )

  upsert_wallets-absent :
      (xs : List (Chain × Text)) (rows : List Wallet)
      → has_entry xs c ≡ false
      → find_where (is_wallet user c) (upsert_wallets user xs rows)
        ≡ find_where (is_wallet user c) rows
  unfolding upsert_wallets find_where
  upsert_wallets-absent [] rows absent = refl
  upsert_wallets-absent ((d, a) ∷ xs) rows absent = elim (Bool-cases (same_chain d c)) [
    | inl same ↦ absurd (ground arith)
    | inr apart ↦
        upsert_wallets-absent xs (upsert_wallet user d a rows) (rw apart at absent)
        ∙ upsert_wallet-other d a rows apart
  ]

  upsert_wallets-held :
      (xs : List (Chain × Text)) (rows : List Wallet) (e : Chain × Text)
      → has_repeats xs ≡ false
      → find_where (is_entry c) xs ≡ some e
      → (w : Wallet) × (find_where (is_wallet user c) (upsert_wallets user xs rows) ≡ some w)
        × (w.address ≡ e.1)
  unfolding upsert_wallets find_where has_repeats
  upsert_wallets-held [] rows e distinct found = absurd (cc)
  upsert_wallets-held ((d, a) ∷ xs) rows e distinct found = elim (Bool-cases (same_chain d c)) [
    | inl same ↦
        let eq = same_chain_sound d c same in
        let absent : has_entry xs c ≡ false =
          subst (λ x. has_entry xs x ≡ false) eq (ground arith) in
        let (w, held, told) = upsert_wallet-same a rows in
        let first : find_where (is_wallet user c) (upsert_wallet user d a rows) ≡ some w =
          subst (λ x. find_where (is_wallet user c) (upsert_wallet user x a rows) ≡ some w) (sym eq)
            held in
        let named : a ≡ e.1 = ground arith in
        (w, upsert_wallets-absent xs (upsert_wallet user d a rows) absent ∙ first, told ∙ named)
    | inr apart ↦
        upsert_wallets-held xs (upsert_wallet user d a rows) e (ground arith) (rw apart at found)
  ]

check_addresses_sound :
    (env : Env) (c : Chain) (xs : List (Chain × Text)) (e : Chain × Text)
    → check_addresses env xs ≡ ok tt
    → find_where (is_entry c) xs ≡ some e
    → (e.0 ≡ c) × (env.is_valid_address e.0 e.1 ≡ true)
unfolding check_addresses find_where
check_addresses_sound env c [] e checked found = absurd (cc)
check_addresses_sound env c (x ∷ xs) e checked found = elim (Bool-cases (same_chain x.0 c)) [
  | inl same ↦
      let is_x : x ≡ e = ground arith in
      subst (λ y. (y.0 ≡ c) × (env.is_valid_address y.0 y.1 ≡ true)) is_x
        (same_chain_sound x.0 c same, ground arith)
  | inr apart ↦ check_addresses_sound env c xs e (ground arith) (rw apart at found)
]

complete-has_entry :
    (xs : List (Chain × Text)) → is_complete xs ≡ true → (c : Chain) → has_entry xs c ≡ true
complete-has_entry xs h ton = ground arith
complete-has_entry xs h bsc = ground arith
complete-has_entry xs h eth = ground arith
complete-has_entry xs h sol = ground arith
complete-has_entry xs h base = ground arith
complete-has_entry xs h polygon = ground arith
complete-has_entry xs h tron = ground arith
complete-has_entry xs h btc = ground arith

register_wallets_run :
    (env : Env) (user : ℕ) (addresses answer : List (Chain × Text)) (db db' : Db)
    → register_wallets env user addresses db ≡ (ok answer, db')
    → (has_repeats addresses ≡ false)
      × (check_addresses env addresses ≡ ok tt)
      × (is_complete addresses ≡ true)
      × (db'.wallets ≡ upsert_wallets user addresses db.wallets)
unfolding register_wallets
register_wallets_run env user addresses answer db db' e =
    elim (Result-cases (check_addresses env addresses)) [
      | inl (u, checked) ↦ (ground arith, checked, ground arith, ground arith)
      | inr (x, bad_one) ↦ absurd (ground arith)
    ]

-- A registration that answers leaves the user, for every supported chain, a wallet with the address
-- that was given for that chain, which the chain's adapter holds for a valid one.
pub register_wallets-registered :
    (env : Env) (user : ℕ) (addresses answer : List (Chain × Text)) (c : Chain) (db db' : Db)
    → register_wallets env user addresses db ≡ (ok answer, db')
    → (e : Chain × Text) × (w : Wallet) × (find_where (is_entry c) addresses ≡ some e)
      × ((e.0 ≡ c) × (env.is_valid_address e.0 e.1 ≡ true))
      × (find_where (is_wallet user c) db'.wallets ≡ some w)
      × (w.address ≡ e.1)
register_wallets-registered env user addresses answer c db db' run =
    let (distinct, checked, complete, written) =
      register_wallets_run env user addresses answer db db' run in
    elim (Option-cases (find_where (is_entry c) addresses)) [
      | inl missing ↦ absurd (let present = complete-has_entry addresses complete c in ground arith)
      | inr (e, given) ↦
          let (w, held, told) = upsert_wallets-held user c addresses db.wallets e distinct given in
          (
            e,
            w,
            given,
            check_addresses_sound env c addresses e checked given,
            subst (λ rows. find_where (is_wallet user c) rows ≡ some w) (sym written) held,
            told,
          )
    ]
