-- ===== src/Common/Tables.antt =====
-- Tables of a database as lists of rows, the newest row first, with the operations of the client
-- that the services call: findUnique and findFirst, updateMany, deleteMany, and a count.
use Prim.Native.Nat.{ℕ, ◌+◌, ◌≤◌, ◌<◌}
use mathlib.Core.Path.{◌≡◌, refl, subst}
use mathlib.Core.Bool.{Bool, true, false}
use mathlib.Core.Logic.{inl, inr}
use mathlib.Core.Option
use mathlib.Core.Option.{Option, none, some}
use mathlib.Core.List.{List, [], ◌∷◌, ◌++◌}
use native.Mathlib.Omega.{arith}
use ulmara_backend.Common.Tests.{if◌then◌else◌, is_some, Bool-cases}

module _ {ℓ} {A : Type ℓ} where
  unfoldable pub find_where : (A → Bool) → List A → Option A
  find_where p [] = none
  find_where p (x ∷ xs) = if p x then some x else find_where p xs

  unfoldable pub update_where : (A → Bool) → (A → A) → List A → List A
  update_where p f [] = []
  update_where p f (x ∷ xs) = (if p x then f x else x) ∷ update_where p f xs

  unfoldable pub delete_where : (A → Bool) → List A → List A
  delete_where p [] = []
  delete_where p (x ∷ xs) = let rest = delete_where p xs in if p x then rest else x ∷ rest

  -- how many rows match
  unfoldable pub count_where : (A → Bool) → List A → ℕ
  count_where p [] = 0
  count_where p (x ∷ xs) = (if p x then 1 else 0) + count_where p xs

  abbrev pub exists_where : (A → Bool) → List A → Bool
  exists_where p xs = is_some (find_where p xs)

  -- `P` holds of every row.
  abbrev pub All {κ} : (A → Type κ) → List A → Type κ
  All P [] = Unit
  All P (x ∷ xs) = P x × All P xs

  -- An update that keeps a key is found under that key.
  pub find_where-update_where :
      (p q : A → Bool) (f : A → A)
      → ((a : A) → p (f a) ≡ p a)
      → (xs : List A)
      → find_where p (update_where q f xs)
        ≡ Option.map (λ a. if q a then f a else a) (find_where p xs)
  unfolding find_where update_where
  find_where-update_where p q f keeps [] = refl
  find_where-update_where p q f keeps (x ∷ xs) =
      ground (arith, keeps x, find_where-update_where p q f keeps xs)

  -- A row that is found by a key is found by a narrower test that it meets.
  pub find_where_narrow :
      (p q : A → Bool) (x : A)
      → ((a : A) → q a ≡ true → p a ≡ true)
      → (xs : List A) → find_where p xs ≡ some x
      → q x ≡ true
      → find_where q xs ≡ some x
  unfolding find_where
  find_where_narrow p q x sub [] e h = e
  find_where_narrow p q x sub (y ∷ ys) e h = ground (arith, sub y, find_where_narrow p q x sub ys)

  pub find_where_sound :
      (p : A → Bool) (x : A) (xs : List A) → find_where p xs ≡ some x → p x ≡ true
  unfolding find_where
  find_where_sound p x [] e = cc
  find_where_sound p x (y ∷ ys) e = ground (arith, find_where_sound p x ys)

  pub All-find_where {κ} :
      (P : A → Type κ) (p : A → Bool) (x : A) (xs : List A)
      → All P xs
      → find_where p xs ≡ some x
      → P x
  unfolding find_where
  All-find_where P p x [] h e = absurd (cc)
  All-find_where P p x (y ∷ ys) h e = elim (Bool-cases (p y)) [
    | inl hit ↦ let same : y ≡ x = ground arith in subst P same h.0
    | inr miss ↦ All-find_where P p x ys h.1 (rw (miss, find_where) at e)
  ]

  pub All-append {κ} : (P : A → Type κ) (xs ys : List A) → All P xs → All P ys → All P (xs ++ ys)
  All-append P [] ys h k = k
  All-append P (x ∷ xs) ys h k = (h.0, All-append P xs ys h.1 k)

  pub All-update_where {κ} :
      (P : A → Type κ) (q : A → Bool) (f : A → A)
      → ((a : A) → P a → q a ≡ true → P (f a))
      → (xs : List A) → All P xs
      → All P (update_where q f xs)
  unfolding update_where
  All-update_where P q f step [] h = tt
  All-update_where P q f step (x ∷ xs) h = elim (Bool-cases (q x)) [
    | inl hit ↦ rw hit (step x h.0 hit, All-update_where P q f step xs h.1)
    | inr miss ↦ rw miss (h.0, All-update_where P q f step xs h.1)
  ]

  -- Updates that keep a test keep the number of rows that meet it.
  pub count_where-update_where :
      (p q : A → Bool) (f : A → A)
      → ((a : A) → p (f a) ≡ p a)
      → (xs : List A) → count_where p (update_where q f xs) ≡ count_where p xs
  unfolding count_where update_where
  count_where-update_where p q f keeps [] = refl
  count_where-update_where p q f keeps (x ∷ xs) =
      ground (arith, keeps x, count_where-update_where p q f keeps xs)

  pub count_where-eq-zero_of_find :
      (p : A → Bool) (xs : List A) → find_where p xs ≡ none → count_where p xs ≡ 0
  unfolding count_where find_where
  count_where-eq-zero_of_find p [] e = refl
  count_where-eq-zero_of_find p (x ∷ xs) e = ground (arith, count_where-eq-zero_of_find p xs)

  pub find_where-delete_where_self :
      (p : A → Bool) (xs : List A) → find_where p (delete_where p xs) ≡ none
  unfolding find_where delete_where
  find_where-delete_where_self p [] = refl
  find_where-delete_where_self p (x ∷ xs) = ground (arith, find_where-delete_where_self p xs)

  -- Deleting rows that a test does not meet does not change what the test finds.
  pub find_where-delete_where_other :
      (p q : A → Bool)
      → ((a : A) → q a ≡ true → p a ≡ false)
      → (xs : List A) → find_where p (delete_where q xs) ≡ find_where p xs
  unfolding find_where delete_where
  find_where-delete_where_other p q apart [] = refl
  find_where-delete_where_other p q apart (x ∷ xs) =
      ground (arith, apart x, find_where-delete_where_other p q apart xs)

  All-delete_where {κ} :
      (P : A → Type κ) (q : A → Bool) (xs : List A) → All P xs → All P (delete_where q xs)
  unfolding delete_where
  All-delete_where P q [] h = tt
  All-delete_where P q (x ∷ xs) h = elim (Bool-cases (q x)) [
    | inl hit ↦ rw hit (All-delete_where P q xs h.1)
    | inr miss ↦ rw miss (h.0, All-delete_where P q xs h.1)
  ]

  pub count_where-pos_of_find :
      (p : A → Bool) (x : A) (xs : List A) → find_where p xs ≡ some x → 0 < count_where p xs
  unfolding count_where find_where
  count_where-pos_of_find p x [] e = absurd (cc)
  count_where-pos_of_find p x (y ∷ ys) e = ground (arith, count_where-pos_of_find p x ys)

  pub count_where_mono :
      (p q : A → Bool)
      → ((a : A) → p a ≡ true → q a ≡ true)
      → (xs : List A) → count_where p xs ≤ count_where q xs
  unfolding count_where
  count_where_mono p q sub [] = omega arith
  count_where_mono p q sub (x ∷ xs) = ground (arith, sub x, count_where_mono p q sub xs)

  -- An update of rows that meet a test, after which they do not, takes them off its count.
  pub count_where-update_out :
      (p q : A → Bool) (f : A → A)
      → ((a : A) → q a ≡ true → (p a ≡ true) × (p (f a) ≡ false))
      → (xs : List A) → count_where p (update_where q f xs) + count_where q xs ≡ count_where p xs
  unfolding count_where update_where
  count_where-update_out p q f out [] = refl
  count_where-update_out p q f out (x ∷ xs) =
      ground (arith, out x, count_where-update_out p q f out xs)

  -- An update that no row meets changes nothing.
  pub update_where-none :
      (p : A → Bool) (f : A → A) (xs : List A) → find_where p xs ≡ none → update_where p f xs ≡ xs
  unfolding update_where find_where
  update_where-none p f [] e = refl
  update_where-none p f (x ∷ xs) e = ground (arith, update_where-none p f xs)
