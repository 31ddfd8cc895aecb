-- ===== src/Ramp/Lifecycle.antt =====
-- The life of the rows of the ramp ledger: what any sequence of webhooks and reconciliations may do to
-- their statuses, as steps of an abstract ledger that knows nothing but a status per reference.
pub mod Steps
pub mod History
use mathlib.Core.Option
use mathlib.Core.Path.{subst}
use ulmara_backend.Common.{
  ==_iff, Bool-cases, List, Option, Option-cases, ap, arith, find_where, find_where-update_where,
  if◌then◌else◌, inl, inr, none, refl, some, sym, update_where, ℕ, ◌<◌, ◌==◌, ◌≡◌,
}
use ulmara_backend.World.{RampTx, TxStatus}
use ulmara_backend.Ramp.{has_ramp_id, has_reference, rank}

-- Each row is found under its id by the row itself: ids are unique among the rows that are found.
abbrev pub IsKeyed : List RampTx → Type 0
IsKeyed rows =
    (r : ℕ) (t : RampTx)
    → find_where (has_reference r) rows ≡ some t
    → find_where (has_ramp_id t.id) rows ≡ some t

-- The abstract ledger.
abbrev pub Ledger : Type 0
Ledger = ℕ → Option TxStatus

abbrev pub ledger_of : List RampTx → Ledger
ledger_of rows r = Option.map (λ t. t.status) (find_where (has_reference r) rows)

-- One step of a reference: it stays as it is, or its status moves forward by `RANK`.
pub data Advances : Option TxStatus → Option TxStatus → Type 0 where
  stays : (o : Option TxStatus) → Advances o o
  moves : (s s' : TxStatus) → rank s < rank s' → Advances (some s) (some s')

-- Any number of steps.
pub data Reaches : Option TxStatus → Option TxStatus → Type 0 where
  here : (o : Option TxStatus) → Reaches o o
  after : (a b c : Option TxStatus) → Advances a b → Reaches b c → Reaches a c

abbrev LedgerStep : Ledger → Ledger → Type 0
LedgerStep l l' = (r : ℕ) → Advances (l r) (l' r)

-- An operation keeps the ids of the ledger and is a step of the abstract ledger.
abbrev pub IsStep : List RampTx → List RampTx → Type 0
IsStep rows rows' = IsKeyed rows' × LedgerStep (ledger_of rows) (ledger_of rows')

pub same_rows : (rows rows' : List RampTx) → rows ≡ rows' → IsKeyed rows → IsStep rows rows'
same_rows rows rows' e keyed = subst (IsStep rows) e (keyed, λ r. stays (ledger_of rows r))

module _ (t : RampTx) (f : RampTx → RampTx) (rows : List RampTx)
    (keeps_reference : (a : RampTx) → (f a).reference ≡ a.reference)
    (keeps_id : (a : RampTx) → (f a).id ≡ a.id) (keyed : IsKeyed rows) where
  abbrev updated : RampTx → RampTx
  updated a = if has_ramp_id t.id a then f a else a

  found_after :
      (r : ℕ)
      → find_where (has_reference r) (update_where (has_ramp_id t.id) f rows)
        ≡ Option.map updated (find_where (has_reference r) rows)
  found_after r =
      find_where-update_where (has_reference r) (has_ramp_id t.id) f
        (λ a. rw (keeps_reference a) refl) rows

  keyed_after :
      (i : ℕ)
      → find_where (has_ramp_id i) (update_where (has_ramp_id t.id) f rows)
        ≡ Option.map updated (find_where (has_ramp_id i) rows)
  keyed_after i =
      find_where-update_where (has_ramp_id i) (has_ramp_id t.id) f (λ a. rw (keeps_id a) refl) rows

  updated_id : (a : RampTx) → (updated a).id ≡ a.id
  updated_id a = ground (arith, keeps_id a)

  updated-IsKeyed : IsKeyed (update_where (has_ramp_id t.id) f rows)
  updated-IsKeyed r u h = elim (Option-cases (find_where (has_reference r) rows)) [
    | inl missing ↦ absurd (ground (arith, found_after r))
    | inr (a, found) ↦
        let same : updated a ≡ u = ground (arith, found_after r) in
        let id : u.id ≡ a.id = rw (sym same) (updated_id a) in
        let rows' = update_where (has_ramp_id t.id) f rows in
        subst (λ i. find_where (has_ramp_id i) rows' ≡ some u) (sym id)
          (rw (keyed_after a.id, keyed r a found) (ap some same))
  ]

  module _ (q : ℕ) (found : find_where (has_reference q) rows ≡ some t)
      (forward : rank t.status < rank (f t).status) where
    advanced :
        (a : RampTx)
        → find_where (has_ramp_id a.id) rows ≡ some a
        → Advances (some a.status) (some (updated a).status)
    advanced a keyed_a = elim (Bool-cases (a.id == t.id)) [
      | inl same ↦
          let ids : a.id ≡ t.id = (==_iff a.id t.id).0 same in
          let rows_same : a ≡ t = ground (arith, keyed q t found) in
          rw (same, rows_same) (moves t.status (f t).status forward)
      | inr other ↦ rw other (stays (some a.status))
    ]

    pub update-IsStep : IsStep rows (update_where (has_ramp_id t.id) f rows)
    update-IsStep = (
      updated-IsKeyed,
      λ r. elim (Option-cases (find_where (has_reference r) rows)) [
        | inl missing ↦ rw (found_after r, missing) (stays none)
        | inr (a, found_a) ↦ rw (found_after r, found_a) (advanced a (keyed r a found_a))
      ],
    )
