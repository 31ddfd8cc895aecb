-- ===== src/Socket/Isolated.antt =====
-- No socket is in the room of a user other than the one that it was admitted as.
pub mod History
use mathlib.Core.Option
use mathlib.Core.Path.{subst}
use ulmara_backend.Common.{
  ==_iff, All, Bool-cases, List, Option, [], ap, arith, find_where, inl, inr, none, some, sym, true,
  ℕ, ◌==◌, ◌∙◌, ◌∷◌, ◌≡◌, ◌≢◌, ◌≤◌, ◌⊎◌,
}
use ulmara_backend.Socket.{
  Hub, Link, Room, add_socket, add_to_room, holds, is_link, is_room, is_vacant, remove_from_room,
  without,
}

abbrev pub linked : ℕ → List Link → Option ℕ
linked s links = Option.map (λ l. l.linked_user) (find_where (is_link s) links)

-- Each socket of a room is linked to the room's user.
abbrev pub IsOwn : List Link → Room → Type 0
IsOwn links r = (s : ℕ) → holds s r.sockets ≡ true → linked s links ≡ some r.user

-- Rooms hold their own sockets, and connections that are still to come have no link.
abbrev pub IsIsolated : Hub → Type 0
IsIsolated hub =
    All (IsOwn hub.links) hub.rooms
    × ((s : ℕ) → hub.next_socket ≤ s → find_where (is_link s) hub.links ≡ none)

-- A new link of a socket that had none changes no other's.
linked_new :
    (l : Link) (links : List Link) (s user : ℕ)
    → find_where (is_link l.socket) links ≡ none
    → linked s links ≡ some user
    → linked s (l ∷ links) ≡ some user
unfolding find_where
linked_new l links s user fresh h = elim (Bool-cases (l.socket == s)) [
  | inl same ↦ absurd (
      let e : l.socket ≡ s = (==_iff l.socket s).0 same in
      let missing : find_where (is_link s) links ≡ none =
        subst (λ i. find_where (is_link i) links ≡ none) e fresh in
      ground (arith, missing))
  | inr other ↦ rw other h
]

pub IsOwn-new :
    (l : Link) (links : List Link) (rooms : List Room)
    → find_where (is_link l.socket) links ≡ none
    → All (IsOwn links) rooms
    → All (IsOwn (l ∷ links)) rooms
IsOwn-new l links [] fresh h = tt
IsOwn-new l links (r ∷ rs) fresh h =
    (λ s held. linked_new l links s r.user fresh (h.0 s held), IsOwn-new l links rs fresh h.1)

holds_cons : (s x : ℕ) (xs : List ℕ) → holds s (x ∷ xs) ≡ true → (x ≡ s) ⊎ (holds s xs ≡ true)
unfolding holds
holds_cons s x xs h = elim (Bool-cases (x == s)) [
  | inl same ↦ inl ((==_iff x s).0 same)
  | inr other ↦ inr (ground arith)
]

no_member : (x : ℕ) → holds x [] ≢ true
unfolding holds
no_member x h = cc

module _ (links : List Link) (user s : ℕ) (own : linked s links ≡ some user) where
  own_cons :
      (xs : List ℕ)
      → ((x : ℕ) → holds x xs ≡ true → linked x links ≡ some user)
      → (x : ℕ) → holds x (s ∷ xs) ≡ true
      → linked x links ≡ some user
  own_cons xs h x held = elim (holds_cons x s xs held) [
    | inl same ↦ subst (λ i. linked i links ≡ some user) same own
    | inr old ↦ h x old
  ]

  add_socket-IsOwn : (r : Room) → r.user ≡ user → IsOwn links r → IsOwn links (add_socket s r)
  unfolding add_socket
  add_socket-IsOwn r same h = elim (Bool-cases (holds s r.sockets)) [
    | inl old ↦ rw old h
    | inr new ↦
        rw new
          (λ x held. own_cons r.sockets (λ y k. h y k ∙ ap some same) x held ∙ ap some (sym same))
  ]

  pub add_to_room-All :
      (rooms : List Room) → All (IsOwn links) rooms → All (IsOwn links) (add_to_room user s rooms)
  unfolding add_to_room
  add_to_room-All [] h = (own_cons [] (λ x held. absurd (no_member x held)), tt)
  add_to_room-All (r ∷ rs) h = elim (Bool-cases (is_room user r)) [
    | inl hit ↦ rw hit (add_socket-IsOwn r ((==_iff r.user user).0 hit) h.0, h.1)
    | inr miss ↦ rw miss (h.0, add_to_room-All rs h.1)
  ]

holds-without : (x s : ℕ) (xs : List ℕ) → holds x (without s xs) ≡ true → holds x xs ≡ true
unfolding holds without
holds-without x s [] h = h
holds-without x s (y ∷ ys) h = ground (arith, holds-without x s ys)

pub remove_from_room-All :
    (links : List Link) (user s : ℕ) (rooms : List Room)
    → All (IsOwn links) rooms
    → All (IsOwn links) (remove_from_room user s rooms)
unfolding remove_from_room
remove_from_room-All links user s [] h = tt
remove_from_room-All links user s (r ∷ rs) h = elim (Bool-cases (is_room user r)) [
  | inl hit ↦ elim (Bool-cases (is_vacant (without s r.sockets))) [
    | inl empty ↦ rw (hit, empty) h.1
    | inr full ↦ rw (hit, full) (λ x held. h.0 x (holds-without x s r.sockets held), h.1)
  ]
  | inr miss ↦ rw miss (h.0, remove_from_room-All links user s rs h.1)
]
