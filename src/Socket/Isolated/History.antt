-- ===== src/Socket/Isolated/History.antt =====
-- Histories of connections and closings, and who receives a frame after them.
use mathlib.Core.Path.{subst}
use ulmara_backend.Common.{
  ==-refl, ==_iff, All, All-find_where, Bool, Bool-cases, List, Option, [], ap, arith, false,
  find_where, find_where_sound, inl, inr, none, refl, some, true, ℕ, ◌&&◌, ◌==◌, ◌∙◌, ◌∷◌, ◌≡◌,
}
use ulmara_backend.World.{Db}
use ulmara_backend.Auth.{TokenCheck}
use ulmara_backend.Socket.{
  Hub, Link, Room, SocketAuth, admitted, authenticate_socket_token, close_socket, connect,
  delivered_to, holds, is_link, is_room, leave, publish_frame_to_user, rejected, room_of, seat,
  sockets_of,
}
use ulmara_backend.Socket.Isolated.{
  IsIsolated, IsOwn, add_to_room-All, linked, IsOwn-new, remove_from_room-All,
}

-- a connection with its token, at a state of the database, or the "close" event of a socket
pub data SocketEvent : Type 0 where
  opened : (token : Option ℕ) → Db → SocketEvent
  closed : (socket : ℕ) → SocketEvent

unfoldable pub socket_step : (ℕ → TokenCheck) → SocketEvent → Hub → Hub
socket_step verify (opened token db) hub = connect verify token db hub
socket_step verify (closed s) hub = close_socket s hub

unfoldable pub run_sockets : (ℕ → TokenCheck) → List SocketEvent → Hub → Hub
run_sockets verify [] hub = hub
run_sockets verify (e ∷ es) hub = run_sockets verify es (socket_step verify e hub)

abbrev pub empty_hub : Hub
empty_hub = record { next_socket = 0; rooms = []; links = [] }

seat-IsIsolated : (a : SocketAuth) (hub : Hub) → IsIsolated hub → IsIsolated (seat a hub)
unfolding find_where
seat-IsIsolated (rejected r) hub h = (h.0, λ s later. h.1 s (omega arith))
seat-IsIsolated (admitted user) hub h =
    let l : Link = record { socket = hub.next_socket; linked_user = user } in
    let fresh = h.1 hub.next_socket (omega arith) in
    let own : linked hub.next_socket (l ∷ hub.links) ≡ some user =
      rw (==-refl hub.next_socket) refl in
    (
      add_to_room-All (l ∷ hub.links) user hub.next_socket own hub.rooms
          (IsOwn-new l hub.links hub.rooms fresh h.0),
      λ s later.
          let apart : (hub.next_socket == s) ≡ false = ground arith in
          rw apart (h.1 s (omega arith)),
    )

leave-IsIsolated :
    (s : ℕ) (found : Option Link) (hub : Hub) → IsIsolated hub → IsIsolated (leave s found hub)
leave-IsIsolated s none hub h = h
leave-IsIsolated s (some l) hub h =
    (remove_from_room-All hub.links l.linked_user s hub.rooms h.0, h.1)

run_sockets-IsIsolated :
    (verify : ℕ → TokenCheck) (es : List SocketEvent) (hub : Hub)
    → IsIsolated hub
    → IsIsolated (run_sockets verify es hub)
unfolding run_sockets socket_step connect close_socket
run_sockets-IsIsolated verify [] hub h = h
run_sockets-IsIsolated verify (opened token db ∷ es) hub h =
    run_sockets-IsIsolated verify es (connect verify token db hub)
      (seat-IsIsolated (authenticate_socket_token verify token db) hub h)
run_sockets-IsIsolated verify (closed s ∷ es) hub h =
    run_sockets-IsIsolated verify es (close_socket s hub)
      (leave-IsIsolated s (find_where (is_link s) hub.links) hub h)

holds-delivered_to :
    (is_open sends : ℕ → Bool) (s : ℕ) (xs : List ℕ)
    → holds s (delivered_to is_open sends xs) ≡ true
    → (holds s xs ≡ true) × (is_open s ≡ true)
unfolding holds delivered_to
holds-delivered_to is_open sends s [] h = absurd (cc)
holds-delivered_to is_open sends s (x ∷ xs) h =
    let kept = is_open x && sends x in
    elim (Bool-cases kept) [
      | inl delivered ↦ elim (Bool-cases (x == s)) [
        | inl same ↦
            let e : x ≡ s = (==_iff x s).0 same in
            (rw same refl, subst (λ i. is_open i ≡ true) e (ground arith))
        | inr other ↦
            let (held, up) = holds-delivered_to is_open sends s xs (ground arith) in
            (ground arith, up)
      ]
      | inr skipped ↦
          let (held, up) = holds-delivered_to is_open sends s xs (ground arith) in
          (ground arith, up)
    ]

empty_hub-IsIsolated : IsIsolated empty_hub
unfolding find_where
empty_hub-IsIsolated = (tt, λ i later. refl)

found_own :
    (links : List Link) (user s : ℕ) (found : Option Room)
    → ((r : Room) → found ≡ some r → IsOwn links r × (r.user ≡ user))
    → holds s (sockets_of found) ≡ true
    → linked s links ≡ some user
unfolding holds
found_own links user s none h held = absurd (cc)
found_own links user s (some r) h held = let (own, same) = h r refl in own s held ∙ ap some same

room_of_own :
    (links : List Link) (user s : ℕ) (rooms : List Room)
    → All (IsOwn links) rooms
    → holds s (room_of user rooms) ≡ true
    → linked s links ≡ some user
unfolding room_of
room_of_own links user s rooms all held =
    found_own links user s (find_where (is_room user) rooms)
      (λ r found. (
        All-find_where (IsOwn links) (is_room user) r rooms all found,
        (==_iff r.user user).0 (find_where_sound (is_room user) r rooms found),
      ))
      held

-- Whatever sockets connect with whatever tokens and close, in any order, a frame that is published to
-- a user is received only by sockets that are open and that were admitted as that user.
pub publish_frame_to_user-isolated :
    (verify : ℕ → TokenCheck) (es : List SocketEvent) (is_open sends : ℕ → Bool) (user s : ℕ)
    → holds s (publish_frame_to_user is_open sends user (run_sockets verify es empty_hub)) ≡ true
    → (linked s (run_sockets verify es empty_hub).links ≡ some user) × (is_open s ≡ true)
unfolding publish_frame_to_user
publish_frame_to_user-isolated verify es is_open sends user s h =
    let hub = run_sockets verify es empty_hub in
    let isolated = run_sockets-IsIsolated verify es empty_hub empty_hub-IsIsolated in
    let (held, up) = holds-delivered_to is_open sends s (room_of user hub.rooms) h in
    (room_of_own hub.links user s hub.rooms isolated.0 held, up)
