-- ===== src/Socket.antt =====
-- src/websocket/socket.handler.ts: a socket is authenticated, put into its user's room, and reached
-- through that room alone. A socket is the number of its connection; whether it is open, and whether
-- its `send` throws, is up to the network. The frames themselves, the set of clients of the library and
-- the echo of pings are left out.
pub mod Gate
pub mod Isolated
mod Tests
use ulmara_backend.Common.{
  Bool, List, Option, [], false, find_where, if◌then◌else◌, leb, none, some, true, ℕ, ◌&&◌, ◌+◌,
  ◌==◌, ◌||◌, ◌∷◌,
}
use ulmara_backend.World.{Db, Session}
use ulmara_backend.Auth.{TokenCheck, claims, has_token, token_expired, token_invalid}

pub data Reason : Type 0 where
  missing_token malformed_token expired_token unknown_session expired_session subject_mismatch :
      Reason

pub data SocketAuth : Type 0 where
  admitted : (user : ℕ) → SocketAuth
  rejected : Reason → SocketAuth

-- the checks of the session row
unfoldable pub check_session : (subject now : ℕ) → Option Session → SocketAuth
check_session subject now none = rejected unknown_session
check_session subject now (some s) =
    if leb s.expires_at now
    then rejected expired_session
    else if s.user_id == subject
    then admitted subject
    else rejected subject_mismatch

unfoldable pub check_claims : (token : ℕ) → TokenCheck → Db → SocketAuth
check_claims token token_expired db = rejected expired_token
check_claims token token_invalid db = rejected malformed_token
check_claims token (claims subject) db =
    check_session subject db.clock (find_where (has_token token) db.sessions)

-- `authenticateSocketToken`, where `verify` is `verifySessionToken`
unfoldable pub authenticate_socket_token :
    (verify : ℕ → TokenCheck) → (token : Option ℕ) → Db → SocketAuth
authenticate_socket_token verify none db = rejected missing_token
authenticate_socket_token verify (some token) db = check_claims token (verify token) db

-- `userRooms`, a room per user, and the user id that `data` of each socket holds
pub record Room : Type 0 where
  pub user : ℕ
  pub sockets : List ℕ

pub record Link : Type 0 where
  pub socket : ℕ
  pub linked_user : ℕ

pub record Hub : Type 0 where
  pub next_socket : ℕ
  pub rooms : List Room
  pub links : List Link

abbrev pub is_room : ℕ → Room → Bool
is_room user r = r.user == user

unfoldable pub holds : ℕ → List ℕ → Bool
holds s [] = false
holds s (x ∷ xs) = x == s || holds s xs

-- `room.add(socket)` on a set
unfoldable pub add_socket : ℕ → Room → Room
add_socket s r = record r { sockets = if holds s r.sockets then r.sockets else s ∷ r.sockets }

-- `addToRoom`
unfoldable pub add_to_room : (user socket : ℕ) → List Room → List Room
add_to_room user s [] = record { user = user; sockets = s ∷ [] } ∷ []
add_to_room user s (r ∷ rs) =
    let rest = add_to_room user s rs in if is_room user r then add_socket s r ∷ rs else r ∷ rest

unfoldable pub without : ℕ → List ℕ → List ℕ
without s [] = []
without s (x ∷ xs) = let rest = without s xs in if x == s then rest else x ∷ rest

abbrev pub is_vacant : List ℕ → Bool
is_vacant [] = true
is_vacant (x ∷ xs) = false

-- `removeFromRoom`, which drops a room that gets empty
unfoldable pub remove_from_room : (user socket : ℕ) → List Room → List Room
remove_from_room user s [] = []
remove_from_room user s (r ∷ rs) =
    let rest = remove_from_room user s rs in
    let left = without s r.sockets in
    if is_room user r
    then (if is_vacant left then rs else record r { sockets = left } ∷ rs)
    else r ∷ rest

-- the sockets of a room that are open and whose `send` does not throw
unfoldable pub delivered_to : (is_open sends : ℕ → Bool) → List ℕ → List ℕ
delivered_to is_open sends [] = []
delivered_to is_open sends (s ∷ ss) =
    let rest = delivered_to is_open sends ss in if is_open s && sends s then s ∷ rest else rest

abbrev pub sockets_of : Option Room → List ℕ
sockets_of none = []
sockets_of (some r) = r.sockets

unfoldable pub room_of : ℕ → List Room → List ℕ
room_of user rooms = sockets_of (find_where (is_room user) rooms)

-- `publishFrameToUser`: the sockets that got the frame, whose number it returns
unfoldable pub publish_frame_to_user : (is_open sends : ℕ → Bool) → (user : ℕ) → Hub → List ℕ
publish_frame_to_user is_open sends user hub = delivered_to is_open sends (room_of user hub.rooms)

-- the new socket, whose data and room are set only if it is admitted
abbrev pub seat : SocketAuth → Hub → Hub
seat (rejected r) hub = record hub { next_socket = hub.next_socket + 1 }
seat (admitted user) hub = record {
  next_socket = hub.next_socket + 1;
  rooms = add_to_room user hub.next_socket hub.rooms;
  links = record { socket = hub.next_socket; linked_user = user } ∷ hub.links;
}

-- the handler of a connection
unfoldable pub connect : (verify : ℕ → TokenCheck) → Option ℕ → Db → Hub → Hub
connect verify token db hub = seat (authenticate_socket_token verify token db) hub

abbrev pub is_link : ℕ → Link → Bool
is_link s l = l.socket == s

abbrev pub leave : ℕ → Option Link → Hub → Hub
leave s none hub = hub
leave s (some l) hub = record hub { rooms = remove_from_room l.linked_user s hub.rooms }

-- the "close" event of an admitted socket
unfoldable pub close_socket : (socket : ℕ) → Hub → Hub
close_socket s hub = leave s (find_where (is_link s) hub.links) hub
