-- ===== src/Socket/Tests.antt =====
-- Runs of the hub of sockets.
use ulmara_backend.Common.{List, [], find_where, none, refl, some, true, ℕ, ◌↔◌, ◌∷◌, ◌≡◌, ◌≢◌}
use ulmara_backend.World.{Session, ok}
use ulmara_backend.Auth.{TokenCheck, claims, require_auth}
use ulmara_backend.Sample.{sample_db}
use ulmara_backend.Socket.{
  add_to_room, admitted, authenticate_socket_token, check_claims, check_session, close_socket,
  connect, delivered_to, holds, publish_frame_to_user, room_of,
}
use ulmara_backend.Socket.Gate.{authenticate_socket_token_iff}
use ulmara_backend.Socket.Isolated.{linked}
use ulmara_backend.Socket.Isolated.History.{
  SocketEvent, closed, empty_hub, opened, publish_frame_to_user-isolated, run_sockets, socket_step,
}

-- every token is signed for user 1
abbrev signed_for_ada : ℕ → TokenCheck
signed_for_ada token = claims 1

abbrev ada_session : Session
ada_session = record { id = 5; user_id = 1; token = 500; expires_at = 9000 }

authenticate_socket_token_iff_example :
    (authenticate_socket_token signed_for_ada (some 500) sample_db ≡ admitted 1) ↔ (
      (require_auth signed_for_ada (some 500) sample_db ≡ (ok 1, sample_db))
      × (ada_session.expires_at ≢ sample_db.clock))
unfolding find_where
authenticate_socket_token_iff_example =
    authenticate_socket_token_iff signed_for_ada 500 sample_db 1 ada_session refl

-- a connection with a live token, one without, and the end of the latter
abbrev three_events : List SocketEvent
three_events = opened (some 500) sample_db ∷ opened none sample_db ∷ closed 1 ∷ []

publish_frame_to_user-isolated_example :
    (linked 0 (run_sockets signed_for_ada three_events empty_hub).links ≡ some 1) × (true ≡ true)
unfolding holds publish_frame_to_user delivered_to room_of find_where run_sockets socket_step
    close_socket connect authenticate_socket_token check_claims check_session add_to_room
publish_frame_to_user-isolated_example =
    publish_frame_to_user-isolated signed_for_ada three_events (λ s. true) (λ s. true) 1 0 refl
