-- ===== src/Socket/Gate.antt =====
-- The gate of sockets and the gate of requests.
use ulmara_backend.Common.{arith, find_where, some, ℕ, ◌↔◌, ◌≡◌, ◌≢◌}
use ulmara_backend.World.{Db, Session, ok}
use ulmara_backend.Auth.{TokenCheck, has_token, require_auth}
use ulmara_backend.Socket.{admitted, authenticate_socket_token, check_claims, check_session}

-- A socket is admitted for a user exactly when `requireAuth` lets a request with the same token pass as
-- that user, but at the very millisecond at which the session expires: then the request passes and
-- the socket is rejected.
pub authenticate_socket_token_iff :
    (verify : ℕ → TokenCheck) (token : ℕ) (db : Db) (user : ℕ) (s : Session)
    → find_where (has_token token) db.sessions ≡ some s
    → (authenticate_socket_token verify (some token) db ≡ admitted user)
      ↔ ((require_auth verify (some token) db ≡ (ok user, db)) × (s.expires_at ≢ db.clock))
unfolding authenticate_socket_token require_auth check_claims check_session
authenticate_socket_token_iff verify token db user s found =
    ((λ h. (ground arith, λ same. absurd (ground arith))), (λ p. ground arith))
