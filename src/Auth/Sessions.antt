-- ===== src/Auth/Sessions.antt =====
-- Sessions: the row is the source of truth for a token.
use ulmara_backend.Common.{
  Option-cases, Text, arith, false, find_where, find_where-delete_where_other,
  find_where-delete_where_self, inl, inr, ltb, some, text, ℕ, ◌==◌, ◌≡◌,
}
use ulmara_backend.World.{Db, Session, err, http, ok}
use ulmara_backend.Auth.{TokenCheck, claims, has_token, logout, require_auth, token_invalid}

-- The message of a refusal for want of a live session, by what the token's signature says.
abbrev pub refusal : TokenCheck → Text
refusal token_invalid = text "Invalid token"
refusal _ = text "Session expired"

-- After a logout the token is refused with status 401, whatever its signature says.
logout-require_auth :
    (verify : ℕ → TokenCheck) (token : ℕ) (db : Db)
    → require_auth verify (some token) (logout token db).1
      ≡ (err (http 401 (refusal (verify token))), (logout token db).1)
unfolding logout require_auth
logout-require_auth verify token db =
    ground (arith, find_where-delete_where_self (has_token token) db.sessions)

-- A logout ends one session: every other token is admitted or refused as before.
logout_keeps_others :
    (verify : ℕ → TokenCheck) (token other : ℕ) (db : Db)
    → (token == other) ≡ false
    → (require_auth verify (some other) (logout token db).1).0
      ≡ (require_auth verify (some other) db).0
unfolding logout require_auth
logout_keeps_others verify token other db apart = ground (
  arith,
  find_where-delete_where_other (has_token other) (has_token token) (λ s e. ground arith)
      db.sessions,
)

-- A token that is admitted has a session that has not ended and belongs to the subject of its
-- verified claims.
pub require_auth_sound :
    (verify : ℕ → TokenCheck) (token user : ℕ) (db db' : Db)
    → require_auth verify (some token) db ≡ (ok user, db')
    → (s : Session) × (find_where (has_token token) db.sessions ≡ some s)
      × (verify token ≡ claims user)
      × (s.user_id ≡ user)
      × (ltb s.expires_at db.clock ≡ false)
unfolding require_auth
require_auth_sound verify token user db db' e =
    elim (Option-cases (find_where (has_token token) db.sessions)) [
      | inl missing ↦ absurd (ground arith)
      | inr (s, found) ↦ (s, found, ground arith, ground arith, ground arith)
    ]
