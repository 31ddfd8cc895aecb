-- ===== src/Auth/Pin.antt =====
-- The PIN operations against the shared lockout.
use ulmara_backend.Common.{
  List, Text, arith, find_where, find_where-update_where, is_some, none, refl, some, true,
  update_where, ℕ, ◌≡◌,
}
use ulmara_backend.World.{Db, Env, User, ok}
use ulmara_backend.Auth.{change_pin, has_no_pin, is_six, refuse_pin, set_pin, verify_pin, with_pin}
use ulmara_backend.Lockout.{
  active_lock, assert_pin_authorized, is_user, lock_field, pin_hash_of, user_of,
}
use ulmara_backend.Lockout.Laws.{assert_pin_authorized_sound}

-- On a PIN of six digits the login gate does what the transfer gate does: the same answers, the same
-- counting and the same reset.
verify_pin_same_gate :
    (env : Env) (id : ℕ) (pin : Text) (db : Db)
    → is_six pin ≡ true
    → verify_pin env id pin db ≡ assert_pin_authorized env id pin db
unfolding verify_pin assert_pin_authorized refuse_pin
verify_pin_same_gate env id pin db six = ground arith

set_pin_claims :
    (id : ℕ) (hash : Text) (u : User) (users : List User)
    → find_where (is_user id) users ≡ some u
    → is_some u.pin_hash ≡ true
    → find_where (is_user id) (update_where (has_no_pin id) (with_pin hash) users) ≡ some u
set_pin_claims id hash u users found set =
    rw
      (
        find_where-update_where (is_user id) (has_no_pin id) (with_pin hash) (λ v. refl) users,
        found,
      )
      (ground arith)

-- A PIN that is set when the claim runs, also one that another request set after the check, is not
-- overwritten: the user's row stays as it is.
set_pin_once :
    (env : Env) (id : ℕ) (pin : Text) (u : User) (db : Db)
    → find_where (is_user id) db.users ≡ some u
    → find_where (is_user id) (env.others 0 db).users ≡ some u
    → is_some u.pin_hash ≡ true
    → find_where (is_user id) (set_pin env id pin db).1.users ≡ some u
unfolding set_pin
set_pin_once env id pin u db found after set =
    ground (arith, set_pin_claims id (env.make_hash pin) u (env.others 0 db).users after set)

-- A change of the PIN that succeeds was given the current PIN while no lockout was in force, and a new
-- PIN of six digits.
change_pin_requires_current :
    (env : Env) (id : ℕ) (current new : Text) (db db' : Db)
    → change_pin env id current new db ≡ (ok tt, db')
    → (is_six new ≡ true)
      × ((hash : Text) × (pin_hash_of (user_of id (env.others 40 (env.others 29 db))) ≡ some hash)
          × (env.compare_hash current hash ≡ true)
          × (active_lock (lock_field (user_of id (env.others 29 db))) (env.others 29 db).clock
              ≡ none))
unfolding change_pin
change_pin_requires_current env id current new db db' e =
    let start = env.others 29 db in
    let passed : assert_pin_authorized env id current start
        ≡ (ok tt, (assert_pin_authorized env id current start).1) =
      ground arith in
    let (hash, has, same, free, after) =
      assert_pin_authorized_sound env id current start _ passed in
    (ground arith, (hash, has, same, free))
