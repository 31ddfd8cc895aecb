-- ===== src/Lockout/Tests.antt =====
-- Runs of the lockout on concrete states.
use ulmara_backend.Common.{
  List, Text, [], arith, find_where, none, refl, some, text_eq, true, update_where, ◌+◌, ◌==◌, ◌∷◌,
  ◌≡◌,
}
use ulmara_backend.World.{Db, Env, User, ok}
use ulmara_backend.Lockout.{
  active_lock, assert_pin_authorized, get_lock_state, lock_field, pin_hash_of, record_failure,
  reset, user_of,
}
use ulmara_backend.Lockout.Laws.{assert_pin_authorized_sound}
use ulmara_backend.Lockout.Race.{stale_swap_clears_lock}
use ulmara_backend.Lockout.Sequence.{pin_attempts, tries, wrong_pins_lock}
use ulmara_backend.Sample.{ada, other_digits, pin_digits, quiet_sample, sample_db, sample_env}

-- four wrong PINs that differ, and a fifth
abbrev guesses : List Text
guesses = (48 ∷ []) ∷ (49 ∷ []) ∷ (50 ∷ []) ∷ (51 ∷ []) ∷ []

wrong_pins_lock_example :
    (v : User) × (user_of 1
        (pin_attempts sample_env quiet_sample 1 pin_digits (other_digits ∷ guesses) sample_db)
      ≡ some v)
    × (v.pin_locked_until ≡ some (1000 + 900000))
    × (v.pin_failed_attempts ≡ 0)
    × ((pin_attempts sample_env quiet_sample 1 pin_digits (other_digits ∷ guesses) sample_db).clock
        ≡ 1000)
unfolding find_where text_eq tries
wrong_pins_lock_example =
    wrong_pins_lock sample_env quiet_sample 1 pin_digits other_digits guesses ada sample_db refl
      refl (refl, (refl, (refl, (refl, (refl, tt))))) refl refl

assert_pin_authorized_sound_example :
    (hash : Text) × (pin_hash_of (user_of 1 sample_db) ≡ some hash)
    × (sample_env.compare_hash pin_digits hash ≡ true)
    × (active_lock (lock_field (user_of 1 sample_db)) 1000 ≡ none)
    × ((reset 1 sample_db).1 ≡ record sample_db {
      users =
          update_where
            (λ u. u.id == 1)
            (λ u. record u { pin_failed_attempts = 0; pin_locked_until = none })
            sample_db.users;
    })
unfolding assert_pin_authorized get_lock_state find_where text_eq reset
assert_pin_authorized_sound_example =
    assert_pin_authorized_sound sample_env 1 pin_digits sample_db (reset 1 sample_db).1 refl

abbrev locked_db : Db
locked_db = record sample_db { users = record ada { pin_locked_until = some 5000 } ∷ [] }

-- a lockout that has run out, and the one that other requests arm meanwhile
abbrev stale_db : Db
stale_db = record sample_db { users = record ada { pin_locked_until = some 900 } ∷ [] }

abbrev racing_env : Env
racing_env = record sample_env { others = λ k db. locked_db }

stale_swap_clears_lock_example :
    ((record_failure racing_env 1 1 stale_db).0 ≡ ok 1)
    × (active_lock (lock_field (user_of 1 (record_failure racing_env 1 1 stale_db).1)) 1000 ≡ none)
unfolding find_where
stale_swap_clears_lock_example =
    stale_swap_clears_lock racing_env 0 1 900 5000 (record ada { pin_locked_until = some 900 })
      (record ada { pin_locked_until = some 5000 }) stale_db refl refl refl (omega arith) refl refl
      refl (omega arith)
