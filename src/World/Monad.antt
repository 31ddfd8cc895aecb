-- ===== src/World/Monad.antt =====
-- An operation of a service: it reads and writes the shared state, and returns or throws. What was
-- written before a throw stays written, as in the program, except inside a database transaction.
use ulmara_backend.Common.{ℕ, Bool, true, false, Option, none, some, Text, ◌≡◌, refl, ◌⊎◌, inl, inr}
use ulmara_backend.World.Rows.{Db}

-- What the services throw: an `HttpError`, a plain `Error` that carries a `statusCode`, Prisma's
-- unique-constraint error (code P2002), a `RampProviderError`, and any other error.
pub data Error : Type 0 where
  http : (status : ℕ) (message : Text) → Error
  coded : (status : ℕ) (message : Text) → Error
  unique_violation : Error
  provider_failed : (provider failure message : Text) (status : Option ℕ) → Error
  thrown : Text → Error

pub data Result (A : Type 0) : Type 0 where
  ok : A → Result A
  err : Error → Result A

abbrev pub M : Type 0 → Type 0
M A = Db → Result A × Db

abbrev pub ⊤ : Type 0
⊤ = Unit

module _ {A : Type 0} where
  abbrev pub pure : A → M A
  pure a db = (ok a, db)

  abbrev pub throw : Error → M A
  throw e db = (err e, db)

  abbrev pub gets : (Db → A) → M A
  gets f db = (ok (f db), db)

  abbrev pub or_throw : Option A → Error → M A
  or_throw none e = throw e
  or_throw (some a) e = pure a

infixl 5 ◌>>=◌ ◌>>◌
abbrev pub ◌>>=◌ : {A B : Type 0} → M A → (A → M B) → M B
◌>>=◌ m f db = let (r, db') = m db in elim r [ ok a ↦ f a db' | err e ↦ (err e, db') ]

abbrev pub ◌>>◌ : {A B : Type 0} → M A → M B → M B
m >> k = m >>= λ _. k

-- `try { m } catch (err) { h(err) }`
abbrev pub catch : {A : Type 0} → M A → (Error → M A) → M A
catch m h db = let (r, db') = m db in elim r [ ok a ↦ (ok a, db') | err e ↦ h e db' ]

abbrev pub throw_if : Bool → Error → M ⊤
throw_if true e db = (err e, db)
throw_if false e db = (ok tt, db)

abbrev pub modify : (Db → Db) → M ⊤
modify f db = (ok tt, f db)

-- A result that does not depend on the state, as part of an operation.
abbrev pub lift : {A : Type 0} → Result A → M A
lift r db = (r, db)

pub Result-cases :
    {A : Type 0} (r : Result A) → ((a : A) × (r ≡ ok a)) ⊎ ((e : Error) × (r ≡ err e))
Result-cases (ok a) = inl (a, refl)
Result-cases (err e) = inr (e, refl)
