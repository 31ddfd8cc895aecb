-- ===== src/Money.antt =====
-- src/utils/money.ts, the Naira amounts of src/services/ramp/providers/types.ts, and the amounts that
-- src/services/transaction/transaction.service.ts compares. An amount is a text; no arithmetic goes
-- through a float. `parseUnits` and `formatUnits` of ethers are parameters.
pub mod Units
pub mod Normal
pub mod Ngn
pub mod Schema
mod Tests
use ulmara_backend.Common.{
  Bool, Option, Text, [], all_digits, false, if◌then◌else◌, is_empty, is_some, leb, length, ltb,
  none, not, show_ℕ, some, text, trim, true, ℕ, ◌&&◌, ◌*◌, ◌++◌, ◌+◌, ◌-◌, ◌==◌, ◌||◌, ◌∷◌,
}
use ulmara_backend.World.{M, coded, pure, throw, throw_if, ⊤, ◌>>=◌, ◌>>◌}

-- what stands before the first ".", and what stands behind it if there is one
unfoldable pub before_dot : Text → Text
before_dot [] = []
before_dot (c ∷ cs) = if c == b'.' then [] else c ∷ before_dot cs

unfoldable pub after_dot : Text → Option Text
after_dot [] = none
after_dot (c ∷ cs) = if c == b'.' then some cs else after_dot cs

abbrev pub or_empty : Option Text → Text
or_empty none = []
or_empty (some t) = t

abbrev pub fraction : Text → Text
fraction t = or_empty (after_dot t)

-- `decimalPlacesOf`
unfoldable pub decimal_places_of : Text → ℕ
decimal_places_of t = length (fraction t)

abbrev is_nonzero_digit : ℕ → Bool
is_nonzero_digit c = leb b'1' c && leb c b'9'

-- `/[1-9]/.test(t)`
unfoldable pub has_nonzero : Text → Bool
has_nonzero [] = false
has_nonzero (c ∷ cs) = is_nonzero_digit c || has_nonzero cs

abbrev is_number : Text → Bool
is_number t = not (is_empty t) && all_digits t

abbrev pub is_fraction : Option Text → Bool
is_fraction none = true
is_fraction (some f) = is_number f

-- `/^\d+(\.\d+)?$/`
abbrev pub is_plain_decimal : Text → Bool
is_plain_decimal t = is_number (before_dot t) && is_fraction (after_dot t)

-- `isPositiveDecimalString`
unfoldable pub is_positive_decimal_string : Text → Bool
is_positive_decimal_string t =
    is_plain_decimal t && (has_nonzero (before_dot t) || has_nonzero (fraction t))

-- `whole.replace(/^0+/, "")`
unfoldable pub drop_zeros : Text → Text
drop_zeros [] = []
drop_zeros (c ∷ cs) = if c == b'0' then drop_zeros cs else c ∷ cs

-- The checks of `moneyString` in their order, with the message of the first that fails.
unfoldable pub money_string :
    (label : Text) (max_decimals max_integer_digits : ℕ) → Text → Option Text
money_string label most_decimals most_digits t =
    if not (is_plain_decimal t)
    then some (
        label
        ++ text " must be a plain positive decimal number (digits, optionally one decimal point)")
    else if not (is_positive_decimal_string t)
    then some (label ++ text " must be greater than zero")
    else if not (leb (decimal_places_of t) most_decimals)
    then some
        (label ++ (text " must have at most " ++ (show_ℕ most_decimals ++ text " decimal places")))
    else if not (leb (length (drop_zeros (before_dot t))) most_digits)
    then some
        (label ++ (text " is too large (at most " ++ (show_ℕ most_digits ++ text " whole digits)")))
    else none

-- `assertValidAmount`
unfoldable assert_valid_amount : (label : Text) (max_decimals max_digits : ℕ) → Text → M ⊤
assert_valid_amount label most_decimals most_digits t =
    elim (money_string label most_decimals most_digits t) [
      | none ↦ pure tt
      | some message ↦ throw (coded 400 message)
    ]

-- `BigInt(t)` of a text of digits, behind a number that was read already
unfoldable pub nat_of : ℕ → Text → ℕ
nat_of acc [] = acc
nat_of acc (c ∷ cs) = nat_of (acc * 10 + (c - 48)) cs

-- `f.padEnd(2, "0")`
abbrev pub pad_two : Text → Text
pad_two [] = b'0' ∷ b'0' ∷ []
pad_two (a ∷ []) = a ∷ b'0' ∷ []
pad_two (a ∷ b ∷ cs) = a ∷ b ∷ cs

-- `BigInt(whole) * 100n + BigInt(frac.padEnd(2, "0"))`
unfoldable pub kobo_of : Text → ℕ
kobo_of t = nat_of 0 (before_dot t) * 100 + nat_of 0 (pad_two (fraction t))

-- `/^\d+(\.\d{1,2})?$/`
abbrev pub is_ngn_shape : Text → Bool
is_ngn_shape t = is_plain_decimal t && leb (length (fraction t)) 2

-- `assertValidNgnAmount`, with bounds in whole Naira
unfoldable pub assert_valid_ngn_amount : Text → (min max : ℕ) → M ⊤
assert_valid_ngn_amount t lo hi = do
  throw_if (not (is_ngn_shape t))
      (coded 400 (text "Amount must be a positive amount with at most 2 decimals"))
  throw_if (not (has_nonzero (before_dot t)) && not (has_nonzero (fraction t)))
      (coded 400 (text "Amount must be greater than zero"))
  throw_if (ltb (kobo_of t) (lo * 100)) (coded 400 (text "Amount must be at least the minimum"))
  throw_if (ltb (hi * 100) (kobo_of t)) (coded 400 (text "Amount must be at most the maximum"))

-- `/0+$/` and `/\.$/`, replaced by nothing
unfoldable pub strip_zeros : Text → Text
strip_zeros [] = []
strip_zeros (c ∷ cs) =
    let rest = strip_zeros cs in if is_empty rest && c == b'0' then [] else c ∷ rest

unfoldable pub strip_dot : Text → Text
strip_dot [] = []
strip_dot (c ∷ cs) = if is_empty cs && c == b'.' then [] else c ∷ strip_dot cs

-- `normalizeAmount`
unfoldable pub normalize_amount : Text → Text
normalize_amount value =
    let trimmed = trim value in
    if is_some (after_dot trimmed) then strip_dot (strip_zeros trimmed) else trimmed
