-- ===== src/Common/Strings.antt =====
-- Texts as lists of code points, with the JavaScript string functions that the services use.
use Prim.Native.Nat.{ℕ, zero, suc, ◌+◌, ◌-◌, ◌/◌, ◌%◌}
use Prim.Native.Char.{code}
use Prim.Native.String.{String}
use mathlib.Core.Path.{◌≡◌, refl}
use mathlib.Core.Bool.{Bool, true, false, ◌&&◌, ◌||◌}
use mathlib.Core.Option.{Option, none, some}
use mathlib.Core.List.{List, [], ◌∷◌, ◌++◌, map, reverse}
use native.Mathlib.Omega.{arith}
use ulmara_backend.Common.Tests.{◌==◌, leb, ltb, if◌then◌else◌}

abbrev pub Text : Type 0
Text = List ℕ

-- The code points of a literal. Shut, so that a proof carries a message as one term.
unfoldable pub text : String → Text
text String.[] = []
text (String.◌∷◌ c s) = code c ∷ text s

-- `a === b`
unfoldable pub text_eq : Text → Text → Bool
text_eq [] [] = true
text_eq [] (_ ∷ _) = false
text_eq (_ ∷ _) [] = false
text_eq (a ∷ xs) (b ∷ ys) = a == b && text_eq xs ys

pub text_eq_refl : (a : Text) → text_eq a a ≡ true
unfolding text_eq
text_eq_refl [] = refl
text_eq_refl (x ∷ xs) = ground (arith, text_eq_refl xs)

pub eq_of_text_eq : (a b : Text) → text_eq a b ≡ true → a ≡ b
unfolding text_eq
eq_of_text_eq [] [] h = refl
eq_of_text_eq [] (_ ∷ _) h = cc
eq_of_text_eq (_ ∷ _) [] h = cc
eq_of_text_eq (a ∷ xs) (b ∷ ys) h = ground (arith, eq_of_text_eq xs ys)

-- `a === b` where the first may be null
abbrev pub is_text : Option Text → Text → Bool
is_text none b = false
is_text (some a) b = text_eq a b

abbrev pub is_empty : Text → Bool
is_empty [] = true
is_empty (_ ∷ _) = false

-- `toLowerCase()` on the ASCII letters
unfoldable lower_char : ℕ → ℕ
lower_char c = if leb b'A' c && leb c b'Z' then c + 32 else c

unfoldable pub lower : Text → Text
unfolding lower_char
lower = map lower_char

-- `toUpperCase()` on the ASCII letters
unfoldable upper_char : ℕ → ℕ
upper_char c = if leb b'a' c && leb c b'z' then c - 32 else c

unfoldable pub upper : Text → Text
unfolding upper_char
upper = map upper_char

-- white space as `trim()` reads it, within ASCII
abbrev pub is_space : ℕ → Bool
is_space c = c == 32 || (leb 9 c && leb c 13)

unfoldable trim_start : Text → Text
trim_start [] = []
trim_start (c ∷ cs) = if is_space c then trim_start cs else c ∷ cs

unfoldable pub trim : Text → Text
unfolding trim_start
trim s = reverse (trim_start (reverse (trim_start s)))

abbrev pub is_digit : ℕ → Bool
is_digit c = leb b'0' c && leb c b'9'

unfoldable pub all_digits : Text → Bool
all_digits [] = true
all_digits (c ∷ cs) = is_digit c && all_digits cs

abbrev pub length : Text → ℕ
length [] = 0
length (c ∷ cs) = suc (length cs)

-- `slice(0, n)`
unfoldable pub first_chars : ℕ → Text → Text
first_chars zero t = []
first_chars (suc n) [] = []
first_chars (suc n) (c ∷ cs) = c ∷ first_chars n cs

-- `startsWith`
unfoldable pub starts_with : Text → Text → Bool
starts_with [] t = true
starts_with (p ∷ ps) [] = false
starts_with (p ∷ ps) (c ∷ cs) = p == c && starts_with ps cs

-- `includes`
unfoldable pub contains : Text → Text → Bool
unfolding starts_with
contains p [] = is_empty p
contains p (c ∷ cs) = starts_with p (c ∷ cs) || contains p cs

-- The words of a text: `split(/\s+/)` on a trimmed text that is not empty.
unfoldable pub words : Text → List Text
words [] = []
words (c ∷ cs) =
    let rest = words cs in
    elim rest [
      | [] ↦ if is_space c then [] else (c ∷ []) ∷ []
      | w ∷ ws ↦ if is_space c then (if is_empty w then w ∷ ws else [] ∷ w ∷ ws) else (c ∷ w) ∷ ws
    ]

-- `join(" ")`
unfoldable pub join_words : List Text → Text
join_words [] = []
join_words (w ∷ ws) = elim ws [ [] ↦ w | _ ∷ _ ↦ w ++ (32 ∷ join_words ws) ]

-- A constant table that is read by key, as `TABLE[key]` on the table's own keys.
unfoldable pub lookup {ℓ} : {A : Type ℓ} → Text → List (Text × A) → Option A
lookup key [] = none
lookup key ((k, a) ∷ rows) = if text_eq key k then some a else lookup key rows

-- The decimal digits of a number, on fuel: a number has at most as many digits as its successor says.
unfoldable pub digits_of : (fuel : ℕ) → ℕ → Text
digits_of zero n = []
digits_of (suc f) n =
    let rest = digits_of f (n / 10) in
    if ltb n 10 then (48 + n) ∷ [] else rest ++ (48 + n % 10) ∷ []

-- `String(n)`
unfoldable pub show_ℕ : ℕ → Text
unfolding digits_of
show_ℕ n = digits_of (suc n) n
