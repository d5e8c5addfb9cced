-- ===== src/Base/Text.antt =====
-- Text as the code prints it: concatenation, equality, and the decimal numbers of `%d`.
use Prim.Native.Nat.{ℕ, zero, suc, ◌/◌, ◌%◌}
use Prim.Native.String
use Prim.Native.String.{String}
use Prim.Native.Char.{code}
use mathlib.Core.List.{List, [], ◌∷◌}
use mathlib.Core.Bool.{Bool, true, false, ◌&&◌, not, ◌||◌}
use mathlib.Core.Option.{Option, none, some}
use text.Mathlib.Text.{◌==◌ as str_eq}
use kit_legacy.Base.Tests.{ltb, ◌==◌, if◌then◌else◌, is_some}

-- Go's `+` on strings.
infixr 65 ◌&◌
abbrev pub ◌&◌ : String → String → String
s & t = String.◌++◌ s t

-- Go's `==` on strings.
abbrev pub same_text : String → String → Bool
same_text s t = str_eq s t

unfoldable pub digit : ℕ → String
digit d =
    if d == 0
    then "0"
    else if d == 1
    then "1"
    else if d == 2
    then "2"
    else if d == 3
    then "3"
    else if d == 4
    then "4"
    else if d == 5
    then "5"
    else if d == 6
    then "6"
    else if d == 7
    then "7"
    else if d == 8
    then "8"
    else "9"

unfoldable pub digits : ℕ → ℕ → String
digits zero n = ""
digits (suc fuel) n =
    let more = digits fuel (n / 10) & digit (n % 10) in if ltb n 10 then digit n else more

-- A number in decimal; it has fewer digits than the fuel of `suc n`.
unfoldable pub show : ℕ → String
unfolding digit digits
show n = digits (suc n) n

-- The code points of a text.
abbrev pub codes : String → List ℕ
codes String.[] = []
codes (String.◌∷◌ c s) = code c ∷ codes s

abbrev pub same_codes : List ℕ → List ℕ → Bool
same_codes [] [] = true
same_codes (a ∷ as') (b ∷ bs) = a == b && same_codes as' bs
same_codes _ _ = false

-- What follows a prefix, where the text begins with it.
unfoldable pub after_prefix : List ℕ → List ℕ → Option (List ℕ)
after_prefix [] s = some s
after_prefix (p ∷ ps) [] = none
after_prefix (p ∷ ps) (c ∷ s) = if p == c then after_prefix ps s else none

unfoldable pub contains : List ℕ → List ℕ → Bool
contains t [] = is_some (after_prefix t [])
contains t (c ∷ s) = is_some (after_prefix t (c ∷ s)) || contains t s

abbrev pub is_one : List String → List ℕ → Bool
is_one [] s = false
is_one (text ∷ texts) s = same_codes (codes text) s || is_one texts s

-- What `^.*\.(…)$` matches, by the alternatives: an ending in a dot and one of them, with no line feed
-- in front of it.
unfoldable pub has_extension : List String → List ℕ → Bool
has_extension extensions [] = false
has_extension extensions (c ∷ s) =
    (c == b'.' && is_one extensions s) || (not (c == 10) && has_extension extensions s)
