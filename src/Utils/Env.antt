-- ===== src/Utils/Env.antt =====
-- The `GetEnvAs…` methods of kit.go over the variables of the process, with strconv's `Atoi` and
-- `ParseBool` and `strings.Split` as they use them.
pub mod Numbers
pub mod Slices
use kit_legacy.Base.{
  ℕ, suc, ◌+◌, ◌-◌, ◌*◌, ◌^◌, ℤ, pos, negsuc, ltb, leb, ◌==◌, String, same_text, Bool, true, false,
  ◌&&◌, ◌||◌, Option, none, some, or_default, List, [], ◌∷◌, length, if◌then◌else◌,
}
use Prim.Native.String
use Prim.Native.Char.{Char, code}

-- os.LookupEnv
abbrev pub Variables : Type 0
Variables = String → Option String

unfoldable pub get_env_as_string : Variables → String → String → String
get_env_as_string env key def = or_default (env key) def

abbrev pub is_digit : Char → Bool
is_digit c = leb b'0' (code c) && leb (code c) b'9'

-- Decimal digits read behind the number `n`.
unfoldable pub digits_from : String → ℕ → Option ℕ
digits_from String.[] n = some n
digits_from (String.◌∷◌ c s) n =
    let rest = digits_from s (n * 10 + (code c - b'0')) in if is_digit c then rest else none

unfoldable pub unsigned : String → Option ℕ
unsigned String.[] = none
unsigned (String.◌∷◌ c s) = digits_from (String.◌∷◌ c s) 0

-- The number is an `int`, or it is out of range.
unfoldable pub in_range : Bool → Option ℕ → Option ℤ
in_range negative none = none
in_range true (some n) =
    if leb n (2 ^ 63) then some (if n == 0 then pos 0 else negsuc (n - 1)) else none
in_range false (some n) = if ltb n (2 ^ 63) then some (pos n) else none

-- strconv.Atoi: none is an error.
unfoldable pub atoi : String → Option ℤ
atoi String.[] = none
atoi (String.◌∷◌ c s) =
    if code c == b'-'
    then in_range true (unsigned s)
    else if code c == b'+'
    then in_range false (unsigned s)
    else in_range false (unsigned (String.◌∷◌ c s))

unfoldable pub get_env_as_int : Variables → String → ℤ → ℤ
get_env_as_int env key def = or_default (atoi (get_env_as_string env key "")) def

unfoldable pub one_of : List String → String → Bool
one_of [] s = false
one_of (t ∷ ts) s = same_text s t || one_of ts s

-- strconv.ParseBool: none is an error.
unfoldable pub parse_bool : String → Option Bool
parse_bool s =
    if one_of ("1" ∷ "t" ∷ "T" ∷ "true" ∷ "TRUE" ∷ "True" ∷ []) s
    then some true
    else if one_of ("0" ∷ "f" ∷ "F" ∷ "false" ∷ "FALSE" ∷ "False" ∷ []) s
    then some false
    else none

unfoldable pub get_env_as_bool : Variables → String → Bool → Bool
get_env_as_bool env key def = or_default (parse_bool (get_env_as_string env key "")) def

unfoldable pub in_front : Char → List String → List String
in_front c [] = []
in_front c (s ∷ rest) = String.◌∷◌ c s ∷ rest

-- strings.Split by a separator of one character.
unfoldable pub split : ℕ → String → List String
split sep String.[] = "" ∷ []
split sep (String.◌∷◌ c s) =
    let rest = split sep s in if code c == sep then "" ∷ rest else in_front c rest

unfoldable pub get_env_as_slice : Variables → String → List String → List String
get_env_as_slice env key def =
    let value = split b',' (get_env_as_string env key "") in
    if leb 1 (length value) then value else def
