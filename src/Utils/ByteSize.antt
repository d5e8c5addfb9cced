-- ===== src/Utils/ByteSize.antt =====
-- `Utils.ByteSize` of kit.go: the loop, the index into the letters of the units, and the text of
-- `%.1f`, which is printed from the float64 of the size.
pub mod Rounding
pub mod Bounds
pub mod Loop
use kit_legacy.Base.{
  ℕ, zero, suc, ◌+◌, ◌-◌, ◌*◌, ◌/◌, ◌%◌, ◌^◌, ℤ, pos, pos_part, ltb_ℤ, ltb, ◌==◌, show, show_ℤ,
  String, ◌&◌, Bool, ◌&&◌, Option, none, some, if◌then◌else◌,
}
use Prim.Native.String
use Prim.Native.Char.{Char, code}

abbrev pub byte_base_size : ℕ
byte_base_size = 1024

-- A quotient rounded to the nearest number, and to the even one of two that are as near.
unfoldable pub half_even : ℕ → ℕ → ℕ
half_even a b =
    let q = a / b in
    let twice = 2 * (a % b) in if ltb twice b then q else if ltb b twice then q + 1 else q + q % 2

-- The distance of the float64 numbers around `n`: the mantissa has 53 bits.
unfoldable pub spacing : ℕ → ℕ → ℕ → ℕ
spacing zero unit n = unit
spacing (suc fuel) unit n =
    let wider = spacing fuel (2 * unit) n in if ltb n (unit * 2 ^ 53) then unit else wider

-- `float64(n)`, for an `n` below 2^63, where ten doublings are enough.
unfoldable pub float64 : ℕ → ℕ
float64 n = let unit = spacing 10 1 n in half_even n unit * unit

-- `%.1f` of a number of tenths.
abbrev pub one_decimal : ℕ → String
one_decimal tenths = show (tenths / 10) & "." & show (tenths % 10)

-- `strings.TrimRight` with a set of one character.
unfoldable pub trim_right : ℕ → String → String
trim_right c String.[] = String.[]
trim_right c (String.◌∷◌ x s) =
    let rest = trim_right c s in
    elim rest [
      | String.[] ↦ if code x == c then String.[] else String.◌∷◌ x String.[]
      | String.◌∷◌ y t ↦ String.◌∷◌ x (String.◌∷◌ y t)
    ]

-- `"KMGTPE"[exp]`; none where the index is out of range, which panics.
unfoldable pub exponent_at : ℕ → Option String
exponent_at exp =
    if exp == 0
    then some "K"
    else if exp == 1
    then some "M"
    else if exp == 2
    then some "G"
    else if exp == 3
    then some "T"
    else if exp == 4
    then some "P"
    else if exp == 5
    then some "E"
    else none

-- The loop from `n`, `div` and `exp`; none where the fuel is used up. The product is an `int64`.
unfoldable pub scale : ℕ → ℕ → ℕ → ℕ → Option (ℕ × ℕ)
scale zero n div exp = none
scale (suc fuel) n div exp =
    let rest = scale fuel (n / byte_base_size) ((div * byte_base_size) % 2 ^ 64) (exp + 1) in
    if ltb n byte_base_size then some (div, exp) else rest

-- A product of 2^63 or more, in the wrapped form of `scale`, would be negative in the source.
abbrev pub tenths_of : ℕ → ℕ → ℕ
tenths_of size div = half_even (10 * float64 size) div

unfoldable pub with_exponent : String → Option String → Option String
with_exponent number none = none
with_exponent number (some exponent) =
    some (trim_right b'.' (trim_right b'0' number) & exponent & "B")

unfoldable pub print_scaled : ℕ → Option (ℕ × ℕ) → Option String
print_scaled size none = none
print_scaled size (some (div, exp)) =
    with_exponent (one_decimal (tenths_of size div)) (exponent_at exp)

-- none is a panic.
unfoldable pub byte_size : ℤ → Option String
byte_size size =
    if ltb_ℤ size (pos byte_base_size)
    then some (show_ℤ size & "B")
    else print_scaled (pos_part size) (scale 64 (pos_part size / byte_base_size) byte_base_size 0)
