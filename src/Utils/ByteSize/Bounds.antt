-- ===== src/Utils/ByteSize/Bounds.antt =====
-- The loop of `ByteSize` ends, its divisor and exponent stay in range, and what the text says.
use kit_legacy.Base.{
  ℕ, suc, ◌+◌, ◌*◌, ◌/◌, ◌^◌, ◌<◌, ◌≤◌, ◌≡◌, refl, String, ◌&◌, Option, none, some, arith, pos,
  Option-cases, sym, subst, ltb_ℤ, false, inl, inr,
}
use native.Mathlib.Decide.{dec_lt}
use native.Mathlib.Nat.{pow-succ', one-le-pow, mul-le-mul_right}
use kit_legacy.Utils.ByteSize.Rounding.{near, float64_near}
use kit_legacy.Utils.ByteSize.{
  exponent_at, with_exponent, one_decimal, trim_right, tenths_of, scale, float64, byte_size,
  print_scaled,
}

-- The divisor is the largest power of 1024 up to the size, and its exponent an index of a unit.
abbrev pub Scaled : ℕ → Option (ℕ × ℕ) → Type 0
Scaled size none = ⊥
Scaled size (some (div, exp)) =
    (exp ≤ 5) × (div ≡ 1024 ^ suc exp) × (div ≤ size) × (size < 1024 * div)

scale_exbi :
    (fuel size : ℕ)
    → 2 ^ 60 ≤ size
    → size < 2 ^ 63
    → Scaled size (scale (suc fuel) (size / 2 ^ 60) (2 ^ 60) 5)
unfolding scale
scale_exbi fuel size h g = ground arith

scale_pebi :
    (fuel size : ℕ)
    → 2 ^ 50 ≤ size
    → size < 2 ^ 63
    → Scaled size (scale (suc (suc fuel)) (size / 2 ^ 50) (2 ^ 50) 4)
unfolding scale
scale_pebi fuel size h g = ground (arith, scale_exbi fuel size)

scale_tebi :
    (fuel size : ℕ)
    → 2 ^ 40 ≤ size
    → size < 2 ^ 63
    → Scaled size (scale (suc (suc (suc fuel))) (size / 2 ^ 40) (2 ^ 40) 3)
unfolding scale
scale_tebi fuel size h g = ground (arith, scale_pebi fuel size)

scale_gibi :
    (fuel size : ℕ)
    → 2 ^ 30 ≤ size
    → size < 2 ^ 63
    → Scaled size (scale (suc (suc (suc (suc fuel)))) (size / 2 ^ 30) (2 ^ 30) 2)
unfolding scale
scale_gibi fuel size h g = ground (arith, scale_tebi fuel size)

scale_mebi :
    (fuel size : ℕ)
    → 2 ^ 20 ≤ size
    → size < 2 ^ 63
    → Scaled size (scale (suc (suc (suc (suc (suc fuel))))) (size / 2 ^ 20) (2 ^ 20) 1)
unfolding scale
scale_mebi fuel size h g = ground (arith, scale_gibi fuel size)

pub scale_kibi :
    (fuel size : ℕ)
    → 2 ^ 10 ≤ size
    → size < 2 ^ 63
    → Scaled size (scale (suc (suc (suc (suc (suc (suc fuel)))))) (size / 2 ^ 10) (2 ^ 10) 0)
unfolding scale
scale_kibi fuel size h g = ground (arith, scale_mebi fuel size)

-- What the text of a size says: a number of tenths and a unit. The unit is the largest power of 1024
-- up to the size; the number is between 1 and 1024, and within half a tenth of the quotient of the
-- size's float64, itself within 512 of the size.
unfoldable pub Prints : ℕ → Option String → Type 0
Prints size text =
    (exp tenths : ℕ) × (letter : String) × (exp ≤ 5)
    × (exponent_at exp ≡ some letter)
    × (1024 ^ suc exp ≤ size)
    × (size < 1024 * 1024 ^ suc exp)
    × (10 ≤ tenths)
    × (tenths ≤ 10240)
    × (20 * size ≤ (2 * tenths + 1) * 1024 ^ suc exp + 10240)
    × (2 * tenths * 1024 ^ suc exp ≤ 20 * size + 1024 ^ suc exp + 10240)
    × (text ≡ some (trim_right b'.' (trim_right b'0' (one_decimal tenths)) & letter & "B"))

Near : ℕ → ℕ → Type 0
Near size div =
    (10 ≤ tenths_of size div)
    × (tenths_of size div ≤ 10240)
    × (20 * size ≤ (2 * tenths_of size div + 1) * div + 10240)
    × (2 * tenths_of size div * div ≤ 20 * size + div + 10240)

at_least_ten : (f t div : ℕ) → 0 < div → div ≤ f → 20 * f ≤ 2 * (t * div) + div → 10 ≤ t
at_least_ten f t div p h g = elim (dec_lt t 10) [
  | yes q ↦ absurd (omega (arith, mul-le-mul_right {m = t} {n = 9} div (omega (arith, q))))
  | no q ↦ omega (arith, q)
]

at_most_ten : (f t div : ℕ) → 0 < div → f ≤ 1024 * div → 2 * (t * div) ≤ 20 * f + div → t ≤ 10240
at_most_ten f t div p h g = elim (dec_lt 10240 t) [
  | yes q ↦ absurd (omega (arith, mul-le-mul_right {m = 10241} {n = t} div (omega (arith, q))))
  | no q ↦ omega (arith, q)
]

tenths-Near :
    (size d : ℕ) → 0 < d → 1024 * d ≤ size → size < 1024 * (1024 * d) → Near size (1024 * d)
unfolding Near
tenths-Near size d p h g =
    let (low, high, below, above) = float64_near size d h g in
    let div = 1024 * d in
    let t = tenths_of size div in
    let (lower, upper) = near (10 * float64 size) div (omega (arith, p)) in
    (
      at_least_ten (float64 size) t div (omega (arith, p)) low (omega (arith, lower)),
      at_most_ten (float64 size) t div (omega (arith, p)) high (omega (arith, upper)),
      omega (arith, lower, below),
      omega (arith, upper, above),
    )

letters_lem : (exp : ℕ) → exp ≤ 5 → (letter : String) × (exponent_at exp ≡ some letter)
unfolding exponent_at
letters_lem exp h = elim (Option-cases (exponent_at exp)) [
  | inl e ↦ absurd (ground arith)
  | inr found ↦ found
]

Scaled-Prints :
    (size : ℕ) (scaled : Option (ℕ × ℕ))
    → Scaled size scaled
    → Prints size (print_scaled size scaled)
unfolding Prints print_scaled with_exponent Near
Scaled-Prints size none (h) = absurd h
Scaled-Prints size (some (div, exp)) (small, power, low, high) =
    let (letter, found) = letters_lem exp small in
    let split = pow-succ' 1024 exp in
    let (ten, most, below, above) = subst {A = ℕ} (Near size) (sym split) (
      tenths-Near size (1024 ^ exp) (one-le-pow exp 1024 (omega arith)) (omega (arith, split))
        (omega (arith, split))) in
    rw power (
      exp,
      tenths_of size (1024 ^ suc exp),
      letter,
      small,
      found,
      omega arith,
      omega arith,
      ten,
      most,
      below,
      above,
      rw found refl,
    )

not_small : (size : ℕ) → 1024 ≤ size → ltb_ℤ (pos size) (pos 1024) ≡ false
not_small size h = ground arith

-- An `int` of at least 1024 never makes ByteSize panic: it prints a number of tenths and a unit,
-- where the unit is the largest power of 1024 up to the size, the number lies between 1 and 1024,
-- and its product with the unit is within half a tenth of the unit of the size, give or take the
-- rounding of the size to a float64, of at most 512.
pub byte_size-Prints : (size : ℕ) → 1024 ≤ size → size < 2 ^ 63 → Prints size (byte_size (pos size))
unfolding byte_size
byte_size-Prints size h g = rw (not_small size h) (Scaled-Prints size _ (scale_kibi 58 size h g))
