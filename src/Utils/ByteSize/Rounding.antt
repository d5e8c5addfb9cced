-- ===== src/Utils/ByteSize/Rounding.antt =====
-- The float64 of a size and the rounding of a quotient: each is near, and passes no multiple of 1024.
use kit_legacy.Base.{
  ℕ, zero, suc, ◌+◌, ◌*◌, ◌/◌, ◌%◌, ◌^◌, ◌<◌, ◌≤◌, ◌≡◌, refl, Bool-cases, ltb, ap, arith, ◌⊎◌, inl,
  inr,
}
use native.Mathlib.Nat.{
  mod-add-div', mod-lt, pow-suc, one-le-pow, le-mul_of_pos_right, le-div_iff_mul-le,
  mul-le-mul_right, div-le_of_le-mul, mul-mod_left, div-lt_iff_lt-mul,
}
use kit_legacy.Utils.ByteSize.{half_even, float64, spacing}

mod-two : (n : ℕ) → (n % 2 ≡ 0) ⊎ (n % 2 ≡ 1)
mod-two n = omega arith

half_even_cases :
    (a b : ℕ)
    → ((half_even a b ≡ a / b) × (2 * (a % b) ≤ b))
      ⊎ ((half_even a b ≡ a / b + 1) × (b ≤ 2 * (a % b)))
unfolding half_even
half_even_cases a b = ground (arith, mod-two (a / b))

pub near :
    (a b : ℕ)
    → 0 < b
    → (2 * a ≤ 2 * (half_even a b * b) + b) × (2 * (half_even a b * b) ≤ 2 * a + b)
near a b pos_b = elim (half_even_cases a b) [
  | inl (e, h) ↦ rw e (omega (arith, mod-add-div' a b), omega (arith, mod-add-div' a b))
  | inr (e, h) ↦
      rw e (omega (arith, mod-add-div' a b, mod-lt a pos_b), omega (arith, mod-add-div' a b))
]

-- Rounding to multiples of a number that divides 1024 passes no multiple of 1024.
Rounds : ℕ → ℕ → Type 0
Rounds n unit =
    (0 < unit)
    × (unit ≤ 1024)
    × ((d : ℕ) → 1024 * d ≤ n → 1024 * d ≤ half_even n unit * unit)
    × ((d : ℕ) → n ≤ 1024 * d → half_even n unit * unit ≤ 1024 * d)

half_even_below : (n unit x : ℕ) → x ≤ n / unit → x ≤ half_even n unit
half_even_below n unit x h = ground (arith, half_even_cases n unit)

half_even_above : (n unit x : ℕ) → 0 < unit → n ≤ x * unit → half_even n unit ≤ x
half_even_above n unit x p h = elim (half_even_cases n unit) [
  | inl (e, _) ↦ rw e (div-le_of_le-mul unit (omega (arith, h)))
  | inr (e, r) ↦
      rw e (grind (arith, mul-mod_left x unit, div-lt_iff_lt-mul {k = unit} {x = n} {y = x} p))
]

Rounds-divisor : (n unit e : ℕ) → unit * e ≡ 1024 → 0 < unit → unit ≤ 1024 → Rounds n unit
unfolding Rounds
Rounds-divisor n unit e h p q =
    let multiple = λ (d : ℕ). ap (λ (t : ℕ). t * d) h in
    (
      p,
      q,
      λ d m.
          let below =
            half_even_below n unit (e * d)
              ((le-div_iff_mul-le p).1 (omega (arith, multiple d, m))) in
          omega (arith, multiple d, mul-le-mul_right unit below),
      λ d m.
          let above = half_even_above n unit (e * d) p (omega (arith, multiple d, m)) in
          omega (arith, multiple d, mul-le-mul_right unit above),
    )

doubled : (unit fuel : ℕ) → unit * 2 ^ suc fuel ≡ 1024 → 2 * unit * 2 ^ fuel ≡ 1024
doubled unit fuel h = omega (arith, ap (λ (t : ℕ). unit * t) (pow-suc 2 fuel), h)

spacing-Rounds :
    (fuel unit n : ℕ)
    → unit * 2 ^ fuel ≡ 1024
    → 0 < unit
    → unit ≤ 1024
    → Rounds n (spacing fuel unit n)
unfolding spacing
spacing-Rounds zero unit n h p q = Rounds-divisor n unit 1 h p q
spacing-Rounds (suc fuel) unit n h p q =
    let wider = doubled unit fuel h in
    let small : 2 * unit ≤ 1024 = omega (
      arith,
      wider,
      le-mul_of_pos_right {m = 2 ^ fuel} (2 * unit) (one-le-pow fuel 2 (omega arith)),
    ) in
    let rest = spacing-Rounds fuel (2 * unit) n wider (omega arith) small in
    let here = Rounds-divisor n unit (2 ^ suc fuel) h p q in
    elim (Bool-cases (ltb n (unit * 2 ^ 53))) [ inl e ↦ rw e here | inr e ↦ rw e rest ]

float64-Rounds : (n : ℕ) → (unit : ℕ) × Rounds n unit × (float64 n ≡ half_even n unit * unit)
unfolding float64
float64-Rounds n =
    (spacing 10 1 n, spacing-Rounds 10 1 n (omega arith) (omega arith) (omega arith), refl)

pub float64_near :
    (size d : ℕ)
    → 1024 * d ≤ size
    → size < 1024 * (1024 * d)
    → (1024 * d ≤ float64 size)
      × (float64 size ≤ 1024 * (1024 * d))
      × (2 * size ≤ 2 * float64 size + 1024)
      × (2 * float64 size ≤ 2 * size + 1024)
unfolding Rounds
float64_near size d h g =
    let (unit, (positive, small, low, high), e) = float64-Rounds size in
    let (below, above) = near size unit positive in
    rw e (low d h, high (1024 * d) (omega arith), omega arith, omega arith)
