-- ===== src/Utils/ByteSize/Loop.antt =====
-- The loop of `ByteSize` comes to its end, whatever the fuel, when it is enough for the six units.
use kit_legacy.Base.{
  ℕ, zero, suc, ◌+◌, ◌-◌, ◌/◌, ◌%◌, ◌*◌, ◌^◌, ◌<◌, ◌≤◌, ◌≡◌, some, arith, Bool-cases, ltb, inl, inr,
  Option-cases,
}
use kit_legacy.Utils.ByteSize.Bounds.{Scaled, scale_kibi}
use kit_legacy.Utils.ByteSize.{scale, byte_base_size}

suc_plus : (n m : ℕ) → suc n + m ≡ suc (n + m)
suc_plus n m = omega arith

-- More fuel changes nothing of a loop that has come to its end.
scale-more :
    (fuel extra n div exp : ℕ) (result : ℕ × ℕ)
    → scale fuel n div exp ≡ some result
    → scale (fuel + extra) n div exp ≡ some result
unfolding scale
scale-more zero extra n div exp result h = absurd (ground (arith, h))
scale-more (suc fuel) extra n div exp result h =
    let rest =
      scale-more fuel extra (n / byte_base_size) ((div * byte_base_size) % 2 ^ 64) (exp + 1)
        result in
    elim (Bool-cases (ltb n byte_base_size)) [
      | inl e ↦ rw (suc_plus fuel extra, e) (rw e at h)
      | inr e ↦ rw (suc_plus fuel extra, e) (rest (rw e at h))
    ]

-- The result of the loop over the bytes of a size, for each fuel of six rounds or more.
unfoldable pub Ends : ℕ → ℕ × ℕ → Type 0
Ends size result =
    (fuel : ℕ) → 6 ≤ fuel → scale fuel (size / byte_base_size) byte_base_size 0 ≡ some result

enough : (fuel : ℕ) → 6 ≤ fuel → 6 + (fuel - 6) ≡ fuel
enough fuel h = omega (arith, h)

-- An `int` of at least 1024: the loop of ByteSize ends within six tests of its condition, and its
-- result does not depend on how many more it is given; its divisor is then the largest power of
-- 1024 up to the size, and its exponent the index of a unit.
pub scale-Ends :
    (size : ℕ)
    → 1024 ≤ size
    → size < 2 ^ 63
    → (result : ℕ × ℕ) × Ends size result × Scaled size (some result)
unfolding Ends
scale-Ends size h g = elim (Option-cases (scale 6 (size / 1024) 1024 0)) [
  | inl e ↦ absurd (rw e at (scale_kibi 0 size h g))
  | inr (result, e) ↦ (
    result,
    λ fuel six. rw (← enough fuel six) (scale-more 6 (fuel - 6) (size / 1024) 1024 0 result e),
    rw e at (scale_kibi 0 size h g),
  )
]
