-- ===== src/Tests/ByteSize.antt =====
-- Sizes printed.
use kit_legacy.Base.{ℕ, show, pos, ◌≡◌, refl, some, arith, ◌-◌, ◌^◌}
use kit_legacy.Utils.ByteSize.{
  byte_size, half_even, spacing, float64, trim_right, exponent_at, scale, with_exponent,
  print_scaled,
}
use kit_legacy.Utils.ByteSize.Bounds.{Scaled, Prints, byte_size-Prints}
use kit_legacy.Utils.ByteSize.Loop.{Ends, scale-Ends}

small_test : byte_size (pos 1023) ≡ some "1023B"
unfolding byte_size show
small_test = refl

middle_test : byte_size (pos 1536) ≡ some "1.5KB"
unfolding byte_size half_even spacing float64 trim_right exponent_at scale with_exponent
    print_scaled show
middle_test = refl

-- the number 1024 of a smaller unit
edge_test : byte_size (pos (2 ^ 20 - 1)) ≡ some "1024KB"
unfolding byte_size half_even spacing float64 trim_right exponent_at scale with_exponent
    print_scaled show
edge_test = refl

largest_test : byte_size (pos (2 ^ 63 - 1)) ≡ some "8EB"
unfolding byte_size half_even spacing float64 trim_right exponent_at scale with_exponent
    print_scaled show
largest_test = refl

byte_size-Prints_example : Prints 2097152 (byte_size (pos 2097152))
byte_size-Prints_example = byte_size-Prints 2097152 (omega arith) (omega arith)

scale-Ends_example : (result : ℕ × ℕ) × Ends (2 ^ 63 - 1) result × Scaled (2 ^ 63 - 1) (some result)
scale-Ends_example = scale-Ends (2 ^ 63 - 1) (omega arith) (omega arith)
