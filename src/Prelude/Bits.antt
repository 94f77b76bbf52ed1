-- ===== src/Prelude/Bits.antt =====
-- Words of 64 bits: what the program uses of `math/bits`. A shift `x >> k` is `x / 2 ^ k`.
use Prim.Native.Nat.{ℕ, zero, suc, ◌+◌, ◌/◌, ◌%◌, ◌^◌}
use sigsum_lib_go.Prelude.Tests.{◌==◌, if◌then◌else◌}

-- Unsigned 64-bit arithmetic wraps around.
abbrev pub u64 : ℕ → ℕ
u64 n = n % 2 ^ 64

-- The number of bits up to the highest one among the lowest `w`.
unfoldable pub bit_length : ℕ → ℕ → ℕ
bit_length zero x = 0
bit_length (suc w) x = let rest = bit_length w (x / 2) in if x == 0 then 0 else suc rest

unfoldable pub ones_count : ℕ → ℕ → ℕ
ones_count zero x = 0
ones_count (suc w) x = x % 2 + ones_count w (x / 2)

unfoldable pub trailing_zeros : ℕ → ℕ → ℕ
trailing_zeros zero x = 0
trailing_zeros (suc w) x = let rest = trailing_zeros w (x / 2) in if x % 2 == 1 then 0 else suc rest

-- bits.Len64, bits.OnesCount64, bits.TrailingZeros64
abbrev pub len64 : ℕ → ℕ
len64 x = bit_length 64 x

abbrev pub ones_count64 : ℕ → ℕ
ones_count64 x = ones_count 64 x

abbrev pub trailing_zeros64 : ℕ → ℕ
trailing_zeros64 x = trailing_zeros 64 x
