-- ===== src/Merkle/SplitLaws.antt =====
-- `split` in pkg/merkle/tree.go is the largest power of two below a size.
use sigsum_lib_go.Prelude.{ℕ, zero, suc, ◌-◌, ◌/◌, ◌^◌, ◌≤◌, ◌<◌, ◌≡◌, refl, ap, arith, false, ltb}
use sigsum_lib_go.Prelude.Bits.{bit_length, u64}
use sigsum_lib_go.Result.{ok}
use sigsum_lib_go.Merkle.Levels.{one-le-pow}
use sigsum_lib_go.Merkle.Prove.{split}
use native.Mathlib.Nat.{pow-suc, pow-le-pow_right}

bit_length-zero : (w : ℕ) → bit_length w 0 ≡ 0
unfolding bit_length
bit_length-zero zero = refl
bit_length-zero (suc w) = refl

bit_length-pow : (w d x : ℕ) → d < w → 2 ^ d ≤ x → x < 2 ^ suc d → bit_length w x ≡ suc d
unfolding bit_length
bit_length-pow zero d x h lo hi = absurd (omega arith)
bit_length-pow (suc w) zero x h lo hi =
    let one : x ≡ 1 = omega arith in
    let half : x / 2 ≡ 0 = omega arith in rw (half, bit_length-zero w, one) refl
bit_length-pow (suc w) (suc d) x h lo hi =
    let rest : bit_length w (x / 2) ≡ suc d =
      bit_length-pow w d (x / 2) (omega arith) (omega (arith, pow-suc 2 d))
        (omega (arith, pow-suc 2 (suc d))) in
    rw rest (ground (arith, one-le-pow (suc d)))

-- The largest power of two below a size.
pub split-pow : (d n : ℕ) → d < 64 → 2 ^ d < n → n ≤ 2 ^ suc d → split n ≡ ok (2 ^ d)
unfolding split
split-pow d n h lo hi =
    let bits : bit_length 64 (n - 1) ≡ suc d =
      bit_length-pow 64 d (n - 1) h (omega arith) (omega (arith, one-le-pow d)) in
    let many : ltb n 2 ≡ false = ground (arith, one-le-pow d) in
    let fits : 2 ^ d ≤ 2 ^ 63 =
      pow-le-pow_right {n = 2} (omega arith) {i = d} {j = 63} (omega arith) in
    let small : u64 (2 ^ d) ≡ 2 ^ d = omega arith in
    let down : suc d - 1 ≡ d = omega arith in rw (many, bits, down) (ap ok small)
