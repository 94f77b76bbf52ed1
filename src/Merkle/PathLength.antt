-- ===== src/Merkle/PathLength.antt =====
-- `path_length` counts the levels at which the climb from a leaf meets a sibling.
use Prim.Native.Nat.{bit_xor}
use native.Mathlib.Nat.{pow-suc, div-div-eq-div-mul, div-le_self}
use sigsum_lib_go.Prelude.{
  ℕ, zero, suc, ◌+◌, ◌-◌, ◌/◌, ◌%◌, ◌^◌, ◌≤◌, ◌<◌, ◌≡◌, refl, sym, ap, ◌∙◌, ◌≢◌,
}
use sigsum_lib_go.Prelude.{arith, Bool, ◌||◌, ltb, ◌==◌, if◌then◌else◌, Bool-cases, inl, inr}
use sigsum_lib_go.Prelude.Bits.{bit_length, ones_count}
use sigsum_lib_go.Merkle.Verify.{is_odd, path_length}
use sigsum_lib_go.Merkle.Xor.{bit_xor-half, bit_xor_self, eq_of_bit_xor}

-- Whether the node at `fn` on a level whose last node is at `sn` has a sibling.
abbrev pub has_sibling : ℕ → ℕ → Bool
has_sibling fn sn = is_odd fn || ltb fn sn

unfoldable pub siblings_count : ℕ → ℕ → ℕ → ℕ
siblings_count zero fn sn = 0
siblings_count (suc d) fn sn =
    (if has_sibling fn sn then 1 else 0) + siblings_count d (fn / 2) (sn / 2)

-- On the right edge of the tree, siblings are one-bits.
siblings_count_edge : (d n : ℕ) → siblings_count d n n ≡ ones_count d n
unfolding siblings_count ones_count
siblings_count_edge zero n = refl
siblings_count_edge (suc d) n = ground (arith, siblings_count_edge d (n / 2))

ones_count_wider : (d x : ℕ) → x < 2 ^ d → ones_count (suc d) x ≡ ones_count d x
unfolding ones_count
ones_count_wider zero x h = omega arith
ones_count_wider (suc d) x h =
    ap (λ (t : ℕ). x % 2 + t) (ones_count_wider d (x / 2) (omega (arith, pow-suc 2 d)))

pub shift_suc : (x k : ℕ) → x / 2 ^ suc k ≡ x / 2 / 2 ^ k
shift_suc x k =
    ap (λ (t : ℕ). x / t) (omega (arith, pow-suc 2 k)) ∙ sym (div-div-eq-div-mul x 2 (2 ^ k))

-- The sum that `path_length` returns, at width `d` and with `x` for the exclusive or.
low_and_ones : ℕ → ℕ → ℕ → ℕ
low_and_ones d x fn = bit_length d x + ones_count d (fn / 2 ^ bit_length d x)

low_and_ones-zero : (d fn : ℕ) → low_and_ones d 0 fn ≡ ones_count d fn
unfolding low_and_ones bit_length
low_and_ones-zero zero fn = unfold ones_count in refl
low_and_ones-zero (suc d) fn =
    let e : 0 + ones_count (suc d) (fn / 1) ≡ ones_count (suc d) (fn / 1) = omega arith in
    let q : fn / 1 ≡ fn = omega arith in e ∙ ap (ones_count (suc d)) q

low_and_ones-suc :
    (d x fn : ℕ)
    → x ≢ 0
    → fn < 2 ^ suc d
    → low_and_ones (suc d) x fn ≡ suc (low_and_ones d (x / 2) (fn / 2))
unfolding low_and_ones bit_length
low_and_ones-suc d x fn ne h = elim (Bool-cases (x == 0)) [
  | inl e ↦ absurd (ne (ground arith))
  | inr e ↦
      let k = bit_length d (x / 2) in
      let small : fn / 2 / 2 ^ k < 2 ^ d =
        omega (arith, div-le_self (fn / 2) (2 ^ k), pow-suc 2 d) in
      rw e (
        ap (λ (t : ℕ). suc k + ones_count (suc d) t) (shift_suc fn k)
        ∙ ap (λ (t : ℕ). suc k + t) (ones_count_wider d (fn / 2 / 2 ^ k) small)
        ∙ omega arith)
]

low_and_ones-siblings_count :
    (d fn sn : ℕ)
    → fn ≤ sn
    → sn < 2 ^ d
    → low_and_ones d (bit_xor fn sn) fn ≡ siblings_count d fn sn
low_and_ones-siblings_count zero fn sn h k =
    unfold low_and_ones bit_length ones_count siblings_count in refl
low_and_ones-siblings_count (suc d) fn sn h k = elim (Bool-cases (fn == sn)) [
  | inl e ↦
      let eq : fn ≡ sn = ground arith in
      ap (λ (t : ℕ). low_and_ones (suc d) t fn) (ap (bit_xor fn) (sym eq) ∙ bit_xor_self fn)
      ∙ low_and_ones-zero (suc d) fn
      ∙ sym (siblings_count_edge (suc d) fn)
      ∙ ap (siblings_count (suc d) fn) eq
  | inr e ↦
      let lt : fn < sn = ground arith in
      low_and_ones-suc d (bit_xor fn sn) fn (λ z. omega (arith, eq_of_bit_xor fn sn z))
        (omega arith)
      ∙ ap (λ (t : ℕ). suc (low_and_ones d t (fn / 2))) (bit_xor-half fn sn)
      ∙ ap suc (
          low_and_ones-siblings_count d (fn / 2) (sn / 2) (omega arith)
            (omega (arith, pow-suc 2 d)))
      ∙ unfold siblings_count in ground arith
]

-- For an index below a size of at most 2 ^ 64, pathLength is the number of nodes with a sibling on
-- the way from the leaf at the index up to the root.
pub path_length-siblings_count :
    (index size : ℕ)
    → index < size
    → size ≤ 2 ^ 64
    → path_length index size ≡ siblings_count 64 index (size - 1)
unfolding path_length bit_length ones_count low_and_ones
path_length-siblings_count index size h k =
    low_and_ones-siblings_count 64 index (size - 1) (omega arith) (omega arith)
