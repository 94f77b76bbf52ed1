-- ===== src/Merkle/Trim.antt =====
-- The bottom levels that VerifyConsistency trims off both trees.
use native.Mathlib.Nat.{pow-suc}
use sigsum_lib_go.Prelude.{
  ℕ, zero, suc, ◌+◌, ◌-◌, ◌*◌, ◌/◌, ◌%◌, ◌^◌, ◌≤◌, ◌<◌, ◌≡◌, refl, sym, ap, ◌∙◌, arith,
}
use sigsum_lib_go.Prelude.{
  List, ◌++◌, length, take, drop, length-take, take-append, take-append-drop,
}
use sigsum_lib_go.Prelude.{◌==◌, Bool-cases, inl, inr}
use sigsum_lib_go.Prelude.Bits.{trailing_zeros}
use sigsum_lib_go.Crypto.{Hash, Sha256}
use sigsum_lib_go.Merkle.PathLength.{shift_suc}
use sigsum_lib_go.Merkle.Levels.{level, levels, length-level, levels-append, levels-suc}

-- A size is a number of whole subtrees of its lowest one-bit.
pub trailing_zeros-divides :
    (w m : ℕ)
    → 0 < m
    → m < 2 ^ w
    → m ≡ 2 ^ trailing_zeros w m * ((m - 1) / 2 ^ trailing_zeros w m + 1)
unfolding trailing_zeros
trailing_zeros-divides zero m h k = absurd (omega arith)
trailing_zeros-divides (suc w) m h k = elim (Bool-cases (m % 2 == 1)) [
  | inl odd ↦ rw odd (omega arith)
  | inr even ↦
      let t : ℕ = trailing_zeros w (m / 2) in
      let e : m % 2 ≡ 0 = ground arith in
      let ih : m / 2 ≡ 2 ^ t * ((m / 2 - 1) / 2 ^ t + 1) =
        trailing_zeros-divides w (m / 2) (omega arith) (omega (arith, pow-suc 2 w)) in
      let half : (m - 1) / 2 ^ suc t ≡ (m / 2 - 1) / 2 ^ t =
        shift_suc (m - 1) t ∙ ap (λ (x : ℕ). x / 2 ^ t) (omega arith) in
      rw (even, half)
        (omega (arith, ih, ap (λ (x : ℕ). x * ((m / 2 - 1) / 2 ^ t + 1)) (pow-suc 2 t)))
]

pub div_mono : (t a b : ℕ) → a ≤ b → a / 2 ^ t ≤ b / 2 ^ t
div_mono zero a b h = omega arith
div_mono (suc t) a b h =
    omega (arith, shift_suc a t, shift_suc b t, div_mono t (a / 2) (b / 2) (omega arith))

pairs_below : (n : ℕ) → 1 ≤ n → (n - 1) / 2 ≡ (n + 1) / 2 - 1
pairs_below n h = omega arith

module _ (sha : Sha256) where
  pub levels_comm :
      (a b : ℕ) (xs : List Hash) → levels sha a (levels sha b xs) ≡ levels sha b (levels sha a xs)
  levels_comm zero b xs = unfold levels in refl
  levels_comm (suc a) b xs =
      levels-suc sha a (levels sha b xs)
      ∙ ap (level sha) (levels_comm a b xs)
      ∙ sym (levels-suc sha b (levels sha a xs))
      ∙ levels_level_of b (levels sha a xs)
      ∙ ap (levels sha b) (sym (levels-suc sha a xs))
    where
      levels_level_of :
          (d : ℕ) (ys : List Hash) → levels sha (suc d) ys ≡ levels sha d (level sha ys)
      levels_level_of d ys = unfold levels in refl

  pub length-levels :
      (t : ℕ) (xs : List Hash)
      → 1 ≤ length xs
      → length (levels sha t xs) ≡ (length xs - 1) / 2 ^ t + 1
  unfolding levels
  length-levels zero xs h = omega arith
  length-levels (suc t) xs h = omega (
    arith,
    length-levels t (level sha xs) (omega (arith, length-level sha xs)),
    length-level sha xs,
    shift_suc (length xs - 1) t,
    ap (λ (n : ℕ). n / 2 ^ t) (pairs_below (length xs) h),
    ap (λ (n : ℕ). (n - 1) / 2 ^ t) (length-level sha xs),
  )

  length-levels_mul :
      (t q : ℕ) (xs : List Hash) → length xs ≡ 2 ^ t * q → length (levels sha t xs) ≡ q
  unfolding levels
  length-levels_mul zero q xs e = omega arith
  length-levels_mul (suc t) q xs e =
      length-levels_mul t q (level sha xs)
        (omega (arith, length-level sha xs, ap (λ (n : ℕ). n * q) (pow-suc 2 t)))

  -- The level over the first whole subtrees is the front of the level over all.
  pub levels-take :
      (t q : ℕ) (xs : List Hash)
      → 2 ^ t * q ≤ length xs
      → levels sha t (take (2 ^ t * q) xs) ≡ take q (levels sha t xs)
  levels-take t q xs h =
      let front : List Hash = take (2 ^ t * q) xs in
      let back : List Hash = drop (2 ^ t * q) xs in
      let n : length front ≡ 2 ^ t * q = omega (arith, length-take (2 ^ t * q) xs) in
      let m = length-levels_mul t q front n in
      sym (
        ap (λ ys. take q (levels sha t ys)) (sym (take-append-drop (2 ^ t * q) xs))
        ∙ ap (take q) (levels-append sha t q front back n)
        ∙ ap (λ (k : ℕ). take k (levels sha t front ++ levels sha t back)) (sym m)
        ∙ take-append (levels sha t front) (levels sha t back))
