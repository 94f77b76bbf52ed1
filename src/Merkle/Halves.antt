-- ===== src/Merkle/Halves.antt =====
-- The siblings and the compact range of a list of hashes that is cut at a power of two: the view of the
-- tree that inclusion and consistency proofs take when they split it.
use sigsum_lib_go.Prelude.{
  ℕ, zero, suc, ◌+◌, ◌/◌, ◌%◌, ◌^◌, ◌≤◌, ◌<◌, ◌≡◌, refl, sym, ap, ◌∙◌, arith,
}
use sigsum_lib_go.Prelude.{List, [], ◌∷◌, ◌++◌, length, append_assoc}
use sigsum_lib_go.Crypto.{Hash, Sha256}
use sigsum_lib_go.Merkle.Levels.{level, levels, level-append, length-level}
use sigsum_lib_go.Merkle.Siblings.{sibling}
use sigsum_lib_go.Merkle.Climb.{optional, sibling_path}
use native.Mathlib.Nat.{pow-suc}
use mathlib.Core.Path.{ap₂}

sibling-append_left :
    (xs ys : List Hash) (i : ℕ)
    → length xs % 2 ≡ 0
    → i < length xs
    → sibling (xs ++ ys) i ≡ sibling xs i
unfolding sibling
sibling-append_left [] ys i e h = absurd (omega arith)
sibling-append_left (x ∷ []) ys i e h = absurd (omega arith)
sibling-append_left (x ∷ y ∷ xs) ys zero e h = refl
sibling-append_left (x ∷ y ∷ xs) ys (suc zero) e h = refl
sibling-append_left (x ∷ y ∷ xs) ys (suc (suc i)) e h =
    sibling-append_left xs ys i (omega arith) (omega arith)

sibling-append_right :
    (xs ys : List Hash) (i j : ℕ)
    → length xs % 2 ≡ 0
    → j ≡ length xs + i
    → sibling (xs ++ ys) j ≡ sibling ys i
unfolding sibling
sibling-append_right [] ys i j e h = ap (sibling ys) (omega (arith, h))
sibling-append_right (x ∷ []) ys i j e h = absurd (omega arith)
sibling-append_right (x ∷ y ∷ xs) ys i zero e h = absurd (omega arith)
sibling-append_right (x ∷ y ∷ xs) ys i (suc zero) e h = absurd (omega arith)
sibling-append_right (x ∷ y ∷ xs) ys i (suc (suc j)) e h =
    sibling-append_right xs ys i j (omega arith) (omega arith)

module _ (sha : Sha256) where
  -- A subtree that fills d levels has no sibling above them.
  pub sibling_path_small :
      (d : ℕ) (xs : List Hash) (i : ℕ)
      → length xs ≤ 2 ^ d
      → i < length xs
      → sibling_path sha (suc d) xs i ≡ sibling_path sha d xs i
  unfolding sibling_path sibling
  sibling_path_small zero [] i n h = absurd (omega arith)
  sibling_path_small zero (x ∷ []) i n h = refl
  sibling_path_small zero (x ∷ y ∷ xs) i n h = absurd (omega arith)
  sibling_path_small (suc d) xs i n h =
      ap (λ p. optional (sibling xs i) ++ p)
        (sibling_path_small d (level sha xs) (i / 2)
          (omega (arith, length-level sha xs, pow-suc 2 d)) (omega (arith, length-level sha xs)))

  pub sibling_path_left :
      (d : ℕ) (front back : List Hash) (i : ℕ) (root : Hash)
      → length front ≡ 2 ^ d
      → i < 2 ^ d
      → levels sha d back ≡ root ∷ []
      → sibling_path sha (suc d) (front ++ back) i ≡ sibling_path sha d front i ++ root ∷ []
  unfolding sibling_path sibling levels
  sibling_path_left zero [] back i root n h e = absurd (omega arith)
  sibling_path_left zero (x ∷ []) back zero root n h e = rw e refl
  sibling_path_left zero (x ∷ []) back (suc i) root n h e = absurd (omega arith)
  sibling_path_left zero (x ∷ y ∷ xs) back i root n h e = absurd (omega arith)
  sibling_path_left (suc d) front back i root n h e =
      let even : length front % 2 ≡ 0 = omega (arith, pow-suc 2 d) in
      ap₂ (λ o p. optional o ++ p) (sibling-append_left front back i even (omega arith))
        (ap (λ l. sibling_path sha (suc d) l (i / 2)) (level-append sha front back even)
          ∙ sibling_path_left d (level sha front) (level sha back) (i / 2) root
              (omega (arith, length-level sha front, pow-suc 2 d)) (omega (arith, pow-suc 2 d)) e)
      ∙ sym (
          append_assoc (optional (sibling front i)) (sibling_path sha d (level sha front) (i / 2))
            (root ∷ []))

  pub sibling_path_right :
      (d : ℕ) (front back : List Hash) (i : ℕ) (root : Hash)
      → length front ≡ 2 ^ d
      → length back ≤ 2 ^ d
      → i < length back
      → levels sha d front ≡ root ∷ []
      → sibling_path sha (suc d) (front ++ back) (2 ^ d + i)
        ≡ sibling_path sha d back i ++ root ∷ []
  unfolding sibling_path sibling levels
  sibling_path_right zero [] back i root n k h e = absurd (omega arith)
  sibling_path_right zero (x ∷ []) [] i root n k h e = absurd (omega arith)
  sibling_path_right zero (x ∷ []) (y ∷ []) zero root n k h e = e
  sibling_path_right zero (x ∷ []) (y ∷ []) (suc i) root n k h e = absurd (omega arith)
  sibling_path_right zero (x ∷ []) (y ∷ z ∷ back) i root n k h e = absurd (omega arith)
  sibling_path_right zero (x ∷ y ∷ xs) back i root n k h e = absurd (omega arith)
  sibling_path_right (suc d) front back i root n k h e =
      let even : length front % 2 ≡ 0 = omega (arith, pow-suc 2 d) in
      let half : (2 ^ suc d + i) / 2 ≡ 2 ^ d + i / 2 = omega (arith, pow-suc 2 d) in
      ap₂ (λ o p. optional o ++ p)
        (sibling-append_right front back i (2 ^ suc d + i) even (omega arith))
        (ap₂ (λ l (m : ℕ). sibling_path sha (suc d) l m) (level-append sha front back even) half
          ∙ sibling_path_right d (level sha front) (level sha back) (i / 2) root
              (omega (arith, length-level sha front, pow-suc 2 d))
              (omega (arith, length-level sha back, pow-suc 2 d))
              (omega (arith, length-level sha back)) e)
      ∙ sym (
          append_assoc (optional (sibling back i)) (sibling_path sha d (level sha back) (i / 2))
            (root ∷ []))
