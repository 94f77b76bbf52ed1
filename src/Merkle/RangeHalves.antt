-- ===== src/Merkle/RangeHalves.antt =====
-- The compact range of a list of hashes that is cut at a power of two.
use sigsum_lib_go.Prelude.{ℕ, zero, suc, ◌%◌, ◌^◌, ◌<◌, ◌≡◌, refl, ap, ◌∙◌, sym, arith}
use sigsum_lib_go.Prelude.{List, [], ◌∷◌, ◌++◌, length, append_assoc}
use sigsum_lib_go.Crypto.{Hash, Sha256}
use sigsum_lib_go.Merkle.Node.{hash_interior_node}
use sigsum_lib_go.Merkle.Levels.{level, levels, length-level}
use sigsum_lib_go.Merkle.RangeRoot.{leftover, pairs, length-pairs, range_of}
use native.Mathlib.Nat.{pow-suc}
use mathlib.Core.Path.{ap₂}

leftover-append : (xs ys : List Hash) → length xs % 2 ≡ 0 → leftover (xs ++ ys) ≡ leftover ys
leftover-append [] ys e = refl
leftover-append (x ∷ []) ys e = absurd (omega arith)
leftover-append (x ∷ y ∷ xs) ys e = leftover-append xs ys (omega arith)

module _ (sha : Sha256) where
  pairs-append :
      (xs ys : List Hash) → length xs % 2 ≡ 0 → pairs sha (xs ++ ys) ≡ level sha xs ++ pairs sha ys
  unfolding pairs level
  pairs-append [] ys e = refl
  pairs-append (x ∷ []) ys e = absurd (omega arith)
  pairs-append (x ∷ y ∷ xs) ys e =
      ap (λ t. hash_interior_node sha x y ∷ t) (pairs-append xs ys (omega arith))

  pub range_of_small :
      (d : ℕ) (xs : List Hash) → length xs < 2 ^ d → range_of sha (suc d) xs ≡ range_of sha d xs
  unfolding range_of pairs
  range_of_small zero [] n = refl
  range_of_small zero (x ∷ xs) n = absurd (omega arith)
  range_of_small (suc d) xs n =
      ap (λ t. leftover xs ++ t)
        (range_of_small d (pairs sha xs) (omega (arith, length-pairs sha xs, pow-suc 2 d)))

  -- The root of a full left half is the first element of the range, which is held last here.
  pub range_of_halves :
      (d : ℕ) (front back : List Hash) (root : Hash)
      → length front ≡ 2 ^ d
      → length back < 2 ^ d
      → levels sha d front ≡ root ∷ []
      → range_of sha (suc d) (front ++ back) ≡ range_of sha d back ++ root ∷ []
  unfolding range_of pairs levels
  range_of_halves zero front [] root n h e = rw e refl
  range_of_halves zero front (y ∷ back) root n h e = absurd (omega arith)
  range_of_halves (suc d) front back root n h e =
      let even : length front % 2 ≡ 0 = omega (arith, pow-suc 2 d) in
      ap₂ ◌++◌ (leftover-append front back even) (
        ap (range_of sha (suc d)) (pairs-append front back even)
        ∙ range_of_halves d (level sha front) (pairs sha back) root
            (omega (arith, length-level sha front, pow-suc 2 d))
            (omega (arith, length-pairs sha back, pow-suc 2 d)) e)
      ∙ sym (append_assoc (leftover back) (range_of sha d (pairs sha back)) (root ∷ []))
