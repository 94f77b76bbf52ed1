-- ===== src/Merkle/Levels.antt =====
-- A tree by levels: `level` hashes neighbours in pairs and passes on an odd last element. This view
-- of the Merkle tree hash is the one that the code climbs.
use sigsum_lib_go.Prelude.{
  ℕ, zero, suc, ◌+◌, ◌-◌, ◌*◌, ◌/◌, ◌%◌, ◌^◌, ◌≤◌, ◌<◌, ◌≡◌, refl, sym, ap, ◌∙◌, arith,
}
use sigsum_lib_go.Prelude.{List, [], ◌∷◌, ◌++◌, length, take, drop, leb}
use sigsum_lib_go.Prelude.{take-append-drop, length-take, length-drop, Bool-cases, inl, inr}
use sigsum_lib_go.Crypto.{Hash, Sha256}
use sigsum_lib_go.Merkle.Node.{hash_interior_node}
use sigsum_lib_go.Merkle.Spec.{subtree_hash}
use native.Mathlib.Nat.{pow-suc}
use mathlib.Core.Path.{ap₂}

pub one-le-pow : (d : ℕ) → 1 ≤ 2 ^ d
one-le-pow zero = omega arith
one-le-pow (suc d) = omega (arith, pow-suc 2 d, one-le-pow d)

module _ (sha : Sha256) where
  unfoldable pub level : List Hash → List Hash
  level [] = []
  level (x ∷ []) = x ∷ []
  level (x ∷ y ∷ xs) = hash_interior_node sha x y ∷ level xs

  unfoldable pub levels : ℕ → List Hash → List Hash
  levels zero xs = xs
  levels (suc d) xs = levels d (level xs)

  pub length-level : (xs : List Hash) → length (level xs) ≡ (length xs + 1) / 2
  unfolding level
  length-level [] = omega arith
  length-level (x ∷ []) = omega arith
  length-level (x ∷ y ∷ xs) = omega (arith, length-level xs)

  pub level-append :
      (xs ys : List Hash) → length xs % 2 ≡ 0 → level (xs ++ ys) ≡ level xs ++ level ys
  unfolding level
  level-append [] ys h = refl
  level-append (x ∷ []) ys h = absurd (omega arith)
  level-append (x ∷ y ∷ xs) ys h =
      ap (λ t. hash_interior_node sha x y ∷ t) (level-append xs ys (omega arith))

  pub levels-append :
      (d q : ℕ) (xs ys : List Hash)
      → length xs ≡ 2 ^ d * q
      → levels d (xs ++ ys) ≡ levels d xs ++ levels d ys
  unfolding levels
  levels-append zero q xs ys h = refl
  levels-append (suc d) q xs ys h =
      let e : length xs ≡ 2 * (2 ^ d * q) = omega (arith, ap (λ (t : ℕ). t * q) (pow-suc 2 d)) in
      rw (level-append xs ys (omega arith))
        (levels-append d q (level xs) (level ys) (omega (arith, length-level xs)))

  pub levels-suc : (d : ℕ) (xs : List Hash) → levels (suc d) xs ≡ level (levels d xs)
  unfolding levels
  levels-suc zero xs = refl
  levels-suc (suc d) xs = levels-suc d (level xs)

  -- On at most 2 ^ d hashes, d levels leave the root of RFC 6962.
  pub levels-eq-subtree_hash :
      (d : ℕ) (xs : List Hash)
      → 1 ≤ length xs
      → length xs ≤ 2 ^ d
      → levels d xs ≡ subtree_hash sha d xs ∷ []
  unfolding subtree_hash level
  levels-eq-subtree_hash zero [] h k = absurd (omega arith)
  levels-eq-subtree_hash zero (x ∷ []) h k = unfold levels in refl
  levels-eq-subtree_hash zero (x ∷ y ∷ xs) h k = absurd (omega arith)
  levels-eq-subtree_hash (suc d) xs h k = elim (Bool-cases (leb (length xs) (2 ^ d))) [
    | inl small ↦ rw (levels-suc d xs, small, levels-eq-subtree_hash d xs h (ground arith)) refl
    | inr big ↦
        let front : List Hash = take (2 ^ d) xs in
        let back : List Hash = drop (2 ^ d) xs in
        let m : 2 ^ d < length xs = ground arith in
        let lf : length front ≡ 2 ^ d = omega (arith, length-take (2 ^ d) xs) in
        let lb : length back ≡ length xs - 2 ^ d = omega (arith, length-drop (2 ^ d) xs) in
        rw (big, levels-suc d xs)
          (ap level (
            ap (levels d) (sym (take-append-drop (2 ^ d) xs))
            ∙ levels-append d 1 front back (omega arith)
            ∙ ap₂ ◌++◌ (levels-eq-subtree_hash d front (omega (arith, one-le-pow d)) (omega arith))
                (levels-eq-subtree_hash d back (omega arith) (omega (arith, pow-suc 2 d)))))
  ]
