-- ===== src/Merkle/RangeRoot.antt =====
-- The compact range of the code has the root of RFC 6962.
use sigsum_lib_go.Prelude.{ℕ, zero, suc, ◌+◌, ◌/◌, ◌%◌, ◌^◌, ◌<◌, ◌≡◌, refl, sym, ap, ◌∙◌, arith}
use sigsum_lib_go.Prelude.{
  List, [], ◌∷◌, ◌++◌, length, length-append, append_assoc, append-nil, ◌==◌, Bool-cases, inl, inr,
}
use sigsum_lib_go.Prelude.Bits.{u64}
use sigsum_lib_go.Crypto.{Hash, Sha256}
use sigsum_lib_go.Merkle.Node.{hash_interior_node, hash_empty_tree}
use sigsum_lib_go.Merkle.Range.{
  CompactRange, extend_loop, extend, extend_all, merge_from, new_compact_range, get_root_hash,
  root_of,
}
use sigsum_lib_go.Merkle.Spec.{subtree_hash, merkle_tree_hash}
use sigsum_lib_go.Merkle.Levels.{level, levels, levels-eq-subtree_hash}
use native.Mathlib.Nat.{pow-suc}
use mathlib.Core.Path.{ap₂}
use sigsum_lib_go.Prelude.{◌⊎◌}
use sigsum_lib_go.Merkle.Levels.{one-le-pow}

-- What stands over the pairs of a list, and the element that is left over.
abbrev pub leftover : List Hash → List Hash
leftover [] = []
leftover (x ∷ []) = x ∷ []
leftover (x ∷ y ∷ xs) = leftover xs

single : {a b : Hash} → a ∷ [] ≡ b ∷ [] → a ≡ b
single e = cc

u64_small : (n : ℕ) → n + 1 < 2 ^ 64 → u64 (n + 1) ≡ n + 1
u64_small n h = omega arith

snoc_cases : (xs : List Hash) → (xs ≡ []) ⊎ ((ys : List Hash) × (h : Hash) × (xs ≡ ys ++ h ∷ []))
snoc_cases [] = inl refl
snoc_cases (x ∷ xs) = elim (snoc_cases xs) [
  | inl e ↦ inr ([], x, ap (λ t. x ∷ t) e)
  | inr (ys, h, e) ↦ inr (x ∷ ys, h, ap (λ t. x ∷ t) e)
]

module _ (sha : Sha256) where
  -- The hashes of the pairs alone.
  unfoldable pub pairs : List Hash → List Hash
  pairs [] = []
  pairs (x ∷ []) = []
  pairs (x ∷ y ∷ xs) = hash_interior_node sha x y ∷ pairs xs

  -- The compact range of fewer than 2 ^ d hashes, read off level by level.
  unfoldable pub range_of : ℕ → List Hash → CompactRange
  range_of zero xs = []
  range_of (suc d) xs = leftover xs ++ range_of d (pairs xs)

  pub length-pairs : (xs : List Hash) → length (pairs xs) ≡ length xs / 2
  unfolding pairs
  length-pairs [] = omega arith
  length-pairs (x ∷ []) = omega arith
  length-pairs (x ∷ y ∷ xs) = omega (arith, length-pairs xs)

  pairs_even_snoc :
      (xs : List Hash) (h : Hash) → length xs % 2 ≡ 0 → pairs (xs ++ h ∷ []) ≡ pairs xs
  unfolding pairs
  pairs_even_snoc [] h e = refl
  pairs_even_snoc (x ∷ []) h e = absurd (omega arith)
  pairs_even_snoc (x ∷ y ∷ xs) h e =
      ap (λ t. hash_interior_node sha x y ∷ t) (pairs_even_snoc xs h (omega arith))

  leftover_even : (xs : List Hash) → length xs % 2 ≡ 0 → leftover xs ≡ []
  leftover_even [] e = refl
  leftover_even (x ∷ []) e = absurd (omega arith)
  leftover_even (x ∷ y ∷ xs) e = leftover_even xs (omega arith)

  leftover_even_snoc :
      (xs : List Hash) (h : Hash) → length xs % 2 ≡ 0 → leftover (xs ++ h ∷ []) ≡ h ∷ []
  leftover_even_snoc [] h e = refl
  leftover_even_snoc (x ∷ []) h e = absurd (omega arith)
  leftover_even_snoc (x ∷ y ∷ xs) h e = leftover_even_snoc xs h (omega arith)

  leftover_odd_snoc : (xs : List Hash) (h : Hash) → length xs % 2 ≡ 1 → leftover (xs ++ h ∷ []) ≡ []
  leftover_odd_snoc [] h e = absurd (omega arith)
  leftover_odd_snoc (x ∷ []) h e = refl
  leftover_odd_snoc (x ∷ y ∷ xs) h e = leftover_odd_snoc xs h (omega arith)

  -- An odd list ends in its leftover, which the next hash joins.
  odd_split :
      (xs : List Hash) (h : Hash)
      → length xs % 2 ≡ 1
      → (x : Hash) × (leftover xs ≡ x ∷ [])
        × (pairs (xs ++ h ∷ []) ≡ pairs xs ++ hash_interior_node sha x h ∷ [])
        × (level sha (xs ++ h ∷ []) ≡ pairs xs ++ hash_interior_node sha x h ∷ [])
  unfolding pairs level
  odd_split [] h e = absurd (omega arith)
  odd_split (x ∷ []) h e = (x, refl, refl, refl)
  odd_split (x ∷ y ∷ xs) h e =
      let (z, p, q, r) = odd_split xs h (omega arith) in
      (z, p, ap (λ t. hash_interior_node sha x y ∷ t) q, ap (λ t. hash_interior_node sha x y ∷ t) r)

  level_even_snoc :
      (xs : List Hash) (h : Hash)
      → length xs % 2 ≡ 0
      → level sha (xs ++ h ∷ []) ≡ pairs xs ++ h ∷ []
  unfolding pairs level
  level_even_snoc [] h e = refl
  level_even_snoc (x ∷ []) h e = absurd (omega arith)
  level_even_snoc (x ∷ y ∷ xs) h e =
      ap (λ t. hash_interior_node sha x y ∷ t) (level_even_snoc xs h (omega arith))

  extend_loop_odd :
      (s : ℕ) (h : Hash) (cr : CompactRange)
      → s % 2 ≡ 1
      → extend_loop (hash_interior_node sha) s h cr ≡ h ∷ cr
  unfolding extend_loop
  extend_loop_odd s h [] e = refl
  extend_loop_odd s h (x ∷ cr) e = ground arith

  extend_loop_even :
      (s : ℕ) (h x : Hash) (cr : CompactRange)
      → s % 2 ≡ 0
      → extend_loop (hash_interior_node sha) s h (x ∷ cr)
        ≡ extend_loop (hash_interior_node sha) (s / 2) (hash_interior_node sha x h) cr
  unfolding extend_loop
  extend_loop_even s h x cr e = ground arith

  -- `extend` is the increment of the range by one hash.
  half_succ : (xs : List Hash) → length xs % 2 ≡ 1 → (length xs + 1) / 2 ≡ length (pairs xs) + 1
  half_succ xs o = omega (arith, length-pairs xs)

  extend_loop-range_of :
      (d : ℕ) (xs : List Hash) (h : Hash)
      → length xs + 1 < 2 ^ d
      → extend_loop (hash_interior_node sha) (length xs + 1) h (range_of d xs)
        ≡ range_of d (xs ++ h ∷ [])
  unfolding range_of
  extend_loop-range_of zero xs h k = absurd (omega arith)
  extend_loop-range_of (suc d) xs h k = elim (Bool-cases (length xs % 2 == 0)) [
    | inl even ↦
        let e : length xs % 2 ≡ 0 = ground arith in
        rw (leftover_even_snoc xs h e, leftover_even xs e, pairs_even_snoc xs h e)
          (extend_loop_odd (length xs + 1) h (range_of d (pairs xs)) (omega arith))
    | inr odd ↦
        let o : length xs % 2 ≡ 1 = ground arith in
        let (x, p, q, _) = odd_split xs h o in
        rw (p, q, leftover_odd_snoc xs h o)
          (extend_loop_even (length xs + 1) h x (range_of d (pairs xs)) (omega arith)
            ∙ ap
                (λ s.
                  extend_loop (hash_interior_node sha) s (hash_interior_node sha x h)
                    (range_of d (pairs xs)))
                (half_succ xs o)
            ∙ extend_loop-range_of d (pairs xs) (hash_interior_node sha x h)
                (omega (arith, length-pairs xs, pow-suc 2 d)))
  ]

  merge_from-range_of :
      (d : ℕ) (xs : List Hash) (h : Hash)
      → length xs < 2 ^ d
      → levels sha d (xs ++ h ∷ []) ≡ merge_from (hash_interior_node sha) h (range_of d xs) ∷ []
  unfolding merge_from range_of levels
  merge_from-range_of zero [] h k = refl
  merge_from-range_of zero (x ∷ xs) h k = absurd (omega arith)
  merge_from-range_of (suc d) xs h k = elim (Bool-cases (length xs % 2 == 0)) [
    | inl even ↦
        let e : length xs % 2 ≡ 0 = ground arith in
        rw (leftover_even xs e, level_even_snoc xs h e)
          (merge_from-range_of d (pairs xs) h (omega (arith, length-pairs xs, pow-suc 2 d)))
    | inr odd ↦
        let o : length xs % 2 ≡ 1 = ground arith in
        let (x, p, _, r) = odd_split xs h o in
        rw (p, r)
          (merge_from-range_of d (pairs xs) (hash_interior_node sha x h)
            (omega (arith, length-pairs xs, pow-suc 2 d)))
  ]

  get_root_hash-range_of :
      (d : ℕ) (xs : List Hash) (h : Hash)
      → length xs + 1 < 2 ^ d
      → get_root_hash sha (range_of d (xs ++ h ∷ []))
        ≡ merge_from (hash_interior_node sha) h (range_of d xs)
  unfolding range_of get_root_hash merge_from
  get_root_hash-range_of zero xs h k = absurd (omega arith)
  get_root_hash-range_of (suc d) xs h k = elim (Bool-cases (length xs % 2 == 0)) [
    | inl even ↦
        let e : length xs % 2 ≡ 0 = ground arith in
        rw (leftover_even_snoc xs h e, leftover_even xs e, pairs_even_snoc xs h e) refl
    | inr odd ↦
        let o : length xs % 2 ≡ 1 = ground arith in
        let (x, p, q, _) = odd_split xs h o in
        rw (p, q, leftover_odd_snoc xs h o)
          (get_root_hash-range_of d (pairs xs) (hash_interior_node sha x h)
            (omega (arith, length-pairs xs, pow-suc 2 d)))
  ]

  pub range_of-nil : (d : ℕ) → range_of d [] ≡ []
  unfolding range_of pairs
  range_of-nil zero = refl
  range_of-nil (suc d) = range_of-nil d

  pub subtree_hash-nil : (d : ℕ) → subtree_hash sha d [] ≡ hash_empty_tree sha
  unfolding subtree_hash
  subtree_hash-nil zero = refl
  subtree_hash-nil (suc d) = ground (arith, subtree_hash-nil d, one-le-pow d)

  -- Adding a hash to the range of `xs` gives the range with the hash added.
  pub extend-range_of :
      (xs : List Hash) (h : Hash)
      → length xs + 1 < 2 ^ 64
      → extend (range_of 64 xs) (length xs) h (hash_interior_node sha) ≡ range_of 64 (xs ++ h ∷ [])
  unfolding extend
  extend-range_of xs h k =
      ap (λ s. extend_loop (hash_interior_node sha) s h (range_of 64 xs)) (u64_small (length xs) k)
      ∙ extend_loop-range_of 64 xs h k

  extend_all-range_of :
      (xs ys : List Hash)
      → length xs + length ys < 2 ^ 64
      → extend_all (hash_interior_node sha) (range_of 64 xs) (length xs) ys ≡ range_of 64 (xs ++ ys)
  unfolding extend_all
  extend_all-range_of xs [] k = rw append-nil refl
  extend_all-range_of xs (y ∷ ys) k =
      ap₂ (λ cr i. extend_all (hash_interior_node sha) cr i ys) (extend-range_of xs y (omega arith))
        (omega (arith, length-append xs (y ∷ [])))
      ∙ extend_all-range_of (xs ++ y ∷ []) ys (omega (arith, length-append xs (y ∷ [])))
      ∙ ap (range_of 64) (append_assoc xs (y ∷ []) ys)

  pub new_compact_range-range_of :
      (xs : List Hash) → length xs < 2 ^ 64 → new_compact_range sha xs ≡ range_of 64 xs
  unfolding new_compact_range
  new_compact_range-range_of xs k =
      ap (λ cr. extend_all (hash_interior_node sha) cr 0 xs) (sym (range_of-nil 64))
      ∙ extend_all-range_of [] xs (omega arith)

  get_root_hash-nil : (d : ℕ) → get_root_hash sha (range_of d []) ≡ subtree_hash sha d []
  unfolding get_root_hash
  get_root_hash-nil d = rw (range_of-nil d, subtree_hash-nil d) refl

  get_root_hash-snoc :
      (d : ℕ) (xs : List Hash) (h : Hash)
      → length xs + 1 < 2 ^ d
      → get_root_hash sha (range_of d (xs ++ h ∷ [])) ≡ subtree_hash sha d (xs ++ h ∷ [])
  get_root_hash-snoc d xs h k =
      get_root_hash-range_of d xs h k
      ∙ single (
          sym (merge_from-range_of d xs h (omega arith))
          ∙ levels-eq-subtree_hash sha d (xs ++ h ∷ []) (omega (arith, length-append xs (h ∷ [])))
              (omega (arith, length-append xs (h ∷ []))))

  get_root_hash-subtree_hash :
      (d : ℕ) (xs : List Hash)
      → length xs < 2 ^ d
      → get_root_hash sha (range_of d xs) ≡ subtree_hash sha d xs
  get_root_hash-subtree_hash d xs k = elim (snoc_cases xs) [
    | inl e ↦ rw e (get_root_hash-nil d)
    | inr (ys, h, e) ↦
        rw e (get_root_hash-snoc d ys h (omega (arith, ap length e, length-append ys (h ∷ []))))
  ]

  pub get_root_hash-merkle_tree_hash :
      (xs : List Hash)
      → length xs < 2 ^ 64
      → get_root_hash sha (range_of 64 xs) ≡ merkle_tree_hash sha xs
  unfolding merkle_tree_hash
  get_root_hash-merkle_tree_hash xs k = get_root_hash-subtree_hash 64 xs k

  -- rootOf, which folds the compact range that extend builds, is the Merkle tree hash of RFC 6962 for
  -- fewer than 2 ^ 64 leaf hashes.
  pub root_of-merkle_tree_hash :
      (leaves : List Hash)
      → length leaves < 2 ^ 64
      → root_of sha leaves ≡ merkle_tree_hash sha leaves
  unfolding root_of
  root_of-merkle_tree_hash leaves k =
      ap (get_root_hash sha) (new_compact_range-range_of leaves k)
      ∙ get_root_hash-merkle_tree_hash leaves k
