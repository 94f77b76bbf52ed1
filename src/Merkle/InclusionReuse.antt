-- ===== src/Merkle/InclusionReuse.antt =====
-- The first loop of `inclusion` in pkg/merkle/tree.go takes subtrees over from the compact range of the tree.
use sigsum_lib_go.Merkle.SplitLaws.{split-pow}
use sigsum_lib_go.Prelude.{ℕ, zero, suc, ◌+◌, ◌-◌, ◌^◌, ◌≤◌, ◌<◌, ◌≡◌, refl, sym, ap, ◌∙◌, arith}
use sigsum_lib_go.Prelude.{
  ◌⊎◌, inl, inr, false, Bool-cases, leb, ltb, ◌==◌, List, [], ◌∷◌, ◌++◌, length, length-append,
  length-take, length-drop, take, drop, take-append-drop, reverse,
}
use sigsum_lib_go.Result.{Result, ok, ◌>>=◌}
use sigsum_lib_go.Crypto.{Hash, Sha256}
use sigsum_lib_go.Merkle.Range.{root_of}
use sigsum_lib_go.Merkle.RangeRoot.{range_of, range_of-nil}
use sigsum_lib_go.Merkle.RangeHalves.{range_of_small, range_of_halves}
use sigsum_lib_go.Merkle.Levels.{one-le-pow}
use sigsum_lib_go.Merkle.Climb.{sibling_path}
use sigsum_lib_go.Merkle.Halves.{sibling_path_small}
use sigsum_lib_go.Merkle.InclusionLoop.{
  levels-root_of, reverse_last, inclusion_loop-sibling_path, right_path,
}
use sigsum_lib_go.Merkle.Prove.{Reuse, inclusion_reuse, inclusion_loop}
use native.Mathlib.Nat.{pow-suc}
use mathlib.Core.List.{reverse-append}

take-append_le : (k : ℕ) (xs ys : List Hash) → k ≤ length xs → take k (xs ++ ys) ≡ take k xs
take-append_le zero xs ys h = refl
take-append_le (suc k) [] ys h = absurd (omega arith)
take-append_le (suc k) (x ∷ xs) ys h = ap (λ t. x ∷ t) (take-append_le k xs ys (omega arith))

drop-append_le : (k : ℕ) (xs ys : List Hash) → k ≤ length xs → drop k (xs ++ ys) ≡ drop k xs ++ ys
drop-append_le zero xs ys h = refl
drop-append_le (suc k) [] ys h = absurd (omega arith)
drop-append_le (suc k) (x ∷ xs) ys h = drop-append_le k xs ys (omega arith)

nil_of_length : (xs : List Hash) → length xs ≡ 0 → xs ≡ []
nil_of_length [] h = refl
nil_of_length (x ∷ xs) h = absurd (omega (arith, h))

-- The state after a step that takes `root` off the range.
abbrev stepped : Hash → List Hash → ℕ → Reuse → Reuse
stepped root cr k s = record {
  leaves = drop k s.leaves;
  m = s.m - k;
  c_range = cr;
  size = s.size - k;
  path = s.path ++ (root ∷ []);
  complete = false;
}

-- The loop stops, or takes the first element off the range.
inclusion_reuse-cases :
    (d : ℕ) (root : Hash) (cr : List Hash) (s : Reuse)
    → d < 64
    → 2 ^ d < s.size
    → s.size ≤ 2 ^ suc d
    → s.m < length s.leaves
    → (inclusion_reuse (root ∷ cr) s ≡ ok s)
      ⊎ ((2 ^ d ≤ s.m)
          × (inclusion_reuse (root ∷ cr) s ≡ inclusion_reuse cr (stepped root cr (2 ^ d) s)))
unfolding inclusion_reuse
inclusion_reuse-cases d root [] s h lo hi k = inl refl
inclusion_reuse-cases d root (h' ∷ rest) s h lo hi k = elim (Bool-cases (leb (length s.leaves) 1)) [
  | inl one ↦ inl (rw one)
  | inr many ↦ elim (Bool-cases (ltb s.m (2 ^ d))) [
    | inl left ↦ inl (rw (many, split-pow d s.size h lo hi, left))
    | inr right ↦
        let inside : ltb (length s.leaves) (2 ^ d) ≡ false = ground arith in
        inr (ground arith, rw (many, split-pow d s.size h lo hi, right, inside))
  ]
]

module _ (sha : Sha256) where
  abbrev pub finish : Reuse → Result (List Hash)
  finish s = inclusion_loop sha 64 s.leaves s.m s.path

  finish-sibling_path :
      (d : ℕ) (s : Reuse) (cr : List Hash)
      → d ≤ 64
      → s.m < length s.leaves
      → length s.leaves ≤ 2 ^ d
      → length s.leaves < 2 ^ 64
      → inclusion_reuse cr s ≡ ok s
      → (inclusion_reuse cr s >>= finish) ≡ ok (s.path ++ reverse (sibling_path sha d s.leaves s.m))
  finish-sibling_path d s cr h k n w e =
      ap (λ r. r >>= finish) e ∙ inclusion_loop-sibling_path sha 64 d s.leaves s.m s.path h h k n w

  -- A tree that fills its levels has one element in its range, and the loop stops at once.
  outcome :
      (d : ℕ) (s : Reuse) (root : Hash) (back : List Hash)
      → suc d ≤ 64
      → length back ≡ s.size - 2 ^ d
      → 2 ^ d ≤ s.size
      → s.size ≤ 2 ^ suc d
      → s.m < length s.leaves
      → (inclusion_reuse (root ∷ reverse (range_of sha d back)) s ≡ ok s)
        ⊎ ((2 ^ d ≤ s.m)
            × (inclusion_reuse (root ∷ reverse (range_of sha d back)) s
                ≡ inclusion_reuse
                    (reverse (range_of sha d back))
                    (stepped root (reverse (range_of sha d back)) (2 ^ d) s)))
  unfolding inclusion_reuse
  outcome d s root back h e lo hi k = elim (Bool-cases (s.size == 2 ^ d)) [
    | inl exact ↦
        let none_left : reverse (range_of sha d back) ≡ [] =
          ap (λ l. reverse (range_of sha d l)) (nil_of_length back (ground arith))
          ∙ ap reverse (range_of-nil sha d) in
        inl (ap (λ cr. inclusion_reuse (root ∷ cr) s) none_left)
    | inr more ↦
        inclusion_reuse-cases d root (reverse (range_of sha d back)) s (omega arith) (ground arith)
          hi k
  ]

  -- The first element of the range of a tree that has more than a full left half.
  range_front :
      (d : ℕ) (all : List Hash)
      → d ≤ 64
      → 2 ^ d ≤ length all
      → length all < 2 ^ suc d
      → length all < 2 ^ 64
      → reverse (range_of sha (suc d) all)
        ≡ root_of sha (take (2 ^ d) all) ∷ reverse (range_of sha d (drop (2 ^ d) all))
  range_front d all h lo hi w =
      let front = take (2 ^ d) all in
      let back = drop (2 ^ d) all in
      let nf = length-take (2 ^ d) all in
      let nb = length-drop (2 ^ d) all in
      ap (λ l. reverse (range_of sha (suc d) l)) (sym (take-append-drop (2 ^ d) all))
      ∙ ap reverse (
          range_of_halves sha d front back (root_of sha front) (omega (arith, nf))
            (omega (arith, nb, pow-suc 2 d))
            (levels-root_of sha d front h (omega (arith, nf, one-le-pow d)) (omega (arith, nf))
              (omega (arith, nf))))
      ∙ reverse-append (range_of sha d back) (root_of sha front ∷ [])

  -- The two loops together collect the siblings, for the compact range of a tree that has the leaves
  -- of the proof and those of `tail` after them.
  pub reuse-sibling_path :
      (d : ℕ) (s : Reuse) (tail : List Hash)
      → d ≤ 64
      → s.size ≡ length s.leaves + length tail
      → s.size < 2 ^ d
      → s.size < 2 ^ 64
      → s.m < length s.leaves
      → (inclusion_reuse (reverse (range_of sha d (s.leaves ++ tail))) s >>= finish)
        ≡ ok (s.path ++ reverse (sibling_path sha d s.leaves s.m))
  reuse-sibling_path zero s tail h e n w k = absurd (omega arith)
  reuse-sibling_path (suc d) s tail h e n w k =
      let all = s.leaves ++ tail in
      let na = length-append s.leaves tail in
      let front = take (2 ^ d) all in
      let back = drop (2 ^ d) all in
      let nf = length-take (2 ^ d) all in
      let nb = length-drop (2 ^ d) all in
      elim (Bool-cases (ltb s.size (2 ^ d))) [
        | inl small ↦
            ap (λ cr. inclusion_reuse (reverse cr) s >>= finish)
              (range_of_small sha d all (ground arith))
            ∙ reuse-sibling_path d s tail (omega arith) e (ground arith) w k
            ∙ ap (λ t. ok (s.path ++ reverse t))
                (sym (sibling_path_small sha d s.leaves s.m (ground arith) k))
        | inr big ↦
            let lo : 2 ^ d ≤ s.size = ground arith in
            let root = root_of sha front in
            ap (λ cr. inclusion_reuse cr s >>= finish)
              (range_front d all (omega arith) (omega (arith, na)) (omega (arith, na))
                (omega (arith, na)))
            ∙ elim (outcome d s root back h (omega (arith, nb, na)) lo (omega arith) k) [
              | inl stop ↦
                  finish-sibling_path (suc d) s (root ∷ reverse (range_of sha d back)) h k
                    (omega arith) (omega arith) stop
              | inr (i, step) ↦
                  let s' = stepped root (reverse (range_of sha d back)) (2 ^ d) s in
                  let nd = length-drop (2 ^ d) s.leaves in
                  ap (λ r. r >>= finish) step
                  ∙ ap (λ l. inclusion_reuse (reverse (range_of sha d l)) s' >>= finish)
                      (drop-append_le (2 ^ d) s.leaves tail (omega arith))
                  ∙ reuse-sibling_path d s' tail (omega arith) (omega (arith, nd))
                      (omega (arith, pow-suc 2 d)) (omega arith) (omega (arith, nd))
                  ∙ ap ok (
                      reverse_last sha s.path
                        (sibling_path sha d (drop (2 ^ d) s.leaves) (s.m - 2 ^ d)) root)
                  ∙ ap (λ t. ok (s.path ++ reverse t))
                      (ap
                          (λ l.
                            sibling_path sha d (drop (2 ^ d) s.leaves) (s.m - 2 ^ d)
                            ++ root_of sha l ∷ [])
                          (take-append_le (2 ^ d) s.leaves tail (omega arith))
                        ∙ right_path sha d s.leaves s.m (omega arith) (omega arith) i k
                            (omega arith) (omega arith))
            ]
      ]
