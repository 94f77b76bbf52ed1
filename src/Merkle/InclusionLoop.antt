-- ===== src/Merkle/InclusionLoop.antt =====
-- The second loop of `inclusion` in pkg/merkle/tree.go collects the siblings on the way down.
use sigsum_lib_go.Prelude.{ℕ, zero, suc, ◌+◌, ◌-◌, ◌^◌, ◌≤◌, ◌<◌, ◌≡◌, refl, sym, ap, ◌∙◌, arith}
use sigsum_lib_go.Prelude.{
  true, false, inl, inr, Bool-cases, leb, ltb, List, [], ◌∷◌, ◌++◌, length, take, drop, reverse,
  append_assoc, append-nil, length-take, length-drop, take-append-drop,
}
use sigsum_lib_go.Result.{ok}
use sigsum_lib_go.Crypto.{Hash, Sha256}
use sigsum_lib_go.Merkle.Spec.{merkle_tree_hash}
use sigsum_lib_go.Merkle.Range.{root_of}
use sigsum_lib_go.Merkle.RangeRoot.{root_of-merkle_tree_hash}
use sigsum_lib_go.Merkle.Levels.{level, levels, levels-suc, levels-eq-subtree_hash, one-le-pow}
use sigsum_lib_go.Merkle.Climb.{sibling_path}
use sigsum_lib_go.Merkle.Halves.{sibling_path_small, sibling_path_left, sibling_path_right}
use sigsum_lib_go.Merkle.SplitLaws.{split-pow}
use sigsum_lib_go.Merkle.Prove.{inclusion_loop}
use native.Mathlib.Nat.{pow-suc}
use mathlib.Core.List.{reverse-append}

module _ (sha : Sha256) where
  levels_stable :
      (d e : ℕ) (xs : List Hash) (root : Hash)
      → d ≤ e
      → levels sha d xs ≡ root ∷ []
      → levels sha e xs ≡ root ∷ []
  unfolding level
  levels_stable d zero xs root h k =
      let same : 0 ≡ d = omega arith in ap (λ m. levels sha m xs) same ∙ k
  levels_stable d (suc e) xs root h k = elim (Bool-cases (leb d e)) [
    | inl below ↦ levels-suc sha e xs ∙ ap (level sha) (levels_stable d e xs root (ground arith) k)
    | inr top ↦ let same : suc e ≡ d = ground arith in ap (λ m. levels sha m xs) same ∙ k
  ]

  -- rootOf is the top of the levels.
  pub levels-root_of :
      (d : ℕ) (xs : List Hash)
      → d ≤ 64
      → 1 ≤ length xs
      → length xs ≤ 2 ^ d
      → length xs < 2 ^ 64
      → levels sha d xs ≡ root_of sha xs ∷ []
  unfolding merkle_tree_hash
  levels-root_of d xs h n k s =
      let here = levels-eq-subtree_hash sha d xs n k in
      let top = levels-eq-subtree_hash sha 64 xs n (omega arith) in
      here
      ∙ sym (levels_stable d 64 xs _ h here)
      ∙ top
      ∙ ap (λ r. r ∷ []) (sym (root_of-merkle_tree_hash sha xs s))

  inclusion_loop_single :
      (rounds : ℕ) (leaves : List Hash) (m : ℕ) (p : List Hash)
      → length leaves ≤ 1
      → inclusion_loop sha rounds leaves m p ≡ ok p
  unfolding inclusion_loop
  inclusion_loop_single zero leaves m p h = refl
  inclusion_loop_single (suc rounds) leaves m p h =
      let one : leb (length leaves) 1 ≡ true = ground arith in rw one

  inclusion_loop_left :
      (rounds d : ℕ) (leaves : List Hash) (m : ℕ) (p : List Hash)
      → d < 64
      → 2 ^ d < length leaves
      → length leaves ≤ 2 ^ suc d
      → m < 2 ^ d
      → inclusion_loop sha (suc rounds) leaves m p
        ≡ inclusion_loop sha rounds
            (take (2 ^ d) leaves)
            m
            (p ++ root_of sha (drop (2 ^ d) leaves) ∷ [])
  unfolding inclusion_loop
  inclusion_loop_left rounds d leaves m p h lo hi k =
      let many : leb (length leaves) 1 ≡ false = ground (arith, one-le-pow d) in
      let left : ltb m (2 ^ d) ≡ true = ground arith in
      rw (many, split-pow d (length leaves) h lo hi, left)

  inclusion_loop_right :
      (rounds d : ℕ) (leaves : List Hash) (m : ℕ) (p : List Hash)
      → d < 64
      → 2 ^ d < length leaves
      → length leaves ≤ 2 ^ suc d
      → 2 ^ d ≤ m
      → inclusion_loop sha (suc rounds) leaves m p
        ≡ inclusion_loop sha rounds
            (drop (2 ^ d) leaves)
            (m - 2 ^ d)
            (p ++ root_of sha (take (2 ^ d) leaves) ∷ [])
  unfolding inclusion_loop
  inclusion_loop_right rounds d leaves m p h lo hi k =
      let many : leb (length leaves) 1 ≡ false = ground (arith, one-le-pow d) in
      let right : ltb m (2 ^ d) ≡ false = ground arith in
      rw (many, split-pow d (length leaves) h lo hi, right)

  -- A root in front of the siblings turned round is the last sibling.
  pub reverse_last :
      (p s : List Hash) (root : Hash)
      → (p ++ root ∷ []) ++ reverse s ≡ p ++ reverse (s ++ root ∷ [])
  reverse_last p s root =
      append_assoc p (root ∷ []) (reverse s) ∙ ap (λ t. p ++ t) (sym (reverse-append s (root ∷ [])))

  -- The siblings on the way through the right half, and through the left one.
  pub right_path :
      (d : ℕ) (leaves : List Hash) (m : ℕ)
      → length leaves ≤ 2 ^ suc d
      → 2 ^ d < length leaves
      → 2 ^ d ≤ m
      → m < length leaves
      → length leaves < 2 ^ 64
      → d ≤ 64
      → sibling_path sha d (drop (2 ^ d) leaves) (m - 2 ^ d)
          ++ root_of sha (take (2 ^ d) leaves) ∷ []
        ≡ sibling_path sha (suc d) leaves m
  right_path d leaves m n lo i k s w =
      let front = take (2 ^ d) leaves in
      let back = drop (2 ^ d) leaves in
      let nf = length-take (2 ^ d) leaves in
      let nb = length-drop (2 ^ d) leaves in
      let at : 2 ^ d + (m - 2 ^ d) ≡ m = omega arith in
      sym (
        sibling_path_right sha d front back (m - 2 ^ d) (root_of sha front) (omega (arith, nf))
          (omega (arith, nb, pow-suc 2 d)) (omega (arith, nb))
          (levels-root_of d front w (omega (arith, nf, one-le-pow d)) (omega (arith, nf))
            (omega (arith, nf))))
      ∙ ap (λ (j : ℕ). sibling_path sha (suc d) (front ++ back) j) at
      ∙ ap (λ l. sibling_path sha (suc d) l m) (take-append-drop (2 ^ d) leaves)

  left_path :
      (d : ℕ) (leaves : List Hash) (m : ℕ)
      → length leaves ≤ 2 ^ suc d
      → 2 ^ d < length leaves
      → m < 2 ^ d
      → length leaves < 2 ^ 64
      → d ≤ 64
      → sibling_path sha d (take (2 ^ d) leaves) m ++ root_of sha (drop (2 ^ d) leaves) ∷ []
        ≡ sibling_path sha (suc d) leaves m
  left_path d leaves m n lo i s w =
      let front = take (2 ^ d) leaves in
      let back = drop (2 ^ d) leaves in
      let nf = length-take (2 ^ d) leaves in
      let nb = length-drop (2 ^ d) leaves in
      sym (
        sibling_path_left sha d front back m (root_of sha back) (omega (arith, nf)) i (
          levels-root_of d back w (omega (arith, nb)) (omega (arith, nb, pow-suc 2 d))
            (omega (arith, nb))))
      ∙ ap (λ l. sibling_path sha (suc d) l m) (take-append-drop (2 ^ d) leaves)

  pub inclusion_loop-sibling_path :
      (rounds d : ℕ) (leaves : List Hash) (m : ℕ) (p : List Hash)
      → d ≤ rounds
      → d ≤ 64
      → m < length leaves
      → length leaves ≤ 2 ^ d
      → length leaves < 2 ^ 64
      → inclusion_loop sha rounds leaves m p ≡ ok (p ++ reverse (sibling_path sha d leaves m))
  unfolding sibling_path
  inclusion_loop-sibling_path rounds zero leaves m p h w k n s =
      inclusion_loop_single rounds leaves m p n ∙ ap ok (sym (append-nil p))
  inclusion_loop-sibling_path zero (suc d) leaves m p h w k n s = absurd (omega arith)
  inclusion_loop-sibling_path (suc rounds) (suc d) leaves m p h w k n s =
      let front = take (2 ^ d) leaves in
      let back = drop (2 ^ d) leaves in
      let nf = length-take (2 ^ d) leaves in
      let nb = length-drop (2 ^ d) leaves in
      elim (Bool-cases (leb (length leaves) (2 ^ d))) [
        | inl small ↦
            inclusion_loop-sibling_path (suc rounds) d leaves m p (omega arith) (omega arith) k
              (ground arith) s
            ∙ ap (λ t. ok (p ++ reverse t))
                (sym (sibling_path_small sha d leaves m (ground arith) k))
        | inr big ↦
            let lo : 2 ^ d < length leaves = ground arith in
            elim (Bool-cases (ltb m (2 ^ d))) [
              | inl left ↦
                  let i : m < 2 ^ d = ground arith in
                  inclusion_loop_left rounds d leaves m p (omega arith) lo n i
                  ∙ inclusion_loop-sibling_path rounds d front m (p ++ root_of sha back ∷ [])
                      (omega arith) (omega arith) (omega (arith, nf)) (omega (arith, nf))
                      (omega (arith, nf))
                  ∙ ap ok (reverse_last p (sibling_path sha d front m) (root_of sha back))
                  ∙ ap (λ t. ok (p ++ reverse t)) (left_path d leaves m n lo i s (omega arith))
              | inr right ↦
                  let i : 2 ^ d ≤ m = ground arith in
                  inclusion_loop_right rounds d leaves m p (omega arith) lo n i
                  ∙ inclusion_loop-sibling_path rounds d back (m - 2 ^ d)
                      (p ++ root_of sha front ∷ []) (omega arith) (omega arith) (omega (arith, nb))
                      (omega (arith, nb, pow-suc 2 d)) (omega (arith, nb))
                  ∙ ap ok (reverse_last p (sibling_path sha d back (m - 2 ^ d)) (root_of sha front))
                  ∙ ap (λ t. ok (p ++ reverse t)) (right_path d leaves m n lo i k s (omega arith))
            ]
      ]
