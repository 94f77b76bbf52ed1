-- ===== src/Merkle/TreeBuild.antt =====
-- A tree that AddLeafHash builds from a sequence of leaf hashes, against the list of the distinct ones.
use sigsum_lib_go.Prelude.{
  ℕ, zero, suc, ◌+◌, ◌^◌, ◌≤◌, ◌<◌, ◌≡◌, refl, ap, ◌∙◌, arith, Bool, true, false, ◌||◌,
  if◌then◌else◌,
}
use sigsum_lib_go.Prelude.{
  some, List, [], ◌∷◌, ◌++◌, length, length-append, get_elem?, inl, inr, Bool-cases, ◌↔◌, eq_bytes,
  eq_bytes_sound, eq_bytes_refl,
}
use sigsum_lib_go.Result.{ok}
use sigsum_lib_go.Crypto.{Hash, Sha256}
use sigsum_lib_go.Merkle.Spec.{merkle_tree_hash}
use sigsum_lib_go.Merkle.Tree.{Tree, size, new_tree, add_leaf_hash, get_leaf_index, get_root_hash}
use sigsum_lib_go.Merkle.TreeLaws.{
  IsValid, new_tree-IsValid, add_leaf_hash-IsValid, get_root_hash-IsValid, get_leaf_index-IsValid,
}

abbrev pub member : Hash → List Hash → Bool
member h [] = false
member h (x ∷ xs) = eq_bytes x h || member h xs

-- The hashes of `hs` behind those of `seen`, each at its first place only.
abbrev pub firsts : List Hash → List Hash → List Hash
firsts seen [] = seen
firsts seen (h ∷ hs) =
    let old = firsts seen hs in
    let new = firsts (seen ++ h ∷ []) hs in if member h seen then old else new

member-get_elem? :
    (h : Hash) (xs : List Hash) → member h xs ≡ true → (i : ℕ) × (get_elem? xs i ≡ some h)
member-get_elem? h [] e = absurd cc
member-get_elem? h (x ∷ xs) e = elim (Bool-cases (eq_bytes x h)) [
  | inl same ↦ (0, ap some (eq_bytes_sound x h same))
  | inr other ↦ let (i, at) = member-get_elem? h xs (rw other at e) in (suc i, at)
]

get_elem?-member :
    (h : Hash) (xs : List Hash) (i : ℕ) → get_elem? xs i ≡ some h → member h xs ≡ true
get_elem?-member h [] i e = absurd cc
get_elem?-member h (x ∷ xs) zero e = let same : x ≡ h = cc e in rw (same, eq_bytes_refl h) refl
get_elem?-member h (x ∷ xs) (suc i) e = elim (Bool-cases (eq_bytes x h)) [
  | inl same ↦ rw same refl
  | inr other ↦ rw other (get_elem?-member h xs i e)
]

module _ (sha : Sha256) where
  abbrev pub add_all : Tree → List Hash → Tree
  add_all t [] = t
  add_all t (h ∷ hs) = add_all (add_leaf_hash sha t h).0 hs

  -- One hash more is at the end if it is new, and nowhere else.
  added-firsts :
      (t : Tree) (h : Hash) (hs : List Hash)
      → IsValid sha t
      → size t + 1 < 2 ^ 64
      → (firsts (add_leaf_hash sha t h).0.leaves hs ≡ firsts t.leaves (h ∷ hs))
        × (size (add_leaf_hash sha t h).0 ≤ size t + 1)
  added-firsts t h hs v k = elim (add_leaf_hash-IsValid sha t h v k).1 [
    | inl (_, leaves, unknown) ↦ elim (Bool-cases (member h t.leaves)) [
      | inl known ↦
          let (i, at) = member-get_elem? h t.leaves known in absurd (cc (v.indexed h i at, unknown))
      | inr new ↦ (
        ap (λ l. firsts l hs) leaves ∙ rw new refl,
        omega (arith, ap length leaves, length-append t.leaves (h ∷ [])),
      )
    ]
    | inr (same, i, at) ↦
        let kept : (add_leaf_hash sha t h).0.leaves ≡ t.leaves =
          ap (λ (p : Tree × Bool). p.0.leaves) same in
        (
          ap (λ l. firsts l hs) kept ∙ rw (get_elem?-member h t.leaves i at) refl,
          omega (arith, ap length kept),
        )
  ]

  add_all-IsValid :
      (t : Tree) (hs : List Hash)
      → IsValid sha t
      → size t + length hs < 2 ^ 64
      → IsValid sha (add_all t hs)
        × ((add_all t hs).leaves ≡ firsts t.leaves hs)
        × (size (add_all t hs) ≤ size t + length hs)
  add_all-IsValid t [] v k = (v, refl, omega arith)
  add_all-IsValid t (h ∷ hs) v k =
      let room : size t + 1 < 2 ^ 64 = omega arith in
      let (one, larger) = added-firsts t h hs v room in
      let (valid, leaves, small) =
        add_all-IsValid (add_leaf_hash sha t h).0 hs (add_leaf_hash-IsValid sha t h v room).0
          (omega (arith, larger)) in
      (valid, leaves ∙ one, omega (arith, small, larger))

  -- A tree that AddLeafHash builds from any sequence of fewer than 2 ^ 64 leaf hashes holds the distinct
  -- ones in the order of their first occurrences: its leaves are these, its root is their Merkle tree
  -- hash, and GetLeafIndex answers with an index exactly if the hash stands at that index.
  pub add_all-firsts :
      (hs : List Hash) (h : Hash) (i : ℕ)
      → length hs < 2 ^ 64
      → ((add_all new_tree hs).leaves ≡ firsts [] hs)
        × (get_root_hash sha (add_all new_tree hs) ≡ merkle_tree_hash sha (firsts [] hs))
        × ((get_leaf_index (add_all new_tree hs) h ≡ ok i) ↔ (get_elem? (firsts [] hs) i ≡ some h))
  add_all-firsts hs h i k =
      let (valid, leaves, small) =
        add_all-IsValid new_tree hs (new_tree-IsValid sha) (omega arith) in
      (
        leaves,
        get_root_hash-IsValid sha (add_all new_tree hs) valid (omega (arith, small))
            ∙ ap (merkle_tree_hash sha) leaves,
        rw (← leaves) (get_leaf_index-IsValid sha (add_all new_tree hs) h i valid),
      )
