-- ===== src/Merkle/TreeLaws.antt =====
-- A tree built by AddLeafHash has the leaves in order, finds each by its hash, and has the root of
-- RFC 6962.
use sigsum_lib_go.Prelude.{
  ℕ, zero, suc, ◌+◌, ◌-◌, ◌^◌, ◌<◌, ◌≡◌, refl, sym, ap, ◌∙◌, arith, true, false,
}
use sigsum_lib_go.Prelude.{
  none, some, List, [], ◌∷◌, ◌++◌, length, length-append, get_elem?, inl, inr, ◌⊎◌, Bool-cases,
  Option-cases, ◌↔◌,
}
use sigsum_lib_go.Prelude.{eq_bytes, eq_bytes_sound, eq_bytes_refl}
use sigsum_lib_go.Prelude.Maps.{lookup, insert, lookup-insert}
use sigsum_lib_go.Result.{ok, err, errorf}
use sigsum_lib_go.Crypto.{Hash, Sha256}
use sigsum_lib_go.Merkle.Node.{hash_interior_node}
use sigsum_lib_go.Merkle.Range.{extend, get_root_hash as range_root_hash}
use sigsum_lib_go.Merkle.RangeRoot.{
  range_of, range_of-nil, extend-range_of, get_root_hash-merkle_tree_hash,
}
use sigsum_lib_go.Merkle.Spec.{merkle_tree_hash}
use sigsum_lib_go.Merkle.Tree.{Tree, size, new_tree, add_leaf_hash, get_leaf_index, get_root_hash}

-- The map holds the place of each leaf hash, and the range is that of the leaves.
pub record IsValid (sha : Sha256) (t : Tree) : Type 0 where
  pub range : t.c_range ≡ range_of sha 64 t.leaves
  pub found : (h : Hash) (i : ℕ) → lookup h t.leaf_index ≡ some i → get_elem? t.leaves i ≡ some h
  pub indexed : (h : Hash) (i : ℕ) → get_elem? t.leaves i ≡ some h → lookup h t.leaf_index ≡ some i

get_elem?-snoc_last : (xs : List Hash) (h : Hash) → get_elem? (xs ++ h ∷ []) (length xs) ≡ some h
get_elem?-snoc_last [] h = refl
get_elem?-snoc_last (x ∷ xs) h = get_elem?-snoc_last xs h

get_elem?-snoc_before :
    (xs : List Hash) (h a : Hash) (i : ℕ)
    → get_elem? xs i ≡ some a
    → get_elem? (xs ++ h ∷ []) i ≡ some a
get_elem?-snoc_before [] h a i e = cc
get_elem?-snoc_before (x ∷ xs) h a zero e = e
get_elem?-snoc_before (x ∷ xs) h a (suc i) e = get_elem?-snoc_before xs h a i e

get_elem?-snoc_cases :
    (xs : List Hash) (h a : Hash) (i : ℕ)
    → get_elem? (xs ++ h ∷ []) i ≡ some a
    → (get_elem? xs i ≡ some a) ⊎ ((i ≡ length xs) × (h ≡ a))
get_elem?-snoc_cases [] h a zero e = inr (refl, cc)
get_elem?-snoc_cases [] h a (suc i) e = cc
get_elem?-snoc_cases (x ∷ xs) h a zero e = inl e
get_elem?-snoc_cases (x ∷ xs) h a (suc i) e = elim (get_elem?-snoc_cases xs h a i e) [
  | inl q ↦ inl q
  | inr (p, q) ↦ inr (ap suc p, q)
]

get_leaf_index-none :
    (t : Tree) (h : Hash)
    → lookup h t.leaf_index ≡ none
    → get_leaf_index t h ≡ err (errorf "leaf hash not present")
unfolding get_leaf_index
get_leaf_index-none t h e = rw (e, get_leaf_index)

get_leaf_index-some :
    (t : Tree) (h : Hash) (i : ℕ) → lookup h t.leaf_index ≡ some i → get_leaf_index t h ≡ ok i
unfolding get_leaf_index
get_leaf_index-some t h i e = rw (e, get_leaf_index)

module _ (sha : Sha256) where
  -- Adding a known leaf hash changes nothing and answers false.
  pub add_leaf_hash_known :
      (t : Tree) (h : Hash) (i : ℕ)
      → lookup h t.leaf_index ≡ some i
      → add_leaf_hash sha t h ≡ (t, false)
  unfolding add_leaf_hash
  add_leaf_hash_known t h i e = rw (e, add_leaf_hash)

  pub add_leaf_hash_new :
      (t : Tree) (h : Hash)
      → lookup h t.leaf_index ≡ none
      → add_leaf_hash sha t h ≡ (
        record {
          leaves = t.leaves ++ h ∷ [];
          leaf_index = insert h (length t.leaves) t.leaf_index;
          c_range = extend t.c_range (length (t.leaves ++ h ∷ []) - 1) h (hash_interior_node sha);
        },
        true,
      )
  unfolding add_leaf_hash
  add_leaf_hash_new t h e = rw (e, add_leaf_hash)

  added-IsValid :
      (t : Tree) (h : Hash)
      → IsValid sha t
      → size t + 1 < 2 ^ 64
      → lookup h t.leaf_index ≡ none
      → IsValid sha (record {
        leaves = t.leaves ++ h ∷ [];
        leaf_index = insert h (length t.leaves) t.leaf_index;
        c_range = extend t.c_range (length (t.leaves ++ h ∷ []) - 1) h (hash_interior_node sha);
      })
  added-IsValid t h v k new = record {
    range =
        ap (λ (n : ℕ). extend t.c_range n h (hash_interior_node sha))
          (omega (arith, length-append t.leaves (h ∷ [])))
        ∙ ap (λ cr. extend cr (length t.leaves) h (hash_interior_node sha)) v.range
        ∙ extend-range_of sha t.leaves h k;
    found = λ a i e. elim (Bool-cases (eq_bytes h a)) [
      | inl same ↦
          let q : lookup a (insert h (length t.leaves) t.leaf_index) ≡ some (length t.leaves) =
            lookup-insert h a (length t.leaves) t.leaf_index ∙ rw same refl in
          let at : length t.leaves ≡ i = cc (q, e) in
          ap (λ (n : ℕ). get_elem? (t.leaves ++ h ∷ []) n) (sym at)
          ∙ get_elem?-snoc_last t.leaves h
          ∙ ap some (eq_bytes_sound h a same)
      | inr other ↦
          let q : lookup a (insert h (length t.leaves) t.leaf_index) ≡ lookup a t.leaf_index =
            lookup-insert h a (length t.leaves) t.leaf_index ∙ rw other refl in
          get_elem?-snoc_before t.leaves h a i (v.found a i (sym q ∙ e))
    ];
    indexed = λ a i e. elim (get_elem?-snoc_cases t.leaves h a i e) [
      | inl q ↦ elim (Bool-cases (eq_bytes h a)) [
        | inl same ↦ absurd (cc (eq_bytes_sound h a same, new, v.indexed a i q))
        | inr other ↦ lookup-insert h a (length t.leaves) t.leaf_index ∙ rw other (v.indexed a i q)
      ]
      | inr (p, q) ↦
          lookup-insert h a (length t.leaves) t.leaf_index
          ∙ rw (ap (eq_bytes h) (sym q) ∙ eq_bytes_refl h) (ap some (sym p))
    ];
  }

  -- AddLeafHash keeps a valid tree valid, below 2 ^ 64 leaves; it adds an unknown leaf hash at the
  -- end and answers true, and leaves the tree alone and answers false for a known one.
  pub add_leaf_hash-IsValid :
      (t : Tree) (h : Hash)
      → IsValid sha t
      → size t + 1 < 2 ^ 64
      → IsValid sha (add_leaf_hash sha t h).0
        × ((((add_leaf_hash sha t h).1 ≡ true)
              × ((add_leaf_hash sha t h).0.leaves ≡ t.leaves ++ h ∷ [])
              × (lookup h t.leaf_index ≡ none))
            ⊎ ((add_leaf_hash sha t h ≡ (t, false)) × (i : ℕ) × (get_elem? t.leaves i ≡ some h)))
  add_leaf_hash-IsValid t h v k = elim (Option-cases (lookup h t.leaf_index)) [
    | inl new ↦ rw (add_leaf_hash_new t h new) (added-IsValid t h v k new, inl (refl, refl, new))
    | inr (i, old) ↦ rw (add_leaf_hash_known t h i old) (v, inr (refl, i, v.found h i old))
  ]

  -- The root of a valid tree with fewer than 2 ^ 64 leaves is the Merkle tree hash of its leaves.
  pub get_root_hash-IsValid :
      (t : Tree)
      → IsValid sha t
      → size t < 2 ^ 64
      → get_root_hash sha t ≡ merkle_tree_hash sha t.leaves
  unfolding get_root_hash
  get_root_hash-IsValid t v k =
      ap (range_root_hash sha) v.range ∙ get_root_hash-merkle_tree_hash sha t.leaves k

  -- GetLeafIndex answers with the index of a leaf hash of a valid tree, and with nothing else.
  pub get_leaf_index-IsValid :
      (t : Tree) (h : Hash) (i : ℕ)
      → IsValid sha t
      → (get_leaf_index t h ≡ ok i) ↔ (get_elem? t.leaves i ≡ some h)
  get_leaf_index-IsValid t h i v = (
    λ e. elim (Option-cases (lookup h t.leaf_index)) [
      | inl q ↦ absurd (cc (get_leaf_index-none t h q, e))
      | inr (j, q) ↦ v.found h i (cc (get_leaf_index-some t h j q, q, e))
    ],
    λ e. get_leaf_index-some t h i (v.indexed h i e),
  )

  pub new_tree-IsValid : IsValid sha new_tree
  unfolding lookup
  new_tree-IsValid = record {
    range = sym (range_of-nil sha 64);
    found = λ h i e. cc;
    indexed = λ h i e. cc;
  }
