-- ===== src/Monitor/Filter.antt =====
-- Which leaves filterLeaves reports.
use sigsum_lib_go.Prelude.{
  ℕ, zero, suc, ◌+◌, ◌^◌, ◌≤◌, ◌≡◌, refl, sym, ap, arith, ◌↔◌, ◌⊎◌, inl, inr, Bool-cases,
  Option-cases, true, some, List, [], ◌∷◌, length, get_elem?,
}
use sigsum_lib_go.Prelude.Bits.{u64}
use sigsum_lib_go.Prelude.Maps.{Map, lookup}
use sigsum_lib_go.Crypto.{PublicKey, Sha256, Verifier}
use sigsum_lib_go.Types.Leaf.{Leaf, verify_leaf}
use sigsum_lib_go.Monitor.Loop.{add_filtered, filter_known, filter_leaves}

-- A leaf at the same place as its index.
pub data Reported (index : ℕ) (leaf : Leaf) : List ℕ → List Leaf → Type 0 where
  here :
      {indices : List ℕ} {leaves : List Leaf}
      → Reported index leaf (index ∷ indices) (leaf ∷ leaves)
  there :
      {i : ℕ} {l : Leaf} {indices : List ℕ} {leaves : List Leaf}
      → Reported index leaf indices leaves
      → Reported index leaf (i ∷ indices) (l ∷ leaves)

Reported-cases :
    {i j : ℕ} {l m : Leaf} {is : List ℕ} {ls : List Leaf}
    → Reported i l (j ∷ is) (m ∷ ls)
    → ((i ≡ j) × (l ≡ m)) ⊎ Reported i l is ls
Reported-cases here = inl (refl, refl)
Reported-cases (there r) = inr r

module _ (sha : Sha256) (verify : Verifier) (keys : Map PublicKey) where
  -- The leaf at an index, counted from the start of the range, that is signed by a key of interest.
  abbrev pub OfInterest : ℕ → List Leaf → ℕ → Leaf → Type 0
  OfInterest start leaves index leaf =
      (k : ℕ) × (index ≡ start + k)
      × (get_elem? leaves k ≡ some leaf)
      × (key : PublicKey) × (lookup leaf.key_hash keys ≡ some key)
      × (verify_leaf sha verify leaf key ≡ true)

  abbrev InFilter : ℕ → List Leaf → ℕ → Leaf → Type 0
  InFilter start leaves index leaf =
      Reported index leaf (filter_known sha verify keys start leaves).indices
        (filter_known sha verify keys start leaves).leaves

  deeper :
      (start : ℕ) (first : Leaf) (leaves : List Leaf) (index : ℕ) (leaf : Leaf)
      → OfInterest (start + 1) leaves index leaf
      → OfInterest start (first ∷ leaves) index leaf
  deeper start first leaves index leaf (k, place, e, key, known, valid) =
      (suc k, omega (arith, place), e, key, known, valid)

  filter_known_sound :
      (leaves : List Leaf) (start index : ℕ) (leaf : Leaf)
      → start + length leaves ≤ 2 ^ 64
      → InFilter start leaves index leaf
      → OfInterest start leaves index leaf
  unfolding filter_known add_filtered
  filter_known_sound [] start index leaf n r = elim r [ ]
  filter_known_sound (l ∷ leaves) start index leaf n r =
      elim (Option-cases (lookup l.key_hash keys)) [
        | inl unknown ↦ deeper start l leaves index leaf (
            filter_known_sound leaves (start + 1) index leaf (omega (arith, n))
              (rw (filter_known, unknown) at r))
        | inr (key, known) ↦ elim (Bool-cases (verify_leaf sha verify l key)) [
          | inr invalid ↦ deeper start l leaves index leaf (
              filter_known_sound leaves (start + 1) index leaf (omega (arith, n))
                (rw (filter_known, known, add_filtered, invalid) at r))
          | inl valid ↦ elim (Reported-cases (rw (filter_known, known, add_filtered, valid) at r)) [
            | inl (place, same) ↦
                (0, omega (arith, place, n), ap some (sym same), key, rw same known, rw same valid)
            | inr later ↦
                deeper start l leaves index leaf
                  (filter_known_sound leaves (start + 1) index leaf (omega (arith, n)) later)
          ]
        ]
      ]

  filter_known_complete :
      (leaves : List Leaf) (start index : ℕ) (leaf : Leaf)
      → start + length leaves ≤ 2 ^ 64
      → OfInterest start leaves index leaf
      → InFilter start leaves index leaf
  unfolding filter_known add_filtered
  filter_known_complete [] start index leaf n (k, place, e, key, known, valid) = absurd cc
  filter_known_complete (l ∷ leaves) start index leaf n (zero, place, e, key, known, valid) =
      let same : l ≡ leaf = cc e in
      let number : u64 start ≡ index = omega (arith, place, n) in
      rw (filter_known, same, known, add_filtered, valid, number) here
  filter_known_complete (l ∷ leaves) start index leaf n (suc k, place, e, key, known, valid) =
      let later =
        filter_known_complete leaves (start + 1) index leaf (omega (arith, n))
          (k, omega (arith, place), e, key, known, valid) in
      elim (Option-cases (lookup l.key_hash keys)) [
        | inl unknown ↦ rw (filter_known, unknown) later
        | inr (other, listed) ↦ elim (Bool-cases (verify_leaf sha verify l other)) [
          | inr invalid ↦ rw (filter_known, listed, add_filtered, invalid) later
          | inl correct ↦ rw (filter_known, listed, add_filtered, correct) (there later)
        ]
      ]

  -- With keys of interest, filterLeaves reports a leaf under an index if and only if the leaf stands there
  -- in the range and its signature verifies under the key that its key hash names among them, as
  -- long as the range ends at most at 2 ^ 64.
  pub filter_leaves-OfInterest :
      (leaves : List Leaf) (start index : ℕ) (leaf : Leaf)
      → start + length leaves ≤ 2 ^ 64
      → Reported index leaf
          (filter_leaves sha verify (some keys) leaves start).indices
          (filter_leaves sha verify (some keys) leaves start).leaves
        ↔ OfInterest start leaves index leaf
  unfolding filter_leaves
  filter_leaves-OfInterest leaves start index leaf n = (
    filter_known_sound leaves start index leaf n,
    filter_known_complete leaves start index leaf n,
  )
