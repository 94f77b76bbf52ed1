-- ===== src/Merkle/Siblings.antt =====
-- A node, its sibling and its parent on two neighbouring levels.
use sigsum_lib_go.Prelude.{ℕ, zero, suc, ◌+◌, ◌-◌, ◌/◌, ◌≤◌, ◌≡◌, refl, sym, ap, ◌∙◌}
use sigsum_lib_go.Prelude.{
  arith, All, Option, none, some, List, [], true, false, ◌∷◌, ◌++◌, length, get_elem?,
  if◌then◌else◌,
}
use sigsum_lib_go.Prelude.{
  ◌⊎◌, inl, inr, ◌≢◌, Bool-cases, eq_bytes, eq_bytes_sound, eq_bytes_refl, take, drop, take-append,
  drop-append,
}
use sigsum_lib_go.Crypto.{Hash, Sha256, Collision, IsHash, hash_bytes}
use sigsum_lib_go.Merkle.Node.{hash_interior_node, format_internal_node}
use sigsum_lib_go.Merkle.Verify.{is_odd}
use sigsum_lib_go.Merkle.PathLength.{has_sibling}
use sigsum_lib_go.Merkle.Levels.{level}

unfoldable pub sibling : List Hash → ℕ → Option Hash
sibling [] i = none
sibling (x ∷ []) i = none
sibling (x ∷ y ∷ xs) zero = some y
sibling (x ∷ y ∷ xs) (suc zero) = some x
sibling (x ∷ y ∷ xs) (suc (suc i)) = sibling xs i

-- A node has a sibling unless it is the last on its level and at an even place.
pub sibling-some :
    (xs : List Hash) (i sn : ℕ)
    → length xs ≡ sn + 1
    → i ≤ sn
    → has_sibling i sn ≡ true
    → (s : Hash) × (sibling xs i ≡ some s)
unfolding sibling
sibling-some [] i sn n h e = absurd (omega arith)
sibling-some (x ∷ []) i sn n h e = absurd (ground arith)
sibling-some (x ∷ y ∷ xs) zero sn n h e = (y, refl)
sibling-some (x ∷ y ∷ xs) (suc zero) sn n h e = (x, refl)
sibling-some (x ∷ y ∷ xs) (suc (suc i)) sn n h e =
    sibling-some xs i (sn - 2) (omega arith) (omega arith) (ground arith)

pub sibling-none :
    (xs : List Hash) (i sn : ℕ)
    → length xs ≡ sn + 1
    → i ≤ sn
    → has_sibling i sn ≡ false
    → sibling xs i ≡ none
unfolding sibling
sibling-none [] i sn n h e = refl
sibling-none (x ∷ []) i sn n h e = refl
sibling-none (x ∷ y ∷ xs) zero sn n h e = absurd (ground arith)
sibling-none (x ∷ y ∷ xs) (suc zero) sn n h e = absurd (ground arith)
sibling-none (x ∷ y ∷ xs) (suc (suc i)) sn n h e =
    sibling-none xs i (sn - 2) (omega arith) (omega arith) (ground arith)

append-injective : (a b c d : Hash) → length a ≡ length c → a ++ b ≡ c ++ d → (a ≡ c) × (b ≡ d)
append-injective a b c d l e = (
  sym (take-append a b) ∙ ap (take (length a)) e ∙ ap (λ n. take n (c ++ d)) l ∙ take-append c d,
  sym (drop-append a b) ∙ ap (drop (length a)) e ∙ ap (λ n. drop n (c ++ d)) l ∙ drop-append c d,
)

module _ (sha : Sha256) where
  -- The node over `a` at place `i`.
  abbrev pub parent : ℕ → Hash → Option Hash → Hash
  parent i a none = a
  parent i a (some s) = if is_odd i then hash_interior_node sha s a else hash_interior_node sha a s

  parent-suc-suc : (i : ℕ) (a : Hash) (s : Option Hash) → parent (suc (suc i)) a s ≡ parent i a s
  parent-suc-suc i a none = refl
  parent-suc-suc i a (some s) = ground arith

  pub get_elem?-level :
      (xs : List Hash) (i : ℕ) (a : Hash)
      → get_elem? xs i ≡ some a
      → get_elem? (level sha xs) (i / 2) ≡ some (parent i a (sibling xs i))
  unfolding sibling level
  get_elem?-level [] i a e = cc
  get_elem?-level (x ∷ []) zero a e = e
  get_elem?-level (x ∷ []) (suc i) a e = cc
  get_elem?-level (x ∷ y ∷ xs) zero a e = cc
  get_elem?-level (x ∷ y ∷ xs) (suc zero) a e = cc
  get_elem?-level (x ∷ y ∷ xs) (suc (suc i)) a e =
      let half : suc (suc i) / 2 ≡ suc (i / 2) = omega arith in
      rw half (get_elem?-level xs i a e ∙ ap some (sym (parent-suc-suc i a (sibling xs i))))

  -- The hashes of a level are hashes.
  pub level-IsHash : (xs : List Hash) → All IsHash xs → All IsHash (level sha xs)
  unfolding level hash_interior_node hash_bytes
  level-IsHash [] h = tt
  level-IsHash (x ∷ []) h = h
  level-IsHash (x ∷ y ∷ xs) (p, (q, h)) = (sha.length-sum256 _, level-IsHash xs h)

  pub hash_interior_node-IsHash : (a b : Hash) → IsHash (hash_interior_node sha a b)
  unfolding hash_interior_node hash_bytes
  hash_interior_node-IsHash a b = sha.length-sum256 _

  -- Two equal interior nodes have equal children, or are a collision of SHA-256.
  pub hash_interior_node-injective :
      (a b c d : Hash)
      → length a ≡ length c
      → hash_interior_node sha a b ≡ hash_interior_node sha c d
      → ((a ≡ c) × (b ≡ d)) ⊎ Collision sha
  unfolding hash_interior_node hash_bytes format_internal_node
  hash_interior_node-injective a b c d l e = elim (Bool-cases (eq_bytes (a ++ b) (c ++ d))) [
    | inl same ↦ inl (append-injective a b c d l (eq_bytes_sound _ _ same))
    | inr other ↦ inr (1 ∷ (a ++ b), 1 ∷ (c ++ d), ne other, e)
  ]
    where
      ne : eq_bytes (a ++ b) (c ++ d) ≡ false → (1 ∷ (a ++ b)) ≢ (1 ∷ (c ++ d))
      ne other q = cc (other, eq_bytes_refl (c ++ d), ap (drop 1) q)

  pub parent-injective :
      (i : ℕ) (a b s t : Hash)
      → IsHash a
      → IsHash b
      → IsHash s
      → IsHash t
      → parent i a (some s) ≡ parent i b (some t)
      → ((a ≡ b) × (s ≡ t)) ⊎ Collision sha
  parent-injective i a b s t ha hb hs ht e = elim (Bool-cases (is_odd i)) [
    | inl odd ↦ swapped (hash_interior_node-injective s a t b (omega arith) (rw odd at e))
    | inr even ↦ hash_interior_node-injective a s b t (omega arith) (rw even at e)
  ]
    where
      swapped : ((s ≡ t) × (a ≡ b)) ⊎ Collision sha → ((a ≡ b) × (s ≡ t)) ⊎ Collision sha
      swapped (inl (p, q)) = inl (q, p)
      swapped (inr c) = inr c
