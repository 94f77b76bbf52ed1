-- ===== src/Merkle/Climb.antt =====
-- One round of the loop of VerifyInclusion, and the siblings that it takes.
use mathlib.Core.Path.{ap₂}
use sigsum_lib_go.Prelude.{ℕ, zero, suc, ◌/◌, ◌≤◌, ◌<◌, ◌≡◌, ◌≢◌, refl, ap, ◌∙◌, arith}
use sigsum_lib_go.Prelude.{
  Option, none, some, List, true, false, [], ◌∷◌, ◌++◌, length, All, get_elem?,
}
use sigsum_lib_go.Prelude.{◌==◌, inl, inr, Bool-cases}
use sigsum_lib_go.Result.{ok, panic}
use sigsum_lib_go.Crypto.{Hash, Sha256, IsHash}
use sigsum_lib_go.Merkle.Verify.{is_odd, inclusion_round, verify_inclusion_loop}
use sigsum_lib_go.Merkle.PathLength.{has_sibling, siblings_count}
use sigsum_lib_go.Merkle.Levels.{level, levels}
use sigsum_lib_go.Merkle.Siblings.{sibling, parent, get_elem?-level, hash_interior_node-IsHash}

abbrev pub optional : Option Hash → List Hash
optional none = []
optional (some s) = s ∷ []

pub get_elem?-some :
    (xs : List Hash) (i : ℕ)
    → i < length xs
    → All IsHash xs
    → (a : Hash) × (get_elem? xs i ≡ some a) × IsHash a
get_elem?-some [] i h k = absurd (omega arith)
get_elem?-some (x ∷ xs) zero h (p, k) = (x, refl, p)
get_elem?-some (x ∷ xs) (suc i) h (p, k) = get_elem?-some xs i (omega arith) k

pub sibling-IsHash :
    (xs : List Hash) (i : ℕ) (s : Hash) → All IsHash xs → sibling xs i ≡ some s → IsHash s
unfolding sibling
sibling-IsHash [] i s h e = cc
sibling-IsHash (x ∷ []) i s h e = cc
sibling-IsHash (x ∷ y ∷ xs) zero s (p, (q, h)) e = ground arith
sibling-IsHash (x ∷ y ∷ xs) (suc zero) s (p, (q, h)) e = ground arith
sibling-IsHash (x ∷ y ∷ xs) (suc (suc i)) s (p, (q, h)) e = sibling-IsHash xs i s h e

module _ (sha : Sha256) where
  -- The siblings on the climb of `d` levels from the leaf at `i`, lowest first.
  unfoldable pub sibling_path : ℕ → List Hash → ℕ → List Hash
  unfolding sibling
  sibling_path zero xs i = []
  sibling_path (suc d) xs i = optional (sibling xs i) ++ sibling_path d (level sha xs) (i / 2)

  pub parent-IsHash : (i : ℕ) (a s : Hash) → IsHash (parent sha i a (some s))
  parent-IsHash i a s = elim (Bool-cases (is_odd i)) [
    | inl odd ↦ rw odd (hash_interior_node-IsHash sha s a)
    | inr even ↦ rw even (hash_interior_node-IsHash sha a s)
  ]

  pub round_up :
      (fn sn : ℕ) (r h : Hash) (path : List Hash)
      → has_sibling fn sn ≡ true
      → inclusion_round sha fn sn r (h ∷ path) ≡ ok (parent sha fn r (some h), path)
  unfolding inclusion_round
  round_up fn sn r h path e = ground arith

  pub round_missing :
      (fn sn : ℕ) (r : Hash) → has_sibling fn sn ≡ true → inclusion_round sha fn sn r [] ≡ panic
  unfolding inclusion_round
  round_missing fn sn r e = ground arith

  pub round_stay :
      (fn sn : ℕ) (r : Hash) (path : List Hash)
      → has_sibling fn sn ≡ false
      → inclusion_round sha fn sn r path ≡ ok (r, path)
  unfolding inclusion_round
  round_stay fn sn r [] e = ground arith
  round_stay fn sn r (h ∷ path) e = ground arith

  pub levels_single : (d : ℕ) (x : Hash) → levels sha d (x ∷ []) ≡ x ∷ []
  unfolding levels level
  levels_single zero x = refl
  levels_single (suc d) x = levels_single d x

  pub sibling_path_single : (d : ℕ) (x : Hash) → sibling_path d (x ∷ []) 0 ≡ []
  unfolding sibling_path level
  sibling_path_single zero x = refl
  sibling_path_single (suc d) x = sibling_path_single d x

  pub loop_top :
      (d fn sn : ℕ) (r : Hash) (path : List Hash)
      → sn ≡ 0
      → verify_inclusion_loop sha d fn sn r path ≡ ok (r, path)
  unfolding verify_inclusion_loop
  loop_top zero fn sn r path e = refl
  loop_top (suc d) fn sn r path e = rw e

  pub loop_step :
      (d fn sn : ℕ) (r r' : Hash) (path rest : List Hash)
      → sn ≢ 0
      → inclusion_round sha fn sn r path ≡ ok (r', rest)
      → verify_inclusion_loop sha (suc d) fn sn r path
        ≡ verify_inclusion_loop sha d (fn / 2) (sn / 2) r' rest
  unfolding verify_inclusion_loop
  loop_step d fn sn r r' path rest ne e = elim (Bool-cases (sn == 0)) [
    | inl z ↦ absurd (ne (ground arith))
    | inr z ↦ rw (z, e)
  ]

  pub loop_panic :
      (d fn sn : ℕ) (r : Hash) (path : List Hash)
      → sn ≢ 0
      → inclusion_round sha fn sn r path ≡ panic
      → verify_inclusion_loop sha (suc d) fn sn r path ≡ panic
  unfolding verify_inclusion_loop
  loop_panic d fn sn r path ne e = elim (Bool-cases (sn == 0)) [
    | inl z ↦ absurd (ne (ground arith))
    | inr z ↦ rw (z, e)
  ]

  pub levels-level : (d : ℕ) (xs : List Hash) → levels sha (suc d) xs ≡ levels sha d (level sha xs)
  unfolding levels
  levels-level d xs = refl

  pub sibling_path-some :
      (d i : ℕ) (xs : List Hash) (s : Hash)
      → sibling xs i ≡ some s
      → sibling_path (suc d) xs i ≡ s ∷ sibling_path d (level sha xs) (i / 2)
  unfolding sibling_path
  sibling_path-some d i xs s e = ap (λ o. optional o ++ sibling_path d (level sha xs) (i / 2)) e

  pub sibling_path-none :
      (d i : ℕ) (xs : List Hash)
      → sibling xs i ≡ none
      → sibling_path (suc d) xs i ≡ sibling_path d (level sha xs) (i / 2)
  unfolding sibling_path
  sibling_path-none d i xs e = ap (λ o. optional o ++ sibling_path d (level sha xs) (i / 2)) e

  pub parent_at :
      (xs : List Hash) (i : ℕ) (a : Hash) (o : Option Hash)
      → get_elem? xs i ≡ some a
      → sibling xs i ≡ o
      → get_elem? (level sha xs) (i / 2) ≡ some (parent sha i a o)
  parent_at xs i a o e q = get_elem?-level sha xs i a e ∙ ap (λ t. some (parent sha i a t)) q

  pub count_some :
      (d fn sn : ℕ)
      → has_sibling fn sn ≡ true
      → siblings_count (suc d) fn sn ≡ suc (siblings_count d (fn / 2) (sn / 2))
  unfolding siblings_count
  count_some d fn sn t = ground arith

  pub count_none :
      (d fn sn : ℕ)
      → has_sibling fn sn ≡ false
      → siblings_count (suc d) fn sn ≡ siblings_count d (fn / 2) (sn / 2)
  unfolding siblings_count
  count_none d fn sn f = ground arith

  count_root : (d : ℕ) → siblings_count d 0 0 ≡ 0
  unfolding siblings_count
  count_root zero = refl
  count_root (suc d) = omega (arith, count_root d)

  pub empty_path :
      (d fn sn : ℕ) (path : List Hash)
      → fn ≤ sn
      → sn ≡ 0
      → length path ≡ siblings_count d fn sn
      → path ≡ []
  empty_path d fn sn [] h z n = refl
  empty_path d fn sn (x ∷ path) h z n =
      let z' : fn ≡ 0 = omega arith in
      absurd (omega (arith, n ∙ ap₂ (siblings_count d) z' z ∙ count_root d))

  pub path_cons :
      (d fn sn : ℕ) (path : List Hash)
      → has_sibling fn sn ≡ true
      → length path ≡ siblings_count (suc d) fn sn
      → (s : Hash) × (rest : List Hash) × (path ≡ s ∷ rest)
  path_cons d fn sn [] t n = absurd (omega (arith, count_some d fn sn t))
  path_cons d fn sn (s ∷ rest) t n = (s, rest, refl)

  pub path_rest :
      (d fn sn : ℕ) (path : List Hash) (s : Hash) (rest : List Hash)
      → has_sibling fn sn ≡ true
      → length path ≡ siblings_count (suc d) fn sn
      → path ≡ s ∷ rest
      → length rest ≡ siblings_count d (fn / 2) (sn / 2)
  path_rest d fn sn path s rest t n e = omega (arith, count_some d fn sn t, ap length e)
