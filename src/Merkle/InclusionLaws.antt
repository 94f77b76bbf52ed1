-- ===== src/Merkle/InclusionLaws.antt =====
-- VerifyInclusion against the Merkle tree hash of RFC 6962.
use sigsum_lib_go.Prelude.{ℕ, zero, suc, ◌-◌, ◌^◌, ◌≤◌, ◌<◌, ◌≡◌, ◌≢◌, sym, ap, ◌∙◌, arith}
use sigsum_lib_go.Prelude.{some, List, [], ◌∷◌, length, All, get_elem?, ◌==◌, leb, Bool-cases}
use sigsum_lib_go.Prelude.{◌⊎◌, inl, inr, eq_bytes, eq_bytes_sound, eq_bytes_refl}
use sigsum_lib_go.Result.{Error, errorf, ok, err, panic, ◌>>=◌}
use sigsum_lib_go.Crypto.{Hash, Sha256, Collision, IsHash}
use sigsum_lib_go.Merkle.Verify.{path_length, verify_inclusion_loop, check_root, verify_inclusion}
use sigsum_lib_go.Merkle.PathLength.{path_length-siblings_count}
use sigsum_lib_go.Merkle.Spec.{merkle_tree_hash}
use sigsum_lib_go.Merkle.Levels.{levels, levels-eq-subtree_hash}
use sigsum_lib_go.Merkle.Climb.{sibling_path}
use sigsum_lib_go.Merkle.InclusionSound.{verify_inclusion_loop_sound}
use sigsum_lib_go.Merkle.Inclusion.{
  verify_inclusion_loop-sibling_path, verify_inclusion_loop_total, length-sibling_path,
}

pub get_elem?-lt-length :
    (xs : List Hash) (i : ℕ) (a : Hash) → get_elem? xs i ≡ some a → i < length xs
get_elem?-lt-length [] i a e = cc
get_elem?-lt-length (x ∷ xs) zero a e = omega arith
get_elem?-lt-length (x ∷ xs) (suc i) a e = omega (arith, get_elem?-lt-length xs i a e)

module _ (sha : Sha256) where
  -- After its two guards the function runs the loop and compares the roots.
  verify_inclusion_guarded :
      (leaf : Hash) (index n : ℕ) (root : Hash) (path : List Hash)
      → index < n
      → length path ≡ path_length index n
      → verify_inclusion sha leaf index n root path
        ≡ (verify_inclusion_loop sha 64 index (n - 1) leaf path >>= check_root root)
  unfolding verify_inclusion
  verify_inclusion_guarded leaf index n root path h k = ground arith

  verify_inclusion_guards :
      (leaf : Hash) (index n : ℕ) (root : Hash) (path : List Hash)
      → ((e : Error) × (verify_inclusion sha leaf index n root path ≡ err e))
        ⊎ ((index < n) × (length path ≡ path_length index n))
  unfolding verify_inclusion
  verify_inclusion_guards leaf index n root path = elim (Bool-cases (leb n index)) [
    | inl out ↦ inl (errorf "proof input is malformed: index out of range", rw out)
    | inr inside ↦ elim (Bool-cases (length path == path_length index n)) [
      | inl fits ↦ inr (ground arith, ground arith)
      | inr long ↦
          inl (errorf "proof input is malformed: path length %d, should be %d", rw (inside, long))
    ]
  ]

  root_level :
      (xs : List Hash)
      → 1 ≤ length xs
      → length xs ≤ 2 ^ 64
      → levels sha 64 xs ≡ merkle_tree_hash sha xs ∷ []
  unfolding merkle_tree_hash
  root_level xs h k = levels-eq-subtree_hash sha 64 xs h k

  check_root-ok : (root : Hash) (s : Hash × List Hash) → check_root root s ≡ ok tt → s ≡ (root, [])
  unfolding check_root
  check_root-ok root (r, []) e = elim (Bool-cases (eq_bytes r root)) [
    | inl same ↦ ap (λ t. (t, [])) (eq_bytes_sound r root same)
    | inr other ↦ cc (other, e)
  ]
  check_root-ok root (r, h ∷ path) e = cc

  -- If VerifyInclusion accepts a leaf hash and a path for the root of a list of leaf hashes, then
  -- the leaf hash stands at that index and the path is the siblings on the way up, or two byte
  -- strings with one SHA-256 hash are at hand. Sizes are uint64 and hashes are 32 bytes long.
  pub verify_inclusion_sound :
      (leaves : List Hash) (leaf : Hash) (index : ℕ) (path : List Hash)
      → length leaves < 2 ^ 64
      → All IsHash leaves
      → IsHash leaf
      → All IsHash path
      → verify_inclusion sha leaf index (length leaves) (merkle_tree_hash sha leaves) path ≡ ok tt
      → ((get_elem? leaves index ≡ some leaf) × (path ≡ sibling_path sha 64 leaves index))
        ⊎ Collision sha
  verify_inclusion_sound leaves leaf index path n hl h hp e =
      let root = merkle_tree_hash sha leaves in
      elim (verify_inclusion_guards leaf index (length leaves) root path) [
        | inl (x, q) ↦ absurd (cc (q, e))
        | inr (inside, fits) ↦
            let (r, q) =
              verify_inclusion_loop_total sha 64 index (length leaves - 1) leaf path (omega arith)
                (omega arith)
                (fits ∙ path_length-siblings_count index (length leaves) inside (omega arith)) in
            let accepted : check_root root (r, []) ≡ ok tt =
              ap (λ t. t >>= check_root root) (sym q)
              ∙ sym (verify_inclusion_guarded leaf index (length leaves) root path inside fits)
              ∙ e in
            verify_inclusion_loop_sound sha 64 index (length leaves - 1) leaves path leaf root
              (omega arith) (omega arith) (omega arith) hl hp h
              (root_level leaves (omega arith) (omega arith))
              (q ∙ ap ok (check_root-ok root (r, []) accepted))
      ]

  check_root_self : (r : Hash) → check_root r (r, []) ≡ ok tt
  unfolding check_root
  check_root_self r = rw (eq_bytes_refl r)

  -- VerifyInclusion accepts every leaf hash of a list of fewer than 2 ^ 64, at its index and with its
  -- siblings on the way up, for the root of the list.
  pub verify_inclusion_complete :
      (leaves : List Hash) (leaf : Hash) (index : ℕ)
      → length leaves < 2 ^ 64
      → get_elem? leaves index ≡ some leaf
      → verify_inclusion sha leaf index
          (length leaves)
          (merkle_tree_hash sha leaves)
          (sibling_path sha 64 leaves index)
        ≡ ok tt
  verify_inclusion_complete leaves leaf index n e =
      let root = merkle_tree_hash sha leaves in
      let path = sibling_path sha 64 leaves index in
      let inside = get_elem?-lt-length leaves index leaf e in
      let (r, lv, q) =
        verify_inclusion_loop-sibling_path sha 64 index (length leaves - 1) leaves leaf
          (omega arith) (omega arith) e (omega arith) in
      let same : r ≡ root = cc (root_level leaves (omega arith) (omega arith)) in
      verify_inclusion_guarded leaf index (length leaves) root path inside (
        length-sibling_path sha 64 index (length leaves - 1) leaves (omega arith) (omega arith)
        ∙ sym (path_length-siblings_count index (length leaves) inside (omega arith)))
      ∙ ap (λ t. t >>= check_root root) q
      ∙ ap (λ t. check_root root (t, [])) same
      ∙ check_root_self root

  check_root-ne-panic : (root r : Hash) → check_root root (r, []) ≢ panic
  unfolding check_root
  check_root-ne-panic root r e = ground arith

  -- Whatever its arguments, VerifyInclusion does not panic: it neither reads past the end of the
  -- path nor has elements left over. The size is a uint64.
  pub verify_inclusion-ne-panic :
      (leaf : Hash) (index n : ℕ) (root : Hash) (path : List Hash)
      → n < 2 ^ 64
      → verify_inclusion sha leaf index n root path ≢ panic
  verify_inclusion-ne-panic leaf index n root path k e =
      elim (verify_inclusion_guards leaf index n root path) [
        | inl (x, q) ↦ cc (q, e)
        | inr (inside, fits) ↦
            let (r, q) =
              verify_inclusion_loop_total sha 64 index (n - 1) leaf path (omega arith) (omega arith)
                (fits ∙ path_length-siblings_count index n inside (omega arith)) in
            check_root-ne-panic root r (
              ap (λ t. t >>= check_root root) (sym q)
              ∙ sym (verify_inclusion_guarded leaf index n root path inside fits)
              ∙ e)
      ]
