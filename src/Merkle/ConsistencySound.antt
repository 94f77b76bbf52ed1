-- ===== src/Merkle/ConsistencySound.antt =====
-- VerifyConsistency against the Merkle tree hash of RFC 6962.
use sigsum_lib_go.Prelude.{
  ℕ, zero, suc, ◌+◌, ◌-◌, ◌*◌, ◌/◌, ◌^◌, ◌≤◌, ◌<◌, ◌≡◌, refl, sym, ap, ◌∙◌, arith,
}
use sigsum_lib_go.Prelude.{
  Bool, true, some, List, [], ◌∷◌, ◌++◌, length, All, get_elem?, take, take_all, ◌==◌, ltb,
  Bool-cases, if◌then◌else◌, false, length-take,
}
use native.Mathlib.Nat.{div-le_self}
use sigsum_lib_go.Prelude.{◌⊎◌, inl, inr, eq_bytes, eq_bytes_sound}
use sigsum_lib_go.Prelude.Bits.{trailing_zeros64}
use sigsum_lib_go.Result.{Error, ok, ◌>>=◌, ◌>>◌, require}
use sigsum_lib_go.Crypto.{Hash, Sha256, Collision, IsHash}
use sigsum_lib_go.Merkle.Node.{hash_empty_tree}
use sigsum_lib_go.Merkle.Verify.{
  check_roots, consistency_start, consistency_from, verify_consistency, verify_consistency_loop,
}
use sigsum_lib_go.Merkle.PathLength.{siblings_count}
use sigsum_lib_go.Merkle.Spec.{merkle_tree_hash}
use sigsum_lib_go.Merkle.Levels.{level, levels, levels-eq-subtree_hash}
use sigsum_lib_go.Merkle.Siblings.{level-IsHash}
use sigsum_lib_go.Merkle.RangeRoot.{subtree_hash-nil}
use sigsum_lib_go.Merkle.Climb.{levels_single}
use sigsum_lib_go.Merkle.InclusionSound.{verify_inclusion_loop_sound}
use sigsum_lib_go.Merkle.Consistency.{
  verify_consistency_loop_total, verify_consistency_loop-sibling_path,
}
use sigsum_lib_go.Merkle.Trim.{
  trailing_zeros-divides, div_mono, levels_comm, length-levels, levels-take,
}
use sigsum_lib_go.Merkle.Trimmed.{path_length_last, verify_consistency-trimmed, trimmed_guard}

take_snoc :
    (xs : List Hash) (i : ℕ) (a : Hash)
    → get_elem? xs i ≡ some a
    → take i xs ++ a ∷ [] ≡ take (suc i) xs
take_snoc [] i a e = cc
take_snoc (x ∷ xs) zero a e = cc
take_snoc (x ∷ xs) (suc i) a e = ap (λ t. x ∷ t) (take_snoc xs i a e)

second_required : (a b : Bool) (x y : Error) → (require a x >> require b y) ≡ ok tt → b ≡ true
second_required true true x y e = refl
second_required true false x y e = cc
second_required false b x y e = cc

module _ (sha : Sha256) where
  levels-IsHash : (t : ℕ) (xs : List Hash) → All IsHash xs → All IsHash (levels sha t xs)
  unfolding levels
  levels-IsHash zero xs h = h
  levels-IsHash (suc t) xs h = levels-IsHash t (level sha xs) (level-IsHash sha xs h)

  check_roots-ok :
      (old_root new_root fr sr : Hash)
      → check_roots old_root new_root (fr, sr, []) ≡ ok tt
      → (fr ≡ old_root) × (sr ≡ new_root)
  unfolding check_roots
  check_roots-ok old_root new_root fr sr e = elim (Bool-cases (eq_bytes fr old_root)) [
    | inr other ↦ absurd (cc (other, e))
    | inl p ↦ elim (Bool-cases (eq_bytes sr new_root)) [
      | inl q ↦ (eq_bytes_sound fr old_root p, eq_bytes_sound sr new_root q)
      | inr other ↦ absurd (cc (p, other, e))
    ]
  ]

  -- The climb on a level `xs` from its node at `fn`, which starts from the hash `start`.
  climb_sound :
      (fn sn : ℕ) (xs path : List Hash) (start old_root new_root : Hash)
      → length xs ≡ sn + 1
      → fn ≤ sn
      → sn < 2 ^ 64
      → All IsHash xs
      → All IsHash path
      → IsHash start
      → length path ≡ siblings_count 64 fn sn
      → levels sha 64 xs ≡ new_root ∷ []
      → (verify_consistency_loop sha 64 fn sn start start path >>= check_roots old_root new_root)
        ≡ ok tt
      → (levels sha 64 (take (suc fn) xs) ≡ old_root ∷ []) ⊎ Collision sha
  climb_sound fn sn xs path start old_root new_root n h k hx hp hs len lv e =
      let (fr, sr, q, q') = verify_consistency_loop_total sha 64 fn sn start start path h k len in
      let (p, r) =
        check_roots-ok old_root new_root fr sr
          (ap (λ t. t >>= check_roots old_root new_root) (sym q) ∙ e) in
      elim (verify_inclusion_loop_sound sha 64 fn sn xs path start new_root n h k hx hp hs lv
        (q' ∙ ap (λ t. ok (t, [])) r)) [
          | inr c ↦ inr c
          | inl (g, w) ↦
              let (f, s, lf, lq) =
                verify_consistency_loop-sibling_path sha 64 fn sn xs start start n h k in
              inl (
                ap (levels sha 64) (sym (take_snoc xs fn start g))
                ∙ lf
                ∙ cc (p, q, lq, ap (verify_consistency_loop sha 64 fn sn start start) w))
        ]

  consistency_from_sound :
      (fn sn : ℕ) (xs path : List Hash) (old_root new_root : Hash)
      → length xs ≡ sn + 1
      → fn ≤ sn
      → sn < 2 ^ 64
      → All IsHash xs
      → All IsHash path
      → IsHash old_root
      → length path ≡ siblings_count 64 fn sn + (if ltb 0 fn then 1 else 0)
      → levels sha 64 xs ≡ new_root ∷ []
      → consistency_from sha fn sn old_root new_root path ≡ ok tt
      → (levels sha 64 (take (suc fn) xs) ≡ old_root ∷ []) ⊎ Collision sha
  unfolding consistency_from consistency_start
  consistency_from_sound zero sn xs path old_root new_root n h k hx hp ho len lv e =
      climb_sound zero sn xs path old_root old_root new_root n h k hx hp ho (omega arith) lv e
  consistency_from_sound (suc fn) sn xs [] old_root new_root n h k hx hp ho len lv e = cc
  consistency_from_sound (suc fn) sn xs (p ∷ path) old_root new_root n h k hx (hf, hp) ho len lv e =
      climb_sound (suc fn) sn xs path p old_root new_root n h k hx hp hf (ground arith) lv e

  root_level :
      (xs : List Hash)
      → 1 ≤ length xs
      → length xs ≤ 2 ^ 64
      → levels sha 64 xs ≡ merkle_tree_hash sha xs ∷ []
  unfolding merkle_tree_hash
  root_level xs h k = levels-eq-subtree_hash sha 64 xs h k

  -- The root of a list is the root of any of its levels.
  root_of_level :
      (t : ℕ) (xs : List Hash)
      → 1 ≤ length xs
      → length xs ≤ 2 ^ 64
      → levels sha 64 (levels sha t xs) ≡ merkle_tree_hash sha xs ∷ []
  root_of_level t xs h k =
      levels_comm sha 64 t xs
      ∙ ap (levels sha t) (root_level xs h k)
      ∙ levels_single sha t (merkle_tree_hash sha xs)

  -- The old tree's last node on its lowest trimmed level.
  old_level :
      (t fn m : ℕ) (xs : List Hash)
      → m ≡ 2 ^ t * (fn + 1)
      → 1 ≤ m
      → m ≤ length xs
      → length xs ≤ 2 ^ 64
      → levels sha 64 (take (suc fn) (levels sha t xs)) ≡ merkle_tree_hash sha (take m xs) ∷ []
  old_level t fn m xs e h k l =
      ap (λ (q : ℕ). levels sha 64 (take q (levels sha t xs))) {x = suc fn} {y = fn + 1}
        (omega arith)
      ∙ ap (levels sha 64) (sym (levels-take sha t (fn + 1) xs (omega arith)))
      ∙ ap (λ (q : ℕ). levels sha 64 (levels sha t (take q xs))) (sym e)
      ∙ root_of_level t (take m xs) (omega (arith, length-take m xs))
          (omega (arith, length-take m xs))

  proper_sound :
      (leaves : List Hash) (m : ℕ) (old_root : Hash) (path : List Hash)
      → length leaves < 2 ^ 64
      → All IsHash leaves
      → IsHash old_root
      → All IsHash path
      → 0 < m
      → m < length leaves
      → verify_consistency sha m (length leaves) old_root (merkle_tree_hash sha leaves) path ≡ ok tt
      → (old_root ≡ merkle_tree_hash sha (take m leaves)) ⊎ Collision sha
  proper_sound leaves m old_root path n hl ho hp h k e =
      let t : ℕ = trailing_zeros64 m in
      let fn : ℕ = (m - 1) / 2 ^ t in
      let sn : ℕ = (length leaves - 1) / 2 ^ t in
      let root = merkle_tree_hash sha leaves in
      let le : fn ≤ sn = div_mono t (m - 1) (length leaves - 1) (omega arith) in
      let small : sn < 2 ^ 64 = omega (arith, div-le_self (length leaves - 1) (2 ^ t)) in
      let (fits, from) =
        trimmed_guard sha fn sn old_root root path
          (sym (verify_consistency-trimmed sha m (length leaves) old_root root path h k n) ∙ e) in
      elim (consistency_from_sound fn sn (levels sha t leaves) path old_root root
        (length-levels sha t leaves (omega arith)) le small (levels-IsHash t leaves hl) hp ho
        (fits ∙ ap (λ (k : ℕ). k + (if ltb 0 fn then 1 else 0)) (path_length_last fn sn le small))
        (root_of_level t leaves (omega arith) (omega arith)) from) [
          | inr c ↦ inr c
          | inl q ↦ inl (
              cc (
                q,
                old_level t fn m leaves (trailing_zeros-divides 64 m (omega arith) (omega arith))
                    (omega arith) (omega arith) (omega arith),
              ))
        ]

  same_size_sound :
      (m n : ℕ) (old_root new_root : Hash) (path : List Hash)
      → m ≡ n
      → verify_consistency sha m n old_root new_root path ≡ ok tt
      → old_root ≡ new_root
  unfolding verify_consistency
  same_size_sound m n old_root new_root path q e =
      let same : (m == n) ≡ true = ground arith in
      eq_bytes_sound old_root new_root (second_required (length path == 0) _ _ _ (rw same at e))

  empty_sound :
      (n : ℕ) (old_root new_root : Hash) (path : List Hash)
      → 0 < n
      → verify_consistency sha 0 n old_root new_root path ≡ ok tt
      → old_root ≡ hash_empty_tree sha
  unfolding verify_consistency
  empty_sound n old_root new_root path h e =
      let ne : (0 == n) ≡ false = ground arith in
      eq_bytes_sound old_root (hash_empty_tree sha)
        (second_required (length path == 0) _ _ _ (rw ne at e))

  -- If VerifyConsistency accepts a proof for the root of a list of leaf hashes and an old size up to
  -- its length, then the old root is the root of the list's first old-size hashes, or two byte
  -- strings with one SHA-256 hash are at hand. Sizes are uint64 and hashes are 32 bytes long.
  pub verify_consistency_sound :
      (leaves : List Hash) (old_size : ℕ) (old_root : Hash) (path : List Hash)
      → length leaves < 2 ^ 64
      → All IsHash leaves
      → IsHash old_root
      → All IsHash path
      → old_size ≤ length leaves
      → verify_consistency sha old_size (length leaves) old_root (merkle_tree_hash sha leaves) path
        ≡ ok tt
      → (old_root ≡ merkle_tree_hash sha (take old_size leaves)) ⊎ Collision sha
  verify_consistency_sound [] zero old_root path n hl ho hp k e =
      inl (same_size_sound 0 0 old_root (merkle_tree_hash sha []) path refl e)
  verify_consistency_sound (x ∷ leaves) zero old_root path n hl ho hp k e = inl (
      empty_sound (length (x ∷ leaves)) old_root _ path (omega arith) e
      ∙ sym (subtree_hash-nil sha 64)
      ∙ unfold merkle_tree_hash in refl)
  verify_consistency_sound leaves (suc m) old_root path n hl ho hp k e =
      elim (Bool-cases (suc m == length leaves)) [
        | inl same ↦
            let q : suc m ≡ length leaves = ground arith in
            inl (
              same_size_sound (suc m) (length leaves) old_root _ path q e
              ∙ ap (merkle_tree_hash sha)
                  (sym (take_all leaves) ∙ ap (λ (i : ℕ). take i leaves) (sym q)))
        | inr other ↦
            proper_sound leaves (suc m) old_root path n hl ho hp (omega arith) (ground arith) e
      ]
