-- ===== src/Merkle/ConsistencyTotal.antt =====
-- VerifyConsistency returns a verdict and does not panic.
use sigsum_lib_go.Prelude.{
  ℕ, zero, suc, ◌+◌, ◌-◌, ◌/◌, ◌^◌, ◌≤◌, ◌<◌, ◌≡◌, ◌≢◌, sym, ap, ◌∙◌, arith,
}
use sigsum_lib_go.Prelude.{
  Bool, true, List, [], ◌∷◌, length, ◌==◌, ltb, Bool-cases, if◌then◌else◌, ==_iff, false,
}
use native.Mathlib.Nat.{div-le_self}
use sigsum_lib_go.Prelude.{◌⊎◌, inl, inr}
use sigsum_lib_go.Prelude.Bits.{trailing_zeros64}
use sigsum_lib_go.Result.{Error, panic, ◌>>=◌, ◌>>◌, require}
use sigsum_lib_go.Crypto.{Hash, Sha256}
use sigsum_lib_go.Merkle.Verify.{
  path_length, check_roots, consistency_start, consistency_from, verify_consistency,
  verify_consistency_loop,
}
use sigsum_lib_go.Merkle.PathLength.{siblings_count}
use sigsum_lib_go.Merkle.Consistency.{verify_consistency_loop_total}
use sigsum_lib_go.Merkle.Trim.{div_mono}
use sigsum_lib_go.Merkle.Trimmed.{path_length_last, trimmed, verify_consistency-trimmed}

two_required-ne-panic : (a b : Bool) (x y : Error) → (require a x >> require b y) ≢ panic
two_required-ne-panic true true x y e = cc
two_required-ne-panic true false x y e = cc
two_required-ne-panic false b x y e = cc

module _ (sha : Sha256) where
  check_roots-ne-panic :
      (old_root new_root fr sr : Hash) → check_roots old_root new_root (fr, sr, []) ≢ panic
  unfolding check_roots
  check_roots-ne-panic old_root new_root fr sr e = ground arith

  climb-ne-panic :
      (fn sn : ℕ) (path : List Hash) (start old_root new_root : Hash)
      → fn ≤ sn
      → sn < 2 ^ 64
      → length path ≡ siblings_count 64 fn sn
      → (verify_consistency_loop sha 64 fn sn start start path >>= check_roots old_root new_root)
        ≢ panic
  climb-ne-panic fn sn path start old_root new_root h k len e =
      let (fr, sr, q, _) = verify_consistency_loop_total sha 64 fn sn start start path h k len in
      check_roots-ne-panic old_root new_root fr sr
        (ap (λ t. t >>= check_roots old_root new_root) (sym q) ∙ e)

  consistency_from-ne-panic :
      (fn sn : ℕ) (path : List Hash) (old_root new_root : Hash)
      → fn ≤ sn
      → sn < 2 ^ 64
      → length path ≡ siblings_count 64 fn sn + (if ltb 0 fn then 1 else 0)
      → consistency_from sha fn sn old_root new_root path ≢ panic
  unfolding consistency_from consistency_start
  consistency_from-ne-panic zero sn path old_root new_root h k len e =
      climb-ne-panic zero sn path old_root old_root new_root h k (omega arith) e
  consistency_from-ne-panic (suc fn) sn [] old_root new_root h k len e = absurd (ground arith)
  consistency_from-ne-panic (suc fn) sn (p ∷ path) old_root new_root h k len e =
      climb-ne-panic (suc fn) sn path p old_root new_root h k (ground arith) e

  trimmed-ne-panic :
      (fn sn : ℕ) (old_root new_root : Hash) (path : List Hash)
      → fn ≤ sn
      → sn < 2 ^ 64
      → trimmed sha fn sn old_root new_root path ≢ panic
  trimmed-ne-panic fn sn old_root new_root path h k e =
      elim (Bool-cases (length path == path_length fn (sn + 1) + (if ltb 0 fn then 1 else 0))) [
        | inl fits ↦
            consistency_from-ne-panic fn sn path old_root new_root h k
              ((==_iff _ _).0 fits
                ∙ ap (λ (i : ℕ). i + (if ltb 0 fn then 1 else 0)) (path_length_last fn sn h k))
              (rw fits at e)
        | inr long ↦ cc (long, e)
      ]

  easy_case-ne-panic :
      (m n : ℕ) (old_root new_root : Hash) (path : List Hash)
      → (m ≡ n) ⊎ (m ≡ 0)
      → verify_consistency sha m n old_root new_root path ≢ panic
  unfolding verify_consistency
  easy_case-ne-panic m n old_root new_root path (inl q) e =
      let same : (m == n) ≡ true = ground arith in
      two_required-ne-panic (length path == 0) _ _ _ (rw same at e)
  easy_case-ne-panic m n old_root new_root path (inr q) e = elim (Bool-cases (m == n)) [
    | inl same ↦ two_required-ne-panic (length path == 0) _ _ _ (rw same at e)
    | inr other ↦
        let zero_size : (m == 0) ≡ true = ground arith in
        two_required-ne-panic (length path == 0) _ _ _ (rw (other, zero_size) at e)
  ]

  -- For an old size up to the new one VerifyConsistency does not panic, whatever the roots and the
  -- path: it neither reads past the end of the path nor has elements left over. Sizes are uint64.
  pub verify_consistency-ne-panic :
      (m n : ℕ) (old_root new_root : Hash) (path : List Hash)
      → m ≤ n
      → n < 2 ^ 64
      → verify_consistency sha m n old_root new_root path ≢ panic
  verify_consistency-ne-panic m n old_root new_root path h k e = elim (Bool-cases (m == n)) [
    | inl same ↦ easy_case-ne-panic m n old_root new_root path (inl (ground arith)) e
    | inr other ↦ elim (Bool-cases (m == 0)) [
      | inl z ↦ easy_case-ne-panic m n old_root new_root path (inr (ground arith)) e
      | inr pos ↦
          trimmed-ne-panic ((m - 1) / 2 ^ trailing_zeros64 m) ((n - 1) / 2 ^ trailing_zeros64 m)
            old_root new_root path (div_mono (trailing_zeros64 m) (m - 1) (n - 1) (omega arith))
            (omega (arith, div-le_self (n - 1) (2 ^ trailing_zeros64 m)))
            (sym (
                verify_consistency-trimmed sha m n old_root new_root path (ground arith)
                  (ground arith) k)
              ∙ e)
    ]
  ]
