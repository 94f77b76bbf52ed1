-- ===== src/Merkle/Trimmed.antt =====
-- The last branch of VerifyConsistency, behind its guards.
use sigsum_lib_go.Prelude.{ℕ, ◌+◌, ◌-◌, ◌/◌, ◌^◌, ◌≤◌, ◌<◌, ◌≡◌, refl, ap, ◌∙◌, arith}
use sigsum_lib_go.Prelude.{List, length, not, ◌==◌, ltb, Bool-cases, if◌then◌else◌, ==_iff, false}
use sigsum_lib_go.Prelude.{inl, inr}
use sigsum_lib_go.Prelude.Bits.{u64, trailing_zeros64}
use sigsum_lib_go.Result.{Result, errorf, ok, err}
use sigsum_lib_go.Crypto.{Hash, Sha256}
use sigsum_lib_go.Merkle.Verify.{path_length, consistency_from, verify_consistency}
use sigsum_lib_go.Merkle.PathLength.{siblings_count, path_length-siblings_count}

pub path_length_last :
    (fn sn : ℕ) → fn ≤ sn → sn < 2 ^ 64 → path_length fn (sn + 1) ≡ siblings_count 64 fn sn
path_length_last fn sn h k =
    path_length-siblings_count fn (sn + 1) (omega arith) (omega arith)
    ∙ ap (λ (n : ℕ). siblings_count 64 fn n) (omega arith)

module _ (sha : Sha256) where
  -- The last branch of the function, with the trimmed indices written out.
  abbrev pub trimmed : ℕ → ℕ → Hash → Hash → List Hash → Result (Unit {0})
  trimmed fn sn old_root new_root path =
      if not (length path == path_length fn (sn + 1) + (if ltb 0 fn then 1 else 0))
      then err (errorf "proof input is malformed: path length %d, should be %d")
      else consistency_from sha fn sn old_root new_root path

  pub verify_consistency-trimmed :
      (m n : ℕ) (old_root new_root : Hash) (path : List Hash)
      → 0 < m
      → m < n
      → n < 2 ^ 64
      → verify_consistency sha m n old_root new_root path
        ≡ trimmed
            ((m - 1) / 2 ^ trailing_zeros64 m)
            ((n - 1) / 2 ^ trailing_zeros64 m)
            old_root
            new_root
            path
  unfolding verify_consistency
  verify_consistency-trimmed m n old_root new_root path h k l =
      let ne : (m == n) ≡ false = ground arith in
      let pos : (m == 0) ≡ false = ground arith in
      let last : u64 (n + 2 ^ 64 - 1) ≡ n - 1 = omega arith in rw (ne, pos, last) refl

  pub trimmed_guard :
      (fn sn : ℕ) (old_root new_root : Hash) (path : List Hash)
      → trimmed fn sn old_root new_root path ≡ ok tt
      → (length path ≡ path_length fn (sn + 1) + (if ltb 0 fn then 1 else 0))
        × (consistency_from sha fn sn old_root new_root path ≡ ok tt)
  trimmed_guard fn sn old_root new_root path e =
      elim (Bool-cases (length path == path_length fn (sn + 1) + (if ltb 0 fn then 1 else 0))) [
        | inl fits ↦ ((==_iff _ _).0 fits, rw fits at e)
        | inr long ↦ absurd (cc (long, e))
      ]
