-- ===== src/Merkle/Inclusion.antt =====
-- The loop of VerifyInclusion on the siblings of a leaf, and on any path of the right length.
use native.Mathlib.Nat.{pow-suc}
use sigsum_lib_go.Prelude.{ℕ, zero, suc, ◌+◌, ◌/◌, ◌^◌, ◌≤◌, ◌<◌, ◌≡◌, ◌≢◌, refl, ap, ◌∙◌, arith}
use sigsum_lib_go.Prelude.{none, some, List, [], ◌∷◌, length, get_elem?}
use sigsum_lib_go.Prelude.{◌==◌, inl, inr, Bool-cases}
use sigsum_lib_go.Result.{ok}
use sigsum_lib_go.Crypto.{Hash, Sha256}
use sigsum_lib_go.Merkle.Verify.{verify_inclusion_loop}
use sigsum_lib_go.Merkle.PathLength.{has_sibling, siblings_count}
use sigsum_lib_go.Merkle.Levels.{level, levels, length-level}
use sigsum_lib_go.Merkle.Siblings.{sibling-some, sibling-none, parent}
use sigsum_lib_go.Merkle.Climb.{
  sibling_path, round_up, round_stay, levels_single, sibling_path_single, loop_top, loop_step,
  levels-level, sibling_path-some, sibling_path-none, parent_at, count_some, count_none, empty_path,
  path_cons, path_rest,
}

module _ (sha : Sha256) where
  -- The loop takes the siblings of a leaf to the root.
  pub verify_inclusion_loop-sibling_path :
      (d fn sn : ℕ) (xs : List Hash) (a : Hash)
      → length xs ≡ sn + 1
      → sn < 2 ^ d
      → get_elem? xs fn ≡ some a
      → fn ≤ sn
      → (r : Hash) × (levels sha d xs ≡ r ∷ [])
        × (verify_inclusion_loop sha d fn sn a (sibling_path sha d xs fn) ≡ ok (r, []))
  verify_inclusion_loop-sibling_path d fn sn [] a n k e h = absurd (omega arith)
  verify_inclusion_loop-sibling_path d zero sn (x ∷ []) a n k e h = (
    a,
    levels_single sha d x ∙ cc,
    ap (verify_inclusion_loop sha d 0 sn a) (sibling_path_single sha d x)
        ∙ loop_top sha d 0 sn a [] (omega arith),
  )
  verify_inclusion_loop-sibling_path d (suc fn) sn (x ∷ []) a n k e h = cc
  verify_inclusion_loop-sibling_path zero fn sn (x ∷ y ∷ xs) a n k e h = absurd (omega arith)
  verify_inclusion_loop-sibling_path (suc d) fn sn (x ∷ y ∷ xs) a n k e h =
      let l = x ∷ y ∷ xs in
      let n' : length (level sha l) ≡ sn / 2 + 1 = omega (arith, length-level sha l) in
      elim (Bool-cases (has_sibling fn sn)) [
        | inl t ↦
            let (s, q) = sibling-some l fn sn n h t in
            let (r, lv, lp) =
              verify_inclusion_loop-sibling_path d (fn / 2) (sn / 2) (level sha l)
                (parent sha fn a (some s)) n' (omega (arith, pow-suc 2 d))
                (parent_at sha l fn a (some s) e q) (omega arith) in
            (
              r,
              levels-level sha d l ∙ lv,
              ap (verify_inclusion_loop sha (suc d) fn sn a) (sibling_path-some sha d fn l s q)
                  ∙ loop_step sha d fn sn a _ _ _ (omega arith) (round_up sha fn sn a s _ t)
                  ∙ lp,
            )
        | inr f ↦
            let q = sibling-none l fn sn n h f in
            let (r, lv, lp) =
              verify_inclusion_loop-sibling_path d (fn / 2) (sn / 2) (level sha l) a n'
                (omega (arith, pow-suc 2 d)) (parent_at sha l fn a none e q) (omega arith) in
            (
              r,
              levels-level sha d l ∙ lv,
              ap (verify_inclusion_loop sha (suc d) fn sn a) (sibling_path-none sha d fn l q)
                  ∙ loop_step sha d fn sn a _ _ _ (omega arith) (round_stay sha fn sn a _ f)
                  ∙ lp,
            )
      ]

  -- With as many hashes as there are siblings the loop uses them up, and never indexes out of range.
  pub verify_inclusion_loop_total :
      (d fn sn : ℕ) (r : Hash) (path : List Hash)
      → fn ≤ sn
      → sn < 2 ^ d
      → length path ≡ siblings_count d fn sn
      → (r' : Hash) × (verify_inclusion_loop sha d fn sn r path ≡ ok (r', []))
  verify_inclusion_loop_total zero fn sn r [] h k n = (r, loop_top sha 0 fn sn r [] (omega arith))
  verify_inclusion_loop_total zero fn sn r (x ∷ path) h k n =
      absurd (unfold siblings_count in omega arith)
  verify_inclusion_loop_total (suc d) fn sn r path h k n = elim (Bool-cases (sn == 0)) [
    | inl z ↦
        let top : sn ≡ 0 = ground arith in
        let empty = empty_path sha (suc d) fn sn path h top n in
        (
          r,
          ap (verify_inclusion_loop sha (suc d) fn sn r) empty
              ∙ loop_top sha (suc d) fn sn r [] top,
        )
    | inr z ↦
        let below : sn ≢ 0 = λ e. ground arith in
        let k' : sn / 2 < 2 ^ d = omega (arith, pow-suc 2 d) in
        elim (Bool-cases (has_sibling fn sn)) [
          | inl t ↦
              let (s, rest, q) = path_cons sha d fn sn path t n in
              let (r', e) =
                verify_inclusion_loop_total d (fn / 2) (sn / 2) (parent sha fn r (some s)) rest
                  (omega arith) k' (path_rest sha d fn sn path s rest t n q) in
              (
                r',
                ap (verify_inclusion_loop sha (suc d) fn sn r) q
                    ∙ loop_step sha d fn sn r _ _ _ below (round_up sha fn sn r s rest t)
                    ∙ e,
              )
          | inr f ↦
              let (r', e) =
                verify_inclusion_loop_total d (fn / 2) (sn / 2) r path (omega arith) k'
                  (n ∙ count_none sha d fn sn f) in
              (r', loop_step sha d fn sn r r path path below (round_stay sha fn sn r path f) ∙ e)
        ]
  ]

  pub length-sibling_path :
      (d fn sn : ℕ) (xs : List Hash)
      → length xs ≡ sn + 1
      → fn ≤ sn
      → length (sibling_path sha d xs fn) ≡ siblings_count d fn sn
  length-sibling_path zero fn sn xs n h = unfold siblings_count sibling_path in refl
  length-sibling_path (suc d) fn sn xs n h = elim (Bool-cases (has_sibling fn sn)) [
    | inl t ↦
        let (s, q) = sibling-some xs fn sn n h t in
        omega (
          arith,
          ap length (sibling_path-some sha d fn xs s q),
          count_some sha d fn sn t,
          length-sibling_path d (fn / 2) (sn / 2) (level sha xs)
              (omega (arith, length-level sha xs)) (omega arith),
        )
    | inr f ↦ omega (
      arith,
      ap length (sibling_path-none sha d fn xs (sibling-none xs fn sn n h f)),
      count_none sha d fn sn f,
      length-sibling_path d (fn / 2) (sn / 2) (level sha xs) (omega (arith, length-level sha xs))
          (omega arith),
    )
  ]
