-- ===== src/Merkle/Consistency.antt =====
-- The loop of VerifyConsistency climbs from the last node that the old tree shares with the new
-- one. Along the new tree's siblings it computes the root of the old tree beside that of the new.
use native.Mathlib.Nat.{pow-suc}
use sigsum_lib_go.Prelude.{ℕ, zero, suc, ◌+◌, ◌/◌, ◌^◌, ◌≤◌, ◌<◌, ◌≡◌, ◌≢◌, refl, ap, ◌∙◌, arith}
use sigsum_lib_go.Prelude.{Option, none, some, List, true, false, [], ◌∷◌, ◌++◌, length, take}
use sigsum_lib_go.Prelude.{◌==◌, inl, inr, Bool-cases, if◌then◌else◌}
use sigsum_lib_go.Result.{ok}
use sigsum_lib_go.Crypto.{Hash, Sha256}
use sigsum_lib_go.Merkle.Node.{hash_interior_node}
use sigsum_lib_go.Merkle.Verify.{
  is_odd, verify_inclusion_loop, consistency_round, verify_consistency_loop,
}
use sigsum_lib_go.Merkle.PathLength.{has_sibling, siblings_count}
use sigsum_lib_go.Merkle.Levels.{level, levels, length-level}
use sigsum_lib_go.Merkle.Siblings.{sibling, sibling-some, sibling-none, parent}
use sigsum_lib_go.Merkle.Climb.{
  sibling_path, sibling_path-some, sibling_path-none, sibling_path_single, levels_single,
  levels-level, count_none, empty_path, path_cons, path_rest,
}
use sigsum_lib_go.Merkle.Climb.{
  loop_top as inclusion_loop_top, loop_step as inclusion_loop_step, round_up as inclusion_round_up,
  round_stay as inclusion_round_stay,
}

module _ (sha : Sha256) where
  -- The old tree's node on the next level: it joins a left sibling, and passes a right one by.
  abbrev old_parent : ℕ → Hash → Option Hash → Hash
  old_parent i f none = f
  old_parent i f (some s) = if is_odd i then hash_interior_node sha s f else f

  old_parent-suc-suc :
      (i : ℕ) (f : Hash) (o : Option Hash) → old_parent (suc (suc i)) f o ≡ old_parent i f o
  old_parent-suc-suc i f none = refl
  old_parent-suc-suc i f (some s) = ground arith

  level-take :
      (xs : List Hash) (i : ℕ) (f : Hash)
      → i < length xs
      → level sha (take i xs ++ f ∷ [])
        ≡ take (i / 2) (level sha xs) ++ old_parent i f (sibling xs i) ∷ []
  unfolding level sibling
  level-take [] i f h = absurd (omega arith)
  level-take (x ∷ []) zero f h = refl
  level-take (x ∷ []) (suc i) f h = absurd (omega arith)
  level-take (x ∷ y ∷ xs) zero f h = refl
  level-take (x ∷ y ∷ xs) (suc zero) f h = refl
  level-take (x ∷ y ∷ xs) (suc (suc i)) f h =
      let half : suc (suc i) / 2 ≡ suc (i / 2) = omega arith in
      rw (half, old_parent-suc-suc i f (sibling xs i))
        (ap (λ t. hash_interior_node sha x y ∷ t) (level-take xs i f (omega arith)))

  round_up :
      (fn sn : ℕ) (fr sr h : Hash) (path : List Hash)
      → has_sibling fn sn ≡ true
      → consistency_round sha fn sn fr sr (h ∷ path)
        ≡ ok (old_parent fn fr (some h), parent sha fn sr (some h), path)
  unfolding consistency_round
  round_up fn sn fr sr h path e = ground arith

  round_stay :
      (fn sn : ℕ) (fr sr : Hash) (path : List Hash)
      → has_sibling fn sn ≡ false
      → consistency_round sha fn sn fr sr path ≡ ok (fr, sr, path)
  unfolding consistency_round
  round_stay fn sn fr sr [] e = ground arith
  round_stay fn sn fr sr (h ∷ path) e = ground arith

  loop_top :
      (d fn sn : ℕ) (fr sr : Hash) (path : List Hash)
      → sn ≡ 0
      → verify_consistency_loop sha d fn sn fr sr path ≡ ok (fr, sr, path)
  unfolding verify_consistency_loop
  loop_top zero fn sn fr sr path e = refl
  loop_top (suc d) fn sn fr sr path e = rw e

  loop_step :
      (d fn sn : ℕ) (fr sr fr' sr' : Hash) (path rest : List Hash)
      → sn ≢ 0
      → consistency_round sha fn sn fr sr path ≡ ok (fr', sr', rest)
      → verify_consistency_loop sha (suc d) fn sn fr sr path
        ≡ verify_consistency_loop sha d (fn / 2) (sn / 2) fr' sr' rest
  unfolding verify_consistency_loop
  loop_step d fn sn fr sr fr' sr' path rest ne e = elim (Bool-cases (sn == 0)) [
    | inl z ↦ absurd (ne (ground arith))
    | inr z ↦ rw (z, e)
  ]

  -- With as many hashes as there are siblings the loop uses them up, and computes beside the old
  -- tree's root what the loop of VerifyInclusion computes.
  pub verify_consistency_loop_total :
      (d fn sn : ℕ) (fr sr : Hash) (path : List Hash)
      → fn ≤ sn
      → sn < 2 ^ d
      → length path ≡ siblings_count d fn sn
      → (fr' : Hash) × (sr' : Hash) × (verify_consistency_loop sha d fn sn fr sr path
          ≡ ok (fr', sr', []))
        × (verify_inclusion_loop sha d fn sn sr path ≡ ok (sr', []))
  verify_consistency_loop_total zero fn sn fr sr path h k n =
      let top : sn ≡ 0 = omega arith in
      let empty = empty_path sha zero fn sn path h top n in
      (
        fr,
        sr,
        loop_top zero fn sn fr sr path top ∙ ap (λ t. ok (fr, sr, t)) empty,
        inclusion_loop_top sha zero fn sn sr path top ∙ ap (λ t. ok (sr, t)) empty,
      )
  verify_consistency_loop_total (suc d) fn sn fr sr path h k n = elim (Bool-cases (sn == 0)) [
    | inl z ↦
        let top : sn ≡ 0 = ground arith in
        let empty = empty_path sha (suc d) fn sn path h top n in
        (
          fr,
          sr,
          loop_top (suc d) fn sn fr sr path top ∙ ap (λ t. ok (fr, sr, t)) empty,
          inclusion_loop_top sha (suc d) fn sn sr path top ∙ ap (λ t. ok (sr, t)) empty,
        )
    | inr z ↦
        let below : sn ≢ 0 = λ e. ground arith in
        let k' : sn / 2 < 2 ^ d = omega (arith, pow-suc 2 d) in
        elim (Bool-cases (has_sibling fn sn)) [
          | inl t ↦
              let (s, rest, q) = path_cons sha d fn sn path t n in
              let (fr', sr', e, e') =
                verify_consistency_loop_total d (fn / 2) (sn / 2) (old_parent fn fr (some s))
                  (parent sha fn sr (some s)) rest (omega arith) k'
                  (path_rest sha d fn sn path s rest t n q) in
              (
                fr',
                sr',
                ap (verify_consistency_loop sha (suc d) fn sn fr sr) q
                    ∙ loop_step d fn sn fr sr _ _ _ _ below (round_up fn sn fr sr s rest t)
                    ∙ e,
                ap (verify_inclusion_loop sha (suc d) fn sn sr) q
                    ∙ inclusion_loop_step sha d fn sn sr _ _ _ below
                        (inclusion_round_up sha fn sn sr s rest t)
                    ∙ e',
              )
          | inr f ↦
              let (fr', sr', e, e') =
                verify_consistency_loop_total d (fn / 2) (sn / 2) fr sr path (omega arith) k'
                  (n ∙ count_none sha d fn sn f) in
              (
                fr',
                sr',
                loop_step d fn sn fr sr fr sr path path below (round_stay fn sn fr sr path f) ∙ e,
                inclusion_loop_step sha d fn sn sr sr path path below
                      (inclusion_round_stay sha fn sn sr path f)
                    ∙ e',
              )
        ]
  ]

  level_of_old :
      (d fn : ℕ) (xs : List Hash) (fr f : Hash) (o : Option Hash)
      → fn < length xs
      → sibling xs fn ≡ o
      → levels sha d (take (fn / 2) (level sha xs) ++ old_parent fn fr o ∷ []) ≡ f ∷ []
      → levels sha (suc d) (take fn xs ++ fr ∷ []) ≡ f ∷ []
  level_of_old d fn xs fr f o h q e =
      levels-level sha d (take fn xs ++ fr ∷ [])
      ∙ ap (levels sha d) (
          level-take xs fn fr h
          ∙ ap (λ t. take (fn / 2) (level sha xs) ++ old_parent fn fr t ∷ []) q)
      ∙ e

  -- Along the siblings of the node at `fn`, the first result is the root of the nodes before it
  -- with `fr` in its place.
  pub verify_consistency_loop-sibling_path :
      (d fn sn : ℕ) (xs : List Hash) (fr sr : Hash)
      → length xs ≡ sn + 1
      → fn ≤ sn
      → sn < 2 ^ d
      → (f : Hash) × (s : Hash) × (levels sha d (take fn xs ++ fr ∷ []) ≡ f ∷ [])
        × (verify_consistency_loop sha d fn sn fr sr (sibling_path sha d xs fn) ≡ ok (f, s, []))
  verify_consistency_loop-sibling_path d fn sn [] fr sr n h k = absurd (omega arith)
  verify_consistency_loop-sibling_path d (suc fn) sn (x ∷ []) fr sr n h k = absurd (omega arith)
  verify_consistency_loop-sibling_path d zero sn (x ∷ []) fr sr n h k = (
    fr,
    sr,
    levels_single sha d fr,
    ap (verify_consistency_loop sha d 0 sn fr sr) (sibling_path_single sha d x)
        ∙ loop_top d 0 sn fr sr [] (omega arith),
  )
  verify_consistency_loop-sibling_path zero fn sn (x ∷ y ∷ xs) fr sr n h k = absurd (omega arith)
  verify_consistency_loop-sibling_path (suc d) fn sn (x ∷ y ∷ xs) fr sr n h k =
      let l = x ∷ y ∷ xs in
      let n' : length (level sha l) ≡ sn / 2 + 1 = omega (arith, length-level sha l) in
      let k' : sn / 2 < 2 ^ d = omega (arith, pow-suc 2 d) in
      elim (Bool-cases (has_sibling fn sn)) [
        | inl t ↦
            let (s, q) = sibling-some l fn sn n h t in
            let (f, r, lv, lp) =
              verify_consistency_loop-sibling_path d (fn / 2) (sn / 2) (level sha l)
                (old_parent fn fr (some s)) (parent sha fn sr (some s)) n' (omega arith) k' in
            (
              f,
              r,
              level_of_old d fn l fr f (some s) (omega arith) q lv,
              ap (verify_consistency_loop sha (suc d) fn sn fr sr)
                    (sibling_path-some sha d fn l s q)
                  ∙ loop_step d fn sn fr sr _ _ _ _ (omega arith) (round_up fn sn fr sr s _ t)
                  ∙ lp,
            )
        | inr g ↦
            let q = sibling-none l fn sn n h g in
            let (f, r, lv, lp) =
              verify_consistency_loop-sibling_path d (fn / 2) (sn / 2) (level sha l) fr sr n'
                (omega arith) k' in
            (
              f,
              r,
              level_of_old d fn l fr f none (omega arith) q lv,
              ap (verify_consistency_loop sha (suc d) fn sn fr sr) (sibling_path-none sha d fn l q)
                  ∙ loop_step d fn sn fr sr _ _ _ _ (omega arith) (round_stay fn sn fr sr _ g)
                  ∙ lp,
            )
      ]
