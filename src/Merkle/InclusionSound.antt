-- ===== src/Merkle/InclusionSound.antt =====
-- What the loop of VerifyInclusion takes to the root is a leaf with its siblings, unless SHA-256
-- has a collision.
use native.Mathlib.Nat.{pow-suc}
use sigsum_lib_go.Prelude.{ℕ, zero, suc, ◌+◌, ◌/◌, ◌^◌, ◌≤◌, ◌<◌, ◌≡◌, ◌≢◌, sym, ◌∙◌, arith}
use sigsum_lib_go.Prelude.{none, some, List, true, [], ◌∷◌, length, All, get_elem?}
use sigsum_lib_go.Prelude.{◌==◌, ◌⊎◌, inl, inr, Bool-cases}
use sigsum_lib_go.Result.{ok}
use sigsum_lib_go.Crypto.{Hash, Sha256, Collision, IsHash}
use sigsum_lib_go.Merkle.Verify.{verify_inclusion_loop}
use sigsum_lib_go.Merkle.PathLength.{has_sibling}
use sigsum_lib_go.Merkle.Levels.{level, levels, length-level}
use sigsum_lib_go.Merkle.Siblings.{
  sibling, sibling-some, sibling-none, parent, level-IsHash, parent-injective,
}
use sigsum_lib_go.Merkle.Climb.{
  get_elem?-some, sibling-IsHash, sibling_path, parent-IsHash, round_up, round_missing, round_stay,
  levels_single, sibling_path_single, loop_top, loop_step, loop_panic, levels-level,
  sibling_path-some, sibling_path-none, parent_at,
}

module _ (sha : Sha256) where
  sound_top :
      (d fn sn : ℕ) (xs path : List Hash) (r root : Hash)
      → length xs ≡ sn + 1
      → fn ≤ sn
      → sn ≡ 0
      → levels sha d xs ≡ root ∷ []
      → verify_inclusion_loop sha d fn sn r path ≡ ok (root, [])
      → (get_elem? xs fn ≡ some r) × (path ≡ sibling_path sha d xs fn)
  sound_top d fn sn [] path r root n h z lv e = absurd (omega arith)
  sound_top d (suc fn) sn (x ∷ xs) path r root n h z lv e = absurd (omega arith)
  sound_top d zero sn (x ∷ y ∷ xs) path r root n h z lv e = absurd (omega arith)
  sound_top d zero sn (x ∷ []) path r root n h z lv e =
      let q = sym (loop_top sha d 0 sn r path z) ∙ e in
      (cc (levels_single sha d x), cc (sibling_path_single sha d x))

  -- One round up, given the claim for the level above.
  sound_up :
      (d fn sn : ℕ) (xs path : List Hash) (r root a : Hash)
      → length xs ≡ sn + 1
      → fn ≤ sn
      → has_sibling fn sn ≡ true
      → sn ≢ 0
      → All IsHash xs
      → All IsHash path
      → IsHash r
      → get_elem? xs fn ≡ some a
      → IsHash a
      → ((ps : List Hash) (r' : Hash)
          → All IsHash ps
          → IsHash r'
          → verify_inclusion_loop sha d (fn / 2) (sn / 2) r' ps ≡ ok (root, [])
          → ((get_elem? (level sha xs) (fn / 2) ≡ some r')
              × (ps ≡ sibling_path sha d (level sha xs) (fn / 2)))
            ⊎ Collision sha)
      → verify_inclusion_loop sha (suc d) fn sn r path ≡ ok (root, [])
      → ((get_elem? xs fn ≡ some r) × (path ≡ sibling_path sha (suc d) xs fn)) ⊎ Collision sha
  sound_up d fn sn xs [] r root a n h t below hx hp hr ea ia ih e =
      absurd (cc (loop_panic sha d fn sn r [] below (round_missing sha fn sn r t)))
  sound_up d fn sn xs (p ∷ ps) r root a n h t below hx (ip, hp) hr ea ia ih e =
      let (s, q) = sibling-some xs fn sn n h t in
      elim (ih ps (parent sha fn r (some p)) hp (parent-IsHash sha fn r p)
        (sym (loop_step sha d fn sn r _ _ _ below (round_up sha fn sn r p ps t)) ∙ e)) [
          | inr c ↦ inr c
          | inl (g, w) ↦
              elim (parent-injective sha fn r a p s hr ia ip (sibling-IsHash xs fn s hx q)
                (cc (g, parent_at sha xs fn a (some s) ea q))) [
                  | inr c ↦ inr c
                  | inl (u, v) ↦ inl (cc, cc (sibling_path-some sha d fn xs s q))
                ]
        ]

  sound_stay :
      (d fn : ℕ) (xs path : List Hash) (r a : Hash)
      → get_elem? xs fn ≡ some a
      → sibling xs fn ≡ none
      → ((get_elem? (level sha xs) (fn / 2) ≡ some r)
          × (path ≡ sibling_path sha d (level sha xs) (fn / 2)))
        ⊎ Collision sha
      → ((get_elem? xs fn ≡ some r) × (path ≡ sibling_path sha (suc d) xs fn)) ⊎ Collision sha
  sound_stay d fn xs path r a ea q (inr c) = inr c
  sound_stay d fn xs path r a ea q (inl (g, w)) =
      inl (cc (parent_at sha xs fn a none ea q), w ∙ sym (sibling_path-none sha d fn xs q))

  -- What the loop takes to the root is a leaf with its siblings, or shows a collision.
  pub verify_inclusion_loop_sound :
      (d fn sn : ℕ) (xs path : List Hash) (r root : Hash)
      → length xs ≡ sn + 1
      → fn ≤ sn
      → sn < 2 ^ d
      → All IsHash xs
      → All IsHash path
      → IsHash r
      → levels sha d xs ≡ root ∷ []
      → verify_inclusion_loop sha d fn sn r path ≡ ok (root, [])
      → ((get_elem? xs fn ≡ some r) × (path ≡ sibling_path sha d xs fn)) ⊎ Collision sha
  verify_inclusion_loop_sound zero fn sn xs path r root n h k hx hp hr lv e =
      inl (sound_top zero fn sn xs path r root n h (omega arith) lv e)
  verify_inclusion_loop_sound (suc d) fn sn xs path r root n h k hx hp hr lv e =
      elim (Bool-cases (sn == 0)) [
        | inl z ↦ inl (sound_top (suc d) fn sn xs path r root n h (ground arith) lv e)
        | inr z ↦
            let below : sn ≢ 0 = λ q. ground arith in
            let (a, ea, ia) = get_elem?-some xs fn (omega arith) hx in
            let n' : length (level sha xs) ≡ sn / 2 + 1 = omega (arith, length-level sha xs) in
            let ih = λ (ps : List Hash) (r' : Hash).
              verify_inclusion_loop_sound d (fn / 2) (sn / 2) (level sha xs) ps r' root n'
                (omega arith) (omega (arith, pow-suc 2 d)) (level-IsHash sha xs hx) in
            elim (Bool-cases (has_sibling fn sn)) [
              | inl t ↦
                  sound_up d fn sn xs path r root a n h t below hx hp hr ea ia
                    (λ ps r' hps hr' q. ih ps r' hps hr' (sym (levels-level sha d xs) ∙ lv) q) e
              | inr f ↦
                  let q = sibling-none xs fn sn n h f in
                  sound_stay d fn xs path r a ea q (
                    ih path r hp hr (sym (levels-level sha d xs) ∙ lv) (
                      sym
                        (loop_step sha d fn sn r r path path below (round_stay sha fn sn r path f))
                      ∙ e))
            ]
      ]
