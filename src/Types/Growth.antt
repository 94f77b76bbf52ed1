-- ===== src/Types/Growth.antt =====
-- What consistency proofs say of two tree heads of one log.
use sigsum_lib_go.Prelude.{
  ℕ, ◌^◌, ◌≤◌, ◌<◌, ◌≡◌, ap, sym, ◌∙◌, arith, ◌⊎◌, inl, inr, List, take, length, All, take_all,
  take-take, length-take_le, All-take,
}
use sigsum_lib_go.Result.{ok}
use sigsum_lib_go.Crypto.{Hash, Sha256, Collision, IsHash}
use sigsum_lib_go.Merkle.Spec.{merkle_tree_hash}
use sigsum_lib_go.Merkle.Verify.{verify_consistency}
use sigsum_lib_go.Merkle.ConsistencySound.{verify_consistency_sound}
use sigsum_lib_go.Types.TreeHead.{TreeHead}
use sigsum_lib_go.Types.Proof.{ConsistencyProof, verify_consistency_proof}

module _ (sha : Sha256) where
  -- What a tree head owes to a later tree of these leaves: its tree is no larger, and its root is the one of
  -- the first leaves, or two inputs have one hash.
  abbrev pub Extends : TreeHead → List Hash → Type 0
  Extends th leaves =
      (th.size ≤ length leaves)
      × ((th.root_hash ≡ merkle_tree_hash sha (take th.size leaves)) ⊎ Collision sha)

  consistent-prefix :
      (leaves : List Hash) (m n : ℕ) (old_root new_root : Hash) (path : List Hash)
      → IsHash old_root
      → All IsHash path
      → length leaves < 2 ^ 64
      → All IsHash leaves
      → m ≤ n
      → n ≤ length leaves
      → verify_consistency sha m n old_root new_root path ≡ ok tt
      → new_root ≡ merkle_tree_hash sha (take n leaves)
      → (old_root ≡ merkle_tree_hash sha (take m leaves)) ⊎ Collision sha
  consistent-prefix leaves m n old_root new_root path ho hp k hl mn nl consistent root =
      let size : length (take n leaves) ≡ n = length-take_le n leaves nl in
      elim (verify_consistency_sound sha (take n leaves) m old_root path (omega (arith, size))
        (All-take IsHash n leaves hl) ho hp (omega (arith, size)) (rw (size, ← root) consistent)) [
          | inl e ↦ inl (e ∙ ap (merkle_tree_hash sha) (take-take m n leaves mn))
          | inr c ↦ inr c
        ]

  pub consistent-Extends :
      (leaves : List Hash) (pr : ConsistencyProof) (old new : TreeHead)
      → IsHash old.root_hash
      → All IsHash pr.path
      → length leaves < 2 ^ 64
      → All IsHash leaves
      → old.size ≤ new.size
      → verify_consistency_proof sha pr old new ≡ ok tt
      → Extends new leaves
      → Extends old leaves
  consistent-Extends leaves pr old new ho hp n hl mn consistent (k, inr c) = (omega arith, inr c)
  consistent-Extends leaves pr old new ho hp n hl mn consistent (k, inl e) = (
    omega arith,
    consistent-prefix leaves old.size new.size old.root_hash new.root_hash pr.path ho hp n hl mn k
        (unfold verify_consistency_proof in consistent) e,
  )

  -- A tree head of all the leaves.
  pub merkle_tree_hash-Extends :
      (th : TreeHead) (leaves : List Hash)
      → th.size ≡ length leaves
      → th.root_hash ≡ merkle_tree_hash sha leaves
      → Extends th leaves
  merkle_tree_hash-Extends th leaves size root = (
    omega arith,
    inl (
        root
        ∙ ap (merkle_tree_hash sha)
            (sym (take_all leaves) ∙ ap (λ (i : ℕ). take i leaves) (sym size))),
  )
