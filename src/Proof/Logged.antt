-- ===== src/Proof/Logged.antt =====
-- What a sigsum proof that Verify accepts shows.
use sigsum_lib_go.Prelude.{
  ◌^◌, ◌<◌, ◌≡◌, ◌↔◌, ◌⊎◌, inl, inr, Bool-cases, Option-cases, true, some, List, length, All,
  get_elem?,
}
use sigsum_lib_go.Prelude.Maps.{Map, lookup}
use sigsum_lib_go.Result.{ok, >>=-ok}
use sigsum_lib_go.Crypto.{Hash, PublicKey, Sha256, Verifier, Collision, IsHash, hash_bytes}
use sigsum_lib_go.Merkle.Spec.{merkle_tree_hash}
use sigsum_lib_go.Merkle.Verify.{verify_inclusion}
use sigsum_lib_go.Merkle.InclusionLaws.{verify_inclusion_sound}
use sigsum_lib_go.Types.Leaf.{Leaf, verify_leaf, to_hash}
use sigsum_lib_go.Types.LeafLaws.{to_hash-IsHash}
use sigsum_lib_go.Types.Proof.{verify_inclusion_proof}
use sigsum_lib_go.Policy.Policy.{Policy, verify_cosigned_tree_head}
use sigsum_lib_go.Policy.Verified.{Trusted, verify_cosigned_tree_head-Trusted}
use sigsum_lib_go.Proof.SigsumProof.{SigsumProof, to_leaf, verify_sigsum_proof}

module _ (sha : Sha256) (verify : Verifier) (sp : SigsumProof) (msg : Hash)
    (submit_keys : Map PublicKey) (policy : Policy) where
  -- The leaf of the message.
  abbrev pub leaf_of : Leaf
  leaf_of = to_leaf sp.leaf (hash_bytes sha msg)

  -- A submitter that is known and signed the leaf, a tree head that the policy trusts, and the leaf
  -- in that tree.
  pub record Logged : Type 0 where
    pub key : PublicKey
    pub known : lookup sp.leaf.key_hash submit_keys ≡ some key
    pub signed : verify_leaf sha verify leaf_of key ≡ true
    pub trusted : Trusted sha verify policy sp.log_key_hash sp.tree_head
    pub included :
        verify_inclusion_proof sha sp.inclusion (to_hash sha leaf_of) sp.tree_head.tree_head ≡ ok tt

  accepted : verify_sigsum_proof sha verify sp msg submit_keys policy ≡ ok tt → Logged
  unfolding verify_sigsum_proof
  accepted e = elim (Option-cases (lookup sp.leaf.key_hash submit_keys)) [
    | inl unknown ↦ absurd (cc (rw (verify_sigsum_proof, unknown) at e))
    | inr (key, known) ↦ elim (Bool-cases (verify_leaf sha verify leaf_of key)) [
      | inr invalid ↦ absurd (cc (rw (verify_sigsum_proof, known, invalid) at e))
      | inl signed ↦
          let (_, trusts, included) =
            >>=-ok (verify_cosigned_tree_head sha verify policy sp.log_key_hash sp.tree_head) _ tt
              (rw (verify_sigsum_proof, known, signed) at e) in
          record {
            key = key;
            known = known;
            signed = signed;
            trusted =
                (verify_cosigned_tree_head-Trusted sha verify policy sp.log_key_hash sp.tree_head).0
                  trusts;
            included = included;
          }
    ]
  ]

  logged : Logged → verify_sigsum_proof sha verify sp msg submit_keys policy ≡ ok tt
  unfolding verify_sigsum_proof
  logged l =
      rw
        (
          verify_sigsum_proof,
          l.known,
          l.signed,
          (verify_cosigned_tree_head-Trusted sha verify policy sp.log_key_hash sp.tree_head).1
              l.trusted,
        )
        l.included

  -- Verify accepts exactly the proofs whose leaf a known submitter signed for the message, whose tree
  -- head the policy trusts, and whose inclusion proof verifies for that leaf and tree head.
  pub verify_sigsum_proof-Logged :
      (verify_sigsum_proof sha verify sp msg submit_keys policy ≡ ok tt) ↔ Logged
  verify_sigsum_proof-Logged = (accepted, logged)

  -- If Verify accepts a proof whose tree head is the one of some leaf hashes, then the leaf hash of the
  -- message stands among them at the proof's index, or two byte strings with one SHA-256 hash are
  -- at hand. The size is a uint64 and hashes are 32 bytes long.
  pub verify_sigsum_proof_sound :
      (tree : List Hash)
      → length tree < 2 ^ 64
      → All IsHash tree
      → All IsHash sp.inclusion.path
      → sp.tree_head.size ≡ length tree
      → sp.tree_head.root_hash ≡ merkle_tree_hash sha tree
      → verify_sigsum_proof sha verify sp msg submit_keys policy ≡ ok tt
      → (get_elem? tree sp.inclusion.leaf_index ≡ some (to_hash sha leaf_of)) ⊎ Collision sha
  unfolding verify_inclusion_proof
  verify_sigsum_proof_sound tree n hl hp size root e =
      let l : Logged = verify_sigsum_proof-Logged.0 e in
      let holds : verify_inclusion sha (to_hash sha leaf_of) sp.inclusion.leaf_index (length tree)
            (merkle_tree_hash sha tree) sp.inclusion.path
          ≡ ok tt =
        rw (← size, ← root) l.included in
      elim (verify_inclusion_sound sha tree (to_hash sha leaf_of) sp.inclusion.leaf_index
        sp.inclusion.path n hl (to_hash-IsHash sha leaf_of) hp holds) [
          | inl (stands, _) ↦ inl stands
          | inr c ↦ inr c
        ]
