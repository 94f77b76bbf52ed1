-- ===== src/Policy/Verified.antt =====
-- What a tree head has to show to meet a policy.
use sigsum_lib_go.Prelude.{
  ◌≡◌, ◌↔◌, arith, inl, inr, Bool-cases, true, Option-cases, some, [], ◌∷◌, eq_bytes,
  eq_bytes_sound, eq_bytes_refl,
}
use sigsum_lib_go.Prelude.Maps.{Map, Entry, here, there, lookup}
use sigsum_lib_go.Result.{ok}
use sigsum_lib_go.Crypto.{Bytes, Hash, Sha256, Verifier}
use sigsum_lib_go.Types.TreeHead.{
  TreeHead, Cosignature, CosignedTreeHead, sigsum_checkpoint_origin, verify_signed_tree_head,
  verify_cosignature,
}
use sigsum_lib_go.Policy.Quorum.{Quorum, contains}
use sigsum_lib_go.Policy.Threshold.{Meets, is_quorum-Meets}
use sigsum_lib_go.Policy.Policy.{
  Entity, Policy, verified_witnesses, check_quorum, verify_cosigned_tree_head,
}

module _ (verify : Verifier) (witnesses : Map Entity) (origin : Bytes) (th : TreeHead) where
  -- A cosignature of the map that verifies under the key that the policy has for its key hash.
  abbrev pub Verified : Map Cosignature → Hash → Type 0
  Verified cosignatures h =
      (cs : Cosignature) × (witness : Entity) × Entry h cs cosignatures
      × (lookup h witnesses ≡ some witness)
      × (verify_cosignature verify cs witness.public_key origin th ≡ true)

  later :
      (entry : Hash × Cosignature) (cosignatures : Map Cosignature) (h : Hash)
      → Verified cosignatures h
      → Verified (entry ∷ cosignatures) h
  later entry cosignatures h (cs, witness, m, known, valid) = (cs, witness, there m, known, valid)

  contains_sound :
      (cosignatures : Map Cosignature) (h : Hash)
      → contains (verified_witnesses verify witnesses origin th cosignatures) h ≡ true
      → Verified cosignatures h
  unfolding verified_witnesses contains
  contains_sound [] h e = cc
  contains_sound ((k, cs) ∷ rest) h e = elim (Option-cases (lookup k witnesses)) [
    | inl unknown ↦ later (k, cs) rest h (contains_sound rest h (rw (contains, unknown) at e))
    | inr (witness, known) ↦
        elim (Bool-cases (verify_cosignature verify cs witness.public_key origin th)) [
          | inr invalid ↦
              later (k, cs) rest h (contains_sound rest h (rw (contains, known, invalid) at e))
          | inl valid ↦ elim (Bool-cases (eq_bytes k h)) [
            | inl same ↦
                let q : k ≡ h = eq_bytes_sound k h same in
                (cs, witness, rw (← q) here, rw (← q) known, valid)
            | inr other ↦
                later (k, cs) rest h
                  (contains_sound rest h (rw (contains, known, valid, other) at e))
          ]
        ]
  ]

  contains_complete :
      (cosignatures : Map Cosignature) (h : Hash) (cs : Cosignature) (witness : Entity)
      → Entry h cs cosignatures
      → lookup h witnesses ≡ some witness
      → verify_cosignature verify cs witness.public_key origin th ≡ true
      → contains (verified_witnesses verify witnesses origin th cosignatures) h ≡ true
  unfolding verified_witnesses contains
  contains_complete [] h cs witness m known valid = elim m [ ]
  contains_complete (e ∷ rest) h cs witness here known valid =
      rw (contains, known, valid, eq_bytes_refl h)
  contains_complete ((k, cs') ∷ rest) h cs witness (there m) known valid =
      let found = contains_complete rest h cs witness m known valid in
      elim (Option-cases (lookup k witnesses)) [
        | inl unknown ↦ rw (contains, unknown) found
        | inr (other, listed) ↦
            elim (Bool-cases (verify_cosignature verify cs' other.public_key origin th)) [
              | inr invalid ↦ rw (contains, listed, invalid) found
              | inl correct ↦ elim (Bool-cases (eq_bytes k h)) [
                | inl same ↦ rw (contains, listed, correct, same)
                | inr differs ↦ rw (contains, listed, correct, differs) found
              ]
            ]
      ]

  -- The set that the loop collects holds the key hashes of the valid cosignatures, and no other.
  pub verified_witnesses-Verified :
      (cosignatures : Map Cosignature) (h : Hash)
      → (contains (verified_witnesses verify witnesses origin th cosignatures) h ≡ true)
        ↔ Verified cosignatures h
  verified_witnesses-Verified cosignatures h =
      (contains_sound cosignatures h, λ v. contains_complete cosignatures h v.0 v.1 v.2 v.3 v.4)

module _ (sha : Sha256) (verify : Verifier) (p : Policy) (log_key_hash : Hash)
    (cth : CosignedTreeHead) where
  -- A known log that signed the tree head, and a quorum that the verified witnesses meet.
  pub record Trusted : Type 0 where
    pub log : Entity
    pub known : lookup log_key_hash p.logs ≡ some log
    pub signed : verify_signed_tree_head sha verify cth.signed_tree_head log.public_key ≡ true
    pub quorum : Quorum
    pub chosen : p.quorum ≡ some quorum
    pub cosigned :
        Meets
          (verified_witnesses verify p.witnesses
            (sigsum_checkpoint_origin sha log.public_key)
            cth.tree_head
            cth.cosignatures)
          quorum

  accepted : verify_cosigned_tree_head sha verify p log_key_hash cth ≡ ok tt → Trusted
  unfolding verify_cosigned_tree_head check_quorum
  accepted e = elim (Option-cases (lookup log_key_hash p.logs)) [
    | inl unknown ↦ absurd (ground (arith, rw (verify_cosigned_tree_head, unknown) at e))
    | inr (log, known) ↦
        elim (Bool-cases (verify_signed_tree_head sha verify cth.signed_tree_head log.public_key)) [
          | inr invalid ↦
              absurd (ground (arith, rw (verify_cosigned_tree_head, known, invalid) at e))
          | inl signed ↦ elim (Option-cases p.quorum) [
            | inl unset ↦
                absurd (ground (arith, rw (verify_cosigned_tree_head, known, signed, unset) at e))
            | inr (q, chosen) ↦ record {
              log = log;
              known = known;
              signed = signed;
              quorum = q;
              chosen = chosen;
              cosigned =
                  (is_quorum-Meets q _).0
                    (ground (arith, rw (verify_cosigned_tree_head, known, signed, chosen) at e));
            }
          ]
        ]
  ]

  trusted : Trusted → verify_cosigned_tree_head sha verify p log_key_hash cth ≡ ok tt
  unfolding verify_cosigned_tree_head check_quorum
  trusted t = rw (
    verify_cosigned_tree_head,
    t.known,
    t.signed,
    t.chosen,
    (is_quorum-Meets t.quorum _).1 t.cosigned,
  )

  -- VerifyCosignedTreeHead succeeds for exactly the tree heads that the policy trusts: the log is one of
  -- the policy's and signed the tree head, and the witnesses of the policy with a valid cosignature
  -- meet the policy's quorum.
  pub verify_cosigned_tree_head-Trusted :
      (verify_cosigned_tree_head sha verify p log_key_hash cth ≡ ok tt) ↔ Trusted
  verify_cosigned_tree_head-Trusted = (accepted, trusted)
