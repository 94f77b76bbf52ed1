-- ===== src/Policy/Policy.antt =====
-- pkg/policy/policy.go: the policy and the verification of a cosigned tree head.
use sigsum_lib_go.Prelude.{ℕ, Option, none, some, List, [], ◌∷◌, length, ltb, if◌then◌else◌, not}
use sigsum_lib_go.Prelude.Maps.{Map, lookup, insert}
use sigsum_lib_go.Result.{Result, ok, err, panic, errorf, ◌>>=◌}
use sigsum_lib_go.Crypto.{Bytes, Hash, PublicKey, Sha256, Verifier, hash_bytes}
use sigsum_lib_go.Types.TreeHead.{
  TreeHead, Cosignature, CosignedTreeHead, sigsum_checkpoint_origin, verify_signed_tree_head,
  verify_cosignature,
}
use sigsum_lib_go.Policy.Quorum.{Quorum, Quorums, single, k_of_n, nil, snoc, is_quorum}

pub record Entity : Type 0 where
  pub public_key : PublicKey
  pub url : Bytes

-- A nil quorum is `none`.
pub record Policy : Type 0 where
  pub logs : Map Entity
  pub witnesses : Map Entity
  pub quorum : Option Quorum

abbrev pub new_empty_policy : Policy
new_empty_policy = record { logs = []; witnesses = []; quorum = none }

-- A call of IsQuorum on a nil quorum panics.
unfoldable pub check_quorum : Option Quorum → List Hash → Result (Unit {0})
check_quorum none verified = panic
check_quorum (some q) verified =
    if is_quorum q verified
    then ok tt
    else err (errorf "not enough cosignatures, total: %d, verified: %d, failed to verify: %d")

module _ (verify : Verifier) where
  -- The witnesses with a valid cosignature, in the order of the loop over the cosignatures.
  unfoldable pub verified_witnesses : Map Entity → Bytes → TreeHead → Map Cosignature → List Hash
  verified_witnesses witnesses origin th [] = []
  verified_witnesses witnesses origin th ((key_hash, cs) ∷ rest) =
      let others = verified_witnesses witnesses origin th rest in
      elim (lookup key_hash witnesses) [
        | none ↦ others
        | some witness ↦
            if verify_cosignature verify cs witness.public_key origin th
            then key_hash ∷ others
            else others
      ]

module _ (sha : Sha256) (verify : Verifier) where
  unfoldable pub verify_cosigned_tree_head : Policy → Hash → CosignedTreeHead → Result (Unit {0})
  verify_cosigned_tree_head p log_key_hash cth = elim (lookup log_key_hash p.logs) [
    | none ↦ err (errorf "unknown log")
    | some log ↦
        if not (verify_signed_tree_head sha verify cth.signed_tree_head log.public_key)
        then err (errorf "invalid log signature")
        else check_quorum p.quorum (
            verified_witnesses verify p.witnesses (sigsum_checkpoint_origin sha log.public_key)
              cth.tree_head cth.cosignatures)
  ]

module _ (sha : Sha256) where
  unfoldable pub add_log : Policy → Entity → Result (Policy × Hash)
  add_log p log =
      let h = hash_bytes sha log.public_key in
      elim (lookup h p.logs) [
        | some _ ↦ err (errorf "duplicate log: %x")
        | none ↦ ok (record p { logs = insert h log p.logs }, h)
      ]

  unfoldable pub add_witness : Policy → Entity → Result (Policy × Hash)
  add_witness p witness =
      let h = hash_bytes sha witness.public_key in
      elim (lookup h p.witnesses) [
        | some _ ↦ err (errorf "duplicate witness: %x")
        | none ↦ ok (record p { witnesses = insert h witness p.witnesses }, h)
      ]

  unfoldable pub add_logs : Policy → List PublicKey → Result Policy
  add_logs p [] = ok p
  add_logs p (l ∷ logs) = do s ← add_log p (record { public_key = l; url = [] }); add_logs s.0 logs

  unfoldable pub add_witnesses : Policy → Quorums → List PublicKey → Result (Policy × Quorums)
  add_witnesses p qs [] = ok (p, qs)
  add_witnesses p qs (w ∷ witnesses) = do
    s ← add_witness p (record { public_key = w; url = [] })
    add_witnesses s.0 (snoc qs (single s.1)) witnesses

  -- `k` is not negative.
  unfoldable pub new_k_of_n_policy : List PublicKey → List PublicKey → ℕ → Result Policy
  new_k_of_n_policy logs witnesses k =
      if ltb (length witnesses) k then err (errorf "invalid policy k (%d) > n (%d)") else do
        p ← add_logs new_empty_policy logs
        s ← add_witnesses p nil witnesses
        ok (record (s.0) { quorum = some (k_of_n s.1 k) })

-- The entities with a URL, before the shuffle.
unfoldable pub entities_with_url : Map Entity → List Entity
entities_with_url [] = []
entities_with_url ((h, entity) ∷ m) =
    let rest = entities_with_url m in if ltb 0 (length entity.url) then entity ∷ rest else rest
