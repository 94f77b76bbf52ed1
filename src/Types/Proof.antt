-- ===== src/Types/Proof.antt =====
-- pkg/types/proof.go: proofs and their verification.
use sigsum_lib_go.Prelude.{ℕ, List}
use sigsum_lib_go.Result.{Result}
use sigsum_lib_go.Crypto.{Hash, Sha256}
use sigsum_lib_go.Merkle.Verify.{verify_inclusion, verify_consistency}
use sigsum_lib_go.Types.TreeHead.{TreeHead}

pub record InclusionProof : Type 0 where
  pub leaf_index : ℕ
  pub path : List Hash

pub record ConsistencyProof : Type 0 where
  pub path : List Hash

-- InclusionProof.Verify
unfoldable pub verify_inclusion_proof :
    Sha256 → InclusionProof → Hash → TreeHead → Result (Unit {0})
verify_inclusion_proof sha pr leaf th =
    verify_inclusion sha leaf pr.leaf_index th.size th.root_hash pr.path

-- ConsistencyProof.Verify
unfoldable pub verify_consistency_proof :
    Sha256 → ConsistencyProof → TreeHead → TreeHead → Result (Unit {0})
verify_consistency_proof sha pr old_tree new_tree =
    verify_consistency sha old_tree.size new_tree.size old_tree.root_hash new_tree.root_hash pr.path
