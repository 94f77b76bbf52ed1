-- ===== src/Api/Interfaces.antt =====
-- pkg/api/api.go: the interfaces that the HTTP servers publish and the clients implement. A method
-- answers with a result for its arguments; the context is left out.
use sigsum_lib_go.Prelude.{Bool, Option, List}
use sigsum_lib_go.Result.{Result}
use sigsum_lib_go.Types.TreeHead.{CosignedTreeHead, SignedTreeHead}
use sigsum_lib_go.Types.Proof.{InclusionProof, ConsistencyProof}
use sigsum_lib_go.Types.Leaf.{Leaf}
use sigsum_lib_go.Checkpoint.Cosignature.{CosignatureLine}
use sigsum_lib_go.Requests.LogRequests as Requests
use sigsum_lib_go.Requests.AddCheckpoint.{AddCheckpoint}
use sigsum_lib_go.Token.SubmitToken.{SubmitHeader}

pub record Log : Type 0 where
  pub get_tree_head : Result CosignedTreeHead
  pub get_inclusion_proof : Requests.InclusionProof → Result InclusionProof
  pub get_consistency_proof : Requests.ConsistencyProof → Result ConsistencyProof
  pub get_leaves : Requests.Leaves → Result (List Leaf)
  pub add_leaf : Requests.Leaf → Option SubmitHeader → Result Bool

abbrev pub Witness : Type 0
Witness = AddCheckpoint → Result (List CosignatureLine)

abbrev pub Secondary : Type 0
Secondary = Result SignedTreeHead
