-- ===== src/Api/Endpoint.antt =====
-- pkg/types/endpoint.go
use sigsum_lib_go.Prelude.{◌++◌, ◌∷◌, ◌==◌, length, if◌then◌else◌}
use sigsum_lib_go.Prelude.Text.{codes}
use sigsum_lib_go.Crypto.{Bytes}

abbrev pub endpoint_add_leaf : Bytes
endpoint_add_leaf = codes "add-leaf"

abbrev pub endpoint_get_tree_head : Bytes
endpoint_get_tree_head = codes "get-tree-head"

abbrev pub endpoint_get_inclusion_proof : Bytes
endpoint_get_inclusion_proof = codes "get-inclusion-proof/"

abbrev pub endpoint_get_consistency_proof : Bytes
endpoint_get_consistency_proof = codes "get-consistency-proof/"

abbrev pub endpoint_get_leaves : Bytes
endpoint_get_leaves = codes "get-leaves/"

abbrev pub endpoint_get_secondary_tree_head : Bytes
endpoint_get_secondary_tree_head = codes "get-secondary-tree-head"

abbrev pub endpoint_add_checkpoint : Bytes
endpoint_add_checkpoint = codes "add-checkpoint"

unfoldable pub path : Bytes → Bytes → Bytes
path endpoint prefix = if length prefix == 0 then endpoint else prefix ++ 47 ∷ endpoint
