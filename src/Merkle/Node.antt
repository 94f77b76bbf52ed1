-- ===== src/Merkle/Node.antt =====
-- pkg/merkle/merkle.go: the hashes of leaf nodes, interior nodes and the empty tree.
use sigsum_lib_go.Prelude.{[], ◌∷◌, ◌++◌}
use sigsum_lib_go.Crypto.{Bytes, Hash, Sha256, hash_bytes}

unfoldable pub format_leaf_node : Bytes → Bytes
format_leaf_node b = 0 ∷ b

unfoldable pub format_internal_node : Hash → Hash → Bytes
format_internal_node left right = 1 ∷ (left ++ right)

module _ (sha : Sha256) where
  unfoldable pub hash_leaf_node : Bytes → Hash
  hash_leaf_node leaf = hash_bytes sha (format_leaf_node leaf)

  unfoldable pub hash_interior_node : Hash → Hash → Hash
  hash_interior_node left right = hash_bytes sha (format_internal_node left right)

  unfoldable pub hash_empty_tree : Hash
  hash_empty_tree = hash_bytes sha []
