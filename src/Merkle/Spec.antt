-- ===== src/Merkle/Spec.antt =====
-- The Merkle tree hash of RFC 6962, section 2.1, independently of the code: the tree of the hashes
-- `xs` splits at the largest power of two that is smaller than their number.
use sigsum_lib_go.Prelude.{ℕ, zero, suc, ◌^◌, List, [], ◌∷◌, length, take, drop, leb, if◌then◌else◌}
use sigsum_lib_go.Crypto.{Hash, Sha256}
use sigsum_lib_go.Merkle.Node.{hash_interior_node, hash_empty_tree}

module _ (sha : Sha256) where
  -- For at most 2 ^ d hashes.
  unfoldable pub subtree_hash : ℕ → List Hash → Hash
  subtree_hash zero [] = hash_empty_tree sha
  subtree_hash zero (x ∷ xs) = x
  subtree_hash (suc d) xs =
      let left = subtree_hash d (take (2 ^ d) xs) in
      let right = subtree_hash d (drop (2 ^ d) xs) in
      let whole = subtree_hash d xs in
      if leb (length xs) (2 ^ d) then whole else hash_interior_node sha left right

  -- MTH: sizes are below 2 ^ 64.
  unfoldable pub merkle_tree_hash : List Hash → Hash
  merkle_tree_hash xs = subtree_hash 64 xs
