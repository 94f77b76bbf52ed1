-- ===== src/Merkle/Range.antt =====
-- pkg/merkle/tree.go: compact ranges. A range is held with its last element first.
use sigsum_lib_go.Prelude.{ℕ, ◌+◌, ◌/◌, ◌%◌, Bool, List, [], ◌∷◌, ◌==◌, if◌then◌else◌, reverse}
use sigsum_lib_go.Prelude.Bits.{u64}
use sigsum_lib_go.Crypto.{Hash, Sha256}
use sigsum_lib_go.Merkle.Node.{hash_interior_node, hash_empty_tree}

abbrev pub CompactRange : Type 0
CompactRange = List Hash

-- (num & 1) == 0
abbrev pub is_even : ℕ → Bool
is_even num = num % 2 == 0

-- The loop of `extend`, which merges the last element while `s` is even.
unfoldable pub extend_loop : (Hash → Hash → Hash) → ℕ → Hash → CompactRange → CompactRange
extend_loop make_node s h [] = h ∷ []
extend_loop make_node s h (last ∷ cr) =
    if is_even s then extend_loop make_node (s / 2) (make_node last h) cr else h ∷ last ∷ cr

unfoldable pub extend : CompactRange → ℕ → Hash → (Hash → Hash → Hash) → CompactRange
extend cr i h make_node = extend_loop make_node (u64 (i + 1)) h cr

-- `for i, leaf := range leaves`, from index `i` on.
unfoldable pub extend_all : (Hash → Hash → Hash) → CompactRange → ℕ → List Hash → CompactRange
extend_all make_node cr i [] = cr
extend_all make_node cr i (leaf ∷ leaves) =
    extend_all make_node (extend cr i leaf make_node) (i + 1) leaves

-- Merges `h` with the elements before it, from the right.
unfoldable pub merge_from : (Hash → Hash → Hash) → Hash → CompactRange → Hash
merge_from node h [] = h
merge_from node h (left ∷ cr) = merge_from node (node left h) cr

module _ (sha : Sha256) where
  unfoldable pub new_compact_range : List Hash → CompactRange
  new_compact_range leaves = extend_all (hash_interior_node sha) [] 0 leaves

  unfoldable pub get_root_hash : CompactRange → Hash
  get_root_hash [] = hash_empty_tree sha
  get_root_hash (last ∷ cr) = merge_from (hash_interior_node sha) last cr

  unfoldable pub root_of : List Hash → Hash
  root_of leaves = get_root_hash (new_compact_range leaves)

  -- pkg/merkle/verify.go: the range of leaves taken from the right.
  unfoldable pub make_left_range : List Hash → CompactRange
  make_left_range leaves =
      extend_all (λ left right. hash_interior_node sha right left) [] 0 (reverse leaves)
