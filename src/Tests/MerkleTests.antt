-- ===== src/Tests/MerkleTests.antt =====
-- The theorems on trees and proofs, on a tree of two leaves.
use sigsum_lib_go.Prelude.{
  length, ◌+◌, ap, List, ℕ, ◌<◌, ◌++◌, ◌↔◌, true, false, none, ◌^◌, ◌≡◌, ◌≢◌, refl, arith, [], ◌∷◌,
  some, take, get_elem?, ◌⊎◌, eq_bytes,
}
use sigsum_lib_go.Prelude.Maps.{lookup, insert}
use sigsum_lib_go.Prelude.Bits.{bit_length, ones_count, trailing_zeros}
use sigsum_lib_go.Result.{ok, panic}
use sigsum_lib_go.Crypto.{Hash, Collision, hash_bytes}
use sigsum_lib_go.Merkle.Node.{format_internal_node, hash_interior_node, hash_empty_tree}
use sigsum_lib_go.Merkle.Spec.{subtree_hash, merkle_tree_hash}
use sigsum_lib_go.Merkle.Verify.{
  path_length, check_root, check_roots, consistency_start, inclusion_round, verify_inclusion_loop,
  verify_inclusion, consistency_round, verify_consistency_loop, consistency_from,
  verify_consistency,
}
use sigsum_lib_go.Merkle.InclusionLaws.{
  verify_inclusion_sound, verify_inclusion_complete, verify_inclusion-ne-panic,
}
use sigsum_lib_go.Merkle.ConsistencySound.{verify_consistency_sound}
use sigsum_lib_go.Merkle.ConsistencyTotal.{verify_consistency-ne-panic}
use sigsum_lib_go.Merkle.PathLength.{siblings_count, path_length-siblings_count}
use sigsum_lib_go.Merkle.Climb.{sibling_path}
use sigsum_lib_go.Merkle.Range.{root_of}
use sigsum_lib_go.Merkle.RangeRoot.{root_of-merkle_tree_hash}
use sigsum_lib_go.Merkle.Tree.{Tree, size, new_tree, add_leaf_hash, get_leaf_index, get_root_hash}
use sigsum_lib_go.Merkle.TreeLaws.{
  IsValid, new_tree-IsValid, add_leaf_hash-IsValid, get_root_hash-IsValid,
}
use sigsum_lib_go.Merkle.TreeBuild.{firsts, add_all, add_all-firsts}
use sigsum_lib_go.Merkle.Prove.{prove_inclusion}
use sigsum_lib_go.Merkle.ProveLaws.{prove_inclusion-verify_inclusion}
use sigsum_lib_go.Tests.Samples.{sample_sha, hash_a, hash_b, two_leaves}

accepts_b :
    verify_inclusion sample_sha hash_b 1 2 (merkle_tree_hash sample_sha two_leaves) (hash_a ∷ [])
    ≡ ok tt
unfolding bit_length ones_count path_length check_root inclusion_round verify_inclusion_loop
    verify_inclusion merkle_tree_hash subtree_hash hash_interior_node format_internal_node
    hash_empty_tree eq_bytes hash_bytes
accepts_b = refl

accepts_growth :
    verify_consistency sample_sha 1 2 hash_a (merkle_tree_hash sample_sha two_leaves) (hash_b ∷ [])
    ≡ ok tt
unfolding bit_length ones_count trailing_zeros path_length check_roots consistency_start
    consistency_round verify_consistency_loop consistency_from verify_consistency merkle_tree_hash
    subtree_hash hash_interior_node format_internal_node hash_empty_tree eq_bytes hash_bytes
accepts_growth = refl

verify_inclusion_sound_example :
    ((get_elem? two_leaves 1 ≡ some hash_b)
      × ((hash_a ∷ []) ≡ sibling_path sample_sha 64 two_leaves 1))
    ⊎ Collision sample_sha
verify_inclusion_sound_example =
    verify_inclusion_sound sample_sha two_leaves hash_b 1 (hash_a ∷ []) (omega arith)
      (refl, (refl, tt)) refl (refl, tt) accepts_b

verify_inclusion_complete_example :
    verify_inclusion sample_sha hash_b 1 2
      (merkle_tree_hash sample_sha two_leaves)
      (sibling_path sample_sha 64 two_leaves 1)
    ≡ ok tt
verify_inclusion_complete_example =
    verify_inclusion_complete sample_sha two_leaves hash_b 1 (omega arith) refl

verify_inclusion-ne-panic_example : verify_inclusion sample_sha hash_b 1 2 hash_a [] ≢ panic
verify_inclusion-ne-panic_example =
    verify_inclusion-ne-panic sample_sha hash_b 1 2 hash_a [] (omega arith)

verify_consistency_sound_example :
    (hash_a ≡ merkle_tree_hash sample_sha (take 1 two_leaves)) ⊎ Collision sample_sha
verify_consistency_sound_example =
    verify_consistency_sound sample_sha two_leaves 1 hash_a (hash_b ∷ []) (omega arith)
      (refl, (refl, tt)) refl (refl, tt) (omega arith) accepts_growth

verify_consistency-ne-panic_example : verify_consistency sample_sha 1 2 hash_a hash_b [] ≢ panic
verify_consistency-ne-panic_example =
    verify_consistency-ne-panic sample_sha 1 2 hash_a hash_b [] (omega arith) (omega arith)

path_length-siblings_count_example : path_length 4 7 ≡ siblings_count 64 4 6
path_length-siblings_count_example = path_length-siblings_count 4 7 (omega arith) (omega arith)

root_of-merkle_tree_hash_example :
    root_of sample_sha two_leaves ≡ merkle_tree_hash sample_sha two_leaves
root_of-merkle_tree_hash_example = root_of-merkle_tree_hash sample_sha two_leaves (omega arith)

abbrev tree_a : Tree
tree_a = (add_leaf_hash sample_sha new_tree hash_a).0

tree_a-IsValid : IsValid sample_sha tree_a
tree_a-IsValid =
    (add_leaf_hash-IsValid sample_sha new_tree hash_a (new_tree-IsValid sample_sha) (omega arith)).0

add_leaf_hash-IsValid_example :
    IsValid sample_sha (add_leaf_hash sample_sha new_tree hash_a).0
    × ((((add_leaf_hash sample_sha new_tree hash_a).1 ≡ true)
          × ((add_leaf_hash sample_sha new_tree hash_a).0.leaves ≡ new_tree.leaves ++ hash_a ∷ [])
          × (lookup hash_a new_tree.leaf_index ≡ none))
        ⊎ ((add_leaf_hash sample_sha new_tree hash_a ≡ (new_tree, false))
            × (i : ℕ) × (get_elem? new_tree.leaves i ≡ some hash_a)))
add_leaf_hash-IsValid_example =
    add_leaf_hash-IsValid sample_sha new_tree hash_a (new_tree-IsValid sample_sha) (omega arith)

tree_a-small : size tree_a < 2 ^ 64
unfolding add_leaf_hash lookup
tree_a-small = omega arith

get_root_hash-IsValid_example :
    get_root_hash sample_sha tree_a ≡ merkle_tree_hash sample_sha tree_a.leaves
get_root_hash-IsValid_example = get_root_hash-IsValid sample_sha tree_a tree_a-IsValid tree_a-small

abbrev tree_ab : Tree
tree_ab = (add_leaf_hash sample_sha tree_a hash_b).0

tree_a-room : size tree_a + 1 < 2 ^ 64
unfolding add_leaf_hash lookup
tree_a-room = omega arith

tree_ab-IsValid : IsValid sample_sha tree_ab
tree_ab-IsValid = (add_leaf_hash-IsValid sample_sha tree_a hash_b tree_a-IsValid tree_a-room).0

tree_ab-leaves : tree_ab.leaves ≡ two_leaves
unfolding add_leaf_hash lookup insert eq_bytes
tree_ab-leaves = refl

tree_ab-size : size tree_ab ≡ 2
tree_ab-size = ap length tree_ab-leaves

tree_ab-last : get_elem? (take 2 tree_ab.leaves) 1 ≡ some hash_b
tree_ab-last = ap (λ l. get_elem? (take 2 l) 1) tree_ab-leaves

prove_inclusion-verify_inclusion_example :
    (path : List Hash) × (prove_inclusion sample_sha tree_ab 1 2 ≡ ok path)
    × (verify_inclusion sample_sha hash_b 1 2
          (merkle_tree_hash sample_sha (take 2 tree_ab.leaves))
          path
        ≡ ok tt)
prove_inclusion-verify_inclusion_example =
    prove_inclusion-verify_inclusion sample_sha tree_ab 1 2 hash_b tree_ab-IsValid
      (omega (arith, tree_ab-size)) (omega (arith, tree_ab-size)) tree_ab-last

-- One hash comes twice.
abbrev added_hashes : List Hash
added_hashes = hash_a ∷ hash_b ∷ hash_a ∷ []

distinct_hashes : firsts [] added_hashes ≡ two_leaves
unfolding eq_bytes
distinct_hashes = refl

add_all-firsts_example :
    ((add_all sample_sha new_tree added_hashes).leaves ≡ firsts [] added_hashes)
    × (get_root_hash sample_sha (add_all sample_sha new_tree added_hashes)
        ≡ merkle_tree_hash sample_sha (firsts [] added_hashes))
    × ((get_leaf_index (add_all sample_sha new_tree added_hashes) hash_b ≡ ok 1)
        ↔ (get_elem? (firsts [] added_hashes) 1 ≡ some hash_b))
add_all-firsts_example = add_all-firsts sample_sha added_hashes hash_b 1 (omega arith)
