-- ===== src/Merkle/Tree.antt =====
-- pkg/merkle/tree.go: the tree of leaf hashes, and the proofs that it makes.
use sigsum_lib_go.Prelude.{ℕ, ◌-◌, Bool, true, false, some, none, List, [], ◌∷◌, ◌++◌, length}
use sigsum_lib_go.Prelude.Maps.{Map, lookup, insert}
use sigsum_lib_go.Result.{Result, ok, err, errorf}
use sigsum_lib_go.Crypto.{Hash, Sha256}
use sigsum_lib_go.Merkle.Node.{hash_interior_node}
use sigsum_lib_go.Merkle.Range.{CompactRange, extend, get_root_hash as range_root_hash}

pub record Tree : Type 0 where
  pub leaves : List Hash
  pub leaf_index : Map ℕ
  pub c_range : CompactRange

abbrev pub new_tree : Tree
new_tree = record { leaves = []; leaf_index = []; c_range = [] }

abbrev pub size : Tree → ℕ
size t = length t.leaves

unfoldable pub get_leaf_index : Tree → Hash → Result ℕ
get_leaf_index t h = elim (lookup h t.leaf_index) [
  | some i ↦ ok i
  | none ↦ err (errorf "leaf hash not present")
]

module _ (sha : Sha256) where
  unfoldable pub add_leaf_hash : Tree → Hash → Tree × Bool
  add_leaf_hash t h = elim (lookup h t.leaf_index) [
    | some _ ↦ (t, false)
    | none ↦ (
      record {
        leaves = t.leaves ++ (h ∷ []);
        leaf_index = insert h (length t.leaves) t.leaf_index;
        c_range = extend t.c_range (length (t.leaves ++ (h ∷ [])) - 1) h (hash_interior_node sha);
      },
      true,
    )
  ]

  unfoldable pub get_root_hash : Tree → Hash
  get_root_hash t = range_root_hash sha t.c_range
