-- ===== src/Tests/MonitorTests.antt =====
-- The theorems on the monitor, for a log that grows from one leaf to two.
use sigsum_lib_go.Prelude.{
  ◌≤◌, ◌≡◌, ◌≢◌, ◌↔◌, ◌⊎◌, arith, refl, true, some, none, [], ◌∷◌, get_elem?, eq_bytes, ltb,
  if◌then◌else◌, inl, inr, Bool-cases,
}
use sigsum_lib_go.Prelude.Int.{pos}
use sigsum_lib_go.Prelude.Bits.{bit_length, ones_count, trailing_zeros}
use sigsum_lib_go.Result.{ok, err, eof, panic}
use sigsum_lib_go.Crypto.{Hash, Verifier, zeros, Collision, hash_bytes}
use sigsum_lib_go.Merkle.Spec.{subtree_hash, merkle_tree_hash}
use sigsum_lib_go.Merkle.Node.{
  format_internal_node, format_leaf_node, hash_leaf_node, hash_interior_node, hash_empty_tree,
}
use sigsum_lib_go.Merkle.Verify.{
  path_length, check_root, check_roots, consistency_start, consistency_round,
  verify_consistency_loop, consistency_from, verify_consistency, inclusion_round,
  verify_inclusion_loop, verify_inclusion,
}
use sigsum_lib_go.Types.TreeHead.{
  TreeHead, SignedTreeHead, CosignedTreeHead, verify_signed_tree_head,
}
use sigsum_lib_go.Types.Leaf.{Leaf, to_binary, to_hash}
use sigsum_lib_go.Types.Proof.{verify_inclusion_proof, verify_consistency_proof}
use sigsum_lib_go.Types.Growth.{Extends}
use sigsum_lib_go.Requests.LogRequests.{Leaves}
use sigsum_lib_go.Api.Interfaces.{Log}
use sigsum_lib_go.Monitor.Client.{
  GetLeavesState, check_tree_head, get_tree_head, get_inclusion_proof_at_index, start_range,
  check_one, check_range, get_leaves,
}
use sigsum_lib_go.Monitor.Loop.{
  MonitorState, Config, looping, new_tree_head, update_tree_head, fetch_loop, and_then,
  monitor_round, end_index, filter_leaves,
}
use sigsum_lib_go.Monitor.Single.{HashPaths, get_leaves-one_sound}
use sigsum_lib_go.Monitor.Stale.{fetch_loop-stale-panic}
use sigsum_lib_go.Monitor.Filter.{Reported, OfInterest, filter_leaves-OfInterest}
use sigsum_lib_go.Monitor.Fetch.{InRange, AnswersLeaves, fetch_loop-ends}
use sigsum_lib_go.Monitor.Update.{IsLog}
use sigsum_lib_go.Monitor.Rounds.{
  Rounds, done, round, Rounds-InRange, Rounds-signed, Rounds-append_only,
}
use sigsum_lib_go.Tests.Samples.{sample_sha, hash_a, hash_b, two_leaves}

abbrev accept_all : Verifier
accept_all = λ key msg sig. true

abbrev config : Config
config = record { query_interval = pos 1; batch_size = 0; submit_keys = some [] }

abbrev leaf : Leaf
leaf = record { checksum = hash_a; signature = zeros 64; key_hash = hash_b }

abbrev grown : CosignedTreeHead
grown = record {
  signed_tree_head = record {
    tree_head = record { size = 2; root_hash = merkle_tree_hash sample_sha two_leaves };
    signature = zeros 64;
  };
  cosignatures = [];
}

-- A log that answers with one leaf to each request for the first hundred.
abbrev log : Log
log = record {
  get_tree_head = ok grown;
  get_inclusion_proof = λ req. ok (record { leaf_index = 0; path = [] });
  get_consistency_proof = λ req. ok (record { path = hash_b ∷ [] });
  get_leaves = λ req. if ltb req.start_index 100 then ok (leaf ∷ []) else err eof;
  add_leaf = λ req header. ok true;
}

log-IsLog : IsLog log
unfolding merkle_tree_hash subtree_hash hash_interior_node format_internal_node hash_bytes
log-IsLog = record {
  tree_head = λ cth e. let same : grown ≡ cth = cc e in rw (← same) (refl, omega arith);
  path = λ req p e. let same : record { path = hash_b ∷ [] } ≡ p = cc e in rw (← same) (refl, tt);
}

abbrev before : MonitorState
before = record { tree_head = record { size = 1; root_hash = hash_a }; next_leaf_index = 1 }

abbrev after : MonitorState
after = record { tree_head = grown.tree_head; next_leaf_index = 1 }

before-InRange : InRange before
before-InRange = (omega arith, omega arith)

grown_round :
    monitor_round sample_sha accept_all config (zeros 32) log [] before
    ≡ ok (looping after none, new_tree_head grown.signed_tree_head ∷ [])
unfolding monitor_round update_tree_head get_tree_head check_tree_head verify_signed_tree_head
    verify_consistency_proof verify_consistency bit_length ones_count trailing_zeros path_length
    check_roots consistency_start consistency_round verify_consistency_loop consistency_from
    fetch_loop and_then merkle_tree_hash subtree_hash hash_interior_node format_internal_node
    hash_empty_tree hash_bytes eq_bytes
grown_round = refl

one_round : Rounds sample_sha accept_all config (zeros 32) before after
one_round =
    round log [] (looping after none) (new_tree_head grown.signed_tree_head ∷ []) log-IsLog
      grown_round done

Rounds-InRange_example : InRange after × (before.tree_head.size ≤ after.tree_head.size)
Rounds-InRange_example =
    Rounds-InRange sample_sha accept_all config (zeros 32) before after before-InRange one_round

Rounds-signed_example :
    (before.tree_head ≡ after.tree_head)
    ⊎ ((sth : SignedTreeHead) × (sth.tree_head ≡ after.tree_head)
        × (verify_signed_tree_head sample_sha accept_all sth (zeros 32) ≡ true))
Rounds-signed_example =
    Rounds-signed sample_sha accept_all config (zeros 32) before after before-InRange one_round

Rounds-append_only_example : Extends sample_sha before.tree_head two_leaves
Rounds-append_only_example =
    Rounds-append_only sample_sha accept_all config (zeros 32) before after two_leaves
      before-InRange one_round refl (omega arith) (refl, (refl, tt)) refl refl

log-AnswersLeaves : AnswersLeaves log
log-AnswersLeaves req leaves e = elim (Bool-cases (ltb req.start_index 100)) [
  | inr far ↦ absurd (cc (rw far at e))
  | inl near ↦
      let same : leaf ∷ [] ≡ leaves = cc (rw near at e) in rw (← same) (omega arith, ground arith)
]

fetch_loop-ends_example :
    fetch_loop sample_sha accept_all config (log ∷ []) (looping after none)
    ≢ ok (looping after none, [])
fetch_loop-ends_example =
    fetch_loop-ends sample_sha accept_all config (log ∷ []) after after none none []
      (omega arith, omega arith) (log-AnswersLeaves, tt) (omega arith)

filter_leaves-OfInterest_example :
    Reported 5 leaf
      (filter_leaves sample_sha accept_all (some ((hash_b, hash_b) ∷ [])) (leaf ∷ []) 5).indices
      (filter_leaves sample_sha accept_all (some ((hash_b, hash_b) ∷ [])) (leaf ∷ []) 5).leaves
    ↔ OfInterest sample_sha accept_all ((hash_b, hash_b) ∷ []) 5 (leaf ∷ []) 5 leaf
filter_leaves-OfInterest_example =
    filter_leaves-OfInterest sample_sha accept_all ((hash_b, hash_b) ∷ []) (leaf ∷ []) 5 5 leaf
      (omega arith)

log-HashPaths : HashPaths log
log-HashPaths req p e = let same : record { leaf_index = 0; path = [] } ≡ p = cc e in rw (← same) tt

-- A tree of the one leaf.
abbrev one_leaf : TreeHead
one_leaf = record { size = 1; root_hash = to_hash sample_sha leaf }

abbrev first_leaf : Leaves
first_leaf = record { start_index = 0; end_index = 1 }

first_leaf_got :
    get_leaves sample_sha log none one_leaf first_leaf
    ≡ ok (
      leaf ∷ [],
      some (record {
        leaf_hash = to_hash sample_sha leaf;
        proof = record { leaf_index = 0; path = [] };
      }),
    )
unfolding get_leaves start_range get_inclusion_proof_at_index check_range check_one
    verify_inclusion_proof verify_inclusion verify_inclusion_loop inclusion_round check_root
    path_length bit_length ones_count eq_bytes to_hash to_binary hash_leaf_node format_leaf_node
    hash_bytes
first_leaf_got = refl

get_leaves-one_sound_example :
    (get_elem? (to_hash sample_sha leaf ∷ []) 0 ≡ some (to_hash sample_sha leaf))
    ⊎ Collision sample_sha
unfolding to_hash to_binary hash_leaf_node format_leaf_node hash_bytes merkle_tree_hash subtree_hash
get_leaves-one_sound_example =
    get_leaves-one_sound sample_sha log one_leaf first_leaf leaf (to_hash sample_sha leaf ∷ [])
      (some (record {
        leaf_hash = to_hash sample_sha leaf;
        proof = record { leaf_index = 0; path = [] };
      }))
      log-HashPaths (omega arith) (refl, tt) refl refl first_leaf_got

-- A tree of three leaves, with the proof of its first one cached.
abbrev pair_root : Hash
pair_root = hash_interior_node sample_sha hash_a hash_b

abbrev three : TreeHead
three = record { size = 3; root_hash = hash_interior_node sample_sha pair_root hash_a }

abbrev cached : GetLeavesState
cached = record {
  leaf_hash = hash_a;
  proof = record { leaf_index = 0; path = hash_b ∷ hash_a ∷ [] };
}

cached_valid : verify_inclusion_proof sample_sha cached.proof cached.leaf_hash three ≡ ok tt
unfolding verify_inclusion_proof verify_inclusion verify_inclusion_loop inclusion_round check_root
    path_length bit_length ones_count eq_bytes hash_interior_node format_internal_node hash_bytes
cached_valid = refl

fetch_loop-stale-panic_example :
    fetch_loop sample_sha accept_all config
      (log ∷ log ∷ [])
      (looping (record { tree_head = three; next_leaf_index = 1 }) (some cached))
    ≡ panic
unfolding end_index
fetch_loop-stale-panic_example =
    fetch_loop-stale-panic sample_sha accept_all config log log []
      (record { tree_head = three; next_leaf_index = 1 }) cached leaf (leaf ∷ []) (omega arith)
      (omega arith) refl cached_valid refl refl
