-- ===== src/Tests/ProofTests.antt =====
-- The theorems on sigsum proofs and their submission, for a log of one leaf and no witnesses.
use sigsum_lib_go.Prelude.{
  ◌≡◌, ◌↔◌, ◌⊎◌, arith, refl, true, some, none, [], ◌∷◌, get_elem?, eq_bytes,
}
use sigsum_lib_go.Prelude.Int.{pos}
use sigsum_lib_go.Prelude.Bits.{bit_length, ones_count}
use sigsum_lib_go.Prelude.Maps.{Map, lookup}
use sigsum_lib_go.Result.{ok, err, eof}
use sigsum_lib_go.Crypto.{Hash, PublicKey, Verifier, zeros, Collision, hash_bytes}
use sigsum_lib_go.Merkle.Spec.{subtree_hash, merkle_tree_hash}
use sigsum_lib_go.Merkle.Node.{format_leaf_node, hash_leaf_node}
use sigsum_lib_go.Merkle.Verify.{
  path_length, check_root, inclusion_round, verify_inclusion_loop, verify_inclusion,
}
use sigsum_lib_go.Types.TreeHead.{
  CosignedTreeHead, verify_signed_tree_head, sigsum_checkpoint_origin,
}
use sigsum_lib_go.Types.Leaf.{
  to_binary, to_hash, verify_leaf, verify_leaf_checksum, verify_leaf_message,
}
use sigsum_lib_go.Types.Proof.{verify_inclusion_proof}
use sigsum_lib_go.Policy.Quorum.{k_of_n, nil, is_quorum, count_quorums}
use sigsum_lib_go.Policy.Policy.{
  Policy, Entity, verified_witnesses, check_quorum, verify_cosigned_tree_head, entities_with_url,
}
use sigsum_lib_go.Requests.LogRequests.{Leaf, verify_leaf_request}
use sigsum_lib_go.Proof.SigsumProof.{SigsumProof, to_leaf, new_short_leaf, verify_sigsum_proof}
use sigsum_lib_go.Proof.Logged.{
  leaf_of, Logged, verify_sigsum_proof-Logged, verify_sigsum_proof_sound,
}
use sigsum_lib_go.Submit.Submission.{
  Attempt, Config, persist_loop, check_inclusion, ask_inclusion, check_tree_head, proof_loop,
  submit_leaf_to_log, header_for, or_next, submit_to_logs, submit_leaf_request,
}
use sigsum_lib_go.Submit.Accepted.{submit_leaf_request-verify_sigsum_proof}
use sigsum_lib_go.Tests.Samples.{sample_sha, hash_a, hash_b}

abbrev accept_all : Verifier
accept_all = λ key msg sig. true

abbrev log_entity : Entity
log_entity = record { public_key = hash_b; url = 104 ∷ [] }

abbrev policy : Policy
policy = record { logs = (hash_b, log_entity) ∷ []; witnesses = []; quorum = some (k_of_n nil 0) }

abbrev keys : Map PublicKey
keys = (hash_a, hash_a) ∷ []

abbrev request : Leaf
request = record { message = hash_b; signature = zeros 64; public_key = hash_a }

abbrev leaf_hash : Hash
leaf_hash =
    to_hash sample_sha (record { checksum = hash_b; signature = zeros 64; key_hash = hash_a })

abbrev head : CosignedTreeHead
head = record {
  signed_tree_head = record {
    tree_head = record { size = 1; root_hash = leaf_hash };
    signature = zeros 64;
  };
  cosignatures = [];
}

abbrev sample_proof : SigsumProof
sample_proof = record {
  log_key_hash = hash_b;
  leaf = record { signature = zeros 64; key_hash = hash_a };
  tree_head = head;
  inclusion = record { leaf_index = 0; path = [] };
}

verify_sigsum_proof-Logged_example :
    (verify_sigsum_proof sample_sha accept_all sample_proof hash_b keys policy ≡ ok tt)
    ↔ Logged sample_sha accept_all sample_proof hash_b keys policy
verify_sigsum_proof-Logged_example =
    verify_sigsum_proof-Logged sample_sha accept_all sample_proof hash_b keys policy

sample_verified : verify_sigsum_proof sample_sha accept_all sample_proof hash_b keys policy ≡ ok tt
unfolding verify_sigsum_proof lookup verify_leaf verify_leaf_checksum verify_cosigned_tree_head
    verify_signed_tree_head check_quorum verified_witnesses is_quorum count_quorums
    verify_inclusion_proof verify_inclusion verify_inclusion_loop inclusion_round check_root
    path_length bit_length ones_count eq_bytes to_leaf hash_bytes sigsum_checkpoint_origin to_hash
    hash_leaf_node format_leaf_node to_binary
sample_verified = refl

verify_sigsum_proof_sound_example :
    (get_elem? (leaf_hash ∷ []) 0
      ≡ some (to_hash sample_sha (leaf_of sample_sha accept_all sample_proof hash_b keys policy)))
    ⊎ Collision sample_sha
unfolding merkle_tree_hash subtree_hash to_hash to_binary hash_leaf_node format_leaf_node hash_bytes
verify_sigsum_proof_sound_example =
    verify_sigsum_proof_sound sample_sha accept_all sample_proof hash_b keys policy (leaf_hash ∷ [])
      (omega arith) (refl, tt) tt refl refl sample_verified

abbrev attempt : Attempt
attempt = record {
  log = record {
    get_tree_head = ok head;
    get_inclusion_proof = λ req. ok (record { leaf_index = 0; path = [] });
    get_consistency_proof = λ req. err eof;
    get_leaves = λ req. err eof;
    add_leaf = λ req header. ok true;
  };
  sleep = ok tt;
}

abbrev config : Config
config = record {
  domain = [];
  rate_limit_signer = none;
  per_log_timeout = pos 0;
  poll_delay = pos 0;
  user_agent = [];
  policy = policy;
}

submitted :
    submit_leaf_request sample_sha accept_all
      (λ entity. attempt ∷ attempt ∷ [])
      (λ logs. logs)
      config
      request
    ≡ some (ok sample_proof)
unfolding submit_leaf_request verify_leaf_request verify_leaf_message verify_leaf_checksum
    entities_with_url submit_to_logs header_for or_next submit_leaf_to_log persist_loop proof_loop
    check_tree_head ask_inclusion check_inclusion new_short_leaf lookup verify_cosigned_tree_head
    verify_signed_tree_head check_quorum verified_witnesses is_quorum count_quorums
    verify_inclusion_proof verify_inclusion verify_inclusion_loop inclusion_round check_root
    path_length bit_length ones_count eq_bytes hash_bytes sigsum_checkpoint_origin to_hash
    hash_leaf_node format_leaf_node to_binary
submitted = refl

sample_key : lookup (hash_bytes sample_sha hash_a) keys ≡ some hash_a
unfolding lookup hash_bytes eq_bytes
sample_key = refl

submit_leaf_request-verify_sigsum_proof_example :
    verify_sigsum_proof sample_sha accept_all sample_proof hash_b keys policy ≡ ok tt
submit_leaf_request-verify_sigsum_proof_example =
    submit_leaf_request-verify_sigsum_proof sample_sha accept_all (λ entity. attempt ∷ attempt ∷ [])
      (λ logs. logs) config request keys sample_proof sample_key submitted
