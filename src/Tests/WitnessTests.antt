-- ===== src/Tests/WitnessTests.antt =====
-- The theorems on the witness, for a log that grows from one leaf to two.
use sigsum_lib_go.Prelude.{ℕ, ◌≤◌, ◌≡◌, ◌⊎◌, refl, ap, arith, true, none, [], ◌∷◌}
use sigsum_lib_go.Result.{ok}
use sigsum_lib_go.Crypto.{Verifier, zeros}
use sigsum_lib_go.Merkle.Spec.{subtree_hash, merkle_tree_hash}
use sigsum_lib_go.Merkle.Node.{format_internal_node, hash_interior_node, hash_empty_tree}
use sigsum_lib_go.Prelude.{eq_bytes}
use sigsum_lib_go.Crypto.{hash_bytes}
use sigsum_lib_go.Prelude.Bits.{bit_length, ones_count, trailing_zeros}
use sigsum_lib_go.Merkle.Verify.{
  path_length, check_roots, consistency_start, consistency_round, verify_consistency_loop,
  consistency_from, verify_consistency,
}
use sigsum_lib_go.Types.Proof.{verify_consistency_proof}
use sigsum_lib_go.Encoding.Hex.{hex_encode, hex_digit}
use sigsum_lib_go.Ascii.Writer.{
  write_item, write_rest, write_line, write_int, write_hash, write_signature,
}
use sigsum_lib_go.Types.WriteTreeHead.{
  cosigned_tree_head_to_ascii, signed_tree_head_to_ascii, tree_head_to_ascii, cosignatures_to_ascii,
  cosignature_to_ascii,
}
use sigsum_lib_go.Types.TreeHead.{
  TreeHead, Signer, cosign, verify_signed_tree_head, sigsum_checkpoint_origin,
}
use sigsum_lib_go.Checkpoint.Checkpoint.{verify_checkpoint, cosign_checkpoint}
use sigsum_lib_go.Checkpoint.Signature.{new_key_id, new_log_key_id}
use sigsum_lib_go.Requests.AddCheckpoint.{AddCheckpoint}
use sigsum_lib_go.Witness.State.{State, Disk, store_bytes, store, update}
use sigsum_lib_go.Witness.Handler.{Witness, new_witness, add_checkpoint}
use sigsum_lib_go.Witness.Accept.{Kept}
use sigsum_lib_go.Types.Growth.{Extends}
use sigsum_lib_go.Witness.Run.{
  IsRequest, Run, Cosigns, done, request, add_checkpoint-cases, Run-append_only, Run-no_smaller,
}
use sigsum_lib_go.Tests.Samples.{sample_sha, hash_a, hash_b, two_leaves}

abbrev accept_all : Verifier
accept_all = λ key msg sig. true

abbrev signer : Signer
signer = record { public = zeros 32; sign_message = λ msg. ok (zeros 64) }

abbrev sample_witness : Witness
sample_witness = new_witness sample_sha signer (zeros 32) (zeros 32)

abbrev working_disk : Disk
working_disk = record { create = ok tt; commit = ok tt }

abbrev before : State
before = record { th = record { size = 1; root_hash = hash_a }; file = none }

abbrev growth_from : ℕ → AddCheckpoint
growth_from old_size = record {
  old_size = old_size;
  proof = record { path = hash_b ∷ [] };
  checkpoint = record {
    signed_tree_head = record {
      tree_head = record { size = 2; root_hash = merkle_tree_hash sample_sha two_leaves };
      signature = zeros 64;
    };
    origin = sample_witness.origin;
    key_id = new_log_key_id sample_sha sample_witness.origin (zeros 32);
  };
}

abbrev after : State
after =
    (add_checkpoint sample_sha accept_all sample_witness working_disk 5 before (growth_from 1)).1

add_checkpoint-cases_example :
    Kept before
      (add_checkpoint sample_sha accept_all sample_witness working_disk 5 before (growth_from 1))
    ⊎ Cosigns sample_sha accept_all sample_witness working_disk 5 before
        (growth_from 1)
        (add_checkpoint sample_sha accept_all sample_witness working_disk 5 before (growth_from 1))
add_checkpoint-cases_example =
    add_checkpoint-cases sample_sha accept_all sample_witness working_disk 5 before (growth_from 1)

growth-IsRequest : IsRequest (growth_from 1)
unfolding merkle_tree_hash subtree_hash hash_interior_node format_internal_node hash_bytes
growth-IsRequest = record { root_hash = refl; path = (refl, tt) }

one_request : Run sample_sha accept_all sample_witness before after
one_request = request working_disk 5 (growth_from 1) growth-IsRequest done

after_th : after.th ≡ (record { size = 2; root_hash = merkle_tree_hash sample_sha two_leaves })
unfolding add_checkpoint new_witness verify_checkpoint verify_signed_tree_head new_log_key_id
    new_key_id hash_bytes eq_bytes update store store_bytes verify_consistency_proof
    verify_consistency bit_length ones_count trailing_zeros path_length check_roots
    consistency_start consistency_round verify_consistency_loop consistency_from merkle_tree_hash
    subtree_hash hash_interior_node format_internal_node hash_empty_tree cosign_checkpoint cosign
    cosigned_tree_head_to_ascii signed_tree_head_to_ascii tree_head_to_ascii cosignatures_to_ascii
    cosignature_to_ascii write_int write_hash write_signature write_line write_item write_rest
    sigsum_checkpoint_origin hex_encode hex_digit
after_th = refl

Run-append_only_example : Extends sample_sha before.th two_leaves
Run-append_only_example =
    Run-append_only sample_sha accept_all sample_witness before after two_leaves one_request refl
      (omega arith) (refl, (refl, tt)) (ap (λ (th : TreeHead). th.size) after_th)
      (ap (λ (th : TreeHead). th.root_hash) after_th)

Run-no_smaller_example : before.th.size ≤ after.th.size
Run-no_smaller_example =
    Run-no_smaller sample_sha accept_all sample_witness before after one_request
