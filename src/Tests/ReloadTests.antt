-- ===== src/Tests/ReloadTests.antt =====
-- A witness that takes its first tree head and is started again.
use sigsum_lib_go.Prelude.{◌≡◌, refl, arith, true, none, [], ◌∷◌, List, All, eq_bytes}
use sigsum_lib_go.Result.{ok}
use sigsum_lib_go.Crypto.{Verifier, IsByte, zeros, hash_bytes}
use sigsum_lib_go.Merkle.Node.{hash_empty_tree}
use sigsum_lib_go.Merkle.Verify.{verify_consistency}
use sigsum_lib_go.Encoding.Hex.{hex_encode, hex_digit}
use sigsum_lib_go.Ascii.Writer.{
  write_item, write_rest, write_line, write_int, write_hash, write_signature,
}
use sigsum_lib_go.Types.Proof.{verify_consistency_proof}
use sigsum_lib_go.Types.WriteTreeHead.{
  cosigned_tree_head_to_ascii, signed_tree_head_to_ascii, tree_head_to_ascii, cosignatures_to_ascii,
  cosignature_to_ascii,
}
use sigsum_lib_go.Types.TreeHead.{Signer, cosign, verify_signed_tree_head, sigsum_checkpoint_origin}
use sigsum_lib_go.Types.TreeHeadLaws.{IsSignedTreeHead}
use sigsum_lib_go.Checkpoint.Checkpoint.{verify_checkpoint, cosign_checkpoint}
use sigsum_lib_go.Checkpoint.Signature.{new_key_id, new_log_key_id}
use sigsum_lib_go.Requests.AddCheckpoint.{AddCheckpoint}
use sigsum_lib_go.Witness.State.{State, store_bytes, store, update, load}
use sigsum_lib_go.Witness.Handler.{new_witness, add_checkpoint}
use sigsum_lib_go.Witness.Reload.{Signs, Loads, Served, serve, serve-Loads}
use sigsum_lib_go.Tests.Samples.{sample_sha, hash_a, zeros-IsByte}

abbrev accept_all : Verifier
accept_all = λ key msg sig. true

abbrev signer : Signer
signer = record { public = zeros 32; sign_message = λ msg. ok (zeros 64) }

signer-Signs : Signs accept_all signer (zeros 32)
signer-Signs msg sig e =
    let same : zeros 64 ≡ sig = cc e in rw (← same) (refl, refl, zeros-IsByte 64)

key_hash-IsByte : All IsByte (hash_bytes sample_sha (zeros 32))
unfolding hash_bytes
key_hash-IsByte = zeros-IsByte 32

-- Load without a file.
abbrev empty : State
empty = record { th = record { size = 0; root_hash = hash_bytes sample_sha [] }; file = none }

empty-Loads : Loads sample_sha accept_all signer (zeros 32) (zeros 32) empty
unfolding load
empty-Loads = refl

abbrev first_checkpoint : AddCheckpoint
first_checkpoint = record {
  old_size = 0;
  proof = record { path = [] };
  checkpoint = record {
    signed_tree_head = record {
      tree_head = record { size = 1; root_hash = hash_a };
      signature = zeros 64;
    };
    origin = sigsum_checkpoint_origin sample_sha (zeros 32);
    key_id = new_log_key_id sample_sha (sigsum_checkpoint_origin sample_sha (zeros 32)) (zeros 32);
  };
}

abbrev served : List Served
served =
    record { disk = record { create = ok tt; commit = ok tt }; now = 5; req = first_checkpoint }
    ∷ []

first_checkpoint-IsSignedTreeHead : IsSignedTreeHead first_checkpoint.checkpoint.signed_tree_head
first_checkpoint-IsSignedTreeHead = record {
  size = omega arith;
  root_hash = refl;
  root_hash_bytes = (omega arith, zeros-IsByte 31);
  signature = refl;
  signature_bytes = zeros-IsByte 64;
}

served_th :
    (serve sample_sha accept_all signer (zeros 32) (zeros 32) empty served).th
    ≡ record { size = 1; root_hash = hash_a }
unfolding add_checkpoint new_witness verify_checkpoint verify_signed_tree_head new_log_key_id
    new_key_id hash_bytes eq_bytes update store store_bytes verify_consistency_proof
    verify_consistency hash_empty_tree cosign_checkpoint cosign cosigned_tree_head_to_ascii
    signed_tree_head_to_ascii tree_head_to_ascii cosignatures_to_ascii cosignature_to_ascii
    write_int write_hash write_signature write_line write_item write_rest sigsum_checkpoint_origin
    hex_encode hex_digit
served_th = refl

serve-Loads_example :
    Loads sample_sha accept_all signer
      (zeros 32)
      (zeros 32)
      (serve sample_sha accept_all signer (zeros 32) (zeros 32) empty served)
serve-Loads_example =
    serve-Loads sample_sha accept_all signer (zeros 32) (zeros 32) empty served signer-Signs
      key_hash-IsByte ((omega arith, first_checkpoint-IsSignedTreeHead), tt) empty-Loads
