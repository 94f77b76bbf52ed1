-- ===== src/Witness/Handler.antt =====
-- cmd/sigsum-witness/sigsum-witness.go: the witness and its request handler.
use sigsum_lib_go.Prelude.{ℕ, not, List, [], ◌∷◌, ◌++◌, if◌then◌else◌, eq_bytes}
use sigsum_lib_go.Prelude.Text.{codes}
use sigsum_lib_go.Result.{Result, ok, err, panic}
use sigsum_lib_go.Crypto.{Bytes, Hash, Sha256, Verifier, PublicKey, hash_bytes}
use sigsum_lib_go.Encoding.Hex.{hex_encode}
use sigsum_lib_go.Types.TreeHead.{Cosignature, Signer, sigsum_checkpoint_origin}
use sigsum_lib_go.Api.Errors.{err_forbidden, err_not_found, with_error}
use sigsum_lib_go.Checkpoint.Signature.{KeyId, new_witness_key_id}
use sigsum_lib_go.Checkpoint.Checkpoint.{verify_checkpoint, cosign_checkpoint}
use sigsum_lib_go.Checkpoint.Cosignature.{CosignatureLine}
use sigsum_lib_go.Requests.AddCheckpoint.{AddCheckpoint}
use sigsum_lib_go.Witness.State.{State, Disk, update}

pub record Witness : Type 0 where
  pub signer : Signer
  pub key_hash : Hash
  pub key_name : Bytes
  pub key_id : KeyId
  pub log_pub : PublicKey
  pub origin : Bytes

unfoldable pub new_witness : Sha256 → Signer → PublicKey → PublicKey → Witness
new_witness sha signer key log_pub =
    let key_hash : Hash = hash_bytes sha key in
    let key_name : Bytes = codes "sigsum.org/v1/witness/" ++ hex_encode key_hash in
    record {
      signer = signer;
      key_hash = key_hash;
      key_name = key_name;
      key_id = new_witness_key_id sha key_name key;
      log_pub = log_pub;
      origin = sigsum_checkpoint_origin sha log_pub;
    }

-- The cosignature lines of a successful Update.
abbrev pub cosignature_lines :
    Witness → Result Cosignature × State → Result (List CosignatureLine) × State
cosignature_lines w (ok cs, s) =
    (ok (record { key_name = w.key_name; key_id = w.key_id; cosignature = cs } ∷ []), s)
cosignature_lines w (err e, s) = (err e, s)
cosignature_lines w (panic, s) = (panic, s)

module _ (sha : Sha256) (verify : Verifier) where
  -- AddCheckpoint at the Unix time `now`.
  unfoldable pub add_checkpoint :
      Witness → Disk → ℕ → State → AddCheckpoint → Result (List CosignatureLine) × State
  add_checkpoint w disk now s req =
      if not (eq_bytes req.checkpoint.origin w.origin)
      then (err err_not_found, s)
      else elim (verify_checkpoint sha verify req.checkpoint w.log_pub) [
        | err e ↦ (err (with_error err_forbidden e), s)
        | panic ↦ (panic, s)
        | ok _ ↦ cosignature_lines w (
            update sha disk s req.checkpoint.signed_tree_head req.old_size req.proof w.key_hash
              (cosign_checkpoint req.checkpoint w.signer now))
      ]
