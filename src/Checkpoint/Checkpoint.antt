-- ===== src/Checkpoint/Checkpoint.antt =====
-- pkg/checkpoint/checkpoint.go
use sigsum_lib_go.Prelude.{
  ℕ, suc, Bool, not, Option, none, some, List, [], ◌∷◌, ◌++◌, ltb, if◌then◌else◌, eq_bytes,
}
use sigsum_lib_go.Result.{Result, Error, ok, err, panic, eof, unwanted_signature, errorf}
use sigsum_lib_go.Result as Results
use sigsum_lib_go.Crypto.{Bytes, Hash, Sha256, Verifier, PublicKey, Signature}
use sigsum_lib_go.Encoding.Fixed.{hash_from_base64}
use sigsum_lib_go.Ascii.Line.{
  Reader, continue, ◌>>=◌, lift, new_line_reader, get_line, get_empty_line,
}
use sigsum_lib_go.Ascii.Parser.{int_from_decimal}
use sigsum_lib_go.Types.TreeHead.{
  SignedTreeHead, Cosignature, Signer, format_checkpoint, cosign, verify_signed_tree_head,
  verify_cosignature,
}
use sigsum_lib_go.Checkpoint.Signature.{
  KeyId, new_log_key_id, new_witness_key_id, write_ed25519_signature, parse_ed25519_signature_line,
}
use sigsum_lib_go.Checkpoint.Cosignature.{CosignatureLine}

pub record Checkpoint : Type 0 where
  pub signed_tree_head : SignedTreeHead
  pub origin : Bytes
  pub key_id : KeyId

abbrev pub signature_limit : ℕ
signature_limit = 16

unfoldable pub checkpoint_to_ascii : Checkpoint → Bytes
checkpoint_to_ascii cp =
    format_checkpoint cp.signed_tree_head.tree_head cp.origin
    ++ 10 ∷ write_ed25519_signature cp.origin cp.key_id cp.signed_tree_head.signature

-- The log's signature among the first `count` lines, and the one of this line.
unfoldable pub add_signature :
    Option (KeyId × Signature) → Result (KeyId × Signature) → Result (Option (KeyId × Signature))
add_signature found (err unwanted_signature) = ok found
add_signature found (err e) = err e
add_signature found panic = panic
add_signature none (ok s) = ok (some s)
add_signature (some s) (ok t) = err (errorf "duplicate log signature on line %d: %s")

abbrev pub found_signature : Option (KeyId × Signature) → Error → Result (KeyId × Signature)
found_signature none eof =
    err (errorf "invalid checkpoint, %d signature lines, but no log signature")
found_signature (some s) eof = ok s
found_signature found e = err e

-- The loop over the signature lines that follow the first `count` of them.
unfoldable pub signature_lines :
    Bytes → ℕ → Option (KeyId × Signature) → List Bytes → Error → Result (KeyId × Signature)
signature_lines key_name count found [] end = found_signature found end
signature_lines key_name count found (line ∷ lines) end =
    let next =
      λ (f : Option (KeyId × Signature)). signature_lines key_name (suc count) f lines end in
    if ltb signature_limit (suc count)
    then err (errorf "invalid checkpoint, too many signatures")
    else Results.◌>>=◌ (add_signature found (parse_ed25519_signature_line line key_name)) next

-- Any failure of the reader on the line after the root hash has one error.
abbrev pub empty_line_after_hash : Result (Unit {0}) → Result (Unit {0})
empty_line_after_hash (err e) =
    err (errorf "invalid checkpoint, root hash not followed by an empty line")
empty_line_after_hash r = r

abbrev pub root_hash_or_error : Result Hash → Result Hash
root_hash_or_error (err e) = err (errorf "invalid checkpoint, bad root hash %q: %v")
root_hash_or_error r = r

abbrev pub name_or_origin : Bytes → Bytes → Bytes
name_or_origin [] origin = origin
name_or_origin (c ∷ name) origin = c ∷ name

unfoldable pub parse_with_key_name : Bytes → Reader Checkpoint
parse_with_key_name key_name = do
  origin ← get_line
  size_line ← get_line
  size ← lift (int_from_decimal size_line)
  hash_line ← get_line
  root_hash ← lift (root_hash_or_error (hash_from_base64 hash_line))
  λ r.
      continue (empty_line_after_hash (get_empty_line r).0)
        (λ _. (do
          s ← λ p. (signature_lines (name_or_origin key_name origin) 0 none p.lines p.end, p)
          lift (
              ok (record {
                signed_tree_head = record {
                  tree_head = record { size = size; root_hash = root_hash };
                  signature = s.1;
                };
                origin = origin;
                key_id = s.0;
              }))))
        (get_empty_line r).1

unfoldable pub parse_checkpoint : Reader Checkpoint
parse_checkpoint = parse_with_key_name []

unfoldable pub checkpoint_from_ascii : Bytes → Result Checkpoint
checkpoint_from_ascii input = (parse_checkpoint (new_line_reader input)).0

unfoldable pub verify_checkpoint : Sha256 → Verifier → Checkpoint → PublicKey → Result (Unit {0})
verify_checkpoint sha verify cp key =
    if not (eq_bytes cp.key_id (new_log_key_id sha cp.origin key))
    then err (errorf "unexpected checkpoint key id")
    else if not (verify_signed_tree_head sha verify cp.signed_tree_head key)
    then err (errorf "invalid checkpoint signature")
    else ok tt

unfoldable pub cosign_checkpoint : Checkpoint → Signer → ℕ → Result Cosignature
cosign_checkpoint cp signer timestamp =
    cosign cp.signed_tree_head.tree_head signer cp.origin timestamp

unfoldable pub verify_checkpoint_cosignature :
    Verifier → Checkpoint → PublicKey → Cosignature → Bool
verify_checkpoint_cosignature verify cp key cs =
    verify_cosignature verify cs key cp.origin cp.signed_tree_head.tree_head

unfoldable pub verify_cosignature_by_key :
    Sha256 → Verifier → Checkpoint → List CosignatureLine → PublicKey → Result Cosignature
verify_cosignature_by_key sha verify cp [] key = err (errorf "no cosignature for given key")
verify_cosignature_by_key sha verify cp (s ∷ signatures) key =
    let rest = verify_cosignature_by_key sha verify cp signatures key in
    if not (eq_bytes s.key_id (new_witness_key_id sha s.key_name key))
    then rest
    else if not (verify_checkpoint_cosignature verify cp key s.cosignature)
    then err (errorf "cosignature not valid")
    else ok s.cosignature
