-- ===== src/Types/Leaf.antt =====
-- pkg/types/leaf.go: leaves, their signatures and their binary form.
use sigsum_lib_go.Prelude.{
  Bool, false, ◌++◌, length, take, drop, ◌==◌, not, eq_bytes, if◌then◌else◌,
}
use sigsum_lib_go.Prelude.Text.{codes}
use sigsum_lib_go.Result.{Result, ok, err, errorf}
use sigsum_lib_go.Crypto.{
  Bytes, Hash, Signature, PublicKey, Sha256, Verifier, hash_bytes, attach_namespace,
}
use sigsum_lib_go.Merkle.Node.{hash_leaf_node}
use sigsum_lib_go.Types.TreeHead.{Signer}

abbrev pub tree_leaf_namespace : Bytes
tree_leaf_namespace = codes "sigsum.org/v1/tree-leaf"

pub record Leaf : Type 0 where
  pub checksum : Hash
  pub signature : Signature
  pub key_hash : Hash

unfoldable pub leaf_signed_data : Hash → Bytes
leaf_signed_data checksum = attach_namespace tree_leaf_namespace checksum

unfoldable pub sign_leaf_checksum : Signer → Hash → Result Signature
sign_leaf_checksum signer checksum = signer.sign_message (leaf_signed_data checksum)

unfoldable pub verify_leaf_checksum : Verifier → PublicKey → Hash → Signature → Bool
verify_leaf_checksum verify key checksum sig = verify key (leaf_signed_data checksum) sig

unfoldable pub sign_leaf_message : Sha256 → Signer → Bytes → Result Signature
sign_leaf_message sha signer msg = sign_leaf_checksum signer (hash_bytes sha msg)

unfoldable pub verify_leaf_message : Sha256 → Verifier → PublicKey → Bytes → Signature → Bool
verify_leaf_message sha verify key msg sig =
    verify_leaf_checksum verify key (hash_bytes sha msg) sig

-- Leaf.Verify
unfoldable pub verify_leaf : Sha256 → Verifier → Leaf → PublicKey → Bool
verify_leaf sha verify l key =
    if not (eq_bytes l.key_hash (hash_bytes sha key))
    then false
    else verify_leaf_checksum verify key l.checksum l.signature

-- The fields are byte arrays of 32, 64 and 32 bytes.
unfoldable pub to_binary : Leaf → Bytes
to_binary l = l.checksum ++ (l.signature ++ l.key_hash)

unfoldable pub to_hash : Sha256 → Leaf → Hash
to_hash sha l = hash_leaf_node sha (to_binary l)

unfoldable pub from_binary : Bytes → Result Leaf
from_binary b =
    if not (length b == 128)
    then err (errorf "types: invalid leaf size: %d")
    else ok (record { checksum = take 32 b; signature = take 64 (drop 32 b); key_hash = drop 96 b })
