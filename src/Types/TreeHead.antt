-- ===== src/Types/TreeHead.antt =====
-- pkg/types/tree_head.go
use sigsum_lib_go.Prelude.{ℕ, Bool, [], ◌∷◌, ◌++◌}
use sigsum_lib_go.Prelude.Text.{codes}
use sigsum_lib_go.Prelude.Maps.{Map}
use sigsum_lib_go.Result.{Result, ok, err, panic, errorf}
use sigsum_lib_go.Crypto.{Bytes, Hash, Signature, PublicKey, Sha256, Verifier, hash_bytes}
use sigsum_lib_go.Encoding.Decimal.{format_uint}
use sigsum_lib_go.Encoding.Hex.{hex_encode}
use sigsum_lib_go.Encoding.Base64.{base64_encode}
use sigsum_lib_go.Merkle.Node.{hash_empty_tree}

pub record TreeHead : Type 0 where
  pub size : ℕ
  pub root_hash : Hash

pub record SignedTreeHead : Type 0 where
  pub tree_head : TreeHead
  pub open tree_head use *
  pub signature : Signature

pub record Cosignature : Type 0 where
  pub timestamp : ℕ
  pub signature : Signature

pub record CosignedTreeHead : Type 0 where
  pub signed_tree_head : SignedTreeHead
  pub open signed_tree_head use *
  pub cosignatures : Map Cosignature

abbrev pub cosignature_namespace : Bytes
cosignature_namespace = codes "cosignature/v1"

abbrev pub checkpoint_name_prefix : Bytes
checkpoint_name_prefix = codes "sigsum.org/v1/tree/"

unfoldable pub new_empty_tree_head : Sha256 → TreeHead
new_empty_tree_head sha = record { size = 0; root_hash = hash_empty_tree sha }

-- "%s\n%d\n%s\n"
unfoldable pub format_checkpoint : TreeHead → Bytes → Bytes
format_checkpoint th origin =
    origin ++ 10 ∷ (format_uint th.size ++ 10 ∷ (base64_encode th.root_hash ++ 10 ∷ []))

unfoldable pub sigsum_checkpoint_origin : Sha256 → PublicKey → Bytes
sigsum_checkpoint_origin sha key = checkpoint_name_prefix ++ hex_encode (hash_bytes sha key)

-- "%s\ntime %d\n%s"
unfoldable pub to_cosigned_data : TreeHead → Bytes → ℕ → Bytes
to_cosigned_data th origin timestamp =
    cosignature_namespace
    ++ 10 ∷ (codes "time " ++ (format_uint timestamp ++ 10 ∷ format_checkpoint th origin))

-- crypto.Signer: its public key, and its signature on a message or its failure.
pub record Signer : Type 0 where
  pub public : PublicKey
  pub sign_message : Bytes → Result Signature

unfoldable pub sign : Sha256 → TreeHead → Signer → Result SignedTreeHead
sign sha th signer =
    elim (signer.sign_message (format_checkpoint th (sigsum_checkpoint_origin sha signer.public))) [
      | ok sig ↦ ok (record { tree_head = th; signature = sig })
      | err e ↦ err (errorf "failed signing tree head: %w")
      | panic ↦ panic
    ]

unfoldable pub cosign : TreeHead → Signer → Bytes → ℕ → Result Cosignature
cosign th signer origin timestamp =
    elim (signer.sign_message (to_cosigned_data th origin timestamp)) [
      | ok sig ↦ ok (record { timestamp = timestamp; signature = sig })
      | err e ↦ err (errorf "failed co-signing tree head: %w")
      | panic ↦ panic
    ]

-- SignedTreeHead.Verify
unfoldable pub verify_signed_tree_head : Sha256 → Verifier → SignedTreeHead → PublicKey → Bool
verify_signed_tree_head sha verify sth key =
    verify key (format_checkpoint sth.tree_head (sigsum_checkpoint_origin sha key)) sth.signature

-- Cosignature.Verify
unfoldable pub verify_cosignature : Verifier → Cosignature → PublicKey → Bytes → TreeHead → Bool
verify_cosignature verify cs key origin th =
    verify key (to_cosigned_data th origin cs.timestamp) cs.signature
