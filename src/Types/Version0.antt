-- ===== src/Types/Version0.antt =====
-- SignedTreeHead.VerifyVersion0 of pkg/types/tree_head.go, the tree heads of v0.1.15 and v0.2.0.
use sigsum_lib_go.Prelude.{Bool, true, ◌++◌, if◌then◌else◌}
use sigsum_lib_go.Prelude.Text.{codes}
use sigsum_lib_go.Result.{Result, ok, ◌>>=◌}
use sigsum_lib_go.Crypto.{Bytes, PublicKey, Sha256, Verifier, hash_bytes}
use sigsum_lib_go.Encoding.Hex.{hex_encode}
use sigsum_lib_go.Checkpoint.Cosignature.{put_big_endian}
use sigsum_lib_go.Ssh.Wire.{signed_data}
use sigsum_lib_go.Types.TreeHead.{TreeHead, SignedTreeHead, format_checkpoint}

-- fmt.Sprintf("sigsum.org/v1/%x", &keyHash)
unfoldable origin_version0 : Sha256 → PublicKey → Bytes
origin_version0 sha key = codes "sigsum.org/v1/" ++ hex_encode (hash_bytes sha key)

-- The size in eight bytes, and the root hash.
unfoldable bytes_version0 : TreeHead → Bytes
bytes_version0 th = put_big_endian 8 th.size ++ th.root_hash

unfoldable verify_version0 : Sha256 → Verifier → SignedTreeHead → PublicKey → Result Bool
verify_version0 sha verify sth key =
    if verify key (format_checkpoint sth.tree_head (origin_version0 sha key)) sth.signature
    then ok true
    else (do
      msg ← signed_data sha (codes "signed-tree-head:v0@sigsum.org") (bytes_version0 sth.tree_head)
      ok (verify key msg sth.signature))
