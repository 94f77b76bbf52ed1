-- ===== src/Types/WriteTreeHead.antt =====
-- pkg/types/tree_head.go: the ToASCII methods.
use sigsum_lib_go.Prelude.{[], ◌∷◌, ◌++◌}
use sigsum_lib_go.Prelude.Text.{codes}
use sigsum_lib_go.Prelude.Maps.{Map}
use sigsum_lib_go.Result.{Result, ok, ◌>>=◌}
use sigsum_lib_go.Crypto.{Bytes, Hash}
use sigsum_lib_go.Ascii.Writer.{bytes, uint64, write_line, write_int, write_hash, write_signature}
use sigsum_lib_go.Types.TreeHead.{TreeHead, SignedTreeHead, Cosignature, CosignedTreeHead}

unfoldable pub tree_head_to_ascii : TreeHead → Result Bytes
tree_head_to_ascii th = do
  size ← write_int (codes "size") th.size
  root_hash ← write_hash (codes "root_hash") th.root_hash
  ok (size ++ root_hash)

unfoldable pub signed_tree_head_to_ascii : SignedTreeHead → Result Bytes
signed_tree_head_to_ascii sth = do
  th ← tree_head_to_ascii sth.tree_head
  sig ← write_signature (codes "signature") sth.signature
  ok (th ++ sig)

unfoldable pub cosignature_to_ascii : Cosignature → Hash → Result Bytes
cosignature_to_ascii cs key_hash =
    write_line (codes "cosignature") (bytes key_hash)
      (uint64 cs.timestamp ∷ bytes cs.signature ∷ [])

-- The lines stand in the order of the map's entries, which in Go is not determined.
unfoldable pub cosignatures_to_ascii : Map Cosignature → Result Bytes
cosignatures_to_ascii [] = ok []
cosignatures_to_ascii ((key_hash, cs) ∷ m) = do
  line ← cosignature_to_ascii cs key_hash
  rest ← cosignatures_to_ascii m
  ok (line ++ rest)

unfoldable pub cosigned_tree_head_to_ascii : CosignedTreeHead → Result Bytes
cosigned_tree_head_to_ascii cth = do
  sth ← signed_tree_head_to_ascii cth.signed_tree_head
  lines ← cosignatures_to_ascii cth.cosignatures
  ok (sth ++ lines)
