-- ===== src/Types/WriteLeaf.antt =====
-- pkg/types/leaf.go: the ToASCII methods.
use sigsum_lib_go.Prelude.{List, [], ◌∷◌, ◌++◌}
use sigsum_lib_go.Prelude.Text.{codes}
use sigsum_lib_go.Result.{Result, ok, ◌>>=◌}
use sigsum_lib_go.Crypto.{Bytes}
use sigsum_lib_go.Ascii.Writer.{bytes, write_line}
use sigsum_lib_go.Types.Leaf.{Leaf}

unfoldable pub leaf_to_ascii : Leaf → Result Bytes
leaf_to_ascii l =
    write_line (codes "leaf") (bytes l.checksum) (bytes l.signature ∷ bytes l.key_hash ∷ [])

unfoldable pub leaves_to_ascii : List Leaf → Result Bytes
leaves_to_ascii [] = ok []
leaves_to_ascii (leaf ∷ leaves) = do
  line ← leaf_to_ascii leaf
  rest ← leaves_to_ascii leaves
  ok (line ++ rest)
