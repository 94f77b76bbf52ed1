-- ===== src/Types/ParseLeaf.antt =====
-- pkg/types/leaf.go: the parsers of leaf lines.
use sigsum_lib_go.Prelude.{ℕ, zero, suc, List, [], ◌∷◌, ◌++◌, length, if◌then◌else◌}
use sigsum_lib_go.Prelude.Text.{codes}
use sigsum_lib_go.Result.{Result, ok, err, panic, eof, errorf}
use sigsum_lib_go.Crypto.{Bytes}
use sigsum_lib_go.Encoding.Fixed.{hash_from_hex, signature_from_hex}
use sigsum_lib_go.Ascii.Line.{Reader, ◌>>=◌, lift, new_line_reader}
use sigsum_lib_go.Ascii.Parser.{get_values}
use sigsum_lib_go.Prelude.{leb}
use sigsum_lib_go.Types.Leaf.{Leaf}

unfoldable pub leaf_of_values : List Bytes → Reader Leaf
leaf_of_values (c ∷ s ∷ k ∷ []) = do
  checksum ← lift (hash_from_hex c)
  sig ← lift (signature_from_hex s)
  key_hash ← lift (hash_from_hex k)
  lift (ok (record { checksum = checksum; signature = sig; key_hash = key_hash }))
leaf_of_values _ = lift panic

-- The error of a hash or signature is wrapped with the name of its field, which no caller reads.
unfoldable pub parse_leaf : Reader Leaf
parse_leaf = do v ← get_values (codes "leaf") 3; leaf_of_values v

abbrev pub some_leaves : List Leaf → Result (List Leaf)
some_leaves [] = err (errorf "no leaves")
some_leaves (leaf ∷ leaves) = ok (leaf ∷ leaves)

-- One round of the loop of LeavesFromASCII; `next` is the rest of the loop.
unfoldable pub add_leaf :
    (List Leaf → Reader (List Leaf)) → ℕ → List Leaf → Result Leaf → Reader (List Leaf)
add_leaf next max_count leaves (ok leaf) =
    if leb max_count (length leaves)
    then lift (err (errorf "too many leaves, expected at most %d"))
    else next (leaves ++ leaf ∷ [])
add_leaf next max_count leaves (err eof) = lift (some_leaves leaves)
add_leaf next max_count leaves (err e) = lift (err e)
add_leaf next max_count leaves panic = lift panic

unfoldable pub leaves_loop : ℕ → ℕ → List Leaf → Reader (List Leaf)
leaves_loop zero max_count leaves r = (panic, r)
leaves_loop (suc rounds) max_count leaves r =
    let next = leaves_loop rounds max_count in
    add_leaf next max_count leaves (parse_leaf r).0 (parse_leaf r).1

-- Every round but the last takes a line.
unfoldable pub leaves_from_ascii : Bytes → ℕ → Result (List Leaf)
leaves_from_ascii input max_count =
    let r = new_line_reader input in (leaves_loop (suc (length r.lines)) max_count [] r).0
