-- ===== src/Types/ParseTreeHead.antt =====
-- pkg/types/tree_head.go: the parsers of tree heads and cosignatures.
use sigsum_lib_go.Prelude.{ℕ, zero, suc, Bool, true, false, none, some, List, [], ◌∷◌, length}
use sigsum_lib_go.Prelude.Text.{codes}
use sigsum_lib_go.Prelude.Maps.{Map, lookup, insert}
use sigsum_lib_go.Result.{Result, ok, err, panic, eof, empty_line, errorf}
use sigsum_lib_go.Crypto.{Bytes, Hash}
use sigsum_lib_go.Encoding.Fixed.{hash_from_hex, signature_from_hex}
use sigsum_lib_go.Ascii.Line.{Reader, ◌>>=◌, ◌>>◌, lift, new_line_reader, get_eof}
use sigsum_lib_go.Ascii.Parser.{int_from_decimal, get_int, get_hash, get_signature, get_values}
use sigsum_lib_go.Types.TreeHead.{TreeHead, SignedTreeHead, Cosignature, CosignedTreeHead}

-- TreeHead.Parse, SignedTreeHead.Parse and Cosignature.Parse
unfoldable pub parse_tree_head : Reader TreeHead
parse_tree_head = do
  size ← get_int (codes "size")
  root_hash ← get_hash (codes "root_hash")
  lift (ok (record { size = size; root_hash = root_hash }))

unfoldable pub parse_signed_tree_head : Reader SignedTreeHead
parse_signed_tree_head = do
  th ← parse_tree_head
  sig ← get_signature (codes "signature")
  lift (ok (record { tree_head = th; signature = sig }))

-- The values of a cosignature line.
unfoldable pub cosignature_of_values : List Bytes → Reader (Hash × Cosignature)
cosignature_of_values (k ∷ t ∷ s ∷ []) = do
  key_hash ← lift (hash_from_hex k)
  timestamp ← lift (int_from_decimal t)
  sig ← lift (signature_from_hex s)
  lift (ok (key_hash, record { timestamp = timestamp; signature = sig }))
cosignature_of_values _ = lift panic

unfoldable pub parse_cosignature : Reader (Hash × Cosignature)
parse_cosignature = do v ← get_values (codes "cosignature") 3; cosignature_of_values v

-- One round of the loop of ParseCosignatures; `next` is the rest of the loop.
unfoldable pub add_cosignature :
    (Map Cosignature → Reader (Map Cosignature × Bool))
    → Map Cosignature
    → Result (Hash × Cosignature)
    → Reader (Map Cosignature × Bool)
add_cosignature next found (ok (key_hash, cs)) = elim (lookup key_hash found) [
  | some _ ↦ lift (err (errorf "duplicate cosignature keyhash"))
  | none ↦ next (insert key_hash cs found)
]
add_cosignature next found (err eof) = lift (ok (found, false))
add_cosignature next found (err empty_line) = lift (ok (found, true))
add_cosignature next found (err e) = lift (err e)
add_cosignature next found panic = lift panic

unfoldable pub parse_cosignatures_loop : ℕ → Map Cosignature → Reader (Map Cosignature × Bool)
parse_cosignatures_loop zero found r = (panic, r)
parse_cosignatures_loop (suc rounds) found r =
    let next = parse_cosignatures_loop rounds in
    add_cosignature next found (parse_cosignature r).0 (parse_cosignature r).1

-- Every round but the last takes a line.
unfoldable pub parse_cosignatures : Reader (Map Cosignature × Bool)
parse_cosignatures r = parse_cosignatures_loop (suc (length r.lines)) [] r

unfoldable pub parse_cosigned_tree_head : Reader (CosignedTreeHead × Bool)
parse_cosigned_tree_head = do
  sth ← parse_signed_tree_head
  cs ← parse_cosignatures
  lift (ok (record { signed_tree_head = sth; cosignatures = cs.0 }, cs.1))

-- The FromASCII methods.
unfoldable pub tree_head_from_ascii : Bytes → Result TreeHead
tree_head_from_ascii input =
    ((do th ← parse_tree_head; get_eof; lift (ok th)) (new_line_reader input)).0

unfoldable pub signed_tree_head_from_ascii : Bytes → Result SignedTreeHead
signed_tree_head_from_ascii input =
    ((do sth ← parse_signed_tree_head; get_eof; lift (ok sth)) (new_line_reader input)).0

unfoldable pub cosignature_from_ascii : Bytes → Result (Hash × Cosignature)
cosignature_from_ascii input =
    ((do cs ← parse_cosignature; get_eof; lift (ok cs)) (new_line_reader input)).0

abbrev pub ended_by_eof : CosignedTreeHead × Bool → Result CosignedTreeHead
ended_by_eof (cth, true) = err empty_line
ended_by_eof (cth, false) = ok cth

unfoldable pub cosigned_tree_head_from_ascii : Bytes → Result CosignedTreeHead
cosigned_tree_head_from_ascii input =
    ((do c ← parse_cosigned_tree_head; lift (ended_by_eof c)) (new_line_reader input)).0
