-- ===== src/Ascii/Writer.antt =====
-- pkg/ascii/writer.go: what is written, or the error of an item that cannot be.
use sigsum_lib_go.Prelude.{ℕ, ◌^◌, List, [], ◌∷◌, ◌++◌, leb, if◌then◌else◌}
use sigsum_lib_go.Result.{Result, ok, err, errorf, ◌>>=◌}
use sigsum_lib_go.Crypto.{Bytes, Hash, Signature, PublicKey}
use sigsum_lib_go.Encoding.Decimal.{format_uint}
use sigsum_lib_go.Encoding.Hex.{hex_encode}

-- The types of item that writeItem takes.
pub data Item : Type 0 where
  bytes : Bytes → Item
  uint64 : ℕ → Item

unfoldable pub write_item : Item → Result Bytes
write_item (bytes b) = ok (hex_encode b)
write_item (uint64 n) =
    if leb (2 ^ 63) n then err (errorf "out of range number: %d") else ok (format_uint n)

unfoldable pub write_rest : List Item → Result Bytes
write_rest [] = ok (10 ∷ [])
write_rest (item ∷ items) = do
  text ← write_item item
  rest ← write_rest items
  ok ((32 ∷ text) ++ rest)

unfoldable pub write_line : Bytes → Item → List Item → Result Bytes
write_line key first items = do
  text ← write_item first
  rest ← write_rest items
  ok (key ++ 61 ∷ (text ++ rest))

unfoldable pub write_int : Bytes → ℕ → Result Bytes
write_int name i = write_line name (uint64 i) []

unfoldable pub write_hash : Bytes → Hash → Result Bytes
write_hash name h = write_line name (bytes h) []

unfoldable pub write_public_key : Bytes → PublicKey → Result Bytes
write_public_key name k = write_line name (bytes k) []

unfoldable pub write_signature : Bytes → Signature → Result Bytes
write_signature name s = write_line name (bytes s) []
