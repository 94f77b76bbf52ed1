-- ===== src/Types/WriteProof.antt =====
-- pkg/types/proof.go: the ToASCII methods.
use sigsum_lib_go.Prelude.{List, [], ◌∷◌, ◌++◌}
use sigsum_lib_go.Prelude.Text.{codes}
use sigsum_lib_go.Result.{Result, ok, ◌>>=◌}
use sigsum_lib_go.Crypto.{Bytes, Hash}
use sigsum_lib_go.Encoding.Base64.{base64_encode}
use sigsum_lib_go.Ascii.Writer.{write_int, write_hash}
use sigsum_lib_go.Types.Proof.{InclusionProof, ConsistencyProof}

unfoldable pub hashes_to_ascii : List Hash → Result Bytes
hashes_to_ascii [] = ok []
hashes_to_ascii (h ∷ hashes) = do
  line ← write_hash (codes "node_hash") h
  rest ← hashes_to_ascii hashes
  ok (line ++ rest)

unfoldable pub inclusion_proof_to_ascii : InclusionProof → Result Bytes
inclusion_proof_to_ascii pr = do
  index ← write_int (codes "leaf_index") pr.leaf_index
  hashes ← hashes_to_ascii pr.path
  ok (index ++ hashes)

unfoldable pub consistency_proof_to_ascii : ConsistencyProof → Result Bytes
consistency_proof_to_ascii pr = hashes_to_ascii pr.path

unfoldable pub lines_to_base64 : List Hash → Bytes
lines_to_base64 [] = []
lines_to_base64 (h ∷ hashes) = base64_encode h ++ 10 ∷ lines_to_base64 hashes

unfoldable pub to_base64 : ConsistencyProof → Bytes
to_base64 pr = lines_to_base64 pr.path
