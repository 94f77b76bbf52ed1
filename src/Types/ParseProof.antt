-- ===== src/Types/ParseProof.antt =====
-- pkg/types/proof.go: the parsers of proofs.
use sigsum_lib_go.Prelude.{
  ℕ, zero, suc, Bool, true, false, List, [], ◌∷◌, ◌++◌, length, if◌then◌else◌,
}
use sigsum_lib_go.Prelude.Text.{codes}
use sigsum_lib_go.Result.{Result, ok, err, panic, eof, errorf}
use sigsum_lib_go.Crypto.{Bytes, Hash}
use sigsum_lib_go.Ascii.Line.{Reader, ◌>>=◌, lift, new_line_reader, get_line}
use sigsum_lib_go.Ascii.Parser.{get_int, get_hash}
use sigsum_lib_go.Prelude.{leb}
use sigsum_lib_go.Encoding.Fixed.{hash_from_base64}
use sigsum_lib_go.Types.Proof.{InclusionProof, ConsistencyProof}

abbrev pub proof_size_limit : ℕ
proof_size_limit = 63

abbrev pub some_hashes : List Hash → Result (List Hash)
some_hashes [] = err (errorf "invalid path, empty")
some_hashes (h ∷ hashes) = ok (h ∷ hashes)

-- One round of the loop of hashesFromASCII; `next` is the rest of the loop.
unfoldable pub add_hash :
    (List Hash → Reader (List Hash)) → List Hash → Result Hash → Reader (List Hash)
add_hash next hashes (ok h) =
    if leb proof_size_limit (length hashes)
    then lift (err (errorf "too many node hashes"))
    else next (hashes ++ h ∷ [])
add_hash next hashes (err eof) = lift (some_hashes hashes)
add_hash next hashes (err e) = lift (err e)
add_hash next hashes panic = lift panic

unfoldable pub hashes_loop : ℕ → List Hash → Reader (List Hash)
hashes_loop zero hashes r = (panic, r)
hashes_loop (suc rounds) hashes r =
    let next = hashes_loop rounds in
    add_hash next hashes (get_hash (codes "node_hash") r).0 (get_hash (codes "node_hash") r).1

-- Every round but the last takes a line.
unfoldable pub hashes_from_ascii : Reader (List Hash)
hashes_from_ascii r = hashes_loop (suc (length r.lines)) [] r

unfoldable pub parse_inclusion_proof : Reader InclusionProof
parse_inclusion_proof = do
  leaf_index ← get_int (codes "leaf_index")
  path ← hashes_from_ascii
  lift (ok (record { leaf_index = leaf_index; path = path }))

unfoldable pub inclusion_proof_from_ascii : Bytes → Result InclusionProof
inclusion_proof_from_ascii input = (parse_inclusion_proof (new_line_reader input)).0

unfoldable pub parse_consistency_proof : Reader ConsistencyProof
parse_consistency_proof = do path ← hashes_from_ascii; lift (ok (record { path = path }))

unfoldable pub consistency_proof_from_ascii : Bytes → Result ConsistencyProof
consistency_proof_from_ascii input = (parse_consistency_proof (new_line_reader input)).0

-- One round of the loop of ParseBase64; `next` is the rest of the loop.
unfoldable pub add_base64 :
    (List Hash → Reader (ConsistencyProof × Bool))
    → List Hash
    → Result Bytes
    → Reader (ConsistencyProof × Bool)
add_base64 next path (ok []) = lift (ok (record { path = path }, true))
add_base64 next path (ok (c ∷ line)) =
    if leb proof_size_limit (length path)
    then lift (err (errorf "too many entries for consistency proof"))
    else do h ← lift (hash_from_base64 (c ∷ line)); next (path ++ h ∷ [])
add_base64 next path (err eof) = lift (ok (record { path = path }, false))
add_base64 next path (err e) = lift (err e)
add_base64 next path panic = lift panic

unfoldable pub base64_loop : ℕ → List Hash → Reader (ConsistencyProof × Bool)
base64_loop zero path r = (panic, r)
base64_loop (suc rounds) path r =
    let next = base64_loop rounds in add_base64 next path (get_line r).0 (get_line r).1

-- Every round but the last takes a line.
unfoldable pub parse_base64 : Reader (ConsistencyProof × Bool)
parse_base64 r = base64_loop (suc (length r.lines)) [] r
