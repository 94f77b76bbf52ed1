-- ===== src/Requests/LogRequests.antt =====
-- pkg/requests/requests.go: the requests to a log.
use sigsum_lib_go.Prelude.{ℕ, [], ◌++◌, ◌∷◌, if◌then◌else◌}
use sigsum_lib_go.Prelude.Text.{codes}
use sigsum_lib_go.Result.{Result, ok, err, errorf}
use sigsum_lib_go.Result as Results
use sigsum_lib_go.Crypto.{Bytes, Hash, Signature, PublicKey, Sha256, Verifier, hash_bytes}
use sigsum_lib_go.Encoding.Decimal.{format_uint}
use sigsum_lib_go.Encoding.Hex.{hex_encode}
use sigsum_lib_go.Encoding.Fixed.{hash_from_hex}
use sigsum_lib_go.Ascii.Line.{Reader, ◌>>=◌, ◌>>◌, lift, new_line_reader, get_eof}
use sigsum_lib_go.Ascii.Parser.{int_from_decimal, get_hash, get_signature, get_public_key}
use sigsum_lib_go.Ascii.Writer.{bytes, write_line}
use sigsum_lib_go.Types.Leaf.{verify_leaf_message}
use sigsum_lib_go.Types.Leaf as Types

pub record Leaf : Type 0 where
  pub message : Hash
  pub signature : Signature
  pub public_key : PublicKey

pub record Leaves : Type 0 where
  pub start_index : ℕ
  pub end_index : ℕ

pub record InclusionProof : Type 0 where
  pub size : ℕ
  pub leaf_hash : Hash

pub record ConsistencyProof : Type 0 where
  pub old_size : ℕ
  pub new_size : ℕ

unfoldable pub leaf_to_ascii : Leaf → Result Bytes
leaf_to_ascii req = Results.◌>>=◌ (write_line (codes "message") (bytes req.message) []) (λ message.
    Results.◌>>=◌ (write_line (codes "signature") (bytes req.signature) []) (λ sig.
      Results.◌>>=◌ (write_line (codes "public_key") (bytes req.public_key) [])
        (λ key. ok (message ++ (sig ++ key)))))

parse_leaf : Reader Leaf
parse_leaf = do
  message ← get_hash (codes "message")
  sig ← get_signature (codes "signature")
  key ← get_public_key (codes "public_key")
  get_eof
  lift (ok (record { message = message; signature = sig; public_key = key }))

unfoldable pub leaf_from_ascii : Bytes → Result Leaf
unfolding parse_leaf
leaf_from_ascii input = (parse_leaf (new_line_reader input)).0

-- Leaf.Verify: the leaf for the log's tree, if the signature is right.
unfoldable pub verify_leaf_request : Sha256 → Verifier → Leaf → Result Types.Leaf
verify_leaf_request sha verify req =
    if verify_leaf_message sha verify req.public_key req.message req.signature
    then ok (record {
      checksum = hash_bytes sha req.message;
      signature = req.signature;
      key_hash = hash_bytes sha req.public_key;
    })
    else err (errorf "invalid signature")

-- The ToURL methods.
unfoldable pub leaves_to_url : Leaves → Bytes → Bytes
leaves_to_url req url = url ++ (format_uint req.start_index ++ b'/' ∷ format_uint req.end_index)

unfoldable pub inclusion_proof_to_url : InclusionProof → Bytes → Bytes
inclusion_proof_to_url req url = url ++ (format_uint req.size ++ b'/' ∷ hex_encode req.leaf_hash)

unfoldable pub consistency_proof_to_url : ConsistencyProof → Bytes → Bytes
consistency_proof_to_url req url =
    url ++ (format_uint req.old_size ++ b'/' ∷ format_uint req.new_size)

-- The FromURLArgs methods.
unfoldable pub leaves_from_url_args : Bytes → Bytes → Result Leaves
leaves_from_url_args start end = Results.◌>>=◌ (int_from_decimal start) (λ s.
    Results.◌>>=◌ (int_from_decimal end) (λ e. ok (record { start_index = s; end_index = e })))

unfoldable pub inclusion_proof_from_url_args : Bytes → Bytes → Result InclusionProof
inclusion_proof_from_url_args size hash =
    Results.◌>>=◌ (int_from_decimal size)
      (λ n. Results.◌>>=◌ (hash_from_hex hash) (λ h. ok (record { size = n; leaf_hash = h })))

unfoldable pub consistency_proof_from_url_args : Bytes → Bytes → Result ConsistencyProof
consistency_proof_from_url_args old new =
    Results.◌>>=◌ (int_from_decimal old)
      (λ m. Results.◌>>=◌ (int_from_decimal new) (λ n. ok (record { old_size = m; new_size = n })))
