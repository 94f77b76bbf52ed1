-- ===== src/Api/Client.antt =====
-- pkg/client/client.go: the HTTP client. net/http is a parameter: a function from requests to
-- responses, whose bodies are read to their end.
use sigsum_lib_go.Prelude.{
  ℕ, ◌+◌, ◌-◌, ◌^◌, Bool, true, false, Option, none, some, List, [], ◌==◌, ltb, leb, length, ◌||◌,
  eq_bytes, not, if◌then◌else◌,
}
use sigsum_lib_go.Prelude.Bits.{u64}
use sigsum_lib_go.Result.{Result, Error, ok, err, panic, errorf, ◌>>=◌, ◌>>◌}
use sigsum_lib_go.Crypto.{Bytes, zeros}
use sigsum_lib_go.Ascii.Line.{Reader, new_line_reader, get_line, get_eof}
use sigsum_lib_go.Ascii.Line as Line
use sigsum_lib_go.Ascii.Parser.{int_from_decimal}
use sigsum_lib_go.Types.TreeHead.{SignedTreeHead, CosignedTreeHead}
use sigsum_lib_go.Types.ParseTreeHead.{signed_tree_head_from_ascii, cosigned_tree_head_from_ascii}
use sigsum_lib_go.Types.Leaf.{Leaf}
use sigsum_lib_go.Types.ParseLeaf.{leaves_from_ascii}
use sigsum_lib_go.Types.Proof.{InclusionProof, ConsistencyProof}
use sigsum_lib_go.Types.ParseProof.{inclusion_proof_from_ascii, consistency_proof_from_ascii}
use sigsum_lib_go.Checkpoint.Cosignature.{CosignatureLine, cosignature_lines_from_ascii}
use sigsum_lib_go.Requests.LogRequests as Requests
use sigsum_lib_go.Requests.LogRequests.{
  leaf_to_ascii, leaves_to_url, inclusion_proof_to_url, consistency_proof_to_url,
}
use mathlib.Core.Option as Options
use sigsum_lib_go.Requests.AddCheckpoint.{AddCheckpoint, add_checkpoint_to_ascii}
use sigsum_lib_go.Token.SubmitToken.{SubmitHeader, to_header}
use sigsum_lib_go.Api.Errors.{
  new_error, with_error, with_old_size, err_not_found, err_conflict, is_status,
}
use sigsum_lib_go.Api.Interfaces.{Log}
use sigsum_lib_go.Api.Http.{http_get, http_post, Request, Response, content_type_tlog_size}
use sigsum_lib_go.Api.Endpoint.{
  path, endpoint_add_leaf, endpoint_get_tree_head, endpoint_get_inclusion_proof,
  endpoint_get_consistency_proof, endpoint_get_leaves, endpoint_get_secondary_tree_head,
  endpoint_add_checkpoint,
}

-- The *Error that a constructor of errors gives.
abbrev pub fail {ℓ} : {A : Type ℓ} → Result Error → Result A
fail e = e >>= λ x. err x

unfoldable pub response_error_handling : Response → Result (Unit {0})
response_error_handling rsp =
    if not (rsp.status_code == 200)
    then fail (new_error rsp.status_code (some (errorf "server: %q")))
    else if ltb 0 (length rsp.body)
    then err (errorf "unexpected server response (status OK): %q")
    else ok tt

-- The old size in the body of a conflict response.
unfoldable pub old_size_of : Bytes → Result ℕ
old_size_of body =
    (Line.◌>>=◌ get_line
      (λ line.
        Line.◌>>=◌ (Line.lift (int_from_decimal line))
          (λ old_size. Line.◌>>=◌ get_eof (λ _. Line.lift (ok old_size))))
      (new_line_reader body)).0

abbrev pub conflict_of : Result ℕ → Result Error
conflict_of (ok old_size) = with_old_size err_conflict old_size
conflict_of (err e) = ok (with_error err_conflict e)
conflict_of panic = panic

unfoldable pub process_conflict_response : Response → Result Error
process_conflict_response rsp =
    if not (eq_bytes rsp.content_type content_type_tlog_size)
    then ok (with_error err_conflict (errorf "unexpected content type for Conflict response: %q"))
    else conflict_of (old_size_of rsp.body)

-- The errorHook of AddCheckpoint.
unfoldable pub conflict_hook : Response → Result (List CosignatureLine)
conflict_hook rsp =
    if not (rsp.status_code == 409)
    then (do response_error_handling rsp; ok [])
    else fail (process_conflict_response rsp)

-- The limit on the leaves of an answer is `req.StartIndex-req.EndIndex`, which wraps around.
unfoldable pub max_leaves : Requests.Leaves → ℕ
max_leaves req = u64 (req.start_index + 2 ^ 64 - req.end_index)

-- ErrAccepted means that the leaf is not persisted yet.
abbrev pub persisted : Result (Unit {0}) → Result Bool
persisted (ok _) = ok true
persisted (err e) = if is_status 202 e then ok false else err e
persisted panic = panic

module _ (transport : Request → Result Response) where
  -- Client.do, with the parser of a body and what handles other responses.
  unfoldable pub do_request {ℓ} :
      {A : Type ℓ} → Request → Option (Bytes → Result A) → (Response → Result A) → Result A
  do_request req parse_body other = elim (transport req) [
    | err _ ↦ err (errorf "send request: %w")
    | panic ↦ panic
    | ok rsp ↦ elim parse_body [
      | some parse ↦ if rsp.status_code == 200 then parse rsp.body else other rsp
      | none ↦ other rsp
    ]
  ]

  -- Client.get; a nil error of `responseErrorHandling` leaves the zero value, which `zero` stands for.
  unfoldable pub get {ℓ} : {A : Type ℓ} → Bytes → (Bytes → Result A) → A → Result A
  get url parse_body zero =
      do_request (record { method = http_get; url = url; token_header = none; body = [] })
        (some parse_body) (λ rsp. response_error_handling rsp >>= λ _. ok zero)

  -- Client.post
  unfoldable pub post {ℓ} :
      {A : Type ℓ}
      → Bytes
      → Option Bytes
      → Bytes
      → Option (Bytes → Result A)
      → (Response → Result A)
      → Result A
  post url token_header body parse_response error_hook =
      do_request
        (record { method = http_post; url = url; token_header = token_header; body = body })
        parse_response error_hook

  module _ (base : Bytes) where
    unfoldable pub client_get_secondary_tree_head : Result SignedTreeHead
    client_get_secondary_tree_head =
        get (path endpoint_get_secondary_tree_head base) signed_tree_head_from_ascii
          (record { tree_head = record { size = 0; root_hash = zeros 32 }; signature = zeros 64 })

    unfoldable pub client_get_tree_head : Result CosignedTreeHead
    client_get_tree_head =
        get (path endpoint_get_tree_head base) cosigned_tree_head_from_ascii (record {
          signed_tree_head = record {
            tree_head = record { size = 0; root_hash = zeros 32 };
            signature = zeros 64;
          };
          cosignatures = [];
        })

    unfoldable pub client_get_inclusion_proof : Requests.InclusionProof → Result InclusionProof
    client_get_inclusion_proof req =
        if req.size == 0
        then err err_not_found
        else if req.size == 1
        then ok (record { leaf_index = 0; path = [] })
        else get (inclusion_proof_to_url req (path endpoint_get_inclusion_proof base))
            inclusion_proof_from_ascii (record { leaf_index = 0; path = [] })

    unfoldable pub client_get_consistency_proof :
        Requests.ConsistencyProof → Result ConsistencyProof
    client_get_consistency_proof req =
        if req.old_size == 0 || req.old_size == req.new_size
        then ok (record { path = [] })
        else get (consistency_proof_to_url req (path endpoint_get_consistency_proof base))
            consistency_proof_from_ascii (record { path = [] })

    unfoldable pub client_get_leaves : Requests.Leaves → Result (List Leaf)
    client_get_leaves req =
        if leb req.end_index req.start_index
        then err (errorf "invalid request, StartIndex (%d) >= EndIndex (%d)")
        else get (leaves_to_url req (path endpoint_get_leaves base))
            (λ body. leaves_from_ascii body (max_leaves req)) []

    -- The leaf's ToASCII cannot fail on a buffer.
    unfoldable pub client_add_leaf : Requests.Leaf → Option SubmitHeader → Result Bool
    client_add_leaf req header = do
      body ← leaf_to_ascii req
      persisted (
          post (path endpoint_add_leaf base) (Options.map to_header header) body none
            response_error_handling)

    unfoldable pub client_add_checkpoint : AddCheckpoint → Result (List CosignatureLine)
    client_add_checkpoint req = do
      body ← add_checkpoint_to_ascii req
      post (path endpoint_add_checkpoint base) none body (some cosignature_lines_from_ascii)
          conflict_hook

    -- The client is an api.Log.
    unfoldable pub client_log : Log
    client_log = record {
      get_tree_head = client_get_tree_head;
      get_inclusion_proof = client_get_inclusion_proof;
      get_consistency_proof = client_get_consistency_proof;
      get_leaves = client_get_leaves;
      add_leaf = client_add_leaf;
    }
