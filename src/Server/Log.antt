-- ===== src/Server/Log.antt =====
-- pkg/server/log.go: the handlers in front of a log.
use sigsum_lib_go.Prelude.{
  ◌-◌, Option, none, some, List, [], length, ltb, leb, ◌==◌, ◌||◌, if◌then◌else◌,
}
use sigsum_lib_go.Result.{Result, Error, ok, err, panic, errorf, ◌>>=◌}
use sigsum_lib_go.Crypto.{Bytes}
use sigsum_lib_go.Types.Leaf.{Leaf}
use sigsum_lib_go.Types.WriteLeaf.{leaves_to_ascii}
use sigsum_lib_go.Types.WriteTreeHead.{cosigned_tree_head_to_ascii}
use sigsum_lib_go.Types.WriteProof.{inclusion_proof_to_ascii, consistency_proof_to_ascii}
use sigsum_lib_go.Requests.LogRequests.{
  Leaves, leaves_from_url_args, inclusion_proof_from_url_args, consistency_proof_from_url_args,
  leaf_from_ascii,
}
use sigsum_lib_go.Requests.LogRequests as Requests
use sigsum_lib_go.Token.SubmitToken.{SubmitHeader, from_header}
use sigsum_lib_go.Api.Errors.{err_accepted}
use sigsum_lib_go.Api.Http.{Response}
use sigsum_lib_go.Api.Interfaces.{Log}
use sigsum_lib_go.Server.Handlers.{written, report_error, or_report, or_bad_request}

abbrev pub check_range : Leaves → Result Leaves
check_range req =
    if leb req.end_index req.start_index
    then err (errorf "start_index(%d) must be less than end_index(%d)")
    else ok req

abbrev pub check_leaf_count : Leaves → List Leaf → Result (List Leaf)
check_leaf_count req leaves =
    if length leaves == 0 || ltb (req.end_index - req.start_index) (length leaves)
    then err (errorf "bad leaf count %d, should have 0 < count <= %d")
    else ok leaves

abbrev pub check_size : Requests.InclusionProof → Result Requests.InclusionProof
check_size req = if ltb req.size 2 then err (errorf "size(%d) must be larger than one") else ok req

abbrev pub check_sizes : Requests.ConsistencyProof → Result Requests.ConsistencyProof
check_sizes req =
    if ltb req.old_size 1
    then err (errorf "old_size(%d) must be larger than zero")
    else if leb req.new_size req.old_size
    then err (errorf "new_size(%d) must be larger than old_size(%d)")
    else ok req

-- The Sigsum-Token header; an empty value is an absent one.
unfoldable pub submit_header_of : Bytes → Result (Option SubmitHeader)
submit_header_of value =
    if ltb 0 (length value)
    then (elim (from_header value) [
      | ok header ↦ ok (some header)
      | err _ ↦ err (errorf "Invalid Sigsum-Submit: header: %v")
      | panic ↦ panic
    ])
    else ok none

module _ (error_text : Error → Bytes) where
  abbrev pub empty_ok : Result Response
  empty_ok = written (ok [])

  unfoldable pub serve_get_leaves : (Leaves → Result (List Leaf)) → Bytes → Bytes → Result Response
  serve_get_leaves get_leaves start end =
      or_bad_request error_text (leaves_from_url_args start end >>= check_range) (λ req.
        or_report error_text (get_leaves req >>= check_leaf_count req)
          (λ leaves. written (leaves_to_ascii leaves)))

  unfoldable pub serve_get_tree_head : Log → Result Response
  serve_get_tree_head log =
      or_report error_text log.get_tree_head (λ cth. written (cosigned_tree_head_to_ascii cth))

  unfoldable pub serve_get_inclusion_proof : Log → Bytes → Bytes → Result Response
  serve_get_inclusion_proof log size hash =
      or_bad_request error_text (inclusion_proof_from_url_args size hash >>= check_size) (λ req.
        or_report error_text (log.get_inclusion_proof req)
          (λ proof. written (inclusion_proof_to_ascii proof)))

  unfoldable pub serve_get_consistency_proof : Log → Bytes → Bytes → Result Response
  serve_get_consistency_proof log old new =
      or_bad_request error_text (consistency_proof_from_url_args old new >>= check_sizes) (λ req.
        or_report error_text (log.get_consistency_proof req)
          (λ proof. written (consistency_proof_to_ascii proof)))

  unfoldable pub serve_add_leaf : Log → Bytes → Bytes → Result Response
  serve_add_leaf log body header_value = or_bad_request error_text (leaf_from_ascii body) (λ req.
      or_bad_request error_text (submit_header_of header_value) (λ header.
        or_report error_text (log.add_leaf req header)
          (λ persisted. if persisted then empty_ok else ok (report_error error_text err_accepted))))
