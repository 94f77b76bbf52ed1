-- ===== src/Server/Witness.antt =====
-- pkg/server/witness.go: the handler in front of a witness.
use sigsum_lib_go.Prelude.{none, some, List, [], ◌∷◌, ◌++◌}
use sigsum_lib_go.Result.{Result, Error, ok, err, panic}
use sigsum_lib_go.Crypto.{Bytes}
use sigsum_lib_go.Encoding.Decimal.{format_uint}
use sigsum_lib_go.Checkpoint.Cosignature.{CosignatureLine, cosignature_line_to_ascii}
use sigsum_lib_go.Requests.AddCheckpoint.{add_checkpoint_from_ascii}
use sigsum_lib_go.Api.Errors.{error_conflict_old_size}
use sigsum_lib_go.Api.Http.{Response, content_type_tlog_size}
use sigsum_lib_go.Api.Interfaces.{Witness}
use sigsum_lib_go.Server.Handlers.{written, report_error, or_bad_request}

unfoldable pub signature_lines : List CosignatureLine → Bytes
signature_lines [] = []
signature_lines (s ∷ signatures) = cosignature_line_to_ascii s ++ signature_lines signatures

module _ (error_text : Error → Bytes) where
  -- An error with an old size is answered with that size.
  unfoldable pub report_conflict : Error → Response
  report_conflict e = elim (error_conflict_old_size e) [
    | some old_size ↦ record {
      status_code = 409;
      content_type = content_type_tlog_size;
      body = format_uint old_size ++ 10 ∷ [];
    }
    | none ↦ report_error error_text e
  ]

  unfoldable pub serve_add_checkpoint : Witness → Bytes → Result Response
  serve_add_checkpoint witness body =
      or_bad_request error_text (add_checkpoint_from_ascii body) (λ req. elim (witness req) [
        | ok signatures ↦ written (ok (signature_lines signatures))
        | err e ↦ ok (report_conflict e)
        | panic ↦ panic
      ])
