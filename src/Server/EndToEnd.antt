-- ===== src/Server/EndToEnd.antt =====
-- The HTTP client in front of the HTTP handlers.
use sigsum_lib_go.Prelude.{ℕ, ◌^◌, ◌<◌, ◌≡◌, refl, arith, some, [], ◌∷◌, ◌++◌, eq_bytes_refl}
use sigsum_lib_go.Result.{Error, ok, err, eof, api_error, error_with_old_size}
use sigsum_lib_go.Crypto.{Bytes}
use sigsum_lib_go.Encoding.Decimal.{format_uint}
use sigsum_lib_go.Ascii.Line.{new_line_reader, no_line, scan_from, get_line, get_eof}
use sigsum_lib_go.Ascii.Fields.{new_line_reader-line}
use sigsum_lib_go.Ascii.RoundTrip.{int_from_decimal-format_uint}
use sigsum_lib_go.Types.TreeHead.{SignedTreeHead}
use sigsum_lib_go.Types.TreeHeadLaws.{
  IsSignedTreeHead, format_digits-IsText, length-format_digits,
  signed_tree_head_from_ascii-signed_tree_head_to_ascii,
}
use sigsum_lib_go.Requests.AddCheckpoint.{
  AddCheckpoint, add_checkpoint_to_ascii, add_checkpoint_from_ascii,
}
use sigsum_lib_go.Api.Errors.{error_conflict_old_size, old_size_error, with_old_size, with_error}
use sigsum_lib_go.Api.Http.{content_type_tlog_size}
use sigsum_lib_go.Api.Interfaces.{Witness}
use sigsum_lib_go.Api.Client.{
  old_size_of, process_conflict_response, conflict_hook, do_request, post, get,
  client_add_checkpoint, client_get_secondary_tree_head,
}
use sigsum_lib_go.Server.Handlers.{written, serve_secondary_tree_head, or_report, or_bad_request}
use sigsum_lib_go.Server.Witness.{report_conflict, serve_add_checkpoint}

nothing_left : new_line_reader [] ≡ no_line eof
unfolding new_line_reader scan_from
nothing_left = refl

-- The client reads the size that the server writes.
old_size_of-format_uint : (n : ℕ) → n < 2 ^ 63 → old_size_of (format_uint n ++ 10 ∷ []) ≡ ok n
unfolding old_size_of get_line get_eof
old_size_of-format_uint n h =
    let reader =
      new_line_reader-line (format_uint n) [] (format_digits-IsText 20 n)
        (omega (arith, length-format_digits 20 n)) in
    rw (old_size_of, reader, get_line, int_from_decimal-format_uint n h, nothing_left) refl

conflict_hook-report_conflict :
    (error_text : Error → Bytes) (e : Error) (n : ℕ)
    → n < 2 ^ 63
    → error_conflict_old_size e ≡ some n
    → conflict_hook (report_conflict error_text e) ≡ err (api_error 409 (error_with_old_size n))
unfolding conflict_hook report_conflict process_conflict_response with_old_size with_error
conflict_hook-report_conflict error_text e n h old =
    rw
      (
        report_conflict,
        old,
        conflict_hook,
        process_conflict_response,
        eq_bytes_refl content_type_tlog_size,
        old_size_of-format_uint n h,
      )
      refl

report_conflict-status :
    (error_text : Error → Bytes) (e : Error) (n : ℕ)
    → error_conflict_old_size e ≡ some n
    → (report_conflict error_text e).status_code ≡ 409
unfolding report_conflict
report_conflict-status error_text e n old = rw (report_conflict, old) refl

-- A conflict of the witness reaches the client of its HTTP handler with the same old size, for a request
-- whose text the handler reads and an old size below 2 ^ 63.
pub client_add_checkpoint-conflict :
    (error_text : Error → Bytes) (witness : Witness) (base : Bytes) (req read : AddCheckpoint)
    (text : Bytes) (e : Error) (n : ℕ)
    → add_checkpoint_to_ascii req ≡ ok text
    → add_checkpoint_from_ascii text ≡ ok read
    → witness read ≡ err e
    → error_conflict_old_size e ≡ some n
    → n < 2 ^ 63
    → (e' : Error) × (client_add_checkpoint
          (λ r. serve_add_checkpoint error_text witness r.body)
          base
          req
        ≡ err e')
      × (error_conflict_old_size e' ≡ some n)
unfolding client_add_checkpoint post do_request serve_add_checkpoint or_bad_request report_conflict
    error_conflict_old_size old_size_error
client_add_checkpoint-conflict error_text witness base req read text e n sent got refused old h =
    let hook = conflict_hook-report_conflict error_text e n h old in
    (
      api_error 409 (error_with_old_size n),
      rw
          (
            client_add_checkpoint,
            sent,
            post,
            do_request,
            serve_add_checkpoint,
            got,
            or_bad_request,
            refused,
            report_conflict-status error_text e n old,
          )
          hook,
      refl,
    )

-- The secondary's signed tree head reaches the client of its HTTP handler as it is, for a size below
-- 2 ^ 63 and hash and signature of their lengths.
pub client_get_secondary_tree_head-serve_secondary_tree_head :
    (error_text : Error → Bytes) (base : Bytes) (sth : SignedTreeHead)
    → IsSignedTreeHead sth
    → client_get_secondary_tree_head (λ r. serve_secondary_tree_head error_text (ok sth)) base
      ≡ ok sth
unfolding client_get_secondary_tree_head get do_request serve_secondary_tree_head or_report written
client_get_secondary_tree_head-serve_secondary_tree_head error_text base sth v =
    let (text, wrote, read) = signed_tree_head_from_ascii-signed_tree_head_to_ascii sth v in
    rw
      (
        client_get_secondary_tree_head, get, do_request, serve_secondary_tree_head, or_report,
        wrote, written,
      )
      read
