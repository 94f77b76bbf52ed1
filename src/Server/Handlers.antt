-- ===== src/Server/Handlers.antt =====
-- pkg/server/server.go, config.go and secondary.go. A handler is a function from the parts of a request that it
-- reads to a response; net/http routes the requests. The text of an error is a parameter.
use sigsum_lib_go.Prelude.{ℕ, zero, suc, ◌++◌, ◌∷◌, [], List}
use sigsum_lib_go.Prelude.Int.{ℤ, pos, negsuc}
use sigsum_lib_go.Prelude.Text.{codes}
use sigsum_lib_go.Result.{Result, Error, ok, err, panic}
use sigsum_lib_go.Crypto.{Bytes}
use sigsum_lib_go.Types.WriteTreeHead.{signed_tree_head_to_ascii}
use sigsum_lib_go.Api.Errors.{err_bad_request, with_error, error_status_code}
use sigsum_lib_go.Api.Http.{Response, content_type_text}
use sigsum_lib_go.Api.Interfaces.{Secondary}
use sigsum_lib_go.Api.Endpoint.{path}

-- 30 seconds, in nanoseconds
abbrev pub default_timeout : ℤ
default_timeout = pos 30000000000

pub record Config : Type 0 where
  pub prefix : Bytes
  pub timeout : ℤ

abbrev pub timeout_or_default : ℤ → ℤ
timeout_or_default (pos zero) = default_timeout
timeout_or_default (pos (suc n)) = pos (suc n)
timeout_or_default (negsuc n) = negsuc n

-- The metrics are left out.
unfoldable pub with_defaults : Config → Config
with_defaults c = record c { timeout = timeout_or_default c.timeout }

-- The pattern that `register` hands to the multiplexer.
unfoldable pub register_pattern : Bytes → Config → Bytes → Bytes → Bytes
register_pattern method config endpoint args =
    method ++ (codes " /" ++ (path endpoint config.prefix ++ args))

-- The calls of the metrics around a handler: OnRequest, then OnResponse with the status.
pub data Metric : Type 0 where
  on_request : Bytes → Metric
  on_response : Bytes → ℕ → Metric

-- handlerWithMetrics.ServeHTTP
unfoldable pub serve_with_metrics : Bytes → Response → List Metric
serve_with_metrics endpoint rsp = on_request endpoint ∷ on_response endpoint rsp.status_code ∷ []

-- A body that is written without a status; an error of the writer cuts it short.
unfoldable pub written : Result Bytes → Result Response
written (ok body) = ok (record { status_code = 200; content_type = []; body = body })
written (err _) = ok (record { status_code = 200; content_type = []; body = [] })
written panic = panic

module _ (error_text : Error → Bytes) where
  unfoldable pub report_error : Error → Response
  report_error e = record {
    status_code = error_status_code e;
    content_type = content_type_text;
    body = error_text e ++ 10 ∷ [];
  }

  unfoldable pub handler_bad_request : Response
  handler_bad_request = report_error err_bad_request

  -- The error of a step is reported, as it is or as a bad request.
  unfoldable pub or_report {ℓ} : {A : Type ℓ} → Result A → (A → Result Response) → Result Response
  or_report (ok a) k = k a
  or_report (err e) k = ok (report_error e)
  or_report panic k = panic

  unfoldable pub or_bad_request {ℓ} :
      {A : Type ℓ} → Result A → (A → Result Response) → Result Response
  or_bad_request (ok a) k = k a
  or_bad_request (err e) k = ok (report_error (with_error err_bad_request e))
  or_bad_request panic k = panic

  -- The handler of NewSecondary.
  unfoldable pub serve_secondary_tree_head : Secondary → Result Response
  serve_secondary_tree_head secondary =
      or_report secondary (λ sth. written (signed_tree_head_to_ascii sth))
