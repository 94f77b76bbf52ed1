-- ===== src/Api/Errors.antt =====
-- pkg/api/errors.go: an api.Error is the constructor `api_error` of the shared error type.
use sigsum_lib_go.Prelude.{ℕ, Bool, true, false, Option, none, some, ◌==◌, if◌then◌else◌}
use sigsum_lib_go.Result.{Result, Error, ok, panic, errorf, api_error, error_with_old_size}

-- NewError; a nil error is `none`.
unfoldable pub new_error : ℕ → Option Error → Result Error
new_error status none = panic
new_error status (some e) = if status == 200 then panic else ok (api_error status e)

abbrev pub err_accepted : Error
err_accepted = api_error 202 (errorf "Accepted")

abbrev pub err_bad_request : Error
err_bad_request = api_error 400 (errorf "Bad Request")

abbrev pub err_forbidden : Error
err_forbidden = api_error 403 (errorf "Forbidden")

abbrev pub err_not_found : Error
err_not_found = api_error 404 (errorf "Not Found")

abbrev pub err_conflict : Error
err_conflict = api_error 409 (errorf "Conflict")

abbrev pub err_unprocessable_entity : Error
err_unprocessable_entity = api_error 422 (errorf "Unprocessable Entity")

-- Error.WithError; its receiver is always an `api_error`.
unfoldable pub with_error : Error → Error → Error
with_error (api_error status _) e = api_error status e
with_error other e = other

unfoldable pub with_old_size : Error → ℕ → Result Error
with_old_size (api_error status e) old_size =
    if status == 409
    then ok (with_error (api_error status e) (error_with_old_size old_size))
    else panic
with_old_size other old_size = panic

-- errors.As for an *Error, on the errors that the model keeps apart.
unfoldable pub error_status_code : Error → ℕ
error_status_code (api_error status e) = status
error_status_code _ = 500

-- errors.As for an *errorWithOldSize.
unfoldable pub old_size_error : Error → Option ℕ
old_size_error (error_with_old_size n) = some n
old_size_error (api_error _ e) = old_size_error e
old_size_error _ = none

unfoldable pub error_conflict_old_size : Error → Option ℕ
error_conflict_old_size (api_error status e) = if status == 409 then old_size_error e else none
error_conflict_old_size _ = none

-- errors.Is for an *Error with this status code, on the errors that the model keeps apart.
unfoldable pub is_status : ℕ → Error → Bool
is_status status (api_error s e) =
    let inner = is_status status e in if s == status then true else inner
is_status status _ = false
