-- ===== src/Core/Outcome.antt =====
-- internal/core/outcome.go: the twelve outcomes and the classifier. Go's errors are not code of the
-- repository: what the classifier asks of them is the record `ErrorTests`.
pub mod Classes
use daegsa.Prelude.{
  ℕ, Bool, true, false, List, [], ◌∷◌, Option, none, some, ◌||◌, ◌&&◌, ◌==◌, if◌then◌else◌, any,
  is_empty,
}
use daegsa.Prelude.Text.{Text, codes, contains, text_eq, is_some}

pub data Outcome : Type 0 where
  success unexpected_status rate_limited timeout dns_error connect_error tls_error : Outcome
  request_build_error response_body_error canceled other_transport_error dropped : Outcome

abbrev pub all_outcomes : List Outcome
all_outcomes =
    success ∷ unexpected_status ∷ rate_limited ∷ timeout ∷ dns_error ∷ connect_error ∷ tls_error
    ∷ request_build_error ∷ response_body_error ∷ canceled ∷ other_transport_error ∷ dropped ∷ []

unfoldable pub is_success : Outcome → Bool
is_success success = true
is_success _ = false

unfoldable pub is_http_response : Outcome → Bool
is_http_response success = true
is_http_response unexpected_status = true
is_http_response rate_limited = true
is_http_response _ = false

unfoldable pub is_transport_failure : Outcome → Bool
is_transport_failure timeout = true
is_transport_failure dns_error = true
is_transport_failure connect_error = true
is_transport_failure tls_error = true
is_transport_failure response_body_error = true
is_transport_failure other_transport_error = true
is_transport_failure _ = false

unfoldable pub is_client_drop : Outcome → Bool
is_client_drop dropped = true
is_client_drop _ = false

unfoldable pub is_canceled : Outcome → Bool
is_canceled canceled = true
is_canceled _ = false

-- What errors.Is and errors.As report of an error, and its message. `as_url` is the error that a
-- url.Error in the chain wraps, `as_net_timeout` the Timeout() of a net.Error in it, and `as_op`
-- the operation and the cause of a net.OpError in it.
pub record ErrorTests : Type 1 where
  pub Err : Type 0
  pub as_url : Err → Option Err
  pub is_deadline_exceeded : Err → Bool
  pub is_os_deadline_exceeded : Err → Bool
  pub is_etimedout : Err → Bool
  pub as_net_timeout : Err → Option Bool
  pub as_dns : Err → Bool
  pub as_certificate : Err → Bool
  pub as_record_header : Err → Bool
  pub message : Err → Text
  pub as_op : Err → Option (Text × Err)
  pub as_syscall : Err → Option Err
  pub is_econnrefused : Err → Bool
  pub is_context_canceled : Err → Bool
  pub is_os_closed : Err → Bool

abbrev pub too_many_requests : ℕ
too_many_requests = 429

abbrev pub status_ok : ℕ
status_ok = 200

-- An empty list stands for 200.
unfoldable pub is_status_expected : ℕ → List ℕ → Bool
is_status_expected status [] = status == status_ok
is_status_expected status (e ∷ es) = any (λ x. status == x) (e ∷ es)

abbrev or_else : Option Bool → Bool
or_else none = false
or_else (some b) = b

unfoldable pub classify_status : ℕ → List ℕ → Outcome
unfolding is_status_expected
classify_status status expected =
    if status == too_many_requests
    then rate_limited
    else if is_status_expected status expected
    then success
    else unexpected_status

module _ (errors : ErrorTests) where
  open errors use {
    Err, as_url, is_deadline_exceeded, is_os_deadline_exceeded, is_etimedout, as_net_timeout,
    as_dns, as_certificate, as_record_header, message, as_op, as_syscall, is_econnrefused,
    is_context_canceled, is_os_closed,
  }

  pub record ClassifyInput : Type 0 where
    pub status_code : ℕ
    pub expected_statuses : List ℕ
    pub err : Option Err
    pub was_canceled : Bool
    pub was_dropped : Bool
    pub response_body_err : Bool
    pub request_build_err : Bool

  -- errors.As(opErr.Err, &sysErr) and errors.Is(sysErr.Err, ECONNREFUSED).
  syscall_refused : Option Err → Bool
  syscall_refused none = false
  syscall_refused (some sys) = is_econnrefused sys

  -- The tests on a net.OpError in the chain.
  op_refused : Option (Text × Err) → Bool
  unfolding syscall_refused
  op_refused none = false
  op_refused (some (op, cause)) =
      text_eq op (codes "dial") || syscall_refused (as_syscall cause) || is_econnrefused cause

  -- The ladder of tests, on the error that a url.Error wraps.
  classify_unwrapped : Err → Outcome
  unfolding op_refused
  classify_unwrapped err =
      if is_deadline_exceeded err || is_os_deadline_exceeded err || is_etimedout err
      then timeout
      else if or_else (as_net_timeout err)
      then timeout
      else if as_dns err
      then dns_error
      else if as_certificate err || as_record_header err
      then tls_error
      else if contains (message err) (codes "tls:")
          || contains (message err) (codes "certificate")
          || contains (message err) (codes "handshake failure")
      then tls_error
      else if op_refused (as_op err)
      then connect_error
      else if contains (message err) (codes "connection refused")
          || contains (message err) (codes "connect: connection refused")
          || contains (message err) (codes "No connection could be made")
      then connect_error
      else if is_context_canceled err
          || is_os_closed err
          || contains (message err) (codes "context canceled")
      then canceled
      else other_transport_error

  unwrap_url : Err → Option Err → Err
  unwrap_url err none = err
  unwrap_url err (some inner) = inner

  unfoldable pub classify_error : Option Err → Outcome
  unfolding classify_unwrapped unwrap_url
  classify_error none = success
  classify_error (some err) = classify_unwrapped (unwrap_url err (as_url err))

  unfoldable pub classify : ClassifyInput → Outcome
  classify input =
      if input.was_dropped
      then dropped
      else if input.was_canceled
      then canceled
      else if input.request_build_err
      then request_build_error
      else if input.response_body_err
      then response_body_error
      else if is_some input.err
      then classify_error input.err
      else classify_status input.status_code input.expected_statuses
