-- ===== src/Examples/Core.antt =====
-- Requests, timestamps and lifecycles at concrete inputs.
use daegsa.Prelude.{ℕ, ◌≤◌, true, false, List, [], ◌∷◌, none, ◌≡◌, ◌≢◌, ◌↔◌, ◌⊎◌, arith, ◌==◌}
use daegsa.Prelude.Int.{pos, ◌≤ℤ◌}
use daegsa.Prelude.Word.{max_i64}
use daegsa.Prelude.Text.{codes}
use daegsa.Core.Outcome.{
  success, request_build_error, rate_limited, is_success, is_http_response, ErrorTests,
  ClassifyInput, classify, too_many_requests,
}
use daegsa.Core.Outcome.Classes.{
  classes, outcome_classes, IsClean, Expects, classify-is_http_response, classify-success,
}
use daegsa.Core.Timing.{RequestTimestamps, latency, ttfb, schedule_lag, total_duration}
use daegsa.Core.Timing.Bounds.{durations-InRange, ttfb-le-latency-le-total}
use daegsa.Core.Lifecycle.{
  LifecycleState, running, completed, cooldown, new_lifecycle_state_machine, is_valid,
}
use daegsa.Core.Lifecycle.Progress.{rank, request_all, request_all_bounded, completed-request_all}

-- Errors that are numbers: 1 is a deadline, 2 a canceled context, and the others are unknown.
abbrev numbered_errors : ErrorTests
numbered_errors = record {
  Err = ℕ;
  as_url = λ _. none;
  is_deadline_exceeded = λ e. e == 1;
  is_os_deadline_exceeded = λ _. false;
  is_etimedout = λ _. false;
  as_net_timeout = λ _. none;
  as_dns = λ _. false;
  as_certificate = λ _. false;
  as_record_header = λ _. false;
  message = λ _. codes "EOF";
  as_op = λ _. none;
  as_syscall = λ _. none;
  is_econnrefused = λ _. false;
  is_context_canceled = λ e. e == 2;
  is_os_closed = λ _. false;
}

-- A response of status 201 where 200 and 201 are expected.
abbrev created : ClassifyInput numbered_errors
created = record {
  status_code = 201;
  expected_statuses = 200 ∷ 201 ∷ [];
  err = none;
  was_canceled = false;
  was_dropped = false;
  response_body_err = false;
  request_build_err = false;
}

outcome_classes_example :
    ((rate_limited ≡ request_build_error) × (classes rate_limited ≡ 0)
      ⊎ (rate_limited ≢ request_build_error) × (classes rate_limited ≡ 1))
    × (is_success rate_limited ≡ true → is_http_response rate_limited ≡ true)
outcome_classes_example = outcome_classes rate_limited

classify-is_http_response_example :
    (is_http_response (classify numbered_errors created) ≡ true) ↔ IsClean numbered_errors created
classify-is_http_response_example = classify-is_http_response numbered_errors created

classify-success_example : (classify numbered_errors created ≡ success) ↔ (
    IsClean numbered_errors created
    × (created.status_code ≢ too_many_requests)
    × Expects created.status_code created.expected_statuses)
classify-success_example = classify-success numbered_errors created

-- Planned at 10, scheduled at 12, dispatched at 15, with headers at 40 and the body at 50.
abbrev fifty : RequestTimestamps
fifty = record {
  planned_at = pos 10;
  scheduled_at = pos 12;
  dispatched_at = pos 15;
  headers_received_at = pos 40;
  body_completed_at = pos 50;
}

durations-InRange_example :
    ((pos 0 ≤ℤ latency fifty) × (latency fifty ≤ℤ pos max_i64))
    × ((pos 0 ≤ℤ ttfb fifty) × (ttfb fifty ≤ℤ pos max_i64))
    × ((pos 0 ≤ℤ schedule_lag fifty) × (schedule_lag fifty ≤ℤ pos max_i64))
    × ((pos 0 ≤ℤ total_duration fifty) × (total_duration fifty ≤ℤ pos max_i64))
durations-InRange_example = durations-InRange fifty

ttfb-le-latency-le-total_example :
    (ttfb fifty ≤ℤ latency fifty) × (latency fifty ≤ℤ total_duration fifty)
ttfb-le-latency-le-total_example =
    ttfb-le-latency-le-total fifty (ground arith) (ground arith) (omega arith) (omega arith)

-- A run, and a request to go back.
abbrev requests : List LifecycleState
requests = running ∷ cooldown ∷ running ∷ completed ∷ []

request_all_bounded_example :
    let r = request_all new_lifecycle_state_machine requests in
    (r.moves ≤ rank r.machine.current) × (r.moves ≤ 6) × (is_valid r.machine.current ≡ true)
request_all_bounded_example = request_all_bounded requests

completed-request_all_example :
    request_all (record { current = completed }) requests
    ≡ record { machine = record { current = completed }; moves = 0 }
completed-request_all_example = completed-request_all requests
