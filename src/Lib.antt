-- ===== src/Lib.antt =====
-- daegsa is a load generator for HTTP: a run checks its configuration against a safety policy,
-- compiles a load profile into segments of a constant rate, schedules requests for them (an open
-- model plans arrivals at a rate, a closed one keeps users busy), executes each request, classifies
-- its outcome, records it in the metrics of the worker that ran it, merges the workers' metrics and
-- evaluates thresholds on the sums.
--
-- The files and the code that they model:
--
-- - Core/Lifecycle: internal/core/lifecycle.go, the states of a run and their transitions.
-- - Core/Outcome: internal/core/outcome.go, the twelve outcomes and OutcomeClassifier.Classify. What
--   errors.Is and errors.As tell of an error is the record ErrorTests.
-- - Core/Timing: internal/core/timing.go, the durations of a request. A time is its distance from
--   the zero time in nanoseconds, and a difference saturates as time.Time.Sub does.
-- - Profile/Types and Profile/Compile: internal/profile, Compile with one function for each loop.
--   Floats are a parameter (Prelude/Float) with no laws.
-- - Config/AllowedHost: internal/config/allowedhost.go, the normal form of a host. net.ParseIP and
--   the non-ASCII part of package unicode are the parameter HostLibrary.
-- - Config/Types and Config/Bytes: the document of a configuration in internal/config/types.go, with
--   CompileLoadProfile and ParseByteSize.
-- - Config/Validate and its children Request, Load, Scenario, Auth and Document:
--   internal/config/validate.go. A function that fills defaults into what it checks returns the filled
--   value. net/url, regexp, strconv and strings.EqualFold are the parameter ConfigLibrary, and the
--   parser and decoder of gopkg.in/yaml.v3 the parameter YamlLibrary; a YAML tree is a data type.
-- - Config/Precedence: internal/config/precedence.go, the flags of a command over its configuration.
-- - Config/Redact: internal/config/redact.go, the sensitive names and the redaction of headers.
-- - Safety/HostPolicy: internal/safety/safety.go.
-- - Safety/Preflight: internal/safety/preflight.go, Check at a configuration that is not nil. The
--   resolver and the order of the loop over the map of hosts are the parameter Network.
-- - Metrics/Histogram, Metrics/Samples, Metrics/Worker: internal/metrics/histogram.go, worker.go and
--   ratelimit.go. The HDR histogram is a library: HdrLibrary is its operations and HdrLaws what its
--   documentation says of counts.
-- - Metrics/Merge: MergeWorkers of internal/metrics/aggregate.go and mergeWorkerMetrics of
--   internal/metrics/segment.go.
-- - Scheduler/Open: internal/scheduler/open.go, scheduleSegment and runWorker as a step relation on
--   one state: the atomic counter of requests in flight, the channel and the workers' hands.
-- - Scheduler/Open/Run: the lifecycle in Run and enterStage of the same file.
-- - Scenario/Substitute: internal/scenario/substitute.go, the variables in a template. A map of
--   variables is a function.
-- - TestTarget/RateLimit: internal/testtarget/ratelimit.go, the limiter of the test server with its
--   headers, over the parameter Formats.
-- - Threshold/Types, Threshold/Evaluate, Threshold/Parse: internal/threshold. strconv.ParseFloat and
--   ParseInt, sort.Strings and the format %.2f are parameters.
-- - Cli/Exit: internal/core/exitcode.go and DetermineExitCode of internal/cli/exit.go.
-- - Prelude: shared names, integers (Int), 64-bit wrap-around (Word), texts as lists of code points
--   (Text, Strings), association lists (Assoc), results (Result).
-- - Examples: runs at concrete inputs.
--
-- An int64 counter is its bit pattern, a natural number below 2 ^ 64, and an addition wraps around;
-- sums are therefore stated modulo 2 ^ 64. The requests in flight of the open scheduler are a plain
-- number, since the code compares them with the maximum before it adds one. A time.Duration is an
-- integer that is wrapped to the range of an int64 where the source computes one. Every loop recurs
-- on the list or on the number of rounds that is left. Two are written on fuel: the digits of a
-- number, of which 20 are enough for an int64, and the rounds of the substitution, of which the
-- length of the template is enough.
--
-- Not modelled: the environment and fingerprint of configurations, the redaction of URLs and of
-- texts (which regular expressions do), the rest of the command line, the graphical interface,
-- reports, the doctor and self-test commands, the handlers of the test server, authentication,
-- the execution of scenarios, the HTTP transport, the closed scheduler, the clock, and of the
-- metrics the step workers, the scenario iterations and the figures that are floats (rates and
-- percentiles). Of the open scheduler, the times of the ticks and the waiting are not modelled;
-- its counters and its lifecycle are.
pub mod Prelude
pub mod Core
pub mod Config
pub mod Safety
pub mod Metrics
pub mod Scheduler
pub mod Scenario
pub mod TestTarget
pub mod Profile
pub mod Threshold
pub mod Cli
pub mod Examples
