-- ===== src/Core/Outcome/Classes.antt =====
-- Which outcome a request gets, and how the predicates on outcomes divide the twelve.
use daegsa.Prelude.{
  inl, inr, ℕ, ◌+◌, Bool, true, false, List, [], ◌∷◌, none, some, ◌≡◌, ◌≢◌, ◌↔◌, ◌⊎◌, inr, refl,
  sym, ◌∙◌, arith, if◌then◌else◌,
}
use daegsa.Core.Outcome.{
  Outcome, success, timeout, dns_error, connect_error, tls_error, request_build_error, canceled,
  other_transport_error, dropped, is_success, is_http_response, is_transport_failure,
  is_client_drop, is_canceled, ErrorTests, ClassifyInput, is_status_expected, classify_unwrapped,
  classify_error, classify_status, classify, too_many_requests, status_ok,
}

abbrev pub bit : Bool → ℕ
bit true = 1
bit false = 0

-- How many of the four classes an outcome is in.
abbrev pub classes : Outcome → ℕ
classes o =
    bit (is_http_response o)
    + bit (is_transport_failure o)
    + bit (is_client_drop o)
    + bit (is_canceled o)

-- A request that could not be built is in none of the four classes, and every other outcome is in
-- exactly one; a success is a completed response.
pub outcome_classes :
    (o : Outcome)
    → ((o ≡ request_build_error) × (classes o ≡ 0) ⊎ (o ≢ request_build_error) × (classes o ≡ 1))
      × (is_success o ≡ true → is_http_response o ≡ true)
unfolding is_http_response is_transport_failure is_client_drop is_canceled is_success
outcome_classes success = (inr ((cc), refl), λ _. refl)
outcome_classes o = ground arith

-- The outcomes that stand for a failed transport or a cancellation.
abbrev is_error_outcome : Outcome → Bool
is_error_outcome timeout = true
is_error_outcome dns_error = true
is_error_outcome tls_error = true
is_error_outcome connect_error = true
is_error_outcome canceled = true
is_error_outcome other_transport_error = true
is_error_outcome _ = false

if-is_error_outcome :
    (b : Bool) (x y : Outcome)
    → is_error_outcome x ≡ true
    → is_error_outcome y ≡ true
    → is_error_outcome (if b then x else y) ≡ true
if-is_error_outcome true x y hx hy = hx
if-is_error_outcome false x y hx hy = hy

-- The status lists the source accepts: an empty one stands for 200.
abbrev pub Expects : ℕ → List ℕ → Type 0
Expects status [] = status ≡ status_ok
Expects status (e ∷ []) = status ≡ e
Expects status (e ∷ f ∷ es) = (status ≡ e) ⊎ Expects status (f ∷ es)

is_status_expected-Expects :
    (status : ℕ) (l : List ℕ) → (is_status_expected status l ≡ true) ↔ Expects status l
unfolding is_status_expected
is_status_expected-Expects status [] = ground arith
is_status_expected-Expects status (e ∷ []) = ground arith
is_status_expected-Expects status (e ∷ f ∷ es) =
    ground (arith, is_status_expected-Expects status (f ∷ es))

classify_status-success :
    (status : ℕ) (l : List ℕ)
    → (classify_status status l ≡ success) ↔ ((status ≢ too_many_requests) × Expects status l)
unfolding classify_status
classify_status-success status l = (
  λ h. (ground arith, (is_status_expected-Expects status l).0 (ground arith)),
  λ h. ground (arith, (is_status_expected-Expects status l).1 h.1, h.0),
)

module _ (errors : ErrorTests) where
  classify_unwrapped-error :
      (e : errors.Err) → is_error_outcome (classify_unwrapped errors e) ≡ true
  unfolding classify_unwrapped
  classify_unwrapped-error e = search if-is_error_outcome depth 12

  -- Nothing went wrong before a status was read.
  pub record IsClean (input : ClassifyInput errors) : Type 0 where
    pub kept : input.was_dropped ≡ false
    pub live : input.was_canceled ≡ false
    pub built : input.request_build_err ≡ false
    pub read : input.response_body_err ≡ false
    pub no_err : input.err ≡ none

  classify_error-error : (e : errors.Err) → is_error_outcome (classify_error errors (some e)) ≡ true
  unfolding classify_error
  classify_error-error e = classify_unwrapped-error _

  error_not_response : (e : errors.Err) → is_http_response (classify_error errors (some e)) ≡ false
  unfolding is_http_response
  error_not_response e = ground (arith, classify_error-error e)

  -- With a clean request the outcome is read off the status; any other is no completed response.
  classify_clean :
      (input : ClassifyInput errors)
      → IsClean input
      → classify errors input ≡ classify_status input.status_code input.expected_statuses
  unfolding classify
  classify_clean input c = ground arith

  classify_unclean :
      (input : ClassifyInput errors)
      → IsClean input ⊎ (is_http_response (classify errors input) ≡ false)
  unfolding classify is_http_response
  classify_unclean input = grind (arith, error_not_response)

  -- A request counts as a completed response exactly when it was not dropped or canceled, was
  -- built, was read to the end and had no error.
  pub classify-is_http_response :
      (input : ClassifyInput errors)
      → (is_http_response (classify errors input) ≡ true) ↔ IsClean input
  unfolding is_http_response classify_status
  classify-is_http_response input =
      (ground (arith, classify_unclean input), λ c. ground (arith, classify_clean input c))

  -- A request succeeds exactly when it is clean, its status is not 429, and its status is listed,
  -- where an empty list stands for 200: a listed 429 still counts as rate limited.
  pub classify-success :
      (input : ClassifyInput errors)
      → (classify errors input ≡ success) ↔ (
          IsClean input
          × (input.status_code ≢ too_many_requests)
          × Expects input.status_code input.expected_statuses)
  unfolding is_http_response
  classify-success input = (
    λ h. clean_success (classify_unclean input) h,
    λ c.
        classify_clean input c.0
        ∙ (classify_status-success input.status_code input.expected_statuses).1 (c.1, c.2),
  )
    where
      clean_success :
          IsClean input ⊎ (is_http_response (classify errors input) ≡ false)
          → classify errors input ≡ success
          → IsClean input
            × (input.status_code ≢ too_many_requests)
            × Expects input.status_code input.expected_statuses
      clean_success (inl c) h =
          let (ne, e) =
            (classify_status-success input.status_code input.expected_statuses).0
              (sym (classify_clean input c) ∙ h) in
          (c, ne, e)
      clean_success (inr n) h = ground arith

  -- A request is reported as dropped exactly when the scheduler dropped it.
  classify-dropped :
      (input : ClassifyInput errors)
      → (classify errors input ≡ dropped) ↔ (input.was_dropped ≡ true)
  unfolding classify classify_status
  classify-dropped input = grind (arith, classify_error-error)
