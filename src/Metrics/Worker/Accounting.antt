-- ===== src/Metrics/Worker/Accounting.antt =====
-- Each recorded result is counted once: at its outcome, at its status and in the latency histograms.
use daegsa.Prelude.{
  ℕ, zero, suc, ◌+◌, ◌%◌, Bool, true, false, List, [], ◌∷◌, ◌≡◌, ◌≢◌, ◌⊎◌, inl, inr, refl, sym, ap,
  ◌∙◌, ◌&&◌, arith, ltb, ◌==◌, if◌then◌else◌, Bool-cases,
}
use daegsa.Prelude.Int.{ℤ}
use daegsa.Prelude.Text.{Text}
use daegsa.Prelude.Word.{i64_mod}
use daegsa.Core.Outcome.{
  Outcome, success, unexpected_status, rate_limited, timeout, dns_error, connect_error, tls_error,
  request_build_error, response_body_error, canceled, other_transport_error, dropped, is_success,
  all_outcomes,
}
use daegsa.Metrics.Histogram.{HdrLibrary, HdrLaws, count-record_latency, record_latency}
use daegsa.Metrics.Worker.{
  WorkerMetrics, Result, outcome_index, same_outcome, add_outcome, add_status, record_result,
}

-- The count of a status, over all its entries.
abbrev pub count_of : ℕ → List (ℕ × ℕ) → ℕ
count_of s [] = 0
count_of s ((t, n) ∷ l) = (if t == s then n else 0) + count_of s l

-- The outcome of an index.
abbrev outcome_at : List Outcome → ℕ → Outcome
outcome_at [] i = dropped
outcome_at (o ∷ l) zero = o
outcome_at (o ∷ l) (suc i) = outcome_at l i

outcome_at-outcome_index : (o : Outcome) → outcome_at all_outcomes (outcome_index o) ≡ o
outcome_at-outcome_index success = refl
outcome_at-outcome_index unexpected_status = refl
outcome_at-outcome_index rate_limited = refl
outcome_at-outcome_index timeout = refl
outcome_at-outcome_index dns_error = refl
outcome_at-outcome_index connect_error = refl
outcome_at-outcome_index tls_error = refl
outcome_at-outcome_index request_build_error = refl
outcome_at-outcome_index response_body_error = refl
outcome_at-outcome_index canceled = refl
outcome_at-outcome_index other_transport_error = refl
outcome_at-outcome_index dropped = refl

index_eq : (m n : ℕ) → (m == n) ≡ true → m ≡ n
index_eq m n h = ground arith

same_outcome_sound : (o p : Outcome) → same_outcome o p ≡ true → o ≡ p
same_outcome_sound o p h =
    sym (outcome_at-outcome_index o)
    ∙ (ap (outcome_at all_outcomes) (index_eq (outcome_index o) (outcome_index p) h)
        ∙ outcome_at-outcome_index p)

same_outcome_differs : (o p : Outcome) → same_outcome o p ≡ false → o ≢ p
same_outcome_differs o p h e =
    let same : outcome_index o ≡ outcome_index p = ap outcome_index e in ground (arith, same, h)

add_outcome-adds :
    (p : Outcome) (n : ℕ) (f : Outcome → ℕ) (o : Outcome)
    → ((o ≡ p) × (add_outcome p n f o % i64_mod ≡ (f o + n) % i64_mod))
      ⊎ ((o ≢ p) × (add_outcome p n f o ≡ f o))
unfolding add_outcome
add_outcome-adds p n f o = elim (Bool-cases (same_outcome o p)) [
  | inl e ↦ inl (same_outcome_sound o p e, rw e (omega arith))
  | inr e ↦ inr (same_outcome_differs o p e, rw e refl)
]

pub count_of-add_status :
    (s t n : ℕ) (l : List (ℕ × ℕ))
    → count_of s (add_status t n l) % i64_mod ≡ (count_of s l + (if t == s then n else 0)) % i64_mod
unfolding add_status
count_of-add_status s t n [] = ground arith
count_of-add_status s t n ((u, k) ∷ l) = ground (arith, count_of-add_status s t n l)

module _ (trim : Text → Text) (lib : HdrLibrary) where
  count_if :
      (b : Bool) (laws : HdrLaws lib) (h : lib.Hdr) (v : ℤ)
      → lib.total_count (if b then record_latency lib h v else h)
        ≡ lib.total_count h + (if b then 1 else 0)
  count_if true laws h v = count-record_latency lib laws h v
  count_if false laws h v = omega arith

  -- By the laws of the histogram library, recording a result adds one to the count of its outcome
  -- and leaves the count of any other, adds one to the count of its status if it has one and nothing
  -- to that of any other status, adds one to the latencies, and one to the latencies of successes if it
  -- is a success. The outcomes and statuses are counted modulo 2 ^ 64.
  pub record_result-counts :
      (laws : HdrLaws lib) (res : Result) (w : WorkerMetrics lib) (o : Outcome) (s : ℕ)
      → let w' = record_result trim lib res w in
        (((o ≡ res.outcome) × (w'.outcomes o % i64_mod ≡ (w.outcomes o + 1) % i64_mod))
          ⊎ ((o ≢ res.outcome) × (w'.outcomes o ≡ w.outcomes o)))
        × (count_of s w'.status_codes % i64_mod
            ≡ (count_of s w.status_codes
                + (if ltb 0 res.status_code && res.status_code == s then 1 else 0))
              % i64_mod)
        × (lib.total_count w'.all_latency ≡ lib.total_count w.all_latency + 1)
        × (lib.total_count w'.success_latency
            ≡ lib.total_count w.success_latency + (if is_success res.outcome then 1 else 0))
  unfolding record_result
  record_result-counts laws res w o s = (
    add_outcome-adds res.outcome 1 w.outcomes o,
    ground (arith, count_of-add_status s res.status_code 1 w.status_codes),
    count-record_latency lib laws w.all_latency _,
    count_if (is_success res.outcome) laws w.success_latency _,
  )
