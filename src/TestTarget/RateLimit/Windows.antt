-- ===== src/TestTarget/RateLimit/Windows.antt =====
-- The answers of RateLimiter.Check of internal/testtarget/ratelimit.go in one window.
use daegsa.Prelude.{
  ℕ, suc, ◌≤◌, Bool, true, false, List, [], ◌∷◌, ◌≡◌, ◌⊎◌, inl, inr, refl, sym, ◌∙◌, ap, arith, not,
  ◌||◌, All, Bool-cases, subst,
}
use daegsa.Prelude.Int.{ℤ, pos, ◌≤ℤ◌, ◌<ℤ◌, ◌+ℤ◌, ltb_ℤ, leb_ℤ, eqb_ℤ}
use daegsa.TestTarget.RateLimit.{RateLimiter, Formats, Checked, roll_window, check_rolled, check}

module _ (formats : Formats) where
  -- The answers to requests at the times of a list.
  unfoldable pub answers : RateLimiter → List ℤ → List Bool
  answers rl [] = []
  answers rl (now ∷ l) =
      let checked = check formats rl now in checked.allowed ∷ answers checked.limiter l

-- The answers to requests of which `k` came before in the window: the limit decides by position.
abbrev pub by_position : ℤ → ℕ → List ℤ → List Bool
by_position limit k [] = []
by_position limit k (now ∷ l) = ltb_ℤ (pos k) limit ∷ by_position limit (suc k) l

-- The count is that of the requests before, up to the limit.
abbrev IsCount : RateLimiter → ℕ → Type 0
IsCount rl k = (rl.count ≡ k) ⊎ ((rl.limit ≤ℤ pos rl.count) × (rl.count ≤ k))

rolled_over :
    (rl : RateLimiter) (now : ℤ)
    → rl.reset_at ≤ℤ now
    → roll_window rl now ≡ record rl { count = 0; reset_at = now +ℤ rl.window }
unfolding roll_window
rolled_over rl now h =
    let due : (not (leb_ℤ now rl.reset_at) || eqb_ℤ now rl.reset_at) ≡ true = ground (arith, h) in
    rw due refl

not_rolled : (rl : RateLimiter) (now : ℤ) → now <ℤ rl.reset_at → roll_window rl now ≡ rl
unfolding roll_window
not_rolled rl now h =
    let early : leb_ℤ now rl.reset_at ≡ true = ground (arith, h) in
    let before : eqb_ℤ now rl.reset_at ≡ false = ground (arith, h) in rw (early, before) refl

module _ (formats : Formats) where
  record Answered (rl : RateLimiter) (k : ℕ) (checked : Checked) : Type 0 where
    answer : checked.allowed ≡ ltb_ℤ (pos k) rl.limit
    counted : IsCount checked.limiter (suc k)
    same_limit : checked.limiter.limit ≡ rl.limit
    same_reset : checked.limiter.reset_at ≡ rl.reset_at

  late :
      (limit : ℤ) (count k : ℕ)
      → leb_ℤ limit (pos count) ≡ true
      → count ≤ k
      → ltb_ℤ (pos k) limit ≡ false
  late limit count k h le = ground arith

  early :
      (limit : ℤ) (count k : ℕ)
      → leb_ℤ limit (pos count) ≡ false
      → count ≡ k
      → ltb_ℤ (pos k) limit ≡ true
  early limit count k h e = ground arith

  at_most : (rl : RateLimiter) (k : ℕ) → IsCount rl k → rl.count ≤ k
  at_most rl k (inl e) = omega (arith, e)
  at_most rl k (inr (_, le)) = le

  exact :
      (rl : RateLimiter) (k : ℕ)
      → IsCount rl k
      → leb_ℤ rl.limit (pos rl.count) ≡ false
      → rl.count ≡ k
  exact rl k (inl e) h = e
  exact rl k (inr (full, le)) h = ground (arith, full, h)

  check_rolled-Answered :
      (rl : RateLimiter) (now : ℤ) (k : ℕ)
      → IsCount rl k
      → Answered rl k (check_rolled formats rl now)
  unfolding check_rolled
  check_rolled-Answered rl now k h = elim (Bool-cases (leb_ℤ rl.limit (pos rl.count))) [
    | inl e ↦
        let full : rl.limit ≤ℤ pos rl.count = ground (arith, e) in
        let few : rl.count ≤ suc k = omega (arith, at_most rl k h) in
        rw e (record {
          answer = sym (late rl.limit rl.count k e (at_most rl k h));
          counted = inr (full, few);
          same_limit = refl;
          same_reset = refl;
        })
    | inr e ↦ rw e (record {
      answer = sym (early rl.limit rl.count k e (exact rl k h e));
      counted = inl (ap suc (exact rl k h e));
      same_limit = refl;
      same_reset = refl;
    })
  ]

  window_answers :
      (rl : RateLimiter) (k : ℕ) (l : List ℤ)
      → IsCount rl k
      → All (λ now. now <ℤ rl.reset_at) l
      → answers formats rl l ≡ by_position rl.limit k l
  unfolding answers check
  window_answers rl k [] h before = refl
  window_answers rl k (now ∷ l) h before =
      let kept = not_rolled rl now before.0 in
      let a = check_rolled-Answered rl now k h in
      let rest : answers formats (check_rolled formats rl now).limiter l
          ≡ by_position rl.limit (suc k) l =
        window_answers (check_rolled formats rl now).limiter (suc k) l a.counted
          (subst (λ t. All (λ u. u <ℤ t) l) (sym a.same_reset) before.1)
        ∙ ap (λ m. by_position m (suc k) l) a.same_limit in
      rw kept (rw (a.answer, rest) refl)

  -- A request at or after the end of a window begins the next one, in which the request at position i,
  -- counted from 0 and from that request on, is allowed exactly when i is less than the limit.
  pub answers-by_position :
      (rl : RateLimiter) (now : ℤ) (l : List ℤ)
      → rl.reset_at ≤ℤ now
      → All (λ t. t <ℤ now +ℤ rl.window) l
      → answers formats rl (now ∷ l) ≡ by_position rl.limit 0 (now ∷ l)
  unfolding answers check
  answers-by_position rl now l due before =
      let next : RateLimiter = record rl { count = 0; reset_at = now +ℤ rl.window } in
      let rolled : roll_window rl now ≡ next = rolled_over rl now due in
      let a = check_rolled-Answered next now 0 (inl refl) in
      let rest : answers formats (check_rolled formats next now).limiter l
          ≡ by_position rl.limit 1 l =
        window_answers (check_rolled formats next now).limiter 1 l a.counted
          (subst (λ t. All (λ u. u <ℤ t) l) (sym a.same_reset) before)
        ∙ ap (λ m. by_position m 1 l) a.same_limit in
      rw rolled (rw (a.answer, rest) refl)
