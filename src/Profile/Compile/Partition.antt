-- ===== src/Profile/Compile/Partition.antt =====
-- The steps of a source segment divide its duration exactly, and are as many as it asks for.
use daegsa.Prelude.{
  ℕ, zero, suc, ◌+◌, ◌-◌, ◌*◌, ◌/◌, ◌%◌, ◌<◌, min, List, [], ◌∷◌, ◌≡◌, ◌≢◌, refl, ap, ◌∙◌, subst,
  arith, length, ltb, if◌then◌else◌, All,
}
use native.Mathlib.Nat.{add-zero, div-add-mod, mod-lt}
use daegsa.Prelude.Int.{
  ℤ, pos, negsuc, pos_part, ltb_ℤ, ◌+ℤ◌, ◌≤ℤ◌, +ℤ_parts, eq_of_parts, quot, rem, neg_ℕ, +ℤ_zero,
  zero_+ℤ, +ℤ_assoc,
}
use daegsa.Prelude.Word.{max_i64, wrap64, wrap64_id, InI64}
use daegsa.Prelude.Float.{Floats}
use daegsa.Prelude.Result.{ok, ok_parts, ok-injective}
use daegsa.Profile.Types.{SourceSegment, Compilation}
use daegsa.Profile.Compile.{
  Progress, compile_steps, compile_source, compile_sources, compile, start, finish, step_duration,
  effective_steps,
}
use daegsa.Profile.Compile.Offsets.{
  IsLaidOut, compile_step-ok, compile_step-moves, compile_step-IsLaidOut, compile_source-ok,
  compile_source-IsLaidOut, compile-ok, start-IsLaidOut,
}

-- What `n` rounds from round `k` on add up to, with base `b` and remainder `r`.
abbrev shares : ℕ → ℕ → ℕ → ℕ → ℕ
shares b r n k = n * b + (min r (k + n) - min r k)

no_shares : (a : ℤ) (b r k : ℕ) → a ≡ a +ℤ pos (shares b r zero k)
no_shares a b r k =
    ground
      (arith, +ℤ_parts a (pos (shares b r zero k)), eq_of_parts a (a +ℤ pos (shares b r zero k)))

add_share :
    (a q c : ℤ) (b r n k : ℕ)
    → q ≡ a +ℤ pos (b + (if ltb k r then 1 else 0))
    → c ≡ q +ℤ pos (shares b r n (k + 1))
    → c ≡ a +ℤ pos (shares b r (suc n) k)
add_share a q c b r n k h e = ground (
  arith,
  +ℤ_parts a (pos (b + (if ltb k r then 1 else 0))),
  +ℤ_parts q (pos (shares b r n (k + 1))),
  +ℤ_parts a (pos (shares b r (suc n) k)),
  eq_of_parts c (a +ℤ pos (shares b r (suc n) k)),
)

quot_pos : (d n : ℕ) → InI64 (pos d) → wrap64 (quot (pos d) (pos (suc n))) ≡ pos (d / suc n)
unfolding quot
quot_pos d n h = wrap64_id (pos (d / suc n)) (ground arith)

quot_neg :
    (d n : ℕ) → InI64 (negsuc d) → wrap64 (quot (negsuc d) (pos (suc n))) ≡ neg_ℕ (suc d / suc n)
unfolding quot
quot_neg d n h = wrap64_id (neg_ℕ (suc d / suc n)) (ground arith)

rem_pos : (d n : ℕ) → rem (pos d) (pos (suc n)) ≡ pos (d % suc n)
unfolding rem
rem_pos d n = rw add-zero

-- A quotient with a remainder can be raised by one.
quotient_room : (d n : ℕ) → pos d ≤ℤ pos max_i64 → 0 < d % suc n → d / suc n < max_i64
quotient_room d zero h r = absurd (omega arith)
quotient_room d (suc n) h r = omega (arith, div-add-mod d (suc (suc n)))

shares_all : (d n : ℕ) → shares (d / suc n) (d % suc n) (suc n) 0 ≡ d
shares_all d n = omega (arith, div-add-mod d (suc n), mod-lt d {m = suc n} (omega arith))

spend_all :
    (d n : ℕ)
    → pos (shares (d / suc n) (d % suc n) (suc n) 0)
      ≡ (if ltb_ℤ (pos (suc n)) (pos 0) then pos 0 else pos d)
spend_all d n = ground (arith, shares_all d n)

spend_nothing : (a d : ℤ) (n : ℕ) → a ≡ a +ℤ (if ltb_ℤ (negsuc n) (pos 0) then pos 0 else d)
spend_nothing a d n = ground (arith, +ℤ_zero a)

module _ (floats : Floats) where
  -- What a source segment adds to the total: nothing if it asks for a negative number of steps.
  abbrev pub share : SourceSegment floats → ℤ
  share segment = if ltb_ℤ segment.steps (pos 0) then pos 0 else segment.duration

  -- A step below the remainder gets one nanosecond more.
  step_duration_lem :
      (b r k : ℕ)
      → (0 < r → b < max_i64)
      → step_duration floats (pos b) (pos r) k ≡ pos (b + (if ltb k r then 1 else 0))
  unfolding step_duration wrap64 ◌+ℤ◌
  step_duration_lem b r k h = ground (arith, h)

  module _ (time_unit : ℤ) (segment : SourceSegment floats) (steps : ℤ) where
    -- Rounds `k` to `k + n` move the offset by their shares and append a segment each.
    compile_steps-moves :
        (b r n k : ℕ) (p : Progress floats) {p' : Progress floats}
        → (0 < r → b < max_i64)
        → IsLaidOut floats p
        → compile_steps floats time_unit segment steps (pos b) (pos r) n k p ≡ ok p'
        → (p'.offset ≡ p.offset +ℤ pos (shares b r n k))
          × (length p'.compiled ≡ length p.compiled + n)
    unfolding compile_steps
    compile_steps-moves b r zero k p {p' = p'} hr h e =
        subst
          (λ (q : Progress floats).
            (q.offset ≡ p.offset +ℤ pos (shares b r zero k))
            × (length q.compiled ≡ length p.compiled + zero))
          (ok-injective e) (no_shares p.offset b r k, omega arith)
    compile_steps-moves b r (suc n) k p {p' = p'} hr h e =
        let (q, e1, e2) = ok_parts _ e in
        let m1 = compile_step-moves floats time_unit segment steps (pos b) (pos r) k p h e1 in
        let m2 =
          compile_steps-moves b r n (k + 1) q {p' = p'} hr
            (compile_step-IsLaidOut floats time_unit segment steps _ _ k p h e1) e2 in
        (
          add_share p.offset q.offset p'.offset b r n k
              (m1.0 ∙ ap (λ d. p.offset +ℤ d) (step_duration_lem b r k hr)) m2.0,
          omega (arith, m1.1, m2.1),
        )

  -- A source segment of negative duration has no positive share.
  no_positive_share :
      (d n : ℕ)
      → InI64 (negsuc d)
      → step_duration floats
          (wrap64 (quot (negsuc d) (pos (suc n))))
          (rem (negsuc d) (pos (suc n)))
          0
        ≤ℤ pos 0
  unfolding step_duration rem
  no_positive_share d n h = rw (quot_neg d n h) (ground arith)

  spend_positive :
      (time_unit : ℤ) (segment : SourceSegment floats) (n d : ℕ) (p : Progress floats)
      {p' : Progress floats}
      → InI64 (pos d)
      → IsLaidOut floats p
      → compile_steps floats time_unit segment
          (pos (suc n))
          (wrap64 (quot (pos d) (pos (suc n))))
          (rem (pos d) (pos (suc n)))
          (suc n)
          0
          p
        ≡ ok p'
      → (p'.offset ≡ p.offset +ℤ (if ltb_ℤ (pos (suc n)) (pos 0) then pos 0 else pos d))
        × (length p'.compiled ≡ length p.compiled + suc n)
  spend_positive time_unit segment n d p {p' = p'} hd h e =
      let m =
        compile_steps-moves time_unit segment (pos (suc n)) (d / suc n) (d % suc n) (suc n) 0 p
          {p' = p'} (quotient_room d n hd.1) h (rw (quot_pos d n hd, rem_pos d n) at e) in
      (m.0 ∙ ap (λ t. p.offset +ℤ t) (spend_all d n), m.1)

  -- The rounds of a source segment of duration `d`: with a step or more they spend it all.
  spend :
      (time_unit : ℤ) (segment : SourceSegment floats) (steps d : ℤ) (p : Progress floats)
      {p' : Progress floats}
      → InI64 d
      → IsLaidOut floats p
      → steps ≢ pos 0
      → compile_steps floats time_unit segment steps
          (wrap64 (quot d steps))
          (rem d steps)
          (pos_part steps)
          0
          p
        ≡ ok p'
      → (p'.offset ≡ p.offset +ℤ (if ltb_ℤ steps (pos 0) then pos 0 else d))
        × (length p'.compiled ≡ length p.compiled + pos_part steps)
  unfolding compile_steps
  spend time_unit segment (pos zero) d p hd h ne e = absurd (ne refl)
  spend time_unit segment (negsuc n) d p hd h ne e =
      subst
        (λ (q : Progress floats).
          (q.offset ≡ p.offset +ℤ (if ltb_ℤ (negsuc n) (pos 0) then pos 0 else d))
          × (length q.compiled ≡ length p.compiled + 0))
        (ok-injective e) (spend_nothing p.offset d n, omega arith)
  spend time_unit segment (pos (suc n)) (negsuc d) p hd h ne e =
      let (q, e1, e2) = ok_parts _ e in
      let round = compile_step-ok floats time_unit segment (pos (suc n)) _ _ 0 p e1 in
      absurd (omega (arith, round.0, no_positive_share d n hd))
  spend time_unit segment (pos (suc n)) (pos d) p hd h ne e =
      spend_positive time_unit segment n d p hd h e

  effective_steps-ne-zero :
      (segment : SourceSegment floats) → effective_steps floats segment ≢ pos 0
  unfolding effective_steps
  effective_steps-ne-zero segment = ground arith

  effective_steps-share :
      (segment : SourceSegment floats)
      → (if ltb_ℤ (effective_steps floats segment) (pos 0) then pos 0 else segment.duration)
        ≡ share segment
  unfolding effective_steps
  effective_steps-share segment = ground arith

  -- The rounds of a source segment that compiles: its duration is spent on as many steps.
  pub compile_source-moves :
      (time_unit : ℤ) (segment : SourceSegment floats) (p : Progress floats) {p' : Progress floats}
      → InI64 segment.duration
      → IsLaidOut floats p
      → compile_source floats time_unit segment p ≡ ok p'
      → (p'.offset ≡ p.offset +ℤ share segment)
        × (length p'.compiled ≡ length p.compiled + pos_part (effective_steps floats segment))
  compile_source-moves time_unit segment p hd h e =
      let m =
        spend time_unit segment (effective_steps floats segment) segment.duration p hd h
          (effective_steps-ne-zero segment) (compile_source-ok floats time_unit segment p e).1 in
      (m.0 ∙ ap (λ t. p.offset +ℤ t) (effective_steps-share segment), m.1)

  -- What a list of source segments adds to the total, and the steps that it asks for.
  abbrev pub total : List (SourceSegment floats) → ℤ
  total [] = pos 0
  total (s ∷ l) = share s +ℤ total l

  abbrev pub total_steps : List (SourceSegment floats) → ℕ
  total_steps [] = 0
  total_steps (s ∷ l) = pos_part (effective_steps floats s) + total_steps l

  abbrev pub FitsI64 : SourceSegment floats → Type 0
  FitsI64 s = InI64 s.duration

  compile_sources-moves :
      (time_unit : ℤ) (source : List (SourceSegment floats)) (p : Progress floats)
      {p' : Progress floats}
      → All FitsI64 source
      → IsLaidOut floats p
      → compile_sources floats time_unit source p ≡ ok p'
      → (p'.offset ≡ p.offset +ℤ total source)
        × (length p'.compiled ≡ length p.compiled + total_steps source)
  unfolding compile_sources
  compile_sources-moves time_unit [] p hs h e =
      subst
        (λ (q : Progress floats).
          (q.offset ≡ p.offset +ℤ pos 0) × (length q.compiled ≡ length p.compiled + 0))
        (ok-injective e) (+ℤ_zero p.offset, omega arith)
  compile_sources-moves time_unit (s ∷ l) p hs h e =
      let (q, e1, e2) = ok_parts _ e in
      let m1 = compile_source-moves time_unit s p hs.0 h e1 in
      let m2 =
        compile_sources-moves time_unit l q hs.1
          (compile_source-IsLaidOut floats time_unit s p h e1) e2 in
      (
        m2.0 ∙ ap (λ t. t +ℤ total l) m1.0 ∙ +ℤ_assoc p.offset (share s) (total l),
        omega (arith, m1.1, m2.1),
      )

  -- The total duration of a compiled profile is the sum of the durations of its source segments,
  -- of which one with a negative number of steps counts for nothing: no nanosecond is lost when a
  -- ramp is divided. It has as many segments as its source segments ask for steps.
  pub compile-total :
      (source : List (SourceSegment floats)) (time_unit : ℤ) {c : Compilation floats}
      → All FitsI64 source
      → compile floats source time_unit ≡ ok c
      → (c.total_duration ≡ total source) × (length c.segments ≡ total_steps source)
  unfolding finish start
  compile-total source time_unit hs h =
      let (p, e, eq) = compile-ok floats source time_unit h in
      let m = compile_sources-moves time_unit source (start floats) hs (start-IsLaidOut floats) e in
      subst
        (λ (c : Compilation floats).
          (c.total_duration ≡ total source) × (length c.segments ≡ total_steps source))
        eq (m.0 ∙ zero_+ℤ (total source), omega (arith, m.1))
