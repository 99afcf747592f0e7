-- ===== src/Config/Validate/Load/Segments.antt =====
-- What validateProfileSegments of internal/config/validate.go accepts, said without its loop.
use daegsa.Prelude.{
  ℕ, Bool, true, false, List, [], ◌∷◌, Option, none, some, ◌||◌, ◌&&◌, not, ◌≡◌, ◌≢◌, ◌↔◌, ◌≤◌,
  refl, arith, map, All, length, is_empty, ltb, ◌==◌, ap, ◌∙◌,
}
use daegsa.Prelude.Int.{pos, ◌<ℤ◌, leb_ℤ}
use daegsa.Prelude.Float.{Floats}
use daegsa.Prelude.Text.{Text, text_eq}
use daegsa.Prelude.Strings.{Unicode, trim_space, byte_len}
use daegsa.Prelude.Result.{ok, ok_parts, ok-injective, guard_parts, guard_of, bind_of}
use daegsa.Prelude.Distinct.{
  AreDistinct, AreNew, any_absent, absent_any, AreNew-AreDistinct, AreDistinct-AreNew,
}
use daegsa.Profile.Types.{stage_measured, max_source_segments, max_segment_name_length}
use daegsa.Config.Types.{ProfileSegmentConfig}
use daegsa.Config.Validate.{segment_stage, segment_duration, segment_rates}
use daegsa.Config.Validate.Load.{
  stage_rank, is_constant, is_ramp, check_ranked, check_segment, check_segments,
  validate_profile_segments,
}
use daegsa.Config.Validate.Load.Stages.{
  RanksRise, AreStaged, has_measured_stage, AreStaged-of, AreStaged-rise,
}

module _ (unicode : Unicode) (floats : Floats) where
  -- A segment by itself: its name is neither blank nor too long, it lasts, and it has a constant rate
  -- or is a ramp.
  pub record IsSegment (s : ProfileSegmentConfig floats) : Type 0 where
    pub named : is_empty (trim_space unicode s.name) ≡ false
    pub short : byte_len (trim_space unicode s.name) ≤ max_segment_name_length
    pub lasts : pos 0 <ℤ s.duration
    pub rated : (is_constant unicode floats s || is_ramp unicode floats s) ≡ true

  abbrev pub names : List (ProfileSegmentConfig floats) → List Text
  names l = map (λ s. trim_space unicode s.name) l

  abbrev pub stages : List (ProfileSegmentConfig floats) → List Text
  stages l = map (λ (s : ProfileSegmentConfig floats). s.stage) l

  -- A profile: from one to 64 segments, each one good, no name twice, the stages in order.
  pub record IsProfile (l : List (ProfileSegmentConfig floats)) : Type 0 where
    pub some_segment : 1 ≤ length l
    pub not_too_many : length l ≤ max_source_segments
    pub good : All IsSegment l
    pub distinct : AreDistinct (names l)
    pub staged : AreStaged (stages l)

  -- What check_segment says of a segment after names and a rank.
  record Accepts (seen : List Text) (previous : ℕ) (s : ProfileSegmentConfig floats) (r : ℕ)
      : Type 0 where
    good : IsSegment s
    new : All (λ u. u ≢ trim_space unicode s.name) seen
    rank : stage_rank s.stage ≡ some r
    rises : previous ≤ r

  name_bounds :
      (name : Text)
      → (is_empty name || ltb max_segment_name_length (byte_len name)) ≡ false
      → (is_empty name ≡ false) × (byte_len name ≤ max_segment_name_length)
  name_bounds [] h = cc
  name_bounds (c ∷ name) h = (refl, ground arith)

  bounds_name :
      (name : Text)
      → is_empty name ≡ false
      → byte_len name ≤ max_segment_name_length
      → (is_empty name || ltb max_segment_name_length (byte_len name)) ≡ false
  bounds_name [] h b = cc
  bounds_name (c ∷ name) h b = ground arith

  either_rate : (a b : Bool) → (not a && not b) ≡ false → (a || b) ≡ true
  either_rate a b h = ground arith

  no_other_rate : (a b : Bool) → (a || b) ≡ true → (not a && not b) ≡ false
  no_other_rate a b h = ground arith

  or_assoc : (a b c : Bool) → ((a || b) || c) ≡ (a || (b || c))
  or_assoc a b c = ground arith

  Accepts-of :
      (seen : List Text) (previous : ℕ) (s : ProfileSegmentConfig floats) (r : ℕ)
      → check_segment unicode floats seen previous s ≡ ok r
      → Accepts seen previous s r
  unfolding check_segment check_ranked
  Accepts-of seen previous s r h =
      let (n, h1) = guard_parts _ _ h in
      let (d, h2) = guard_parts _ _ h1 in
      let (named, short) = name_bounds (trim_space unicode s.name) n in
      go (stage_rank s.stage) refl h2 named short (any_absent (trim_space unicode s.name) seen d)
    where
      go :
          (o : Option ℕ)
          → stage_rank s.stage ≡ o
          → check_ranked unicode floats previous s o ≡ ok r
          → is_empty (trim_space unicode s.name) ≡ false
          → byte_len (trim_space unicode s.name) ≤ max_segment_name_length
          → All (λ u. u ≢ trim_space unicode s.name) seen
          → Accepts seen previous s r
      go none q h named short new = cc
      go (some rank) q h named short new =
          let (up, h1) = guard_parts (ltb rank previous) segment_stage h in
          let (long, h2) = guard_parts (leb_ℤ s.duration (pos 0)) segment_duration h1 in
          let (rates, h3) = guard_parts _ segment_rates h2 in
          let same : rank ≡ r = ok-injective h3 in
          record {
            good = record {
              named = named;
              short = short;
              lasts = ground arith;
              rated = either_rate _ _ rates;
            };
            new = new;
            rank = q ∙ ap some same;
            rises = ground arith;
          }

  check-Accepts :
      (seen : List Text) (previous : ℕ) (s : ProfileSegmentConfig floats) (r : ℕ)
      → Accepts seen previous s r
      → check_segment unicode floats seen previous s ≡ ok r
  unfolding check_segment check_ranked
  check-Accepts seen previous s r h =
      let up : ltb r previous ≡ false = ground (arith, h.rises) in
      let long : leb_ℤ s.duration (pos 0) ≡ false = ground (arith, h.good.lasts) in
      guard_of _ _ (bounds_name (trim_space unicode s.name) h.good.named h.good.short) (
        guard_of _ _ (absent_any (trim_space unicode s.name) seen h.new) (
          rw h.rank (
            guard_of _ _ up
              (guard_of _ _ long (guard_of _ _ (no_other_rate _ _ h.good.rated) refl)))))

  -- The loop gives whether a segment is measured, after those before.
  segments_sound :
      (l : List (ProfileSegmentConfig floats)) (seen : List Text) (previous : ℕ) (m b : Bool)
      → check_segments unicode floats l seen previous m ≡ ok b
      → All IsSegment l
        × AreNew seen (names l)
        × RanksRise previous (stages l)
        × (b ≡ (m || has_measured_stage (stages l)))
  unfolding check_segments
  segments_sound [] seen previous m b h = (tt, tt, tt, ground (arith, ok-injective h))
  segments_sound (s ∷ l) seen previous m b h =
      let (r, first, rest) = ok_parts (check_segment unicode floats seen previous s) h in
      let a = Accepts-of seen previous s r first in
      let (good, new, rise, same) =
        segments_sound l (trim_space unicode s.name ∷ seen) r (m || text_eq s.stage stage_measured)
          b rest in
      ((a.good, good), (a.new, new), (r, a.rank, a.rises, rise), same ∙ or_assoc m _ _)

  segments_complete :
      (l : List (ProfileSegmentConfig floats)) (seen : List Text) (previous : ℕ) (m : Bool)
      → All IsSegment l
      → AreNew seen (names l)
      → RanksRise previous (stages l)
      → check_segments unicode floats l seen previous m ≡ ok (m || has_measured_stage (stages l))
  unfolding check_segments
  segments_complete [] seen previous m good new rise = ground arith
  segments_complete (s ∷ l) seen previous m good new (r, e, up, rise) =
      bind_of _ r
        (check-Accepts seen previous s r
          (record { good = good.0; new = new.0; rank = e; rises = up }))
        (segments_complete l (trim_space unicode s.name ∷ seen) r
            (m || text_eq s.stage stage_measured) good.1 new.1 rise
          ∙ ap ok (or_assoc m _ _))

  count_bounds :
      (n : ℕ) → (n == 0 || ltb max_source_segments n) ≡ false → (1 ≤ n) × (n ≤ max_source_segments)
  count_bounds n h = ground arith

  bounds_count :
      (n : ℕ) → 1 ≤ n → n ≤ max_source_segments → (n == 0 || ltb max_source_segments n) ≡ false
  bounds_count n p q = ground arith

  must_measure : (b c : Bool) → b ≡ c → not b ≡ false → c ≡ true
  must_measure b c same h = ground arith

  IsProfile-of :
      (l : List (ProfileSegmentConfig floats))
      → validate_profile_segments unicode floats l ≡ ok tt
      → IsProfile l
  unfolding validate_profile_segments
  IsProfile-of l h =
      let (n, h1) = guard_parts _ _ h in
      let (few, many) = count_bounds (length l) n in
      let (b, loop, rest) = ok_parts (check_segments unicode floats l [] 0 false) h1 in
      let (unmeasured, _) = guard_parts (not b) _ rest in
      let (good, new, rise, same) = segments_sound l [] 0 false b loop in
      record {
        some_segment = few;
        not_too_many = many;
        good = good;
        distinct = AreNew-AreDistinct (names l) new;
        staged = AreStaged-of (stages l) rise (must_measure b _ same unmeasured);
      }

  IsProfile-complete :
      (l : List (ProfileSegmentConfig floats))
      → IsProfile l
      → validate_profile_segments unicode floats l ≡ ok tt
  unfolding validate_profile_segments
  IsProfile-complete l h =
      let (rise, measured) = AreStaged-rise (stages l) h.staged in
      guard_of _ _ (bounds_count (length l) h.some_segment h.not_too_many) (
        bind_of _ (has_measured_stage (stages l))
          (segments_complete l [] 0 false h.good (AreDistinct-AreNew (names l) h.distinct) rise)
          (guard_of _ _ (ap not measured) refl))

  -- The segments of a load are accepted exactly when they are from one to 64, each has a name
  -- that is neither blank nor longer than 64 bytes, a positive duration and either a constant rate or a ramp, no
  -- two names are equal without their spaces, and the stages are warmups, then at least one measured
  -- segment, then cooldowns.
  pub validate_profile_segments-iff-IsProfile :
      (l : List (ProfileSegmentConfig floats))
      → (validate_profile_segments unicode floats l ≡ ok tt) ↔ IsProfile l
  validate_profile_segments-iff-IsProfile l = (IsProfile-of l, IsProfile-complete l)
