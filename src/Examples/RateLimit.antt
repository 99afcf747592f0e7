-- ===== src/Examples/RateLimit.antt =====
-- A limiter of two requests in ten nanoseconds, and three requests of one window.
use daegsa.Prelude.{true, false, [], ◌∷◌, ◌≡◌, arith}
use daegsa.Prelude.Int.{pos, ◌+ℤ◌}
use daegsa.Prelude.Text.{codes}
use daegsa.TestTarget.RateLimit.{RateLimiter, Formats, style_all}
use daegsa.TestTarget.RateLimit.Windows.{answers, answers-by_position}

abbrev plain : Formats
plain = record {
  ceil_seconds = λ d. d;
  whole_seconds = λ d. d;
  format_int = λ _. codes "n";
  http_date = λ _. codes "d";
  unix_seconds = λ t. t;
  canonical_key = λ name. name;
}

abbrev two_in_ten : RateLimiter
two_in_ten = record {
  limit = pos 2;
  window = pos 10;
  header_style = style_all;
  count = 2;
  reset_at = pos 10;
}

answers-by_position_example :
    answers plain two_in_ten (pos 12 ∷ pos 15 ∷ pos 21 ∷ []) ≡ true ∷ true ∷ false ∷ []
unfolding ◌+ℤ◌
answers-by_position_example =
    answers-by_position plain two_in_ten (pos 12) (pos 15 ∷ pos 21 ∷ []) (omega arith)
      (omega arith, (omega arith, tt))
