-- ===== src/TestTarget/RateLimit.antt =====
-- internal/testtarget/ratelimit.go. The mutex makes Check one step. A time is its distance from the zero
-- time in nanoseconds, an argument of each call that reads the clock. The seconds until the reset, which
-- the source rounds up as a float, the formats of net/http and strconv.Itoa, and the canonical form
-- that http.Header.Set gives a name are the parameter `Formats`.
pub mod Windows
use daegsa.Prelude.{ℕ, suc, Bool, true, false, List, [], ◌∷◌, ◌++◌, ◌||◌, not, if◌then◌else◌}
use daegsa.Prelude.Int.{ℤ, pos, ◌+ℤ◌, ◌-ℤ◌, ltb_ℤ, leb_ℤ, eqb_ℤ}
use daegsa.Prelude.Text.{Text, codes}

pub data RateLimitHeaderStyle : Type 0 where
  style_seconds style_date style_draft style_legacy style_all : RateLimitHeaderStyle

pub record RateLimiterConfig : Type 0 where
  pub requests_per_window : ℤ
  pub window : ℤ
  pub header_style : RateLimitHeaderStyle

pub record RateLimiter : Type 0 where
  pub limit : ℤ
  pub window : ℤ
  pub header_style : RateLimitHeaderStyle
  pub count : ℕ
  pub reset_at : ℤ

unfoldable pub new_rate_limiter : RateLimiterConfig → ℤ → RateLimiter
new_rate_limiter cfg now = record {
  limit = cfg.requests_per_window;
  window = cfg.window;
  header_style = cfg.header_style;
  count = 0;
  reset_at = now +ℤ cfg.window;
}

pub record Formats : Type 0 where
  pub ceil_seconds : ℤ → ℤ
  pub whole_seconds : ℤ → ℤ
  pub format_int : ℤ → Text
  pub http_date : ℤ → Text
  pub unix_seconds : ℤ → ℤ
  pub canonical_key : Text → Text

abbrev pub Headers : Type 0
Headers = List (Text × Text)

-- What a call of Check gives back, with the limiter after it.
pub record Checked : Type 0 where
  pub limiter : RateLimiter
  pub allowed : Bool
  pub headers : Headers

-- The count and the end of the window at a time.
unfoldable pub roll_window : RateLimiter → ℤ → RateLimiter
roll_window rl now =
    if not (leb_ℤ now rl.reset_at) || eqb_ℤ now rl.reset_at
    then record rl { count = 0; reset_at = now +ℤ rl.window }
    else rl

module _ (formats : Formats) where
  open formats use {format_int}

  abbrev retry_if : Bool → Text → Headers
  retry_if present value = if present then (codes "Retry-After", value) ∷ [] else []

  abbrev draft_headers : RateLimiter → ℤ → ℤ → Headers
  draft_headers rl remaining reset_seconds =
      (codes "RateLimit-Limit", format_int rl.limit)
      ∷ (codes "RateLimit-Remaining", format_int remaining)
      ∷ (codes "RateLimit-Reset", format_int reset_seconds)
      ∷ (
        codes "RateLimit-Policy",
        format_int rl.limit ++ codes ";w=" ++ format_int (formats.whole_seconds rl.window),
      )
      ∷ []

  abbrev legacy_headers : RateLimiter → ℤ → ℤ → Headers
  legacy_headers rl remaining reset_at =
      (codes "X-RateLimit-Limit", format_int rl.limit)
      ∷ (codes "X-RateLimit-Remaining", format_int remaining)
      ∷ (codes "X-RateLimit-Reset", format_int (formats.unix_seconds reset_at))
      ∷ []

  abbrev headers_in : RateLimitHeaderStyle → RateLimiter → ℤ → ℤ → ℤ → Headers
  headers_in style_seconds rl remaining reset_seconds reset_at =
      retry_if (eqb_ℤ remaining (pos 0)) (format_int reset_seconds)
  headers_in style_date rl remaining reset_seconds reset_at =
      retry_if (eqb_ℤ remaining (pos 0)) (formats.http_date reset_at)
  headers_in style_draft rl remaining reset_seconds reset_at =
      draft_headers rl remaining reset_seconds
      ++ retry_if (eqb_ℤ remaining (pos 0)) (format_int reset_seconds)
  headers_in style_legacy rl remaining reset_seconds reset_at =
      legacy_headers rl remaining reset_at
      ++ retry_if (eqb_ℤ remaining (pos 0)) (format_int reset_seconds)
  headers_in style_all rl remaining reset_seconds reset_at =
      retry_if true (format_int reset_seconds)
      ++ (draft_headers rl remaining reset_seconds ++ legacy_headers rl remaining reset_at)

  -- `h.Set` of the names in order; no two of them are the same.
  abbrev set_all : Headers → Headers
  set_all [] = []
  set_all ((name, value) ∷ l) = (formats.canonical_key name, value) ∷ set_all l

  unfoldable pub populate_headers : RateLimiter → ℤ → ℤ → ℤ → Headers
  populate_headers rl remaining reset_seconds reset_at =
      set_all (headers_in rl.header_style rl remaining reset_seconds reset_at)

  -- Check at a time, after the window was rolled.
  unfoldable pub check_rolled : RateLimiter → ℤ → Checked
  check_rolled rl now =
      let ceiled = formats.ceil_seconds (rl.reset_at -ℤ now) in
      let reset_seconds = if ltb_ℤ ceiled (pos 1) then pos 1 else ceiled in
      if leb_ℤ rl.limit (pos rl.count)
      then record {
        limiter = rl;
        allowed = false;
        headers = populate_headers rl (pos 0) reset_seconds rl.reset_at;
      }
      else record {
        limiter = record rl { count = suc rl.count };
        allowed = true;
        headers =
            populate_headers (record rl { count = suc rl.count }) (rl.limit -ℤ pos (suc rl.count))
              reset_seconds rl.reset_at;
      }

  unfoldable pub check : RateLimiter → ℤ → Checked
  check rl now = check_rolled (roll_window rl now) now
