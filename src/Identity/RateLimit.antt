-- ===== src/Identity/RateLimit.antt =====
-- identity/rate_limit.py: FixedWindowRateLimiter. `monotonic()` is a count of
-- microseconds; it never goes back, so no window starts later than the call that looks at it. The
-- lock makes a call one step.
pub mod Window
pub mod Bound
pub mod Limit
pub mod Retry
mod Tests
use civitas.Prelude.{
  ℕ, ◌+◌, ◌-◌, ◌*◌, ◌/◌, max, ltb, leb, Bool, true, false, ◌||◌, Option, none, some, String, Dict,
  [], lookup, insert, value_error, Result, ok, raise_if, ◌>>◌, if◌then◌else◌,
}

pub record RateLimitDecision : Type 0 where
  pub allowed : Bool
  pub retry_after_seconds : ℕ

-- A key's window: when it started, and what it has let through.
pub record FixedWindowRateLimiter : Type 0 where
  pub requests : ℕ
  pub window_seconds : ℕ
  pub windows : Dict (ℕ × ℕ)

unfoldable pub new_limiter : ℕ → ℕ → Result FixedWindowRateLimiter
new_limiter requests window_seconds =
    raise_if (ltb requests 1 || ltb window_seconds 1)
      (value_error "rate limit requests and window must be positive")
    >> ok (record { requests = requests; window_seconds = window_seconds; windows = [] })

-- `self._window_seconds`, in microseconds.
abbrev pub window : FixedWindowRateLimiter → ℕ
window limiter = limiter.window_seconds * 1000000

-- `self._windows.get(key, (now, 0))`
unfoldable pub window_of : ℕ → Option (ℕ × ℕ) → ℕ × ℕ
window_of now none = (now, 0)
window_of now (some found) = found

-- The window that is counted: a new one where the old one is over.
unfoldable pub current_window : ℕ → ℕ → ℕ × ℕ → ℕ × ℕ
current_window length now (started_at, count) =
    if leb length (now - started_at) then (now, 0) else (started_at, count)

-- `max(1, int(self._window_seconds - elapsed + 0.999))`
unfoldable pub retry_after : ℕ → ℕ → ℕ
retry_after length elapsed = max 1 ((length - elapsed + 999000) / 1000000)

unfoldable pub acquire :
    ℕ → String → FixedWindowRateLimiter → RateLimitDecision × FixedWindowRateLimiter
acquire now key limiter =
    let found = window_of now (lookup key limiter.windows) in
    let counted = current_window (window limiter) now found in
    if leb limiter.requests counted.1
    then (
      record {
        allowed = false;
        retry_after_seconds = retry_after (window limiter) (now - found.0);
      },
      limiter,
    )
    else (
      record { allowed = true; retry_after_seconds = 0 },
      record limiter { windows = insert key (counted.0, counted.1 + 1) limiter.windows },
    )
