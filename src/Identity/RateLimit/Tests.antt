-- ===== src/Identity/RateLimit/Tests.antt =====
-- The rate limiter on two requests a minute: the third is refused, and passes in the next window.
use civitas.Prelude.{
  ℕ, ◌≤◌, ◌*◌, ◌≡◌, ◌≢◌, refl, false, true, List, [], ◌∷◌, String, ok, lookup, insert, arith,
  str_eq_iff,
}
use civitas.Identity.RateLimit.{
  FixedWindowRateLimiter, new_limiter, acquire, window_of, current_window, retry_after,
}
use civitas.Identity.RateLimit.Window.{run_acquires, passed}
use civitas.Identity.RateLimit.Limit.{at_most_two_windows}
use civitas.Identity.RateLimit.Retry.{wait_is_enough}

abbrev limiter : FixedWindowRateLimiter
limiter = record { requests = 2; window_seconds = 60; windows = [] }

made : new_limiter 2 60 ≡ ok limiter
unfolding new_limiter
made = refl

abbrev two_calls : List (ℕ × String)
two_calls = (1000000, "ana") ∷ (5000000, "ana") ∷ []

refused :
    (acquire 20000000 "ana" (run_acquires two_calls limiter)).0
    ≡ record { allowed = false; retry_after_seconds = 41 }
unfolding acquire run_acquires window_of current_window retry_after lookup insert
refused = refl

is_refused : (acquire 20000000 "ana" (run_acquires two_calls limiter)).0.allowed ≡ false
unfolding acquire run_acquires window_of current_window lookup insert
is_refused = refl

waits : (acquire 20000000 "ana" (run_acquires two_calls limiter)).0.retry_after_seconds ≡ 41
unfolding acquire run_acquires window_of current_window retry_after lookup insert
waits = refl

abbrev other_key : String
other_key = "bo"

abbrev key : String
key = "ana"

apart : key ≢ other_key
apart h = let different = (str_eq_iff key other_key).1 h in absurd (ground (arith, different))

wait_is_enough_example :
    (acquire 61001000 "ana" (
      run_acquires
        ((30000000, "bo") ∷ [])
        (acquire 20000000 "ana" (run_acquires two_calls limiter)).1)).0.allowed
    ≡ true
wait_is_enough_example =
    wait_is_enough 2 60 two_calls 20000000 "ana" ((30000000, "bo") ∷ []) 61001000 made
      (omega arith, (omega arith, tt)) is_refused (apart, tt) (omega (arith, waits))

abbrev three_calls : List (ℕ × String)
three_calls = (60000000, "ana") ∷ (61000000, "ana") ∷ (62000000, "ana") ∷ []

counts : passed "ana" three_calls (run_acquires two_calls limiter) ≡ 2
unfolding acquire run_acquires passed window_of current_window lookup insert
counts = refl

at_most_two_windows_example : passed "ana" three_calls (run_acquires two_calls limiter) ≤ 2 * 2
at_most_two_windows_example =
    at_most_two_windows 2 60 two_calls three_calls "ana" 60000000 made
      ((omega arith, omega arith), ((omega arith, omega arith), ((omega arith, omega arith), tt)))
