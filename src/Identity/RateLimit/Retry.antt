-- ===== src/Identity/RateLimit/Retry.antt =====
-- identity/rate_limit.py: the wait that a refusal names is long enough.
use native.Mathlib.Nat.{le-max_right}
use civitas.Prelude.{
  ℕ, ◌+◌, ◌-◌, ◌*◌, ◌/◌, ◌≤◌, ◌<◌, ◌≡◌, ◌≢◌, refl, sym, ap, subst, ◌∙◌, leb, true, false,
  Bool-cases, Option-cases, none, some, List, [], ◌∷◌, String, str_eq, str_eq_iff, All, lookup, inl,
  inr, arith, ok,
}
use civitas.Identity.RateLimit.{
  FixedWindowRateLimiter, new_limiter, window, window_of, current_window, retry_after, acquire,
}
use civitas.Identity.RateLimit.Window.{
  counted, acquire-cases, counted-cases, acquire-counted, acquire-ne, run_acquires,
}
use civitas.Identity.RateLimit.Bound.{run-fixed}
use civitas.Identity.RateLimit.Limit.{new_limiter-cases}

-- The whole seconds fall short of what is left of the window by less than a millisecond.
retry_after-covers :
    (length elapsed : ℕ) → length < elapsed + retry_after length elapsed * 1000000 + 1000
unfolding retry_after
retry_after-covers length elapsed =
    let whole = le-max_right 1 ((length - elapsed + 999000) / 1000000) in omega (arith, whole)

acquire-wait :
    (now : ℕ) (key : String) (l : FixedWindowRateLimiter)
    → (acquire now key l).0.allowed ≡ false
    → (acquire now key l).0.retry_after_seconds
      ≡ retry_after (window l) (now - (window_of now (lookup key l.windows)).0)
unfolding acquire
acquire-wait now key l refused = ground arith

-- The key's window started at the instant or before.
abbrev Started : ℕ → String → FixedWindowRateLimiter → Type 0
Started now key l =
    (started count : ℕ) → lookup key l.windows ≡ some (started, count) → started ≤ now

acquire-Started :
    (now : ℕ) (key j : String) (t : ℕ) (l : FixedWindowRateLimiter)
    → t ≤ now
    → Started now key l
    → Started now key (acquire t j l).1
acquire-Started now key j t l early before started count found = elim (acquire-cases t j l) [
  | inl (refused, same, full) ↦
      before started count (sym (ap (λ m. lookup key m.windows) same) ∙ found)
  | inr (allowed, free, next) ↦ elim (Bool-cases (str_eq key j)) [
    | inr other ↦
        let apart : key ≢ j = λ e. grind (arith, str_eq_iff) in
        before started count (sym (acquire-ne t j key l apart) ∙ found)
    | inl equal ↦
        let one : key ≡ j = grind (arith, str_eq_iff) in
        let stored : some ((counted t j l).0, (counted t j l).1 + 1) ≡ some (started, count) =
          sym (acquire-counted t j l next)
          ∙ ap (λ k. lookup k (acquire t j l).1.windows) (sym one)
          ∙ found in
        let at_start : (counted t j l).0 ≡ started = ground (arith, stored) in
        elim (counted-cases t j l) [
          | inl fresh ↦ let opened = ap (λ p. p.0) fresh in omega (arith, at_start, opened, early)
          | inr kept ↦
              let had =
                before (counted t j l).0 (counted t j l).1
                  (ap (λ k. lookup k l.windows) one ∙ kept) in
              omega (arith, at_start, had)
        ]
  ]
]

run-Started :
    (now : ℕ) (key : String) (calls : List (ℕ × String)) (l : FixedWindowRateLimiter)
    → All (λ c. c.0 ≤ now) calls
    → Started now key l
    → Started now key (run_acquires calls l)
unfolding run_acquires
run-Started now key [] l early before = before
run-Started now key ((t, j) ∷ calls) l (first, early) before =
    run-Started now key calls (acquire t j l).1 early (acquire-Started now key j t l first before)

run-ne :
    (key : String) (calls : List (ℕ × String)) (l : FixedWindowRateLimiter)
    → All (λ c. key ≢ c.1) calls
    → lookup key (run_acquires calls l).windows ≡ lookup key l.windows
unfolding run_acquires
run-ne key [] l apart = refl
run-ne key ((t, j) ∷ calls) l (here, apart) =
    run-ne key calls (acquire t j l).1 apart ∙ acquire-ne t j key l here

-- A key whose window is over is let through.
acquire-over :
    (later : ℕ) (key : String) (l : FixedWindowRateLimiter) {started count : ℕ}
    → lookup key l.windows ≡ some (started, count)
    → started + window l ≤ later
    → 1 ≤ l.requests
    → (acquire later key l).0.allowed ≡ true
unfolding window_of current_window
acquire-over later key l {started} {count} found over some_requests =
    let ended : leb (window l) (later - started) ≡ true = ground (arith, over) in
    let fresh : counted later key l ≡ (later, 0) = ground (arith, ended, found) in
    elim (acquire-cases later key l) [
      | inl (refused, same, full) ↦ absurd (
          let none_counted = ap (λ p. p.1) fresh in
          omega (arith, full, none_counted, some_requests))
      | inr (allowed, free, next) ↦ allowed
    ]

refused-passes :
    (now : ℕ) (key : String) (l : FixedWindowRateLimiter) (others : List (ℕ × String)) (later : ℕ)
    → (acquire now key l).0.allowed ≡ false
    → All (λ c. key ≢ c.1) others
    → Started now key l
    → 1 ≤ l.requests
    → now + (acquire now key l).0.retry_after_seconds * 1000000 + 1000 ≤ later
    → (acquire later key (run_acquires others (acquire now key l).1)).0.allowed ≡ true
unfolding window_of
refused-passes now key l others later refused apart before some_requests waited =
    elim (acquire-cases now key l) [
      | inr (allowed, free, next) ↦ absurd (ground (arith, allowed, refused))
      | inl (again, same, full) ↦ elim (counted-cases now key l) [
        | inl fresh ↦ absurd (
            let none_counted = ap (λ p. p.1) fresh in
            omega (arith, full, none_counted, some_requests))
        | inr kept ↦ elim (Option-cases (lookup key l.windows)) [
          | inl unseen ↦ absurd (ground (arith, unseen, kept))
          | inr ((started, count), found) ↦
              let since = before started count found in
              let (keeps_n, keeps_w) = run-fixed others l in
              let seen : window_of now (lookup key l.windows) ≡ (started, count) =
                ap (window_of now) found in
              let wait =
                acquire-wait now key l refused
                ∙ ap (λ p. retry_after (window l) (now - p.0)) seen in
              let covers = retry_after-covers (window l) (now - started) in
              let over : started + window (run_acquires others l) ≤ later =
                omega (arith, since, keeps_w, wait, covers, waited) in
              subst (λ m. (acquire later key (run_acquires others m)).0.allowed ≡ true) (sym same)
                (acquire-over later key (run_acquires others l) (run-ne key others l apart ∙ found)
                  over (omega (arith, keeps_n, some_requests)))
        ]
      ]
    ]

-- When a new limiter, after earlier calls none of which was made later than now, refuses a key, then
-- a call of the key that is made a millisecond or more after the wait that the refusal names is let
-- through, whatever calls of other keys come between.
pub wait_is_enough :
    (requests window_seconds : ℕ) {limiter : FixedWindowRateLimiter} (earlier : List (ℕ × String))
    (now : ℕ) (key : String) (others : List (ℕ × String)) (later : ℕ)
    → new_limiter requests window_seconds ≡ ok limiter
    → All (λ c. c.0 ≤ now) earlier
    → (acquire now key (run_acquires earlier limiter)).0.allowed ≡ false
    → All (λ c. key ≢ c.1) others
    → now + (acquire now key (run_acquires earlier limiter)).0.retry_after_seconds * 1000000 + 1000
      ≤ later
    → (acquire later key
        (run_acquires others (acquire now key (run_acquires earlier limiter)).1)).0.allowed
      ≡ true
unfolding lookup window_of
wait_is_enough requests window_seconds {limiter} earlier now key others later made early refused
      apart waited =
    let (some_requests, wide, empty) = new_limiter-cases requests window_seconds made in
    let l = run_acquires earlier limiter in
    let unused : Started now key limiter = λ started count found.
      let none_found : none ≡ some (started, count) =
        sym (ap (λ l. lookup key l.windows) empty) ∙ found in
      absurd (ground (arith, none_found)) in
    let before : Started now key l = run-Started now key earlier limiter early unused in
    let limit : l.requests ≡ requests =
      (run-fixed earlier limiter).0 ∙ ap (λ l. l.requests) empty in
    refused-passes now key l others later refused apart before (omega (arith, some_requests, limit))
      waited
