-- ===== src/Identity/RateLimit/Limit.antt =====
-- identity/rate_limit.py: what the limiter promises over any span of a window's length.
use civitas.Prelude.{
  ℕ, ◌+◌, ◌*◌, ◌≤◌, ◌<◌, ◌≡◌, ◌≢◌, refl, sym, ap, subst, ◌∙◌, ltb, ◌||◌, Bool-cases, Option, none,
  some, List, [], ◌∷◌, String, str_eq, str_eq_iff, All, lookup, inl, inr, arith, ok,
}
use civitas.Identity.RateLimit.{FixedWindowRateLimiter, new_limiter, acquire}
use civitas.Identity.RateLimit.Window.{
  counted, acquire-cases, counted-cases, acquire-fixed, acquire-ne, run_acquires, passed,
  acquire-counted, passed-ne, passed-refused, passed-allowed,
}
use civitas.Identity.RateLimit.Bound.{
  Within, HasRoom, passed-open, acquire-HasRoom, run-HasRoom, run-fixed,
}

-- What the key's window has let through.
used : Option (ℕ × ℕ) → ℕ
used none = 0
used (some (started, count)) = count

used-le :
    (n : ℕ) (o : Option (ℕ × ℕ))
    → ((started count : ℕ) → o ≡ some (started, count) → count ≤ n)
    → used o ≤ n
unfolding used
used-le n none room = omega arith
used-le n (some (started, count)) room = room started count refl

before_later :
    (a t length : ℕ) (calls : List (ℕ × String))
    → a ≤ t
    → All (Within a length) calls
    → All (λ c. c.0 < t + length) calls
before_later a t length [] from all = all
before_later a t length (c ∷ calls) from ((after, before), all) =
    (omega (arith, from, before), before_later a t length calls from all)

-- A call of the key that passed, before the calls that follow it.
passed-counted :
    (n w a : ℕ) (key j : String) (now : ℕ) (calls : List (ℕ × String)) (l : FixedWindowRateLimiter)
    → (acquire now j l).1.requests ≡ n
    → (acquire now j l).1.window_seconds ≡ w
    → 1 ≤ w
    → HasRoom n key l
    → key ≡ j
    → (counted now j l).1 < n
    → a ≤ now
    → lookup key (acquire now j l).1.windows ≡ some ((counted now j l).0, (counted now j l).1 + 1)
    → All (Within a (w * 1000000)) calls
    → used (lookup key (acquire now j l).1.windows) + passed key calls (acquire now j l).1 ≤ 2 * n
    → used (lookup key l.windows) + (passed key calls (acquire now j l).1 + 1) ≤ 2 * n
unfolding used
passed-counted n w a key j now calls l same_n same_w wide room one free after counts all rest =
    elim (counted-cases now j l) [
      | inl fresh ↦
          let opened : lookup key (acquire now j l).1.windows ≡ some (now, 1) =
            counts ∙ ap (λ p. some (p.0, p.1 + 1)) fresh in
          let in_window =
            passed-open n w key calls (acquire now j l).1 now 1 same_n same_w wide opened
              (omega (arith, free)) (before_later a now (w * 1000000) calls after all) in
          let bound = used-le n (lookup key l.windows) room in omega (arith, in_window, bound)
      | inr kept ↦
          let had : used (lookup key l.windows) ≡ (counted now j l).1 =
            ap used (ap (λ k. lookup k l.windows) one ∙ kept) in
          let has : used (lookup key (acquire now j l).1.windows) ≡ (counted now j l).1 + 1 =
            ap used counts in
          omega (arith, had, has, rest)
    ]

passed_span :
    (n w a : ℕ) (key : String) (calls : List (ℕ × String)) (l : FixedWindowRateLimiter)
    → l.requests ≡ n
    → l.window_seconds ≡ w
    → 1 ≤ w
    → HasRoom n key l
    → All (Within a (w * 1000000)) calls
    → used (lookup key l.windows) + passed key calls l ≤ 2 * n
unfolding passed
passed_span n w a key [] l same_n same_w wide room all =
    let bound = used-le n (lookup key l.windows) room in omega (arith, bound)
passed_span n w a key ((now, j) ∷ calls) l same_n same_w wide room ((after, before), all) =
    let (keeps_n, keeps_w) = acquire-fixed now j l in
    let next_room = acquire-HasRoom n key j now l same_n room in
    let rest =
      passed_span n w a key calls (acquire now j l).1 (keeps_n ∙ same_n) (keeps_w ∙ same_w) wide
        next_room all in
    elim (Bool-cases (str_eq key j)) [
      | inr other ↦
          let apart : key ≢ j = λ e. grind (arith, str_eq_iff) in
          subst (λ p. used (lookup key l.windows) + p ≤ 2 * n)
            (sym (passed-ne key j now calls l other))
            (subst (λ o. used o + passed key calls (acquire now j l).1 ≤ 2 * n)
              (acquire-ne now j key l apart) rest)
      | inl equal ↦ elim (acquire-cases now j l) [
        | inl (refused, same, full) ↦
            subst (λ p. used (lookup key l.windows) + p ≤ 2 * n)
              (sym (passed-refused key j now calls l refused same))
              (passed_span n w a key calls l same_n same_w wide room all)
        | inr (allowed, free, next) ↦
            let one : key ≡ j = grind (arith, str_eq_iff) in
            let counts : lookup key (acquire now j l).1.windows
                ≡ some ((counted now j l).0, (counted now j l).1 + 1) =
              ap (λ k. lookup k (acquire now j l).1.windows) one ∙ acquire-counted now j l next in
            subst (λ p. used (lookup key l.windows) + p ≤ 2 * n)
              (sym (passed-allowed key j now calls l equal allowed))
              (passed-counted n w a key j now calls l (keeps_n ∙ same_n) (keeps_w ∙ same_w) wide
                room one (omega (arith, free, same_n)) after counts all rest)
      ]
    ]

pub new_limiter-cases :
    (requests window_seconds : ℕ) {limiter : FixedWindowRateLimiter}
    → new_limiter requests window_seconds ≡ ok limiter
    → (1 ≤ requests)
      × (1 ≤ window_seconds)
      × (limiter ≡ record { requests = requests; window_seconds = window_seconds; windows = [] })
unfolding new_limiter
new_limiter-cases requests window_seconds made =
    elim (Bool-cases (ltb requests 1 || ltb window_seconds 1)) [
      | inl wrong ↦ absurd (ground arith)
      | inr right ↦ (ground arith, ground arith, ground arith)
    ]

-- After any earlier calls on a new limiter, the calls that are made within one window's length of an
-- instant let at most twice the configured number of requests of a key through.
pub at_most_two_windows :
    (requests window_seconds : ℕ) {limiter : FixedWindowRateLimiter}
    (earlier calls : List (ℕ × String)) (key : String) (start : ℕ)
    → new_limiter requests window_seconds ≡ ok limiter
    → All (Within start (window_seconds * 1000000)) calls
    → passed key calls (run_acquires earlier limiter) ≤ 2 * requests
unfolding lookup
at_most_two_windows requests window_seconds {limiter} earlier calls key start made within =
    let (some_requests, wide, empty) = new_limiter-cases requests window_seconds made in
    let (keeps_n, keeps_w) = run-fixed earlier limiter in
    let same_n : limiter.requests ≡ requests = ap (λ l. l.requests) empty in
    let same_w : limiter.window_seconds ≡ window_seconds = ap (λ l. l.window_seconds) empty in
    let unused : HasRoom requests key limiter = λ started count found.
      let none_found : none ≡ some (started, count) =
        sym (ap (λ l. lookup key l.windows) empty) ∙ found in
      absurd (ground (arith, none_found)) in
    let bound =
      passed_span requests window_seconds start key calls (run_acquires earlier limiter)
        (keeps_n ∙ same_n) (keeps_w ∙ same_w) wide
        (run-HasRoom requests key earlier limiter same_n unused) within in
    omega (arith, bound)
