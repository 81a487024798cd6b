-- ===== src/Identity/RateLimit/Bound.antt =====
-- identity/rate_limit.py: the bound on the requests of a key.
use civitas.Prelude.{
  ℕ, ◌+◌, ◌-◌, ◌*◌, ◌≤◌, ◌<◌, ◌≡◌, ◌≢◌, refl, sym, ap, subst, ◌∙◌, leb, false, Bool-cases, some,
  List, [], ◌∷◌, String, str_eq, str_eq_iff, All, lookup, inl, inr, arith,
}
use civitas.Identity.RateLimit.{FixedWindowRateLimiter, window, window_of, current_window, acquire}
use civitas.Identity.RateLimit.Window.{
  counted, acquire-cases, acquire-fixed, acquire-ne, run_acquires, passed, acquire-counted,
  passed-ne, passed-refused, passed-allowed,
}

-- The call is made from the instant on, before a window's length has passed.
abbrev pub Within : ℕ → ℕ → ℕ × String → Type 0
Within start length call = (start ≤ call.0) × (call.0 < start + length)

-- A call that is made while its key's window is open counts in that window.
counted-open :
    (now : ℕ) (key : String) (l : FixedWindowRateLimiter) {started count : ℕ}
    → lookup key l.windows ≡ some (started, count)
    → now < started + window l
    → 0 < window l
    → counted now key l ≡ (started, count)
unfolding current_window window_of
counted-open now key l {started} {count} found early wide =
    let running : leb (window l) (now - started) ≡ false = ground (arith, early, wide) in
    ground (arith, running, found)

pub passed-open :
    (n w : ℕ) (key : String) (calls : List (ℕ × String)) (l : FixedWindowRateLimiter)
    (started count : ℕ)
    → l.requests ≡ n
    → l.window_seconds ≡ w
    → 1 ≤ w
    → lookup key l.windows ≡ some (started, count)
    → count ≤ n
    → All (λ c. c.0 < started + w * 1000000) calls
    → passed key calls l + count ≤ n
unfolding passed
passed-open n w key [] l started count same_n same_w wide found fits early = ground arith
passed-open n w key ((now, j) ∷ calls) l started count same_n same_w wide found fits (soon, early) =
    let (keeps_n, keeps_w) = acquire-fixed now j l in
    elim (Bool-cases (str_eq key j)) [
      | inr other ↦
          let apart : key ≢ j = λ e. grind (arith, str_eq_iff) in
          subst (λ p. p + count ≤ n) (sym (passed-ne key j now calls l other))
            (passed-open n w key calls (acquire now j l).1 started count (keeps_n ∙ same_n)
              (keeps_w ∙ same_w) wide (acquire-ne now j key l apart ∙ found) fits early)
      | inl equal ↦
          let one : key ≡ j = grind (arith, str_eq_iff) in
          let here : lookup j l.windows ≡ some (started, count) =
            ap (λ k. lookup k l.windows) (sym one) ∙ found in
          let in_time : now < started + window l =
            subst (λ v. now < started + v * 1000000) (sym same_w) soon in
          let open_window : counted now j l ≡ (started, count) =
            counted-open now j l here in_time (omega (arith, wide, same_w)) in
          elim (acquire-cases now j l) [
            | inl (refused, same, full) ↦
                subst (λ p. p + count ≤ n) (sym (passed-refused key j now calls l refused same))
                  (passed-open n w key calls l started count same_n same_w wide found fits early)
            | inr (allowed, free, next) ↦
                let room : count < n = ground (arith, ap (λ p. p.1) open_window) in
                let counts : lookup key (acquire now j l).1.windows ≡ some (started, count + 1) =
                  ap (λ k. lookup k (acquire now j l).1.windows) one
                  ∙ acquire-counted now j l next
                  ∙ ap (λ p. some (p.0, p.1 + 1)) open_window in
                let rest =
                  passed-open n w key calls (acquire now j l).1 started (count + 1)
                    (keeps_n ∙ same_n) (keeps_w ∙ same_w) wide counts (omega (arith, room)) early in
                subst (λ p. p + count ≤ n) (sym (passed-allowed key j now calls l equal allowed))
                  (omega (arith, rest))
          ]
    ]

-- No window counts more than the limit.
abbrev pub HasRoom : ℕ → String → FixedWindowRateLimiter → Type 0
HasRoom n key l = (started count : ℕ) → lookup key l.windows ≡ some (started, count) → count ≤ n

pub acquire-HasRoom :
    (n : ℕ) (key j : String) (now : ℕ) (l : FixedWindowRateLimiter)
    → l.requests ≡ n
    → HasRoom n key l
    → HasRoom n key (acquire now j l).1
acquire-HasRoom n key j now l same_n room started count found = elim (acquire-cases now j l) [
  | inl (refused, same, full) ↦
      room started count (sym (ap (λ m. lookup key m.windows) same) ∙ found)
  | inr (allowed, free, next) ↦ elim (Bool-cases (str_eq key j)) [
    | inl equal ↦
        let one : key ≡ j = grind (arith, str_eq_iff) in
        let stored : some ((counted now j l).0, (counted now j l).1 + 1) ≡ some (started, count) =
          sym (acquire-counted now j l next)
          ∙ ap (λ k. lookup k (acquire now j l).1.windows) (sym one)
          ∙ found in
        ground (arith, stored, free, same_n)
    | inr other ↦
        let apart : key ≢ j = λ e. grind (arith, str_eq_iff) in
        room started count (sym (acquire-ne now j key l apart) ∙ found)
  ]
]

pub run-HasRoom :
    (n : ℕ) (key : String) (calls : List (ℕ × String)) (l : FixedWindowRateLimiter)
    → l.requests ≡ n
    → HasRoom n key l
    → HasRoom n key (run_acquires calls l)
unfolding run_acquires
run-HasRoom n key [] l same_n room = room
run-HasRoom n key ((now, j) ∷ calls) l same_n room =
    run-HasRoom n key calls (acquire now j l).1 ((acquire-fixed now j l).0 ∙ same_n)
      (acquire-HasRoom n key j now l same_n room)

pub run-fixed :
    (calls : List (ℕ × String)) (l : FixedWindowRateLimiter)
    → ((run_acquires calls l).requests ≡ l.requests)
      × ((run_acquires calls l).window_seconds ≡ l.window_seconds)
unfolding run_acquires
run-fixed [] l = (refl, refl)
run-fixed ((now, j) ∷ calls) l =
    let (n, w) = acquire-fixed now j l in
    let (ns, ws) = run-fixed calls (acquire now j l).1 in (ns ∙ n, ws ∙ w)
