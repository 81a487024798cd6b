-- ===== src/Identity/RateLimit/Window.antt =====
-- identity/rate_limit.py: how many requests of a key pass within a window's length.
use civitas.Prelude.{
  ◌-◌, ℕ, ◌+◌, ◌≤◌, ◌<◌, ◌≡◌, ◌≢◌, refl, ap, ◌∙◌, leb, true, false, ◌&&◌, Bool-cases, Option-cases,
  some, List, [], ◌∷◌, String, str_eq, lookup, insert, lookup-insert_self, lookup-insert_ne, inl,
  inr, ◌⊎◌, arith, if◌then◌else◌,
}
use civitas.Identity.RateLimit.{FixedWindowRateLimiter, window, window_of, current_window, acquire}

-- What a call sees of its key: the window that it counts in.
abbrev pub counted : ℕ → String → FixedWindowRateLimiter → ℕ × ℕ
counted now key l = current_window (window l) now (window_of now (lookup key l.windows))

-- A call is refused and changes nothing, or passes and is counted.
pub acquire-cases :
    (now : ℕ) (key : String) (l : FixedWindowRateLimiter)
    → (((acquire now key l).0.allowed ≡ false)
        × ((acquire now key l).1 ≡ l)
        × (l.requests ≤ (counted now key l).1))
      ⊎ (((acquire now key l).0.allowed ≡ true)
          × ((counted now key l).1 < l.requests)
          × ((acquire now key l).1 ≡ record l {
            windows = insert key ((counted now key l).0, (counted now key l).1 + 1) l.windows;
          }))
unfolding acquire
acquire-cases now key l = elim (Bool-cases (leb l.requests (counted now key l).1)) [
  | inl full ↦ inl (ground arith)
  | inr free ↦ inr (ground arith)
]

-- A key's window is the one it had, or a new one.
pub counted-cases :
    (now : ℕ) (key : String) (l : FixedWindowRateLimiter)
    → (counted now key l ≡ (now, 0)) ⊎ (lookup key l.windows ≡ some (counted now key l))
unfolding current_window window_of
counted-cases now key l = elim (Option-cases (lookup key l.windows)) [
  | inl unseen ↦ inl (ground arith)
  | inr ((started, count), found) ↦ elim (Bool-cases (leb (window l) (now - started))) [
    | inl over ↦ inl (ground arith)
    | inr open_still ↦ inr (ground arith)
  ]
]

pub acquire-fixed :
    (now : ℕ) (key : String) (l : FixedWindowRateLimiter)
    → ((acquire now key l).1.requests ≡ l.requests)
      × ((acquire now key l).1.window_seconds ≡ l.window_seconds)
acquire-fixed now key l = elim (acquire-cases now key l) [
  | inl (refused, same, full) ↦ rw same (refl, refl)
  | inr (passed, free, next) ↦ rw next (refl, refl)
]

pub acquire-ne :
    (now : ℕ) (j key : String) (l : FixedWindowRateLimiter)
    → key ≢ j
    → lookup key (acquire now j l).1.windows ≡ lookup key l.windows
acquire-ne now j key l apart = elim (acquire-cases now j l) [
  | inl (refused, same, full) ↦ ap (λ m. lookup key m.windows) same
  | inr (passed, free, next) ↦
      ap (λ m. lookup key m.windows) next ∙ lookup-insert_ne key j _ l.windows apart
]

-- The calls of `acquire`, each an instant and a key, and how many of a key pass.
unfoldable pub run_acquires : List (ℕ × String) → FixedWindowRateLimiter → FixedWindowRateLimiter
run_acquires [] l = l
run_acquires ((now, key) ∷ calls) l = run_acquires calls (acquire now key l).1

unfoldable pub passed : String → List (ℕ × String) → FixedWindowRateLimiter → ℕ
passed key [] l = 0
passed key ((now, j) ∷ calls) l =
    let rest = passed key calls (acquire now j l).1 in
    if str_eq key j && (acquire now j l).0.allowed then rest + 1 else rest

-- The window of the key after a call of the key that passed.
pub acquire-counted :
    (now : ℕ) (key : String) (l : FixedWindowRateLimiter)
    → (acquire now key l).1 ≡ record l {
      windows = insert key ((counted now key l).0, (counted now key l).1 + 1) l.windows;
    }
    → lookup key (acquire now key l).1.windows
      ≡ some ((counted now key l).0, (counted now key l).1 + 1)
acquire-counted now key l next =
    ap (λ m. lookup key m.windows) next ∙ lookup-insert_self key _ l.windows

-- What the call of another key does to the count, and what each outcome of a call of the key does.
pub passed-ne :
    (key j : String) (now : ℕ) (calls : List (ℕ × String)) (l : FixedWindowRateLimiter)
    → str_eq key j ≡ false
    → passed key ((now, j) ∷ calls) l ≡ passed key calls (acquire now j l).1
unfolding passed
passed-ne key j now calls l other = ground arith

pub passed-refused :
    (key j : String) (now : ℕ) (calls : List (ℕ × String)) (l : FixedWindowRateLimiter)
    → (acquire now j l).0.allowed ≡ false
    → (acquire now j l).1 ≡ l
    → passed key ((now, j) ∷ calls) l ≡ passed key calls l
unfolding passed
passed-refused key j now calls l refused same = elim (Bool-cases (str_eq key j)) [
  | inl equal ↦ ground (arith, ap (passed key calls) same)
  | inr other ↦ ground (arith, ap (passed key calls) same)
]

pub passed-allowed :
    (key j : String) (now : ℕ) (calls : List (ℕ × String)) (l : FixedWindowRateLimiter)
    → str_eq key j ≡ true
    → (acquire now j l).0.allowed ≡ true
    → passed key ((now, j) ∷ calls) l ≡ passed key calls (acquire now j l).1 + 1
unfolding passed
passed-allowed key j now calls l equal allowed = ground arith
