-- ===== src/Workflow/Orchestrator/Monad.antt =====
-- workflow/orchestrator.py: a coroutine that may raise, in a world whose clock, identifiers and
-- ports are read one moment after the other.
use civitas.Prelude.{ℕ, ◌+◌, Result, ok, raise}

abbrev pub M : Type 0 → Type 0
M A = ℕ → Result (A × ℕ)

module _ {A : Type 0} where
  abbrev pub ret : A → M A
  ret a t = ok (a, t)

  abbrev pub lift : Result A → M A
  lift (ok a) t = ok (a, t)
  lift (raise e) t = raise e

-- The present moment, which is then past.
abbrev pub moment : M ℕ
moment t = ok (t, t + 1)

infixl 5 ◌>>=◌
abbrev pub ◌>>=◌ : {A B : Type 0} → M A → (A → M B) → M B
◌>>=◌ m f t = elim (m t) [ ok (a, u) ↦ f a u | raise e ↦ raise e ]
