-- ===== src/Approval/Backing.antt =====
-- approval/service.py: the challenge behind every receipt.
use civitas.Prelude.{
  ℕ, ◌≡◌, refl, sym, ap, ◌∙◌, subst, Bool, true, false, Bool-cases, Option-cases, some, is_some,
  List, [], ◌∷◌, map, All, All-mono, ◌⊎◌, String, str_eq, str_eq_refl, inl, inr, arith,
  if◌then◌else◌, ok,
}
use civitas.Approval.{
  ApprovalChallengeModel, ChallengeState, ApprovedTotals, OperatorContext, ApprovalReceiptModel,
  ApprovalReceipt, Ledger, first, set_consumed, add_challenge, challenge_for_operator, set_state,
}
use civitas.Approval.Service.{issue, approve, invalidate_plan, new_receipt, is_superseded}
use civitas.Approval.Rows.{consumed}
use civitas.Approval.Reach.{Step, issuing, approving, consuming, invalidating}
use civitas.Approval.Cases.{consume-row, add_receipt-fresh, approve-cases}

-- Some row has the property.
abbrev pub Exists {ℓ} : {A : Type ℓ} → (A → Type 0) → List A → Type 0
Exists P [] = ⊥
Exists P (x ∷ xs) = P x ⊎ Exists P xs

Exists-map {ℓ} :
    {A : Type ℓ} (P Q : A → Type 0) (f : A → A)
    → ((a : A) → P a → Q (f a))
    → (xs : List A) → Exists P xs
    → Exists Q (map f xs)
Exists-map P Q f i [] e = absurd e
Exists-map P Q f i (x ∷ xs) (inl h) = inl (i x h)
Exists-map P Q f i (x ∷ xs) (inr h) = inr (Exists-map P Q f i xs h)

pub Exists-mono {ℓ} :
    {A : Type ℓ} (P Q : A → Type 0)
    → ((a : A) → P a → Q a)
    → (xs : List A) → Exists P xs
    → Exists Q xs
Exists-mono P Q i [] e = absurd e
Exists-mono P Q i (x ∷ xs) (inl h) = inl (i x h)
Exists-mono P Q i (x ∷ xs) (inr h) = inr (Exists-mono P Q i xs h)

Exists-first {ℓ} :
    {A : Type ℓ} (P : A → Type 0) (p : A → Bool) (xs : List A) {a : A}
    → first p xs ≡ some a
    → P a
    → Exists P xs
Exists-first P p [] h k = absurd (ground arith)
Exists-first P p (x ∷ xs) {a = a} h k = elim (Bool-cases (p x)) [
  | inl holds ↦ let same : a ≡ x = ground arith in inl (subst P same k)
  | inr fails ↦ inr (Exists-first P p xs {a = a} (ground arith) k)
]

-- The challenge is approved, or was withdrawn when another plan was selected.
abbrev pub IsSettled : ApprovalChallengeModel → Type 0
IsSettled c =
    (c.state ≡ ChallengeState.approved)
    ⊎ ((c.state ≡ ChallengeState.invalidated)
        × (c.invalidation_reason ≡ some "selected_plan_changed"))

-- The challenge is the one that the receipt stands for, and it is no longer pending.
abbrev pub Backs : ApprovalReceiptModel → ApprovalChallengeModel → Type 0
Backs r c =
    (c.id ≡ r.challenge_id)
    × (c.organization_id ≡ r.organization_id)
    × (c.operator_id ≡ r.operator_id)
    × (c.planning_run_id ≡ r.planning_run_id)
    × (c.selected_plan_hash ≡ r.selected_plan_hash)
    × (c.policy_version ≡ r.policy_version)
    × (c.approved_totals ≡ r.approved_totals)
    × (c.expires_at ≡ r.expires_at)
    × IsSettled c

abbrev pub Backed : Ledger → Type 0
Backed l = All (λ r. Exists (Backs r) l.challenges) l.receipts

issue-Backed :
    (hash : String → String) (ttl now : ℕ) (challenge_id secret : String)
    (context : OperatorContext) (run_id plan_hash policy : String) (totals : ApprovedTotals)
    {row : ApprovalChallengeModel} (l l' : Ledger)
    → issue hash ttl now challenge_id secret context run_id plan_hash policy totals l ≡ ok (row, l')
    → Backed l
    → Backed l'
unfolding issue add_challenge
issue-Backed hash ttl now challenge_id secret context run_id plan_hash policy totals {row = row} l
      l' h b =
    let put : record l { challenges = row ∷ l.challenges } ≡ l' = ground arith in
    subst Backed put (All-mono _ _ (λ r e. inr e) l.receipts b)

abbrev in_state : ChallengeState → ApprovalChallengeModel → ApprovalChallengeModel
in_state state c = record c { state = state }

Backs-in_state :
    (t : Bool) (r : ApprovalReceiptModel) (c : ApprovalChallengeModel)
    → Backs r c
    → Backs r (if t then in_state ChallengeState.approved c else c)
Backs-in_state false r c k = k
Backs-in_state true r c k = (k.0, k.1, k.2, k.3, k.4, k.5, k.6, k.7, inl refl)

Backs-new :
    (hash : String → String) (receipt_id : String) (now : ℕ) (c a : ApprovalChallengeModel)
    → a ≡ c
    → Backs
        (new_receipt hash receipt_id c now)
        (if str_eq a.id c.id then in_state ChallengeState.approved a else a)
unfolding new_receipt
Backs-new hash receipt_id now c a e =
    subst
      (λ x.
        Backs (new_receipt hash receipt_id c now)
          (if str_eq x.id c.id then in_state ChallengeState.approved x else x))
      (sym e) (rw (str_eq_refl c.id) (refl, refl, refl, refl, refl, refl, refl, refl, inl refl))

approve-Backed :
    (hash : String → String) (now : ℕ) (receipt_id : String) (context : OperatorContext)
    (challenge_id secret : String) {receipt : ApprovalReceipt} (l l' : Ledger)
    → approve hash now receipt_id context challenge_id secret l ≡ ok (receipt, l')
    → Backed l
    → Backed l'
unfolding set_state challenge_for_operator
approve-Backed hash now receipt_id context challenge_id secret l l' h b =
    let (c, found, passed, outcome) =
      approve-cases hash now receipt_id context challenge_id secret l h in
    elim outcome [
      | inl (r, old, contract, kept) ↦ subst Backed kept b
      | inr (m, fresh, written, contract, marked) ↦
          let put = add_receipt-fresh (new_receipt hash receipt_id c now) l written in
          subst Backed (ap (set_state c.id ChallengeState.approved) put.1 ∙ marked) (
            Exists-map (λ a. a ≡ c) (Backs (new_receipt hash receipt_id c now)) _
                (Backs-new hash receipt_id now c) l.challenges
                (Exists-first (λ a. a ≡ c) _ l.challenges found refl),
            All-mono _ _
                (λ r.
                  Exists-map (Backs r) (Backs r) _ (λ a. Backs-in_state (str_eq a.id c.id) r a)
                    l.challenges)
                l.receipts b,
          )
    ]

Backs-consumed :
    (t : Bool) (key : String) (now : ℕ) (r : ApprovalReceiptModel) (c : ApprovalChallengeModel)
    → Backs r c
    → Backs
        (if t then record r { consumed_idempotency_key = some key; consumed_at = some now } else r)
        c
Backs-consumed false key now r c k = k
Backs-consumed true key now r c k = k

Backs-invalidated :
    (t : Bool) (now : ℕ) (r : ApprovalReceiptModel) (c : ApprovalChallengeModel)
    → Backs r c
    → Backs r (
        if t
        then record c {
          state = ChallengeState.invalidated;
          invalidated_at = some now;
          invalidation_reason = some "selected_plan_changed";
        }
        else c)
Backs-invalidated false now r c k = k
Backs-invalidated true now r c k = (k.0, k.1, k.2, k.3, k.4, k.5, k.6, k.7, inr (refl, refl))

consumed-Backed :
    (id key : String) (now : ℕ) (cs : List ApprovalChallengeModel)
    (rows : List ApprovalReceiptModel)
    → All (λ r. Exists (Backs r) cs) rows
    → All (λ r. Exists (Backs r) cs) (map (consumed id key now) rows)
consumed-Backed id key now cs [] h = tt
consumed-Backed id key now cs (r ∷ rs) h = (
  Exists-mono (Backs r) (Backs (consumed id key now r)) (Backs-consumed (str_eq r.id id) key now r)
      cs h.0,
  consumed-Backed id key now cs rs h.1,
)

consume-Backed :
    (key : String) (now : ℕ) (row : ApprovalReceiptModel) (l l' : Ledger)
    → (if is_some row.consumed_idempotency_key then l else set_consumed row.id key now l) ≡ l'
    → Backed l
    → Backed l'
unfolding set_consumed
consume-Backed key now row l l' result b = elim (Option-cases row.consumed_idempotency_key) [
  | inl free ↦
      let whole : set_consumed row.id key now l ≡ l' = ground arith in
      subst Backed whole (consumed-Backed row.id key now l.challenges l.receipts b)
  | inr (old, taken) ↦ let whole : l ≡ l' = ground arith in subst Backed whole b
]

pub Step-Backed : (hash : String → String) (l l' : Ledger) → Step hash l l' → Backed l → Backed l'
unfolding invalidate_plan
Step-Backed hash l l' (issuing ttl now c s x r p v t h) b =
    issue-Backed hash ttl now c s x r p v t l l' h b
Step-Backed hash l l' (approving now i x c s h) b = approve-Backed hash now i x c s l l' h b
Step-Backed hash l l' (consuming now x i k r p v a h) b =
    let spent = consume-row now x i k r p v a l h in consume-Backed k now spent.0 l l' spent.3 b
Step-Backed hash l l' (invalidating now o r p h) b = subst Backed h (
    All-mono _ _
      (λ row.
        Exists-map (Backs row) (Backs row) _
          (λ a. Backs-invalidated (is_superseded o r p a) now row a) l.challenges)
      l.receipts b)
