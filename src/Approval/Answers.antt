-- ===== src/Approval/Answers.antt =====
-- approval/service.py: what an answer to a challenge settles.
use civitas.Prelude.{
  ℕ, ◌≡◌, refl, sym, ap, ◌∙◌, subst, Bool-cases, none, some, List, [], ◌∷◌, map, String, str_eq,
  str_eq_iff, str_eq_refl, inl, inr, arith, ok,
}
use civitas.Approval.{
  ApprovalChallengeModel, ChallengeState, OperatorContext, ApprovalReceiptModel, ApprovalReceipt,
  Ledger, first, receipt_contract, receipt_for_challenge, challenge_for_operator, set_state,
}
use civitas.Approval.Service.{approve, new_receipt}
use civitas.Approval.Rows.{first-holds, consumed}
use civitas.Approval.Reach.{Reach, Reach-Invariant}
use civitas.Approval.Cases.{add_receipt-fresh, approve-cases}
use civitas.Approval.SingleUse.{Change, unchanged, added, spending, Step-Change}

-- The first receipt of the challenge has this contract.
abbrev pub Settled : String → ApprovalReceipt → List ApprovalReceiptModel → Type 0
Settled id receipt rows =
    (r : ApprovalReceiptModel) × (first (λ r. str_eq r.challenge_id id) rows ≡ some r)
    × (receipt_contract r ≡ receipt)

consumed-challenge :
    (i key : String) (now : ℕ) (x : ApprovalReceiptModel)
    → (consumed i key now x).challenge_id ≡ x.challenge_id
consumed-challenge i key now x = ground arith

first-consumed :
    (id key i : String) (now : ℕ) (rows : List ApprovalReceiptModel) {r : ApprovalReceiptModel}
    → first (λ r. str_eq r.challenge_id id) rows ≡ some r
    → first (λ r. str_eq r.challenge_id id) (map (consumed i key now) rows)
      ≡ some (consumed i key now r)
first-consumed id key i now [] h = absurd (ground arith)
first-consumed id key i now (x ∷ xs) {r = r} h = elim (Bool-cases (str_eq x.challenge_id id)) [
  | inl holds ↦
      let same : x ≡ r = ground arith in
      rw (consumed-challenge i key now x, holds) (ap (λ y. some (consumed i key now y)) same)
  | inr fails ↦
      let later = first-consumed id key i now xs {r = r} (ground arith) in
      rw (consumed-challenge i key now x, fails) later
]

receipt_contract-consumed :
    (key i : String) (now : ℕ) (r : ApprovalReceiptModel)
    → receipt_contract (consumed i key now r) ≡ receipt_contract r
unfolding receipt_contract
receipt_contract-consumed key i now r = ground arith

Change-Settled :
    (id : String) (receipt : ApprovalReceipt) (rows rows' : List ApprovalReceiptModel)
    → Change rows rows'
    → Settled id receipt rows
    → Settled id receipt rows'
Change-Settled id receipt rows rows' (unchanged e) s = subst (Settled id receipt) e s
Change-Settled id receipt rows rows' (added row free new e) s = subst (Settled id receipt) e (
  s.0,
  elim (Bool-cases (str_eq row.challenge_id id)) [
    | inl same ↦
        let named : row.challenge_id ≡ id = grind (arith, str_eq_iff) in
        let absent : first (λ r. str_eq r.challenge_id id) rows ≡ none =
          subst (λ i. first (λ r. str_eq r.challenge_id i) rows ≡ none) named new in
        absurd (ground arith)
    | inr other ↦ rw other s.1
  ],
  s.2,
)
Change-Settled id receipt rows rows' (spending p row key now f n e) s =
    subst (Settled id receipt) e (
      consumed row.id key now s.0,
      first-consumed id key row.id now rows s.1,
      receipt_contract-consumed key row.id now s.0 ∙ s.2,
    )

approve-Settled :
    (hash : String → String) (now : ℕ) (receipt_id : String) (context : OperatorContext)
    (challenge_id secret : String) {receipt : ApprovalReceipt} (l : Ledger) {l' : Ledger}
    → approve hash now receipt_id context challenge_id secret l ≡ ok (receipt, l')
    → (c : ApprovalChallengeModel) × (challenge_for_operator challenge_id context l ≡ some c)
      × Settled c.id receipt l'.receipts
unfolding receipt_for_challenge set_state new_receipt
approve-Settled hash now receipt_id context challenge_id secret {receipt = receipt} l h =
    let (c, found, passed, outcome) =
      approve-cases hash now receipt_id context challenge_id secret l h in
    elim outcome [
      | inl (r, old, contract, kept) ↦
          (c, found, subst (λ m. Settled c.id receipt m.receipts) kept (r, old, contract))
      | inr (m, fresh, written, contract, marked) ↦
          let put = add_receipt-fresh (new_receipt hash receipt_id c now) l written in
          (
            c,
            found,
            subst (λ m. Settled c.id receipt m.receipts)
                (ap (set_state c.id ChallengeState.approved) put.1 ∙ marked)
                (new_receipt hash receipt_id c now, rw (str_eq_refl c.id) refl, contract),
          )
    ]

found-id :
    (challenge_id : String) (context : OperatorContext) (l : Ledger) {c : ApprovalChallengeModel}
    → challenge_for_operator challenge_id context l ≡ some c
    → c.id ≡ challenge_id
unfolding challenge_for_operator
found-id challenge_id context l {c = c} found =
    let named = first-holds _ l.challenges found in grind (arith, str_eq_iff)

pub answer-Settled :
    (hash : String → String) (now : ℕ) (receipt_id : String) (context : OperatorContext)
    (challenge_id secret : String) {receipt : ApprovalReceipt} (l : Ledger) {l' : Ledger}
    → approve hash now receipt_id context challenge_id secret l ≡ ok (receipt, l')
    → Settled challenge_id receipt l'.receipts
answer-Settled hash now receipt_id context challenge_id secret {receipt = receipt} l {l' = l'} h =
    let (c, found, settled) = approve-Settled hash now receipt_id context challenge_id secret l h in
    subst (λ i. Settled i receipt l'.receipts) (found-id challenge_id context l found) settled

-- A challenge is answered once: after an answer that returned, and any calls of any operators,
-- every further answer that returns gives the same receipt and changes nothing.
pub approve_again :
    (hash : String → String) (now now' : ℕ) (receipt_id receipt_id' : String)
    (context context' : OperatorContext) (challenge_id secret secret' : String)
    {receipt receipt' : ApprovalReceipt} (l : Ledger) {l1 l2 l3 : Ledger}
    → approve hash now receipt_id context challenge_id secret l ≡ ok (receipt, l1)
    → Reach hash l1 l2
    → approve hash now' receipt_id' context' challenge_id secret' l2 ≡ ok (receipt', l3)
    → (receipt' ≡ receipt) × (l3 ≡ l2)
unfolding receipt_for_challenge
approve_again hash now now' receipt_id receipt_id' context context' challenge_id secret secret'
      {receipt = receipt} {receipt' = receipt'} l {l1 = l1} {l2 = l2} {l3 = l3} h between h' =
    let first_answer = answer-Settled hash now receipt_id context challenge_id secret l h in
    let (r, kept, contract) =
      Reach-Invariant hash (λ m. Settled challenge_id receipt m.receipts)
        (λ m m' s.
          Change-Settled challenge_id receipt m.receipts m'.receipts (Step-Change hash m m' s))
        between first_answer in
    let (c, found, passed, outcome) =
      approve-cases hash now' receipt_id' context' challenge_id secret' l2 h' in
    let same = found-id challenge_id context' l2 found in
    let kept' : first (λ r. str_eq r.challenge_id c.id) l2.receipts ≡ some r =
      subst (λ i. first (λ r. str_eq r.challenge_id i) l2.receipts ≡ some r) (sym same) kept in
    elim outcome [
      | inl (r', old, contract', unmoved) ↦
          let one : r' ≡ r = ground arith in
          (sym contract' ∙ ap receipt_contract one ∙ contract, sym unmoved)
      | inr (m, fresh, written, contract', marked) ↦ absurd (ground arith)
    ]
