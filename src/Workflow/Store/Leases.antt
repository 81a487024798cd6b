-- ===== src/Workflow/Store/Leases.antt =====
-- workflow/checkpointing.py: the state of the store and its methods.
use civitas.Prelude.{
  ℕ, ◌+◌, ltb, ◌==◌, Bool, true, false, not, ◌&&◌, ◌||◌, Option, none, some, is_some, List, [], ◌∷◌,
  ◌++◌, String, str_eq, if◌then◌else◌, take, Dict, lookup, insert, keys, sorted, value_error,
  checkpoint_conflict, Result, ok, raise, raise_if, or_raise, ◌>>=◌, ◌>>◌,
}
use civitas.Contracts.{WorkflowEvent}
use civitas.Workflow.Models.{WorkflowCheckpoint, WorkflowLimits}

pub record WorkflowLease : Type 0 where
  pub planning_run_id : String
  pub worker_id : String
  pub token : ℕ
  pub checkpoint : WorkflowCheckpoint
  pub expires_at : ℕ
  pub limits : Option WorkflowLimits
  pub attempt_count : ℕ

pub record StoredRun : Type 0 where
  pub checkpoint : WorkflowCheckpoint
  pub events : List WorkflowEvent
  pub limits : Option WorkflowLimits
  pub lease : Option WorkflowLease
  pub attempt_count : ℕ

pub record Store : Type 0 where
  pub runs : Dict StoredRun
  pub next_token : ℕ

-- `_same_lease`
unfoldable pub same_lease : Option WorkflowLease → WorkflowLease → Bool
same_lease none supplied = false
same_lease (some current) supplied =
    str_eq current.worker_id supplied.worker_id && current.token == supplied.token

abbrev expires_after : Option WorkflowLease → ℕ → Bool
expires_after none now = false
expires_after (some lease) now = ltb now lease.expires_at

-- `_owns_lease`
unfoldable pub owns_lease : Option StoredRun → WorkflowLease → ℕ → Bool
unfolding same_lease
owns_lease none supplied now = false
owns_lease (some run) supplied now = same_lease run.lease supplied && expires_after run.lease now

unfoldable pub init : Store
init = record { runs = []; next_token = 0 }

abbrev pub new_run : WorkflowCheckpoint → Option WorkflowLimits → StoredRun
new_run checkpoint limits = record {
  checkpoint = checkpoint;
  events = [];
  limits = limits;
  lease = none;
  attempt_count = 0;
}

unfoldable pub enqueue : WorkflowCheckpoint → Option WorkflowLimits → Store → Result Store
enqueue checkpoint limits s = do
  raise_if (is_some (lookup checkpoint.planning_run_id s.runs))
      (checkpoint_conflict "planning run already exists")
  ok (record s { runs = insert checkpoint.planning_run_id (new_run checkpoint limits) s.runs })

-- Neither of the two `continue`s of the loop in `claim` is taken.
unfoldable pub is_claimable : StoredRun → ℕ → Bool
is_claimable run now = not run.checkpoint.completed && not (expires_after run.lease now)

-- The loop of `claim` up to the run that it takes.
unfoldable pub first_claimable : List String → Dict StoredRun → ℕ → Option (String × StoredRun)
unfolding is_claimable
first_claimable [] runs now = none
first_claimable (run_id ∷ ids) runs now =
    let rest = first_claimable ids runs now in
    elim (lookup run_id runs) [
      | none ↦ rest
      | some run ↦ if is_claimable run now then some (run_id, run) else rest
    ]

abbrev pub new_lease : String → StoredRun → String → ℕ → ℕ → ℕ → WorkflowLease
new_lease run_id run worker_id token now lease_for = record {
  planning_run_id = run_id;
  worker_id = worker_id;
  token = token;
  checkpoint = run.checkpoint;
  expires_at = now + lease_for;
  limits = run.limits;
  attempt_count = run.attempt_count + 1;
}

abbrev pub leased : String → StoredRun → WorkflowLease → Store → Store
leased run_id run lease s = record {
  runs =
      insert run_id (record run { attempt_count = run.attempt_count + 1; lease = some lease })
        s.runs;
  next_token = s.next_token + 1;
}

unfoldable pub claim : String → ℕ → ℕ → Store → Option WorkflowLease × Store
unfolding first_claimable
claim worker_id now lease_for s = elim (first_claimable (sorted (keys s.runs)) s.runs now) [
  | none ↦ (none, s)
  | some (run_id, run) ↦
      let lease = new_lease run_id run worker_id (s.next_token + 1) now lease_for in
      (some lease, leased run_id run lease s)
]

unfoldable pub renew : WorkflowLease → ℕ → ℕ → Store → Result (WorkflowLease × Store)
unfolding owns_lease
renew lease now lease_for s = do
  raise_if (lease_for == 0) (value_error "lease_for must be positive")
  let found = lookup lease.planning_run_id s.runs
  raise_if (not (owns_lease found lease now))
      (checkpoint_conflict "workflow lease is no longer valid")
  run ← or_raise found (checkpoint_conflict "workflow lease is no longer valid")
  let renewed = record lease { expires_at = now + lease_for }
  ok (
    renewed,
    record s { runs = insert lease.planning_run_id (record run { lease = some renewed }) s.runs },
  )

-- The loop over the events: the sequence number expected after them.
unfoldable pub check_events : String → ℕ → List WorkflowEvent → Result ℕ
check_events run_id expected [] = ok expected
check_events run_id expected (event ∷ events) =
    let rest = check_events run_id (expected + 1) events in
    if not (str_eq event.planning_run_id run_id) || not (event.sequence == expected)
    then raise (checkpoint_conflict "events must be contiguous and run-scoped")
    else rest

unfoldable pub commit_transition :
    WorkflowLease → WorkflowCheckpoint → List WorkflowEvent → ℕ → Store → Result Store
unfolding owns_lease
commit_transition lease checkpoint events now s = do
  let found = lookup lease.planning_run_id s.runs
  raise_if (not (owns_lease found lease now))
      (checkpoint_conflict "workflow lease is no longer valid")
  run ← or_raise found (checkpoint_conflict "workflow lease is no longer valid")
  raise_if (not (str_eq checkpoint.planning_run_id lease.planning_run_id))
      (checkpoint_conflict "checkpoint belongs to a different run")
  raise_if (ltb checkpoint.event_sequence run.checkpoint.event_sequence)
      (checkpoint_conflict "checkpoint regressed")
  expected ← check_events lease.planning_run_id (run.checkpoint.event_sequence + 1) events
  raise_if (not (checkpoint.event_sequence + 1 == expected))
      (checkpoint_conflict "checkpoint and event cursor disagree")
  ok (record s {
    runs =
        insert lease.planning_run_id
          (record run { checkpoint = checkpoint; events = run.events ++ events; lease = none })
          s.runs;
  })

unfoldable pub release : WorkflowLease → Store → Store
unfolding same_lease
release lease s = elim (lookup lease.planning_run_id s.runs) [
  | none ↦ s
  | some run ↦
      if same_lease run.lease lease
      then record s { runs = insert lease.planning_run_id (record run { lease = none }) s.runs }
      else s
]

-- One round of the loop of `recover_abandoned`: whether the lease is dropped.
unfoldable pub expire : ℕ → StoredRun → StoredRun × Bool
expire now run =
    if is_some run.lease && not (expires_after run.lease now)
    then (record run { lease = none }, true)
    else (run, false)

unfoldable pub recover_runs : ℕ → Dict StoredRun → Dict StoredRun × ℕ
unfolding expire
recover_runs now [] = ([], 0)
recover_runs now ((run_id, run) ∷ runs) =
    let (run', dropped) = expire now run in
    let (runs', recovered) = recover_runs now runs in
    ((run_id, run') ∷ runs', if dropped then recovered + 1 else recovered)

unfoldable pub recover_abandoned : ℕ → Store → ℕ × Store
unfolding recover_runs
recover_abandoned now s =
    let (runs, recovered) = recover_runs now s.runs in (recovered, record s { runs = runs })

unfoldable pub get_checkpoint : String → Store → Option WorkflowCheckpoint
get_checkpoint run_id s = elim (lookup run_id s.runs) [
  | none ↦ none
  | some run ↦ some run.checkpoint
]

-- `[event for event in events if event.sequence > after_sequence]`
unfoldable pub after : ℕ → List WorkflowEvent → List WorkflowEvent
after after_sequence [] = []
after after_sequence (event ∷ events) =
    let rest = after after_sequence events in
    if ltb after_sequence event.sequence then event ∷ rest else rest

unfoldable pub list_events : String → ℕ → ℕ → Store → Result (List WorkflowEvent)
unfolding after
list_events run_id after_sequence limit s = do
  raise_if (limit == 0) (value_error "cursor must be non-negative and limit must be positive")
  ok (elim (lookup run_id s.runs) [
    | none ↦ []
    | some run ↦ take limit (after after_sequence run.events)
  ])
