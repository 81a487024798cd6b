-- ===== src/Workflow/Store/Tests.antt =====
-- The store on a small history: a run is enqueued, claimed, abandoned and claimed again.
use civitas.Prelude.{
  ◌≡◌, refl, none, some, [], ◌∷◌, ok, raise, Memᴰ, checkpoint_conflict, lookup, ◌↔◌, String, sorted,
  keys, insert, ◌+◌, false, ◌++◌,
}
use civitas.Contracts.{WorkflowEvent, WorkflowEventType, Payload, WorkflowPhase}
use civitas.Workflow.Models.{WorkflowCheckpoint}
use civitas.Workflow.Samples.{request}
use civitas.Workflow.Store.{
  WorkflowLease, StoredRun, Store, init, enqueue, claim, commit_transition, list_events,
  is_claimable, after, same_lease, owns_lease, first_claimable, check_events,
}
use civitas.Workflow.Store.Leases.{new_run, new_lease, leased}
use civitas.Workflow.Store.Reach.{
  Reach, start, next, enqueue_step, claim_step, IsSound, Reach-IsSound,
}
use civitas.Workflow.Store.Takeover.{commit_replaces_what_was_read, commit_after_takeover}
use civitas.Workflow.Store.Claiming.{IsTaken, claim-none_iff}
use civitas.Workflow.Store.Paging.{list_events_pages}
use civitas.Workflow.Store.Invariant.{IsValid}

abbrev checkpoint : WorkflowCheckpoint
checkpoint = record {
  planning_run_id = "run-1";
  phase = WorkflowPhase.proposal;
  cycle = 1;
  event_sequence = 0;
  optimization_request = request;
  optimization_result = none;
  parliament = none;
  jury_evaluation = none;
  seen_evidence_ids = [];
  seen_evidence_fingerprints = [];
  seen_canonical_source_groups = [];
  repeated_evidence_hits = 0;
  tool_calls_used = 0;
  estimated_cost_used = 0;
  investigation_backlog = [];
  completed_investigation_tasks = [];
  unavailable_investigation_tasks = [];
  final_state = none;
  completed = false;
}

abbrev event : WorkflowEvent
event = record {
  event_id = "event-1";
  planning_run_id = "run-1";
  sequence = 1;
  event_type = WorkflowEventType.run_started;
  occurred_at = 5;
  actor_id = none;
  payload = Payload.run_started WorkflowPhase.proposal 1;
}

abbrev moved : WorkflowCheckpoint
moved = record checkpoint { event_sequence = 1 }

abbrev enqueued : Store
enqueued = record { runs = ("run-1", new_run checkpoint none) ∷ []; next_token = 0 }

abbrev pub first_lease : WorkflowLease
first_lease = new_lease "run-1" (new_run checkpoint none) "worker-a" 1 0 10

abbrev pub claimed : Store
claimed = leased "run-1" (new_run checkpoint none) first_lease enqueued

abbrev run_claimed : StoredRun
run_claimed = record (new_run checkpoint none) { attempt_count = 1; lease = some first_lease }

abbrev second_lease : WorkflowLease
second_lease = new_lease "run-1" run_claimed "worker-b" 2 20 10

abbrev taken_over : Store
taken_over = leased "run-1" run_claimed second_lease claimed

pub history : Reach (record { store = claimed; held = first_lease ∷ [] })
unfolding init enqueue claim first_claimable is_claimable lookup sorted keys insert
history =
    next (next start (enqueue_step checkpoint none refl refl))
      (claim_step "worker-a" 0 10 first_lease refl refl)

Reach-IsSound_example : IsSound (record { store = claimed; held = first_lease ∷ [] })
Reach-IsSound_example = Reach-IsSound history

abbrev committed : Store
committed = record {
  runs =
      ("run-1", record run_claimed { checkpoint = moved; events = event ∷ []; lease = none }) ∷ [];
  next_token = 1;
}

commits : commit_transition first_lease moved (event ∷ []) 5 claimed ≡ ok committed
unfolding commit_transition owns_lease same_lease check_events lookup insert
commits = refl

takes_over : claim "worker-b" 20 10 claimed ≡ (some second_lease, taken_over)
unfolding claim first_claimable is_claimable lookup sorted keys insert
takes_over = refl

commit_replaces_what_was_read_example :
    (run : StoredRun) × (lookup "run-1" claimed.runs ≡ some run)
    × (run.checkpoint ≡ checkpoint)
    × (lookup "run-1" committed.runs
        ≡ some (record run { checkpoint = moved; events = run.events ++ event ∷ []; lease = none }))
commit_replaces_what_was_read_example =
    commit_replaces_what_was_read first_lease moved (event ∷ []) 5 history (Memᴰ.head refl) commits

commit_after_takeover_example :
    commit_transition first_lease moved (event ∷ []) 25 taken_over
    ≡ raise (checkpoint_conflict "workflow lease is no longer valid")
commit_after_takeover_example =
    commit_after_takeover "worker-b" 20 10 first_lease moved (event ∷ []) 25 history
      (Memᴰ.head refl) takes_over refl

claim-none_iff_example :
    (claim "worker-b" 5 10 claimed ≡ (none, claimed))
    ↔ ((run_id : String) (run : StoredRun) → lookup run_id claimed.runs ≡ some run → IsTaken run 5)
claim-none_iff_example = claim-none_iff "worker-b" 5 10 claimed

abbrev two_events : Store
two_events = record {
  runs =
      (
        "run-1",
        record run_claimed {
          checkpoint = record checkpoint { event_sequence = 2 };
          events = event ∷ record event { sequence = 2 } ∷ [];
          lease = none;
        },
      )
      ∷ [];
  next_token = 1;
}

two_events-IsValid : IsValid two_events
two_events-IsValid = (
  record { scoped = refl; first = 1; logged = (refl, refl, (refl, refl, refl)); leased = tt },
  tt,
)

list_events_pages_example :
    list_events "run-1" 0 (1 + 1) two_events ≡ ok (event ∷ record event { sequence = 2 } ∷ [])
unfolding list_events after lookup
list_events_pages_example =
    list_events_pages two_events "run-1" 0 1 1 {page = event ∷ []}
      {rest = record event { sequence = 2 } ∷ []} two_events-IsValid refl refl
