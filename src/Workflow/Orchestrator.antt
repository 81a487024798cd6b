-- ===== src/Workflow/Orchestrator.antt =====
-- workflow/orchestrator.py: `ParliamentWorkflow`. One call of `advance` is one durable transition.
mod Monad
mod Interfaces
mod Evidence
mod Basics
mod Rounds
mod Verdict
mod Investigation
mod Machine
pub mod Log
pub mod Opening
pub mod Faults
pub mod Ready
pub mod Raises
pub mod Run
pub mod Coherence
pub use Monad.{M, ret, lift, moment, ◌>>=◌}
pub use Interfaces.{RoleAgent, Ports}
unfoldable pub use Evidence.{
  all_evidence_ids, repeated_evidence_ids, supporting_claim_ids, supporting_evidence_ids,
  plan_annotations, evidence_required, selected_plan,
}
unfoldable pub use Basics.{read_clock, bounds_exhausted, record_event, terminate}
unfoldable pub use Rounds.{proposal_round, challenge_round, concession_round}
unfoldable pub use Verdict.{jury_round}
unfoldable pub use Investigation.{investigate}
unfoldable pub use Machine.{start, dispatch, started, proceed, advance_open, advance, run_loop, run}
