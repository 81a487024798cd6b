-- ===== src/Workflow/Store.antt =====
-- workflow/checkpointing.py: `InMemoryWorkflowCheckpointStore`, method by method. The lock makes
-- each method one atomic step. A method returns its value and the store, or the exception, which
-- leaves the store alone. A token `lease-n` is kept as its number n.
mod Leases
pub mod Runs
pub mod Invariant
pub mod Ownership
pub mod Transitions
pub mod Paging
pub mod Reach
pub mod Takeover
pub mod Claiming
pub mod Tests
unfoldable pub use Leases.{
  same_lease, owns_lease, init, enqueue, is_claimable, first_claimable, claim, renew, check_events,
  commit_transition, release, expire, recover_runs, recover_abandoned, get_checkpoint, after,
  list_events,
}
pub use Leases.{WorkflowLease, StoredRun, Store}
