-- ===== src/Lib.antt =====
-- Verification of civitas, the procurement planner: what the program's own core logic promises.
--
-- A planning run is carried from transition to transition by ParliamentWorkflow
-- (src/civitas/workflow/orchestrator.py). Its checkpoints and its event log stand in a store of
-- leases (src/civitas/workflow/checkpointing.py) that interleaved workers share. The role agents
-- vote and one plan is selected (src/civitas/agents/parliament.py). The Jury
-- (src/civitas/evidence/jury.py) judges the plan by its evidence, with a clean-room Dissent
-- (src/civitas/evidence/dissent.py). What the solver proposes is checked by an independent verifier
-- (src/civitas/optimization/verifier.py). An approved plan needs an operator's receipt
-- (src/civitas/approval/service.py), and is executed by guarded writes: against a tool server
-- (src/civitas/execution/service.py), or in a database transaction that reserves stock from a lot
-- ledger (src/civitas/execution/guarded.py, src/civitas/persistence/inventory.py).
--
-- Files, each with its children:
--   Prelude: conditionals, lists, dicts, exceptions as results, order and equality of strings.
--   Contracts: the records of src/civitas/contracts that the parts exchange.
--   Workflow/Models: src/civitas/workflow/models.py.
--   Workflow/Store: InMemoryWorkflowCheckpointStore. Leases has one definition for each method;
--     Reach has the relation of workers that share the store.
--   Workflow/Orchestrator: ParliamentWorkflow. Rounds, Verdict and Investigation have the rounds,
--     Machine has start, advance and run; Log and Opening are about the events, Faults, Ready and
--     Raises about the exceptions.
--   Workflow/Progress: a worker's transition meets the store.
--   Parliament: select_consensus_plan; Best has the order that its selection is compared with.
--   Evidence/Dissent: DissentProtocol. Evidence/Scores, Evidence/Jury: DecisionIntegrityCalculator
--     and JuryEvaluator.
--   Approval: the two tables and ApprovalRepository (src/civitas/persistence); Service has issue,
--     approve, consume_for_execution and invalidate_plan; Reach has the sequences of calls.
--   Execution: GuardedExecutionService of src/civitas/execution/service.py.
--   Inventory: InventoryService and its three tables; Reserving has reserve_fefo and reconcile_lot,
--     History the sequences of calls.
--   Execution/Guarded: GuardedExecutionService of src/civitas/execution/guarded.py. Admission has
--     the guards up to the Jury decision, Approvals the receipt, the connection and the audit rows,
--     Readiness has _assess_readiness, Writes the reservations and the provider writes, and Service
--     puts execute together. Ports has what a call and its surroundings give.
--   Optimization: the models, validate_problem and ConstraintVerifier of src/civitas/optimization.
--     Allocations has the loops over the lines of an alternative, Fefo and Capacities the two
--     checks of their names, Verifier puts verify together.
--   Identity/RateLimit: FixedWindowRateLimiter of src/civitas/identity/rate_limit.py.
--
-- How the source is read:
--   Names, plans, hashes and codes are strings, compared and ordered by code points. Instants and
--   durations are microseconds from 0 on. Money and cost are whole minor units. A percentage is
--   kept in hundredths and computed exactly where the program uses floats; `round` is to the
--   nearest hundredth, ties to the even one. Assessment scores are signed.
--   A Python set or dict is a list, in insertion order where the order shows; `sorted` and
--   `dict.fromkeys` are written out.
--   An exception is a value of Error in a Result; what a raising method has changed before it
--   raises is kept or dropped as the source does (a database transaction drops it).
--   A method under a lock, or in one transaction on locked rows, is one step. A call of the
--   execution service is one step too, although it awaits the tool server: its calls come one
--   after the other. So is a call of the guarded execution: it holds the lock of its key in one
--   transaction. A raised error rolls the database back, but not what the provider was sent.
--   The optimizer, the Jury, the role agents, the clock, the identifiers and the investigator are
--   ports of the orchestrator: functions of the moment of the call, free to answer anything or to
--   raise. The keyed hash of a secret is any function. The answers of the tool server and of the
--   clock to one execution are a record. The integrity calculation takes what the evidence graph,
--   the claim normaliser and the contradiction detector answer as the record Sources, which is
--   free as well.
--   The guarded execution takes its clock readings, the refreshed inputs, the provider's answers,
--   fresh identifiers and the digest of a plan as functions. Quantities of stock are whole; balances,
--   prices and constraints may be negative. Times to live there are those of the default policy.
--   The whole numbers of an optimization problem are natural: the negative ones, which
--   validate_problem refuses, are not represented. Those of an alternative may be negative.
--   A lease token `lease-n` is its number n. The numbers of JSON values are natural; a JSON Boolean
--   equals the number 1 or 0, as in Python.
--   `run` has fuel, one unit for each call of advance; 5 * max_cycles + 1 units are enough.
--
-- Not modelled: the evidence graph, the claim normaliser and the contradiction detector, the role
-- agents' own ranking, the reading of the refreshed inputs, the optimizer and its scorecards,
-- authentication and authorization, which have logic of their own; the HTTP API, the MCP server, the
-- integrations, the runtime, the migrations and the web application, which are wiring and I/O.
-- Pydantic's patterns and length limits are not modelled. The strings of error messages are kept,
-- but no property depends on them, except where a result names an error.
pub mod Prelude
pub mod Contracts
pub mod Workflow
pub mod Evidence
pub mod Approval
pub mod Execution
pub mod Parliament
pub mod Identity
pub mod Inventory
pub mod Optimization
