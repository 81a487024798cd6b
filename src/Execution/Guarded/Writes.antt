-- ===== src/Execution/Guarded/Writes.antt =====
-- execution/guarded.py: the reservations and the provider writes of GuardedExecutionService.execute.
use civitas.Prelude.{
  ℕ, ◌+◌, ◌&&◌, Option, none, some, List, [], ◌∷◌, ◌++◌, map, keep, any, String, ◌<>◌, str_eq,
  unique, Error, duplicate_reservation, insufficient_inventory, runtime_error, Result, ok, raise,
  if◌then◌else◌,
}
use civitas.Contracts.{CandidatePlan, ProcurementLine, DistributionLine}
use civitas.Inventory.{Stock}
use civitas.Inventory.Reserving.{Reservation, reserve_fefo}
use civitas.Execution.{ExecutionState, ExecutionRequest, references_of}
use civitas.Execution.Guarded.{ProviderWriteModel}
use civitas.Execution.Guarded.Ports.{Ports, McpToolResult}

-- `_distribution_reservation_key`
abbrev pub distribution_reservation_key : (ℕ → String) → String → ℕ → DistributionLine → String
distribution_reservation_key show execution_key line_index line =
    execution_key
    <> ":distribution:"
    <> show line_index
    <> ":"
    <> line.sku_id
    <> ":"
    <> line.source_warehouse_id
    <> ":"
    <> line.destination_warehouse_id

abbrev pub reservation_for : Ports → String → ExecutionRequest → ℕ → DistributionLine → Reservation
reservation_for ports organization_id request line_index line = record {
  organization_id = organization_id;
  sku_id = line.sku_id;
  warehouse_id = line.source_warehouse_id;
  quantity = line.quantity.value;
  occurred_at = ports.reserved_at line_index;
  business_reference = request.execution_id;
  idempotency_key = distribution_reservation_key ports.show request.idempotency_key line_index line;
}

-- What the loop over the distribution lines ended with. The rows of the lines before a refused one
-- stay in the transaction.
pub data Reserved : Type 0 where
  all_reserved : Stock → Reserved
  refused : Error → Stock → Reserved

-- `except (DuplicateReservation, InsufficientInventory)`; any other exception is raised.
abbrev pub refusal : Error → Stock → Result Reserved
refusal (duplicate_reservation key) stock = ok (refused (duplicate_reservation key) stock)
refusal (insufficient_inventory n m) stock = ok (refused (insufficient_inventory n m) stock)
refusal e stock = raise e

unfoldable pub reserve_lines :
    Ports → String → ExecutionRequest → ℕ → List DistributionLine → Stock → Result Reserved
reserve_lines ports organization_id request line_index [] stock = ok (all_reserved stock)
reserve_lines ports organization_id request line_index (line ∷ lines) stock =
    elim (reserve_fefo ports.new_id (reservation_for ports organization_id request line_index line)
      stock) [
        | raise e ↦ refusal e stock
        | ok (allocations, stock') ↦
            reserve_lines ports organization_id request (line_index + 1) lines stock'
      ]

-- The keys of `_group_procurement_lines`, in the order of their first line, and a group.
abbrev pub suppliers_of : CandidatePlan → List String
suppliers_of plan = unique (map (λ l. l.supplier_id) plan.procurement)

abbrev pub lines_of_supplier : CandidatePlan → String → List ProcurementLine
lines_of_supplier plan supplier_id = keep (λ l. str_eq l.supplier_id supplier_id) plan.procurement

abbrev pub write_key : ExecutionRequest → String → String
write_key request supplier_id = request.idempotency_key <> ":" <> supplier_id

-- The row of a write whose state is not pending any more.
unfoldable pub write_row :
    Ports
    → String
    → ExecutionRequest
    → CandidatePlan
    → String
    → ExecutionState
    → ℕ
    → Option String
    → Option String
    → ProviderWriteModel
write_row ports organization_id request plan supplier_id state completed_at reference failure_code =
    record {
      id = ports.new_id (write_key request supplier_id);
      execution_id = request.execution_id;
      organization_id = organization_id;
      planning_run_id = request.planning_run_id;
      supplier_id = supplier_id;
      lines = lines_of_supplier plan supplier_id;
      idempotency_key = write_key request supplier_id;
      state = state;
      attempted_at = ports.write_attempted_at (write_key request supplier_id);
      completed_at = some completed_at;
      external_reference = reference;
      failure_code = failure_code;
    }

-- The first of the references of a payload, which has at most one.
abbrev pub reference_in : List String → Option String
reference_in [] = none
reference_in (r ∷ rs) = some r

-- The references so far, the rows of the table, and the message of the write that failed.
pub record Written : Type 0 where
  pub external_references : List String
  pub provider_writes : List ProviderWriteModel
  pub failure : Option String

-- `result.error_code or "provider_rejected_write"`, in the message of the RuntimeError
abbrev pub rejection : McpToolResult → String
rejection result = elim result.error_code [
  | none ↦ "provider write failed: provider_rejected_write"
  | some code ↦
      if str_eq code ""
      then "provider write failed: provider_rejected_write"
      else "provider write failed: " <> code
]

-- What one write gave: the payload's references, or the message of the exception.
unfoldable pub write_answer : Ports → String → Result (List String)
write_answer ports key = elim (ports.provider key) [
  | raise e ↦ raise e
  | ok result ↦
      if result.succeeded
      then ok (references_of result.payload)
      else raise (runtime_error (rejection result))
]

-- The loop over the suppliers, with the keys that were sent to the provider, newest first. A write
-- key that the organization has used already breaks the flush, and so the transaction.
unfoldable pub write_groups :
    Ports
    → String
    → ExecutionRequest
    → CandidatePlan
    → List String
    → List String
    → List ProviderWriteModel
    → List String
    → Result Written × List String
write_groups ports organization_id request plan [] references rows calls = (
  ok (record { external_references = references; provider_writes = rows; failure = none }),
  calls,
)
write_groups ports organization_id request plan (supplier_id ∷ suppliers) references rows calls =
    let key = write_key request supplier_id in
    if any (λ w. str_eq w.organization_id organization_id && str_eq w.idempotency_key key) rows
    then (raise (runtime_error "uq_provider_writes_idempotency"), calls)
    else elim (write_answer ports key) [
      | raise e ↦ (
        ok (record {
          external_references = references;
          provider_writes =
              write_row ports organization_id request plan supplier_id
                ExecutionState.compensation_required ports.finished_at none
                (some "provider_write_failed")
              ∷ rows;
          failure = some (ports.message e);
        }),
        key ∷ calls,
      )
      | ok found ↦
          write_groups ports organization_id request plan suppliers (references ++ found)
            (write_row ports organization_id request plan supplier_id ExecutionState.succeeded
                (ports.write_completed_at key) (reference_in found) none
              ∷ rows)
            (key ∷ calls)
    ]
