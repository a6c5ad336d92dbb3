-- ===== src/Journal/Validation.antt =====
-- The check of the journal at startup: `_validate_operation_records` of `adapters/sqlite_store.py`,
-- less the blobs of finalized artifacts.
use creatidy_kernel.Base.{
  ℕ, max, String, Bool, false, ◌&&◌, ◌||◌, not, Option, none, some, List, [], ◌∷◌, is_some, differ,
  ◌==◌, ◌!=◌, nat_eq, string_eq, names_eq, optional_eq, length, is_empty, any, any_option, contains,
  raise_if, ◌>>◌, each, corrupt_history, Result, err,
}
use creatidy_kernel.Journal.Tables.{
  operation_status_eq, observation_kind_eq, lookup_eq, status_of, attempts_at, observations_at,
  reconciliations_at, OperationStatus, ObservationKind, Lookup, Operation, DeliveryAttempt,
  Observation, Reconciliation, Journal, Codec,
}

unfoldable pub maximum : List DeliveryAttempt → ℕ
maximum [] = 0
maximum (a ∷ xs) = max a.fence (maximum xs)

-- A receipt for the accepted reference. `reference = NULL` is never true.
unfoldable pub has_receipt : Option String → List Observation → List Reconciliation → Bool
has_receipt none observations reconciliations = false
has_receipt (some reference) observations reconciliations =
    any (λ o. o.kind == ObservationKind.accepted && o.reference == some reference) observations
    || any (λ r. r.outcome == Lookup.found && r.reference == some reference) reconciliations

-- `SELECT 1 FROM operation_observations WHERE … kind = status`
unfoldable pub has_observation : OperationStatus → List Observation → Bool
has_observation status observations = any (λ o. status_of o.kind == status) observations

unfoldable pub has_proof : Operation → List Reconciliation → Bool
has_proof op reconciliations =
    any_option (λ proof. any (λ r. r.fence == op.fence && r.outcome == proof) reconciliations)
      op.retry_proof

unfoldable pub check_fence : Operation → List DeliveryAttempt → Result (Unit {0})
check_fence op attempts = do
  raise_if (op.fence != length attempts || not (is_empty attempts) && op.fence != maximum attempts)
      corrupt_history
  raise_if (differ (op.status == OperationStatus.intent) (length attempts == 0)) corrupt_history

unfoldable pub check_receipts :
    Operation → List Observation → List Reconciliation → Result (Unit {0})
check_receipts op observations reconciliations =
    let accepted = has_receipt op.accepted_reference observations reconciliations in
    do
      raise_if (differ (is_some op.accepted_reference) accepted) corrupt_history
      raise_if
          (contains
              (OperationStatus.accepted ∷ OperationStatus.running ∷ OperationStatus.waiting
                ∷ OperationStatus.terminal ∷ [])
              op.status
            && not accepted)
          corrupt_history
      raise_if
          (contains
              (OperationStatus.rejected ∷ OperationStatus.running ∷ OperationStatus.waiting
                ∷ OperationStatus.terminal ∷ [])
              op.status
            && not (has_observation op.status observations))
          corrupt_history
      raise_if (is_some op.retry_proof && not (has_proof op reconciliations)) corrupt_history

unfoldable pub check_request_json : Codec → Operation → Result (Unit {0})
check_request_json codec op = elim (codec.loads op.request_json) [
  | none ↦ err corrupt_history
  | some request ↦
      raise_if
        (codec.dumps request != op.request_json
          || codec.sha256 op.request_json != op.request_digest)
        corrupt_history
]

unfoldable pub check_row : Codec → Journal → Operation → Result (Unit {0})
check_row codec journal op = do
  check_request_json codec op
  raise_if (not (contains journal.outbox op.operation_id)) corrupt_history
  check_fence op (attempts_at journal op.operation_id)
  check_receipts op (observations_at journal op.operation_id)
      (reconciliations_at journal op.operation_id)

-- `_validate_operation_records`
unfoldable pub validate_records : Codec → Journal → Result (Unit {0})
validate_records codec journal = each (check_row codec journal) journal.operations
