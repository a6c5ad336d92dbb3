-- ===== src/Journal/Evidence.antt =====
-- What is learned of a delivery: `observe` and `reconcile` of
-- `adapters/sqlite_store.py`, lines 3722 to 3871.
use creatidy_kernel.Base.{
  is_blank, ℕ, String, Bool, true, ◌&&◌, ◌||◌, not, Option, none, some, [], ◌∷◌, if◌then◌else◌,
  is_some, ◌==◌, ◌!=◌, nat_eq, string_eq, names_eq, optional_eq, is_empty, find?, contains, ◌>>=◌,
  raise_if, ◌>>◌, value_error, operation_conflict, Result, ok,
}
use creatidy_kernel.Journal.Tables.{
  operation_status_eq, observation_kind_eq, lookup_eq, status_of, attempts_at, update,
  OperationStatus, ObservationKind, Lookup, Operation, Observation, Reconciliation, Journal,
}
use creatidy_kernel.Journal.Operations.{operation, is_held}

unfoldable pub in_progress : OperationStatus → Bool
in_progress status =
    contains (OperationStatus.accepted ∷ OperationStatus.running ∷ OperationStatus.waiting ∷ [])
      status

-- `running`, `waiting` and `terminal` tell of an execution.
unfoldable pub is_execution : ObservationKind → Bool
is_execution kind =
    contains (ObservationKind.running ∷ ObservationKind.waiting ∷ ObservationKind.terminal ∷ [])
      kind

unfoldable pub check_observation : Operation → ObservationKind → Option String → Result (Unit {0})
check_observation op kind reference = do
  raise_if
      (contains (OperationStatus.terminal ∷ OperationStatus.rejected ∷ []) op.status
        || in_progress op.status && kind == ObservationKind.rejected)
      operation_conflict
  raise_if (is_execution kind && not (is_some op.accepted_reference)) operation_conflict
  raise_if (is_execution kind && reference != op.accepted_reference) operation_conflict
  raise_if
      (kind == ObservationKind.accepted
        && is_some op.accepted_reference
        && reference != op.accepted_reference)
      operation_conflict
  raise_if
      (kind == ObservationKind.accepted
        && contains (OperationStatus.running ∷ OperationStatus.waiting ∷ []) op.status)
      operation_conflict
  raise_if
      (contains (ObservationKind.running ∷ ObservationKind.waiting ∷ []) kind
        && op.status == OperationStatus.unknown)
      operation_conflict

unfoldable pub next_status : Operation → ObservationKind → OperationStatus
next_status op kind =
    if kind != ObservationKind.unknown || not (in_progress op.status)
    then status_of kind
    else op.status

-- `COALESCE(first, second)`
abbrev pub coalesce : Option String → Option String → Option String
coalesce none second = second
coalesce (some first) second = some first

unfoldable pub advance : Operation → ObservationKind → Option String → Operation → Operation
advance op kind reference o = record o {
  status = next_status op kind;
  accepted_reference =
      coalesce o.accepted_reference (if kind == ObservationKind.accepted then reference else none);
}

-- `tuple(duplicate) != (operation_id, fence, kind, reference)`
unfoldable pub is_same : Observation → Observation → Bool
is_same prior new =
    prior.operation_id == new.operation_id
    && prior.fence == new.fence
    && prior.kind == new.kind
    && prior.reference == new.reference

-- `not reference`
unfoldable pub is_falsy : Option String → Bool
is_falsy none = true
is_falsy (some word) = word == ""

unfoldable pub lacks_reference : Option String → Bool
lacks_reference none = true
lacks_reference (some word) = is_blank word

-- The part of `observe` after the fence: an observation that is known is not written again.
unfoldable pub add_observation : Journal → Operation → Observation → Result Journal
add_observation journal op new =
    elim (find? (λ o. o.observation_id == new.observation_id) journal.observations) [
      | some prior ↦ raise_if (not (is_same prior new)) operation_conflict >> ok journal
      | none ↦
          check_observation op new.kind new.reference
          >> ok (record journal {
            operations =
                update new.operation_id (advance op new.kind new.reference) journal.operations;
            observations = new ∷ journal.observations;
          })
    ]

-- `observe`
unfoldable pub observe : Journal → Observation → Result Journal
observe journal new = do
  raise_if (is_blank new.observation_id) value_error
  raise_if
      (contains (ObservationKind.accepted ∷ ObservationKind.waiting ∷ []) new.kind
        && lacks_reference new.reference)
      operation_conflict
  op ← operation journal new.operation_id
  raise_if (op.fence != new.fence || is_empty (attempts_at journal new.operation_id))
      operation_conflict
  raise_if (is_some op.retry_proof) operation_conflict
  add_observation journal op new

-- The guards of `reconcile`
unfoldable pub check_lookup : Operation → Reconciliation → Result (Unit {0})
check_lookup op new = do
  raise_if
      (contains (Lookup.found ∷ Lookup.idempotent ∷ []) new.outcome
        && new.matched_digest != some op.request_digest)
      operation_conflict
  raise_if (new.outcome == Lookup.absent && not new.authoritative_absence) operation_conflict
  raise_if
      (new.outcome == Lookup.found
        && (is_falsy new.reference
            || is_some op.accepted_reference && new.reference != op.accepted_reference))
      operation_conflict
  raise_if
      (contains (Lookup.absent ∷ Lookup.idempotent ∷ []) new.outcome
        && is_some op.accepted_reference)
      operation_conflict

unfoldable pub settle : Reconciliation → Operation → Operation
settle new o = record o {
  status =
      if new.outcome == Lookup.found then OperationStatus.accepted else OperationStatus.unknown;
  accepted_reference =
      coalesce o.accepted_reference (if new.outcome == Lookup.found then new.reference else none);
  retry_proof =
      if contains (Lookup.absent ∷ Lookup.idempotent ∷ []) new.outcome
      then some new.outcome
      else none;
  lease_until = none;
}

-- `reconcile`
unfoldable pub reconcile : Journal → Reconciliation → ℕ → Result Journal
reconcile journal new now = do
  raise_if (is_blank new.evidence) operation_conflict
  op ← operation journal new.operation_id
  raise_if
      (op.fence != new.fence
        || is_empty (attempts_at journal new.operation_id)
        || not (contains (OperationStatus.dispatched ∷ OperationStatus.unknown ∷ []) op.status))
      operation_conflict
  raise_if (is_held op now) operation_conflict
  check_lookup op new
  ok (record journal {
    operations = update new.operation_id (settle new) journal.operations;
    reconciliations = new ∷ journal.reconciliations;
  })
