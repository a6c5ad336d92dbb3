-- ===== src/Journal/Receipts.antt =====
-- The receipts of a row after `observe` and `reconcile`.
use creatidy_kernel.Base.{
  ℕ, ◌+◌, String, ◌≡◌, refl, true, false, ◌&&◌, Option, none, some, List, [], ◌∷◌, arith, nat_eq,
  string_eq, names_eq, optional_eq, contains, ok,
}
use creatidy_kernel.Journal.Tables.{
  OperationStatus-discrete, ObservationKind-discrete, Lookup-discrete, operation_status_eq,
  observation_kind_eq, lookup_eq, OperationStatus, ObservationKind, Lookup, Operation, Observation,
  Reconciliation,
}
use creatidy_kernel.Journal.Operations.{is_settled, is_retry_proof}
use creatidy_kernel.Journal.Evidence.{
  in_progress, is_execution, check_observation, next_status, advance, is_falsy, lacks_reference,
  check_lookup, settle,
}
use creatidy_kernel.Journal.Validation.{has_receipt, has_observation, has_proof, check_receipts}
use creatidy_kernel.Journal.Rows.{is_sound}

pub receipts-dispatch :
    (o : Operation) (until : ℕ) (obs : List Observation) (recs : List Reconciliation)
    → check_receipts o obs recs ≡ ok tt
    → check_receipts
        (record o {
          fence = o.fence + 1;
          lease_until = some until;
          status = OperationStatus.dispatched;
          retry_proof = none;
        })
        obs
        recs
      ≡ ok tt
unfolding check_receipts has_receipt has_proof OperationStatus-discrete
receipts-dispatch o until obs recs h = ground (arith, h)

pub receipts-advance :
    (o : Operation) (new : Observation) (obs : List Observation) (recs : List Reconciliation)
    → check_receipts o obs recs ≡ ok tt
    → check_observation o new.kind new.reference ≡ ok tt
    → o.retry_proof ≡ none
    → (contains (ObservationKind.accepted ∷ ObservationKind.waiting ∷ []) new.kind
        && lacks_reference new.reference)
      ≡ false
    → check_receipts (advance o new.kind new.reference o) (new ∷ obs) recs ≡ ok tt
unfolding check_receipts has_receipt has_proof has_observation check_observation advance next_status
    lacks_reference OperationStatus-discrete ObservationKind-discrete is_execution in_progress
receipts-advance o new obs recs h c p g = ground (arith, h, c, p, g)

pub receipts-settle :
    (o : Operation) (new : Reconciliation) (obs : List Observation) (recs : List Reconciliation)
    → check_receipts o obs recs ≡ ok tt
    → check_lookup o new ≡ ok tt
    → o.fence ≡ new.fence
    → contains (OperationStatus.dispatched ∷ OperationStatus.unknown ∷ []) o.status ≡ true
    → check_receipts (settle new o) obs (new ∷ recs) ≡ ok tt
unfolding check_receipts has_receipt has_proof has_observation check_lookup settle is_falsy
    OperationStatus-discrete Lookup-discrete
receipts-settle o new obs recs h c f s = at_outcome new.outcome refl
  where
    at_outcome :
        (outcome : Lookup)
        → new.outcome ≡ outcome
        → check_receipts (settle new o) obs (new ∷ recs) ≡ ok tt
    at_outcome Lookup.absent e = rw e (ground (arith, h, rw e at c, f, e))
    at_outcome Lookup.idempotent e = rw e (ground (arith, h, rw e at c, f, e))
    at_outcome Lookup.found e = rw e (ground (arith, h, rw e at c, f, e))
    at_outcome Lookup.unknown e = rw e (ground (arith, h, rw e at c, f, e))

pub dispatched-is_sound :
    (o : Operation) (now lease : ℕ)
    → is_settled o.status ≡ false
    → is_sound o ≡ true
    → is_sound (record o {
      fence = o.fence + 1;
      lease_until = some (now + lease);
      status = OperationStatus.dispatched;
      retry_proof = none;
    })
      ≡ true
unfolding is_sound is_settled OperationStatus-discrete
dispatched-is_sound o now lease s h = ground (arith, s, h)

pub advance-is_sound :
    (o : Operation) (kind : ObservationKind) (reference : Option String)
    → check_observation o kind reference ≡ ok tt
    → o.retry_proof ≡ none
    → (contains (ObservationKind.accepted ∷ ObservationKind.waiting ∷ []) kind
        && lacks_reference reference)
      ≡ false
    → is_sound o ≡ true
    → is_sound (advance o kind reference o) ≡ true
unfolding is_sound check_observation advance next_status lacks_reference OperationStatus-discrete
    ObservationKind-discrete is_execution in_progress
advance-is_sound o kind reference c p g h = ground (arith, c, p, g, h)

pub settle-is_sound :
    (o : Operation) (new : Reconciliation)
    → check_lookup o new ≡ ok tt
    → contains (OperationStatus.dispatched ∷ OperationStatus.unknown ∷ []) o.status ≡ true
    → is_sound o ≡ true
    → is_sound (settle new o) ≡ true
unfolding is_sound check_lookup settle is_falsy is_retry_proof OperationStatus-discrete
    Lookup-discrete
settle-is_sound o new c s h = at_outcome new.outcome refl
  where
    at_outcome : (outcome : Lookup) → new.outcome ≡ outcome → is_sound (settle new o) ≡ true
    at_outcome Lookup.absent e = rw e (ground (arith, rw e at c, s, h))
    at_outcome Lookup.idempotent e = rw e (ground (arith, rw e at c, s, h))
    at_outcome Lookup.found e = rw e (ground (arith, rw e at c, s, h))
    at_outcome Lookup.unknown e = rw e (ground (arith, rw e at c, s, h))
