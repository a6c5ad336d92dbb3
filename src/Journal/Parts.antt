-- ===== src/Journal/Parts.antt =====
-- The check of a row in its parts, and the evidence that a new row adds.
use creatidy_kernel.Base.{
  ℕ, ◌+◌, String, ◌≡◌, refl, true, false, not, Option, none, some, List, [], ◌∷◌, arith, ◌==◌,
  nat_eq, string_eq, names_eq, optional_eq, is_empty, select, contains, raise_if, >>-eq-ok,
  corrupt_history, ok,
}
use creatidy_kernel.Journal.Tables.{
  OperationStatus-discrete, ObservationKind-discrete, Lookup-discrete, operation_status_eq,
  observation_kind_eq, lookup_eq, attempts_at, observations_at, reconciliations_at, OperationStatus,
  ObservationKind, Operation, DeliveryAttempt, Reconciliation, Journal, Codec,
}
use creatidy_kernel.Journal.Evidence.{in_progress, next_status, advance, settle}
use creatidy_kernel.Journal.Validation.{
  maximum, check_fence, check_receipts, check_request_json, check_row,
}

pub record Parts (codec : Codec) (j : Journal) (o : Operation) : Type 0 where
  pub request : check_request_json codec o ≡ ok tt
  pub outbox : contains j.outbox o.operation_id ≡ true
  pub fences : check_fence o (attempts_at j o.operation_id) ≡ ok tt
  pub receipts :
      check_receipts o (observations_at j o.operation_id) (reconciliations_at j o.operation_id)
      ≡ ok tt

pub parts :
    (codec : Codec) (j : Journal) (o : Operation) → check_row codec j o ≡ ok tt → Parts codec j o
unfolding check_row
parts codec j o h =
    let a = >>-eq-ok (check_request_json codec o) _ h in
    let b = >>-eq-ok (raise_if (not (contains j.outbox o.operation_id)) corrupt_history) _ a.1 in
    let c = >>-eq-ok (check_fence o (attempts_at j o.operation_id)) _ b.1 in
    record { request = a.0; outbox = ground (arith, b.0); fences = c.0; receipts = c.1 }

pub joined :
    (codec : Codec) (j : Journal) (o : Operation) → Parts codec j o → check_row codec j o ≡ ok tt
unfolding check_row
joined codec j o p = rw (p.request, p.outbox, p.fences) p.receipts

-- Two journals that tell the same of an operation.
pub check_row-agrees :
    (codec : Codec) (j k : Journal) (o : Operation)
    → k.outbox ≡ j.outbox
    → attempts_at k o.operation_id ≡ attempts_at j o.operation_id
    → observations_at k o.operation_id ≡ observations_at j o.operation_id
    → reconciliations_at k o.operation_id ≡ reconciliations_at j o.operation_id
    → check_row codec k o ≡ check_row codec j o
unfolding check_row
check_row-agrees codec j k o a b c d = rw (b, c, d, a) refl

-- A new row is seen under its own operation, and under no other one.
module _ {A : Type 0} (owner : A → String) (a : A) (xs : List A) where
  pub select-other :
      (ident : String)
      → (ident == owner a) ≡ false
      → select (λ b. owner b == ident) (a ∷ xs) ≡ select (λ b. owner b == ident) xs
  select-other ident h = ground arith

  pub select-own :
      (ident : String)
      → ident ≡ owner a
      → select (λ b. owner b == ident) (a ∷ xs) ≡ a ∷ select (λ b. owner b == ident) xs
  select-own ident h = ground arith

pub fence-dispatch :
    (o : Operation) (now lease : ℕ) (ident : String) (xs : List DeliveryAttempt)
    → check_fence o xs ≡ ok tt
    → check_fence
        (record o {
          fence = o.fence + 1;
          lease_until = some (now + lease);
          status = OperationStatus.dispatched;
          retry_proof = none;
        })
        (record {
          operation_id = ident;
          fence = o.fence + 1;
          claimed_at = now;
          lease_until = now + lease;
        }
          ∷ xs)
      ≡ ok tt
unfolding check_fence maximum OperationStatus-discrete
fence-dispatch o now lease ident xs h = ground (arith, h)

-- What leaves the fence of a dispatched operation, and does not make an intent of it.
fence-status :
    (o p : Operation) (xs : List DeliveryAttempt)
    → p.fence ≡ o.fence
    → (p.status == OperationStatus.intent) ≡ false
    → is_empty xs ≡ false
    → check_fence o xs ≡ ok tt
    → check_fence p xs ≡ ok tt
unfolding check_fence OperationStatus-discrete
fence-status o p [] e s n h = absurd (cc n)
fence-status o p (x ∷ xs) e s n h = ground (arith, h)

pub fence-advance :
    (o : Operation) (kind : ObservationKind) (reference : Option String) (xs : List DeliveryAttempt)
    → is_empty xs ≡ false
    → check_fence o xs ≡ ok tt
    → check_fence (advance o kind reference o) xs ≡ ok tt
unfolding advance next_status in_progress OperationStatus-discrete ObservationKind-discrete
fence-advance o kind reference xs n h =
    fence-status o (advance o kind reference o) xs refl (ground arith) n h

pub fence-settle :
    (o : Operation) (new : Reconciliation) (xs : List DeliveryAttempt)
    → is_empty xs ≡ false
    → check_fence o xs ≡ ok tt
    → check_fence (settle new o) xs ≡ ok tt
unfolding settle OperationStatus-discrete Lookup-discrete
fence-settle o new xs n h = fence-status o (settle new o) xs refl (ground arith) n h
