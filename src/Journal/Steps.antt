-- ===== src/Journal/Steps.antt =====
-- The journals that the operations reach.
use creatidy_kernel.Base.{
  is_blank, ℕ, ◌+◌, String, ◌≡◌, refl, sym, ap, subst, ◌⊎◌, inl, inr, Bool, true, false, ◌&&◌, ◌||◌,
  not, none, [], ◌∷◌, arith, Option-cases, is_some, differ, leb, ◌==◌, ◌!=◌, nat_eq, string_eq,
  names_eq, optional_eq, is_empty, find?, contains, raise_if, >>=-eq-ok, >>-eq-ok, ok-injective,
  raise_if-eq-ok, value_error, operation_conflict, ok,
}
use creatidy_kernel.Journal.Tables.{
  operation_status_eq, observation_kind_eq, lookup_eq, empty_journal, attempts_at, OperationStatus,
  ObservationKind, Operation, Observation, Reconciliation, Journal, Request, Codec,
}
use creatidy_kernel.Journal.Operations.{
  operation, commit_intent, is_held, Gate, check_claim, dispatch, claim, add_transport,
  record_transport,
}
use creatidy_kernel.Journal.Evidence.{
  check_observation, is_same, lacks_reference, add_observation, observe, check_lookup, reconcile,
}
use creatidy_kernel.Journal.Preservation.{observed, reconciled}

-- One call that returns.
pub data Move (codec : Codec) (gate : Gate) : Journal → Journal → Type 0 where
  commit :
      {j k : Journal} (ident effect_key : String) (request : Request)
      → commit_intent codec ident effect_key request j ≡ ok k
      → Move codec gate j k
  send :
      {j k : Journal} (ident : String) (now lease fence : ℕ)
      → claim codec gate j ident now lease ≡ ok (fence, k)
      → Move codec gate j k
  transport :
      {j k : Journal} (ident : String) (fence : ℕ) (succeeded : Bool)
      → record_transport j ident fence succeeded ≡ ok k
      → Move codec gate j k
  note : {j k : Journal} (new : Observation) → observe j new ≡ ok k → Move codec gate j k
  look_up :
      {j k : Journal} (new : Reconciliation) (now : ℕ)
      → reconcile j new now ≡ ok k
      → Move codec gate j k

-- The calls that return, from the empty journal on.
pub data Reached (codec : Codec) (gate : Gate) : Journal → Type 0 where
  origin : {j : Journal} → j ≡ empty_journal → Reached codec gate j
  move : {j k : Journal} → Reached codec gate j → Move codec gate j k → Reached codec gate k

-- What a successful claim has read and written.
pub record Claimed (codec : Codec) (gate : Gate) (j k : Journal) (ident : String)
    (now lease fence : ℕ) : Type 0 where
  pub op : Operation
  pub reserved : Journal
  pub read : operation j ident ≡ ok op
  pub gated : gate j op ≡ ok reserved
  pub checked : check_claim codec j op now ≡ ok tt
  pub fenced : fence ≡ op.fence + 1
  pub written : k ≡ dispatch ident now lease op reserved

pub claim-eq-ok :
    (codec : Codec) (gate : Gate) (j : Journal) (ident : String) (now lease fence : ℕ) {k : Journal}
    → claim codec gate j ident now lease ≡ ok (fence, k)
    → Claimed codec gate j k ident now lease fence
unfolding claim
claim-eq-ok codec gate j ident now lease fence h =
    let a = >>-eq-ok (raise_if (leb lease 0) value_error) _ h in
    let b = >>=-eq-ok (operation j ident) _ a.1 in
    let c = >>=-eq-ok (gate j b.0) _ b.2 in
    let d = >>-eq-ok (check_claim codec j b.0 now) _ c.2 in
    let e = ok-injective d.1 in
    record {
      op = b.0;
      reserved = c.0;
      read = b.1;
      gated = c.1;
      checked = d.0;
      fenced = sym (ap (λ p. p.0) e);
      written = sym (ap (λ p. p.1) e);
    }

-- What a successful observation has read and written, unless it is known already.
pub record Observed (j k : Journal) (new : Observation) : Type 0 where
  pub op : Operation
  pub read : operation j new.operation_id ≡ ok op
  pub referenced :
      (contains (ObservationKind.accepted ∷ ObservationKind.waiting ∷ []) new.kind
        && lacks_reference new.reference)
      ≡ false
  pub fenced : op.fence ≡ new.fence
  pub sent : is_empty (attempts_at j new.operation_id) ≡ false
  pub live : op.retry_proof ≡ none
  pub outcome :
      (k ≡ j)
      ⊎ ((check_observation op new.kind new.reference ≡ ok tt)
          × (k ≡ observed op new j)
          × (find? (λ o. o.observation_id == new.observation_id) j.observations ≡ none))

add_observation-eq-ok :
    (j : Journal) (op : Operation) (new : Observation) {k : Journal}
    → add_observation j op new ≡ ok k
    → (k ≡ j)
      ⊎ ((check_observation op new.kind new.reference ≡ ok tt)
          × (k ≡ observed op new j)
          × (find? (λ o. o.observation_id == new.observation_id) j.observations ≡ none))
unfolding add_observation
add_observation-eq-ok j op new h =
    elim (Option-cases (find? (λ o. o.observation_id == new.observation_id) j.observations)) [
      | inl unknown_yet ↦
          let a =
            >>-eq-ok (check_observation op new.kind new.reference) _
              (rw (unknown_yet, add_observation) at h) in
          inr (a.0, sym (ok-injective a.1), unknown_yet)
      | inr known ↦
          let a =
            >>-eq-ok (raise_if (not (is_same known.0 new)) operation_conflict) _
              (rw (known.1, add_observation) at h) in
          inl (sym (ok-injective a.1))
    ]

pub observe-eq-ok :
    (j : Journal) (new : Observation) {k : Journal} → observe j new ≡ ok k → Observed j k new
unfolding observe
observe-eq-ok j new h =
    let a = >>-eq-ok (raise_if (is_blank new.observation_id) value_error) _ h in
    let b = >>-eq-ok (raise_if _ operation_conflict) _ a.1 in
    let c = >>=-eq-ok (operation j new.operation_id) _ b.1 in
    let d = >>-eq-ok (raise_if _ operation_conflict) _ c.2 in
    let e = >>-eq-ok (raise_if (is_some c.0.retry_proof) operation_conflict) _ d.1 in
    record {
      op = c.0;
      read = c.1;
      referenced = raise_if-eq-ok _ _ b.0;
      fenced = ground (arith, d.0);
      sent = ground (arith, d.0);
      live = ground (arith, e.0);
      outcome = add_observation-eq-ok j c.0 new e.1;
    }

-- What a successful reconciliation has read and written.
pub record LookedUp (j k : Journal) (new : Reconciliation) (now : ℕ) : Type 0 where
  pub op : Operation
  pub read : operation j new.operation_id ≡ ok op
  pub fenced : op.fence ≡ new.fence
  pub sent : is_empty (attempts_at j new.operation_id) ≡ false
  pub unsettled :
      contains (OperationStatus.dispatched ∷ OperationStatus.unknown ∷ []) op.status ≡ true
  pub free : is_held op now ≡ false
  pub checked : check_lookup op new ≡ ok tt
  pub written : k ≡ reconciled new j

pub reconcile-eq-ok :
    (j : Journal) (new : Reconciliation) (now : ℕ) {k : Journal}
    → reconcile j new now ≡ ok k
    → LookedUp j k new now
unfolding reconcile
reconcile-eq-ok j new now h =
    let a = >>-eq-ok (raise_if (is_blank new.evidence) operation_conflict) _ h in
    let b = >>=-eq-ok (operation j new.operation_id) _ a.1 in
    let c =
      >>-eq-ok
        (raise_if
          (b.0.fence != new.fence
            || is_empty (attempts_at j new.operation_id)
            || not
                (contains (OperationStatus.dispatched ∷ OperationStatus.unknown ∷ []) b.0.status))
          operation_conflict)
        _ b.2 in
    let d = >>-eq-ok (raise_if (is_held b.0 now) operation_conflict) _ c.1 in
    let e = >>-eq-ok (check_lookup b.0 new) _ d.1 in
    record {
      op = b.0;
      read = b.1;
      fenced = ground (arith, c.0);
      sent = ground (arith, c.0);
      unsettled = ground (arith, c.0);
      free = raise_if-eq-ok _ _ d.0;
      checked = e.0;
      written = sym (ok-injective e.1);
    }

add_transport-eq-ok :
    (j : Journal) (ident : String) (fence : ℕ) (succeeded : Bool) {k : Journal}
    → add_transport j ident fence succeeded ≡ ok k
    → k ≡ record j { transports = k.transports }
unfolding add_transport
add_transport-eq-ok j ident fence succeeded {k} h =
    elim (Option-cases (find? (λ t. t.operation_id == ident && t.fence == fence) j.transports)) [
      | inl unknown_yet ↦
          subst (λ k. k ≡ record j { transports = k.transports })
            (ok-injective (rw (unknown_yet, add_transport) at h)) refl
      | inr known ↦
          let c =
            >>-eq-ok (raise_if (differ known.0.succeeded succeeded) operation_conflict) _
              (rw (known.1, add_transport) at h) in
          subst (λ k. k ≡ record j { transports = k.transports }) (ok-injective c.1) refl
    ]

-- A transport report touches nothing but its own table.
pub record_transport-eq-ok :
    (j : Journal) (ident : String) (fence : ℕ) (succeeded : Bool) {k : Journal}
    → record_transport j ident fence succeeded ≡ ok k
    → k ≡ record j { transports = k.transports }
unfolding record_transport
record_transport-eq-ok j ident fence succeeded h =
    let a = >>=-eq-ok (operation j ident) _ h in
    add_transport-eq-ok j ident fence succeeded (>>-eq-ok (raise_if _ operation_conflict) _ a.2).1
