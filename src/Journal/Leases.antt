-- ===== src/Journal/Leases.antt =====
-- One delivery at a time: what a claim refuses to others.
use creatidy_kernel.Base.{
  is_blank, ℕ, ◌+◌, ◌<◌, String, ◌≡◌, refl, sym, ◌∙◌, subst, ◌≢◌, Bool, true, false, none, some,
  List, arith, ◌==◌, ◌!=◌, nat_eq, string_eq, names_eq, optional_eq, length, is_empty, raise_if,
  ◌>>◌, ok-injective, Error, operation_conflict, Result, err, ok,
}
use creatidy_kernel.Journal.Tables.{
  operation_status_eq, observation_kind_eq, lookup_eq, attempts_at, Operation, DeliveryAttempt,
  Observation, Reconciliation, Journal, Codec,
}
use creatidy_kernel.Journal.Operations.{
  operation, is_held, Gate, check_claim, dispatch, claim, record_transport,
}
use creatidy_kernel.Journal.Evidence.{observe, reconcile}
use creatidy_kernel.Journal.Validation.{check_fence}
use creatidy_kernel.Journal.Rows.{operation-eq-ok}
use creatidy_kernel.Journal.Parts.{parts}
use creatidy_kernel.Journal.Preservation.{dispatched_row}
use creatidy_kernel.Journal.Intents.{ReadsBack, OnlyRecords}
use creatidy_kernel.Journal.Steps.{claim-eq-ok, reconcile-eq-ok, send, Reached, move}
use creatidy_kernel.Journal.Startup.{Claimed-read, Reached-Consistent}
use creatidy_kernel.Journal.Follows.{operation-update}
use creatidy_kernel.Journal.Held.{held-before, Early-Leased, Early}

module _ (codec : Codec) (gate : Gate) (only : OnlyRecords codec gate) (j : Journal)
    (ident : String) (now lease fence : ℕ) {k : Journal}
    (claimed : claim codec gate j ident now lease ≡ ok (fence, k)) where
  -- The row that a claim leaves.
  pub claim-operation :
      (o : Operation) × (operation k ident ≡ ok o)
      × (o.fence ≡ fence)
      × (o.lease_until ≡ some (now + lease))
      × (o.retry_proof ≡ none)
      × (is_empty (attempts_at k ident) ≡ false)
  claim-operation =
      let c = claim-eq-ok codec gate j ident now lease fence claimed in
      let read = Claimed-read codec gate only j ident c in
      let r = operation-eq-ok c.reserved ident read in
      let own : (c.op.operation_id == ident) ≡ true = ground (arith, r.2) in
      let after =
        operation-update c.reserved (dispatch ident now lease c.op c.reserved) ident ident
          (dispatched_row now lease c.op) (record { ident = λ o. refl; key = λ o. refl })
          (unfold dispatch in refl) read in
      (
        dispatched_row now lease c.op c.op,
        subst (λ k. operation k ident ≡ ok (dispatched_row now lease c.op c.op)) (sym c.written)
            (rw own at after),
        sym c.fenced,
        refl,
        refl,
        subst (λ k. is_empty (attempts_at k ident) ≡ false) (sym c.written)
            (unfold dispatch attempts_at in ground arith),
      )

  -- Where the work budget adds nothing but intents, once an operation has been claimed, after any
  -- calls that return and read the clock before the lease has ended, at a time before that end, a
  -- further claim of the operation and a reconciliation of it are refused with an exception.
  pub claim-claim :
      {l : Journal} (later lease' : ℕ) (new : Reconciliation)
      → Early codec gate (now + lease) k l
      → later < now + lease
      → new.operation_id ≡ ident
      → ((e : Error) × (claim codec gate l ident later lease' ≡ err e))
        × ((e : Error) × (reconcile l new later ≡ err e))
  claim-claim {l} later lease' new calls early named =
      let o = claim-operation in
      let leased = Early-Leased codec gate only ident (now + lease) calls (o.0, o.1, o.3) in
      (
        no_claim (claim codec gate l ident later lease') refl leased,
        no_lookup (reconcile l new later) refl leased,
      )
    where
      no_claim :
          (r : Result (ℕ × Journal))
          → claim codec gate l ident later lease' ≡ r
          → (p : Operation) × (operation l ident ≡ ok p) × (p.lease_until ≡ some (now + lease))
          → (e : Error) × (r ≡ err e)
      no_claim (err e) h leased = (e, refl)
      no_claim (ok (f, m)) h (p, there_is, until) =
          let c = claim-eq-ok codec gate l ident later lease' f h in
          let same_op : c.op ≡ p = ok-injective (sym c.read ∙ there_is) in
          let held : is_held c.op later ≡ true =
            rw same_op (held-before p (now + lease) later until early) in
          absurd (unfold check_claim in ground (arith, c.checked, held))

      no_lookup :
          (r : Result Journal)
          → reconcile l new later ≡ r
          → (p : Operation) × (operation l ident ≡ ok p) × (p.lease_until ≡ some (now + lease))
          → (e : Error) × (r ≡ err e)
      no_lookup (err e) h leased = (e, refl)
      no_lookup (ok m) h (p, there_is, until) =
          let c = reconcile-eq-ok l new later h in
          let read : operation l ident ≡ ok c.op = rw (sym named) c.read in
          let same_op : p ≡ c.op = ok-injective (sym there_is ∙ read) in
          let held : is_held p later ≡ true = held-before p (now + lease) later until early in
          absurd (cc (same_op, c.free, held))

  -- A report under another fence.
  pub claim-record_transport :
      (old : ℕ) (succeeded : Bool)
      → old ≢ fence
      → record_transport k ident old succeeded ≡ err operation_conflict
  unfolding record_transport
  claim-record_transport old succeeded other =
      let o = claim-operation in
      let differs : (o.0.fence != old) ≡ true = ground (arith, o.2, other) in rw (o.1, differs) refl

  -- Where the work budget adds nothing but intents, an observation of an operation that has been
  -- claimed, with an identifier that is not blank, is refused with OperationConflict if it bears
  -- another fence than the one that the claim returned.
  pub claim-observe :
      (new : Observation)
      → new.operation_id ≡ ident
      → is_blank new.observation_id ≡ false
      → new.fence ≢ fence
      → observe k new ≡ err operation_conflict
  unfolding observe
  claim-observe new named identified other =
      let o = claim-operation in
      let differs : (o.0.fence != new.fence) ≡ true = ground (arith, o.2, other) in
      let found_row : operation k new.operation_id ≡ ok o.0 = rw named o.1 in
      rw (identified, found_row, differs) (same_error _)
    where
      same_error :
          (b : Bool)
          → ◌≡◌ {A = Result Journal}
              (raise_if b operation_conflict >> err operation_conflict)
              (err operation_conflict)
      same_error true = refl
      same_error false = refl

fence-length :
    (o : Operation) (xs : List DeliveryAttempt) → check_fence o xs ≡ ok tt → o.fence ≡ length xs
unfolding check_fence
fence-length o xs h = ground (arith, h)

-- Where requests are read back as they were written and the work budget adds nothing but intents, a
-- claim at a journal that the operations reach returns the number of attempts of the operation
-- there were, and one more, which is the number of attempts there are afterwards.
pub claim-length :
    (codec : Codec) (gate : Gate) (j : Journal) (ident : String) (now lease fence : ℕ) {k : Journal}
    → ReadsBack codec
    → OnlyRecords codec gate
    → Reached codec gate j
    → claim codec gate j ident now lease ≡ ok (fence, k)
    → (fence ≡ length (attempts_at j ident) + 1) × (fence ≡ length (attempts_at k ident))
claim-length codec gate j ident now lease fence {k} reads only reached h =
    let c = claim-eq-ok codec gate j ident now lease fence h in
    let v = Reached-Consistent codec gate reads only reached in
    let w =
      Reached-Consistent codec gate reads only (move reached (send ident now lease fence h)) in
    let o = claim-operation codec gate only j ident now lease fence h in
    let r = operation-eq-ok j ident c.read in
    let q = operation-eq-ok k ident o.1 in
    let before = fence-length c.op _ (parts codec j c.op (v.rows c.op r.1)).fences in
    let after = fence-length o.0 _ (parts codec k o.0 (w.rows o.0 q.1)).fences in
    (
      rw r.2 at (
          let e : fence ≡ length (attempts_at j c.op.operation_id) + 1 =
            omega (arith, c.fenced, before) in
          e),
      sym o.2 ∙ rw q.2 at after,
    )
