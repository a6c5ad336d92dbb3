-- ===== src/Journal/Follows.antt =====
-- What one call does to an operation that is in the journal.
use creatidy_kernel.Base.{
  is_blank, ℕ, String, ◌≡◌, refl, sym, ap, ◌∙◌, subst, ◌⊎◌, inl, inr, true, false, ◌&&◌, ◌||◌,
  Option, none, some, List, [], ◌∷◌, arith, if◌then◌else◌, Bool-cases, ◌==◌, nat_eq, string_eq,
  names_eq, optional_eq, is_empty, find?, contains, raise_if, >>-eq-ok, ok-injective, value_error,
  ok,
}
use creatidy_kernel.Journal.Tables.{
  operation_status_eq, observation_kind_eq, lookup_eq, attempts_at, update, OperationStatus,
  ObservationKind, Operation, DeliveryAttempt, Observation, Reconciliation, Journal, Codec,
}
use creatidy_kernel.Journal.Operations.{
  operation, commit_intent, is_settled, is_retry_proof, is_held, Gate, check_claim, dispatch, claim,
}
use creatidy_kernel.Journal.Evidence.{
  check_observation, advance, lacks_reference, observe, check_lookup, settle, reconcile,
}
use creatidy_kernel.Journal.Validation.{check_fence, check_row}
use creatidy_kernel.Journal.Rows.{operation-eq-ok, Keeps}
use creatidy_kernel.Journal.Consistent.{Consistent}
use creatidy_kernel.Journal.Parts.{parts}
use creatidy_kernel.Journal.Preservation.{dispatched_row, observed, reconciled}
use creatidy_kernel.Journal.Intents.{OnlyRecords, insert_intent-operation, Records-operation}
use creatidy_kernel.Journal.Steps.{
  claim-eq-ok, observe-eq-ok, reconcile-eq-ok, record_transport-eq-ok, Move, commit, send,
  transport, note, look_up,
}
use creatidy_kernel.Journal.Startup.{Claimed-read}

-- A row as a call has changed it, with the guards that were passed.
pub data Follows (o p : Operation) : Type 0 where
  kept : p ≡ o → Follows o p
  sent :
      (now lease : ℕ)
      → is_held o now ≡ false
      → is_settled o.status ≡ false
      → ((o.status == OperationStatus.intent) ≡ true) ⊎ (is_retry_proof o.retry_proof ≡ true)
      → p ≡ dispatched_row now lease o o
      → Follows o p
  told :
      (kind : ObservationKind) (reference : Option String)
      → check_observation o kind reference ≡ ok tt
      → (contains (ObservationKind.accepted ∷ ObservationKind.waiting ∷ []) kind
          && lacks_reference reference)
        ≡ false
      → o.retry_proof ≡ none
      → (o.status == OperationStatus.intent) ≡ false
      → p ≡ advance o kind reference o
      → Follows o p
  found_out :
      (new : Reconciliation)
      → check_lookup o new ≡ ok tt
      → contains (OperationStatus.dispatched ∷ OperationStatus.unknown ∷ []) o.status ≡ true
      → p ≡ settle new o
      → Follows o p

find-update :
    (ident q : String) (step : Operation → Operation) (xs : List Operation) {o : Operation}
    → Keeps step
    → find? (λ o. o.operation_id == q) xs ≡ some o
    → find? (λ o. o.operation_id == q) (update ident step xs)
      ≡ some (if o.operation_id == ident then step o else o)
unfolding update
find-update ident q step [] k h = absurd (cc h)
find-update ident q step (x ∷ xs) {o} k h =
    let e = changed_ident x in
    elim (Bool-cases (x.operation_id == q)) [
      | inl first ↦
          let is_it : x ≡ o = ground (arith, h, first) in
          rw (e, first) (ap (λ o. some (if o.operation_id == ident then step o else o)) is_it)
      | inr later ↦ rw (e, later) (find-update ident q step xs k (ground (arith, h, later)))
    ]
  where
    changed_ident :
        (o : Operation)
        → (if o.operation_id == ident then step o else o).operation_id ≡ o.operation_id
    changed_ident o = ground (arith, k.ident o)

pub operation-update :
    (j k : Journal) (ident q : String) (step : Operation → Operation) {o : Operation}
    → Keeps step
    → k.operations ≡ update ident step j.operations
    → operation j q ≡ ok o
    → operation k q ≡ ok (if o.operation_id == ident then step o else o)
unfolding operation
operation-update j k ident q step {o} keeps e h =
    let a = >>-eq-ok (raise_if (is_blank q) value_error) _ h in
    let found_row = (operation-eq-ok j q (unfold operation in h)).0 in
    rw (a.0, e, find-update ident q step j.operations keeps found_row) refl

same_row :
    (j : Journal) (ident q : String) {o p : Operation}
    → operation j q ≡ ok o
    → operation j ident ≡ ok p
    → (o.operation_id == ident) ≡ true
    → o ≡ p
same_row j ident q {o} {p} h k e =
    let r = operation-eq-ok j q h in
    let q_ident : q ≡ ident = ground (arith, r.2, e) in
    ok-injective (sym h ∙ ap (operation j) q_ident ∙ k)

-- The operation that a call names follows itself as `step` says, and any other one is kept.
follow_update :
    (j k l : Journal) (ident q : String) (op : Operation) (step : Operation → Operation)
    {o : Operation}
    → Keeps step
    → k.operations ≡ update ident step j.operations
    → operation j q ≡ ok o
    → operation j ident ≡ ok op
    → l ≡ k
    → Follows op (step op)
    → (p : Operation) × (operation l q ≡ ok p) × Follows o p
follow_update j k l ident q op step {o} keeps e h there_is same_journal follows =
    let after =
      subst (λ l. operation l q ≡ ok (if o.operation_id == ident then step o else o))
        (sym same_journal) (operation-update j k ident q step keeps e h) in
    elim (Bool-cases (o.operation_id == ident)) [
      | inl own ↦
          let eq = same_row j ident q h there_is own in
          (step o, rw own at after, subst (λ o. Follows o (step o)) (sym eq) follows)
      | inr other ↦ (o, rw other at after, kept refl)
    ]

fence-intent :
    (o : Operation) (xs : List DeliveryAttempt)
    → check_fence o xs ≡ ok tt
    → is_empty xs ≡ true
    → (o.status == OperationStatus.intent) ≡ true
unfolding check_fence
fence-intent o [] h e = ground (arith, h)
fence-intent o (x ∷ xs) h e = absurd (cc e)

pub fence-sent :
    (o : Operation) (xs : List DeliveryAttempt)
    → check_fence o xs ≡ ok tt
    → is_empty xs ≡ false
    → (o.status == OperationStatus.intent) ≡ false
unfolding check_fence
fence-sent o [] h e = absurd (cc e)
fence-sent o (x ∷ xs) h e = ground (arith, h)

-- The guards of a claim, and what the check at startup says of an operation without an attempt.
claim_guards :
    (codec : Codec) (j : Journal) (o : Operation) (now : ℕ)
    → check_claim codec j o now ≡ ok tt
    → check_row codec j o ≡ ok tt
    → (is_held o now ≡ false)
      × (is_settled o.status ≡ false)
      × (((o.status == OperationStatus.intent) ≡ true) ⊎ (is_retry_proof o.retry_proof ≡ true))
unfolding check_claim
claim_guards codec j o now h row = (ground (arith, h), ground (arith, h), cleared)
  where
    cleared : ((o.status == OperationStatus.intent) ≡ true) ⊎ (is_retry_proof o.retry_proof ≡ true)
    cleared = elim (Bool-cases (is_empty (attempts_at j o.operation_id))) [
      | inl unsent ↦
          inl (fence-intent o (attempts_at j o.operation_id) (parts codec j o row).fences unsent)
      | inr tried ↦ inr (ground (arith, h, tried))
    ]

module _ (codec : Codec) (gate : Gate) (only : OnlyRecords codec gate) where
  claim-Follows :
      (j : Journal) (ident q : String) (now lease fence : ℕ) {k : Journal} {o : Operation}
      → Consistent codec j
      → claim codec gate j ident now lease ≡ ok (fence, k)
      → operation j q ≡ ok o
      → (p : Operation) × (operation k q ≡ ok p) × Follows o p
  claim-Follows j ident q now lease fence {k} v h there_is =
      let c = claim-eq-ok codec gate j ident now lease fence h in
      let r = operation-eq-ok j ident c.read in
      let g = claim_guards codec j c.op now c.checked (v.rows c.op r.1) in
      follow_update c.reserved (dispatch ident now lease c.op c.reserved) k ident q c.op
        (dispatched_row now lease c.op) (record { ident = λ o. refl; key = λ o. refl })
        (unfold dispatch in refl)
        (Records-operation codec q (only j c.op c.reserved c.gated) there_is)
        (Claimed-read codec gate only j ident c) c.written (sent now lease g.0 g.1 g.2 refl)

  observe-Follows :
      (j : Journal) (new : Observation) (q : String) {k : Journal} {o : Operation}
      → Consistent codec j
      → observe j new ≡ ok k
      → operation j q ≡ ok o
      → (p : Operation) × (operation k q ≡ ok p) × Follows o p
  observe-Follows j new q {k} {o} v h there_is =
      let c = observe-eq-ok j new h in
      elim c.outcome [
        | inl again ↦ (o, subst (λ k. operation k q ≡ ok o) (sym again) there_is, kept refl)
        | inr written ↦
            let r = operation-eq-ok j new.operation_id c.read in
            let sent_before =
              fence-sent c.op (attempts_at j c.op.operation_id)
                (parts codec j c.op (v.rows c.op r.1)).fences (rw r.2 c.sent) in
            follow_update j (observed c.op new j) k new.operation_id q c.op
              (advance c.op new.kind new.reference)
              (record { ident = λ o. unfold advance in refl; key = λ o. unfold advance in refl })
              refl there_is c.read written.1
              (told new.kind new.reference written.0 c.referenced c.live sent_before refl)
      ]

  reconcile-Follows :
      (j : Journal) (new : Reconciliation) (now : ℕ) (q : String) {k : Journal} {o : Operation}
      → reconcile j new now ≡ ok k
      → operation j q ≡ ok o
      → (p : Operation) × (operation k q ≡ ok p) × Follows o p
  reconcile-Follows j new now q {k} h there_is =
      let c = reconcile-eq-ok j new now h in
      follow_update j (reconciled new j) k new.operation_id q c.op (settle new)
        (record { ident = λ o. unfold settle in refl; key = λ o. unfold settle in refl }) refl
        there_is c.read c.written (found_out new c.checked c.unsettled refl)

  pub Move-Follows :
      (q : String) {j k : Journal} {o : Operation}
      → Consistent codec j
      → Move codec gate j k
      → operation j q ≡ ok o
      → (p : Operation) × (operation k q ≡ ok p) × Follows o p
  unfolding commit_intent
  Move-Follows q {j} {k} {o} v (commit ident effect_key request h) there_is =
      let a = >>-eq-ok (raise_if (is_blank ident || is_blank effect_key) value_error) _ h in
      (o, insert_intent-operation codec ident effect_key request true j q a.1 there_is, kept refl)
  Move-Follows q {j} v (send ident now lease fence h) there_is =
      claim-Follows j ident q now lease fence v h there_is
  Move-Follows q {j} {k} {o} v (transport ident fence succeeded h) there_is =
      (o, transport_keeps k (record_transport-eq-ok j ident fence succeeded h), kept refl)
    where
      transport_keeps :
          (k : Journal) → k ≡ record j { transports = k.transports } → operation k q ≡ ok o
      transport_keeps k e = subst (λ k. operation k q ≡ ok o) (sym e) (unfold operation in there_is)
  Move-Follows q {j} v (note new h) there_is = observe-Follows j new q v h there_is
  Move-Follows q {j} v (look_up new now h) there_is = reconcile-Follows j new now q h there_is
