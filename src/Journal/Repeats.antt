-- ===== src/Journal/Repeats.antt =====
-- A call that is made again.
use creatidy_kernel.Base.{
  is_blank, String, ◌≡◌, refl, sym, subst, inl, inr, true, false, ◌&&◌, ◌||◌, none, some, List, [],
  ◌∷◌, arith, is_some, ◌==◌, ◌!=◌, nat_eq, string_eq, names_eq, optional_eq, ==-refl, ne_of_eq,
  is_empty, find?, select, contains, raise_if, >>-eq-ok, raise_if-eq-ok, value_error, ok,
}
use creatidy_kernel.Journal.Tables.{
  operation_status_eq, observation_kind_eq, lookup_eq, attempts_at, ObservationKind, Operation,
  Observation, Journal, Request, Codec,
}
use creatidy_kernel.Journal.Operations.{insert_intent, operation, commit_intent}
use creatidy_kernel.Journal.Evidence.{advance, is_same, lacks_reference, add_observation, observe}
use creatidy_kernel.Journal.Rows.{operation-eq-ok}
use creatidy_kernel.Journal.Preservation.{observed}
use creatidy_kernel.Journal.Intents.{intended, insert_intent-cases}
use creatidy_kernel.Journal.Steps.{observe-eq-ok}
use creatidy_kernel.Journal.Follows.{operation-update}

is_same_refl : (new : Observation) → is_same new new ≡ true
unfolding is_same
is_same_refl new = ground arith

known_observation :
    (j : Journal) (op : Operation) (new : Observation) {prior : Observation}
    → find? (λ o. o.observation_id == new.observation_id) j.observations ≡ some prior
    → is_same prior new ≡ true
    → add_observation j op new ≡ ok j
unfolding add_observation
known_observation j op new h e = rw (add_observation, h, e) refl

-- The observation is known, the fence is the same and nothing has been reconciled.
observed-again :
    (j : Journal) (op : Operation) (new : Observation)
    → is_blank new.observation_id ≡ false
    → (contains (ObservationKind.accepted ∷ ObservationKind.waiting ∷ []) new.kind
        && lacks_reference new.reference)
      ≡ false
    → op.fence ≡ new.fence
    → is_empty (attempts_at j new.operation_id) ≡ false
    → op.retry_proof ≡ none
    → operation j new.operation_id ≡ ok op
    → observe (observed op new j) new ≡ ok (observed op new j)
unfolding observe
observed-again j op new named referenced fenced tried live there_is =
    let r = operation-eq-ok j new.operation_id there_is in
    let own : (op.operation_id == new.operation_id) ≡ true = ground (arith, r.2) in
    let after : operation (observed op new j) new.operation_id
        ≡ ok (advance op new.kind new.reference op) =
      rw own at (
        operation-update j (observed op new j) new.operation_id new.operation_id
          (advance op new.kind new.reference)
          (record { ident = λ o. unfold advance in refl; key = λ o. unfold advance in refl }) refl
          there_is) in
    let still : is_empty (attempts_at (observed op new j) new.operation_id) ≡ false =
      unfold attempts_at in tried in
    let fence_stays : ((advance op new.kind new.reference op).fence != new.fence) ≡ false =
      unfold advance in ne_of_eq op.fence new.fence fenced in
    let proof_stays : is_some (advance op new.kind new.reference op).retry_proof ≡ false =
      unfold advance in ground (arith, live) in
    let first : find? (λ o. o.observation_id == new.observation_id) (new ∷ j.observations)
        ≡ some new =
      ground arith in
    let known =
      known_observation (observed op new j) (advance op new.kind new.reference op) new first
        (is_same_refl new) in
    rw (named, referenced, after, fence_stays, still, proof_stays) known

observe-named :
    (j : Journal) (new : Observation) {k : Journal}
    → observe j new ≡ ok k
    → is_blank new.observation_id ≡ false
unfolding observe
observe-named j new h =
    raise_if-eq-ok _ _ (>>-eq-ok (raise_if (is_blank new.observation_id) value_error) _ h).0

-- An observation that has been accepted can be made again, which leaves the journal as it is.
pub observe-observe :
    (j : Journal) (new : Observation) {k : Journal} → observe j new ≡ ok k → observe k new ≡ ok k
observe-observe j new {k} h =
    let c = observe-eq-ok j new h in
    elim c.outcome [
      | inl again ↦
          subst (λ k. observe k new ≡ ok k) (sym again) (subst (λ k. observe j new ≡ ok k) again h)
      | inr written ↦
          subst (λ k. observe k new ≡ ok k) (sym written.1)
            (observed-again j c.op new (observe-named j new h) c.referenced c.fenced c.sent c.live
              c.read)
    ]

length-zero : {A : Type 0} (xs : List A) → is_empty xs ≡ true → xs ≡ []
length-zero [] h = refl
length-zero (x ∷ xs) h = absurd (cc h)

intent_again :
    (codec : Codec) (ident effect_key : String) (request : Request) (j : Journal)
    → select (λ o. o.operation_id == ident || o.effect_key == effect_key) j.operations ≡ []
    → insert_intent codec ident effect_key request true (intended codec ident effect_key request j)
      ≡ ok (intended codec ident effect_key request j)
unfolding insert_intent
intent_again codec ident effect_key request j none_yet = rw (==-refl ident, none_yet) (ground arith)

-- An intent that has been committed can be committed again, which leaves the journal as it is.
pub commit_intent-commit_intent :
    (codec : Codec) (ident effect_key : String) (request : Request) (j : Journal) {k : Journal}
    → commit_intent codec ident effect_key request j ≡ ok k
    → commit_intent codec ident effect_key request k ≡ ok k
unfolding commit_intent
commit_intent-commit_intent codec ident effect_key request j {k} h =
    let a = >>-eq-ok (raise_if (is_blank ident || is_blank effect_key) value_error) _ h in
    let named = raise_if-eq-ok _ _ a.0 in
    rw named (elim (insert_intent-cases codec ident effect_key request true j a.1) [
      | inl again ↦
          subst (λ k. insert_intent codec ident effect_key request true k ≡ ok k) (sym again)
            (subst (λ k. insert_intent codec ident effect_key request true j ≡ ok k) again a.1)
      | inr added ↦
          subst (λ k. insert_intent codec ident effect_key request true k ≡ ok k) (sym added.0)
            (intended-again added.1)
    ])
  where
    intended-again :
        is_empty (select (λ o. o.operation_id == ident || o.effect_key == effect_key) j.operations)
          ≡ true
        → insert_intent codec ident effect_key request true
            (intended codec ident effect_key request j)
          ≡ ok (intended codec ident effect_key request j)
    intended-again none_yet = intent_again codec ident effect_key request j (length-zero _ none_yet)
