-- ===== src/Journal/Held.antt =====
-- What calls do to a lease that has not ended: `_claim_operation`, `reconcile` of
-- `adapters/sqlite_store.py`.
use creatidy_kernel.Base.{
  is_blank, ℕ, ◌<◌, String, ◌≡◌, refl, sym, ◌∙◌, subst, inl, inr, true, false, ◌||◌, some, arith,
  Bool-cases, ◌==◌, nat_eq, string_eq, names_eq, optional_eq, ==-sound, raise_if, >>-eq-ok,
  ok-injective, value_error, ok,
}
use creatidy_kernel.Journal.Tables.{
  operation_status_eq, observation_kind_eq, lookup_eq, update, Operation, Observation,
  Reconciliation, Journal, Codec,
}
use creatidy_kernel.Journal.Operations.{
  operation, commit_intent, is_held, Gate, check_claim, dispatch, claim,
}
use creatidy_kernel.Journal.Evidence.{advance, observe, settle, reconcile}
use creatidy_kernel.Journal.Rows.{operation-eq-ok, Keeps}
use creatidy_kernel.Journal.Preservation.{dispatched_row, observed, reconciled}
use creatidy_kernel.Journal.Intents.{OnlyRecords, insert_intent-operation, Records-operation}
use creatidy_kernel.Journal.Steps.{
  claim-eq-ok, observe-eq-ok, reconcile-eq-ok, record_transport-eq-ok, Move, commit, send,
  transport, note, look_up,
}
use creatidy_kernel.Journal.Follows.{operation-update}

-- The calls that read a clock read it before the lease ends.
unfoldable pub Before :
    {codec : Codec} {gate : Gate} {j k : Journal} → ℕ → Move codec gate j k → Type 0
Before until (commit ident effect_key request h) = Unit
Before until (send ident now lease fence h) = now < until
Before until (transport ident fence succeeded h) = Unit
Before until (note new h) = Unit
Before until (look_up new now h) = now < until

-- Calls that return, one after the other.
pub data Early (codec : Codec) (gate : Gate) (until : ℕ) : Journal → Journal → Type 0 where
  at_once : {j k : Journal} → k ≡ j → Early codec gate until j k
  further :
      {j k l : Journal}
      → Early codec gate until j k
      → (m : Move codec gate k l) → Before until m
      → Early codec gate until j l

-- The row of an operation that bears a lease.
abbrev pub Leased : Journal → String → ℕ → Type 0
Leased j q until = (o : Operation) × (operation j q ≡ ok o) × (o.lease_until ≡ some until)

pub held-before :
    (o : Operation) (until now : ℕ)
    → o.lease_until ≡ some until
    → now < until
    → is_held o now ≡ true
unfolding is_held
held-before o until now h l = ground (arith, h, l)

-- A change of the row that does not touch the lease, or of another row.
Leased-update :
    (j k : Journal) (ident q : String) (until : ℕ) (step : Operation → Operation)
    → Keeps step
    → k.operations ≡ update ident step j.operations
    → ((o : Operation)
        → operation j q ≡ ok o
        → (q == ident) ≡ true
        → o.lease_until ≡ some until
        → (step o).lease_until ≡ some until)
    → Leased j q until
    → Leased k q until
Leased-update j k ident q until step keeps e stays (o, there_is, lease) =
    let after = operation-update j k ident q step keeps e there_is in
    let r = operation-eq-ok j q there_is in
    elim (Bool-cases (o.operation_id == ident)) [
      | inl own ↦
          let named : (q == ident) ≡ true = ground (arith, r.2, own) in
          (step o, rw own at after, stays o there_is named lease)
      | inr other ↦ (o, rw other at after, lease)
    ]

module _ (codec : Codec) (gate : Gate) (only : OnlyRecords codec gate) where
  claim-Leased :
      (j : Journal) (ident q : String) (now lease fence until : ℕ) {k : Journal}
      → claim codec gate j ident now lease ≡ ok (fence, k)
      → now < until
      → Leased j q until
      → Leased k q until
  claim-Leased j ident q now lease fence until {k} h early (o, there_is, l) =
      let c = claim-eq-ok codec gate j ident now lease fence h in
      subst (λ k. Leased k q until) (sym c.written)
        (Leased-update c.reserved (dispatch ident now lease c.op c.reserved) ident q until
          (dispatched_row now lease c.op) (record { ident = λ o. refl; key = λ o. refl })
          (unfold dispatch in refl)
          (λ p kept_row named m.
            let read : operation j q ≡ ok c.op = rw (==-sound q ident named) c.read in
            let same_op : o ≡ c.op = ok-injective (sym there_is ∙ read) in
            let free : is_held c.op now ≡ false = unfold check_claim in ground (arith, c.checked) in
            let held : is_held o now ≡ true = held-before o until now l early in
            absurd (cc (same_op, free, held)))
          (o, Records-operation codec q (only j c.op c.reserved c.gated) there_is, l))

  observe-Leased :
      (j : Journal) (new : Observation) (q : String) (until : ℕ) {k : Journal}
      → observe j new ≡ ok k
      → Leased j q until
      → Leased k q until
  observe-Leased j new q until {k} h leased =
      let c = observe-eq-ok j new h in
      elim c.outcome [
        | inl again ↦ subst (λ k. Leased k q until) (sym again) leased
        | inr written ↦
            subst (λ k. Leased k q until) (sym written.1)
              (Leased-update j (observed c.op new j) new.operation_id q until
                (advance c.op new.kind new.reference)
                (record { ident = λ o. unfold advance in refl; key = λ o. unfold advance in refl })
                refl (λ o there_is named l. unfold advance in l) leased)
      ]

  reconcile-Leased :
      (j : Journal) (new : Reconciliation) (now : ℕ) (q : String) (until : ℕ) {k : Journal}
      → reconcile j new now ≡ ok k
      → now < until
      → Leased j q until
      → Leased k q until
  reconcile-Leased j new now q until {k} h early (o, there_is, l) =
      let c = reconcile-eq-ok j new now h in
      subst (λ k. Leased k q until) (sym c.written)
        (Leased-update j (reconciled new j) new.operation_id q until (settle new)
          (record { ident = λ o. unfold settle in refl; key = λ o. unfold settle in refl }) refl
          (λ p kept_row named m.
            let read : operation j q ≡ ok c.op = rw (==-sound q new.operation_id named) c.read in
            let same_op : o ≡ c.op = ok-injective (sym there_is ∙ read) in
            let held : is_held o now ≡ true = held-before o until now l early in
            absurd (cc (same_op, c.free, held)))
          (o, there_is, l))

  Move-Leased :
      {j k : Journal} (q : String) (until : ℕ) (m : Move codec gate j k)
      → Before until m
      → Leased j q until
      → Leased k q until
  unfolding Before commit_intent
  Move-Leased {j} q until (commit ident effect_key request h) b (o, there_is, l) =
      let a = >>-eq-ok (raise_if (is_blank ident || is_blank effect_key) value_error) _ h in
      (o, insert_intent-operation codec ident effect_key request true j q a.1 there_is, l)
  Move-Leased {j} q until (send ident now lease fence h) b leased =
      claim-Leased j ident q now lease fence until h b leased
  Move-Leased {j} {k} q until (transport ident fence succeeded h) b (o, there_is, l) = (
    o,
    subst (λ k. operation k q ≡ ok o) (sym (record_transport-eq-ok j ident fence succeeded h))
        (unfold operation in there_is),
    l,
  )
  Move-Leased {j} q until (note new h) b leased = observe-Leased j new q until h leased
  Move-Leased {j} q until (look_up new now h) b leased =
      reconcile-Leased j new now q until h b leased

  -- A lease that has not ended stays.
  pub Early-Leased :
      (q : String) (until : ℕ) {j k : Journal}
      → Early codec gate until j k
      → Leased j q until
      → Leased k q until
  Early-Leased q until (at_once e) leased = subst (λ k. Leased k q until) (sym e) leased
  Early-Leased q until (further before m b) leased =
      Move-Leased q until m b (Early-Leased q until before leased)
