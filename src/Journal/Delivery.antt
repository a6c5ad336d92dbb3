-- ===== src/Journal/Delivery.antt =====
-- The journal implements an automaton: what a delivery is, apart from times, fences and digests.
use creatidy_kernel.Base.{
  ℕ, String, ◌≡◌, refl, sym, ap, subst, ◌⊎◌, inl, inr, true, false, ◌&&◌, Option, none, some, [],
  ◌∷◌, arith, if◌then◌else◌, Option-cases, is_some, ◌==◌, nat_eq, string_eq, names_eq, optional_eq,
  contains, ok,
}
use creatidy_kernel.Journal.Tables.{
  OperationStatus-discrete, ObservationKind-discrete, Lookup-discrete, operation_status_eq,
  observation_kind_eq, lookup_eq, OperationStatus, ObservationKind, Lookup, Operation,
  Reconciliation, Journal, Codec,
}
use creatidy_kernel.Journal.Operations.{operation, is_settled, is_retry_proof, Gate}
use creatidy_kernel.Journal.Evidence.{
  in_progress, is_execution, check_observation, next_status, advance, is_falsy, lacks_reference,
  check_lookup, settle,
}
use creatidy_kernel.Journal.Rows.{operation-eq-ok, is_sound}
use creatidy_kernel.Journal.Preservation.{dispatched_row}
use creatidy_kernel.Journal.Intents.{ReadsBack, OnlyRecords}
use creatidy_kernel.Journal.Steps.{Move, Reached}
use creatidy_kernel.Journal.Startup.{Reached-Consistent}
use creatidy_kernel.Journal.Follows.{Move-Follows, Follows, kept, sent, told, found_out}

-- Not yet sent; sent, with an outcome that nobody knows; free to be sent again; accepted under a
-- reference; finished under a reference; rejected.
pub data Phase : Type 0 where
  unsent uncertain cleared refused : Phase
  taken : String → Phase
  finished : String → Phase

-- The automaton: a delivery is sent once, and again only after it has been cleared; a reference stays
-- with it; a finished or rejected one stays as it is.
pub data Turn : Phase → Phase → Type 0 where
  stay : {p q : Phase} → q ≡ p → Turn p q
  send_first : {p q : Phase} → p ≡ Phase.unsent → q ≡ Phase.uncertain → Turn p q
  clear : {p q : Phase} → p ≡ Phase.uncertain → q ≡ Phase.cleared → Turn p q
  reopen : {p q : Phase} → p ≡ Phase.cleared → q ≡ Phase.uncertain → Turn p q
  accept :
      {p q : Phase} (reference : String)
      → p ≡ Phase.uncertain
      → q ≡ Phase.taken reference
      → Turn p q
  find :
      {p q : Phase} (reference : String) → p ≡ Phase.cleared → q ≡ Phase.taken reference → Turn p q
  complete :
      {p q : Phase} (reference : String)
      → p ≡ Phase.taken reference
      → q ≡ Phase.finished reference
      → Turn p q
  refuse : {p q : Phase} → p ≡ Phase.uncertain → q ≡ Phase.refused → Turn p q

unfoldable pub phase_of : Operation → Phase
phase_of o =
    if o.status == OperationStatus.intent
    then Phase.unsent
    else if o.status == OperationStatus.rejected
    then Phase.refused
    else elim o.accepted_reference [
      | some reference ↦
          if o.status == OperationStatus.terminal
          then Phase.finished reference
          else Phase.taken reference
      | none ↦ if is_some o.retry_proof then Phase.cleared else Phase.uncertain
    ]

dispatched-Turn :
    (o : Operation) (now lease : ℕ)
    → is_sound o ≡ true
    → is_settled o.status ≡ false
    → ((o.status == OperationStatus.intent) ≡ true) ⊎ (is_retry_proof o.retry_proof ≡ true)
    → Turn (phase_of o) (phase_of (dispatched_row now lease o o))
unfolding phase_of is_sound is_settled OperationStatus-discrete is_retry_proof
dispatched-Turn o now lease s u (inl first) =
    send_first (ground (arith, first)) (ground (arith, s, u, first))
dispatched-Turn o now lease s u (inr again) =
    reopen (ground (arith, s, u, again)) (ground (arith, s, u, again))

told-Turn :
    (o : Operation) (kind : ObservationKind) (reference : Option String)
    → is_sound o ≡ true
    → check_observation o kind reference ≡ ok tt
    → (contains (ObservationKind.accepted ∷ ObservationKind.waiting ∷ []) kind
        && lacks_reference reference)
      ≡ false
    → o.retry_proof ≡ none
    → (o.status == OperationStatus.intent) ≡ false
    → Turn (phase_of o) (phase_of (advance o kind reference o))
unfolding phase_of is_sound check_observation advance next_status lacks_reference
    OperationStatus-discrete ObservationKind-discrete is_execution in_progress
told-Turn o ObservationKind.accepted none s c g p i = absurd (cc g)
told-Turn o ObservationKind.accepted (some word) s c g p i =
    elim (Option-cases o.accepted_reference) [
      | inl free ↦ accept word (ground (arith, s, c, p, i, free)) (ground (arith, free))
      | inr bound ↦ stay (ground (arith, s, c, p, i, bound.1))
    ]
told-Turn o ObservationKind.rejected reference s c g p i =
    refuse (ground (arith, s, c, p, i)) (ground (arith, s, c, p, i))
told-Turn o ObservationKind.running reference s c g p i = stay (ground (arith, s, c, p, i))
told-Turn o ObservationKind.waiting reference s c g p i = stay (ground (arith, s, c, p, i))
told-Turn o ObservationKind.terminal reference s c g p i =
    elim (Option-cases o.accepted_reference) [
      | inl free ↦ absurd (ground (arith, c, free))
      | inr bound ↦
          complete bound.0 (ground (arith, s, c, p, i, bound.1)) (ground (arith, s, c, bound.1))
    ]
told-Turn o ObservationKind.unknown reference s c g p i = stay (ground (arith, s, c, p, i))

settled-Turn :
    (o : Operation) (new : Reconciliation)
    → is_sound o ≡ true
    → check_lookup o new ≡ ok tt
    → contains (OperationStatus.dispatched ∷ OperationStatus.unknown ∷ []) o.status ≡ true
    → Turn (phase_of o) (phase_of (settle new o))
unfolding phase_of is_sound check_lookup settle is_falsy OperationStatus-discrete Lookup-discrete
settled-Turn o new s c u = at_outcome new.outcome refl
  where
    free : o.accepted_reference ≡ none
    free = ground (arith, s, u)

    cleared_by :
        (outcome : Lookup)
        → new.outcome ≡ outcome
        → contains (Lookup.absent ∷ Lookup.idempotent ∷ []) outcome ≡ true
        → Turn (phase_of o) (phase_of (settle new o))
    cleared_by outcome e f = elim (Option-cases o.retry_proof) [
      | inl held ↦ clear (ground (arith, free, u, held)) (rw (e, free) (ground (arith, f)))
      | inr before ↦ stay (rw (e, free) (ground (arith, f, u, before.1)))
    ]

    found_by :
        (reference : Option String)
        → new.reference ≡ reference
        → new.outcome ≡ Lookup.found
        → Turn (phase_of o) (phase_of (settle new o))
    found_by none r e = absurd (ground (arith, rw (e, r, check_lookup) at c))
    found_by (some word) r e = elim (Option-cases o.retry_proof) [
      | inl held ↦ accept word (ground (arith, free, u, held)) (rw (e, free, r) (ground (arith, e)))
      | inr before ↦
          find word (ground (arith, free, u, before.1)) (rw (e, free, r) (ground (arith, e)))
    ]

    at_outcome :
        (outcome : Lookup) → new.outcome ≡ outcome → Turn (phase_of o) (phase_of (settle new o))
    at_outcome Lookup.absent e = cleared_by Lookup.absent e refl
    at_outcome Lookup.idempotent e = cleared_by Lookup.idempotent e refl
    at_outcome Lookup.found e = found_by new.reference refl e
    at_outcome Lookup.unknown e = elim (Option-cases o.retry_proof) [
      | inl held ↦ stay (rw (e, free) (ground (arith, u, held)))
      | inr before ↦ reopen (ground (arith, free, u, before.1)) (rw (e, free) (ground (arith, e)))
    ]

pub Follows-Turn :
    (o p : Operation) → is_sound o ≡ true → Follows o p → Turn (phase_of o) (phase_of p)
Follows-Turn o p s (kept e) = stay (ap phase_of e)
Follows-Turn o p s (sent now lease held unsettled allowed e) =
    subst (λ p. Turn (phase_of o) (phase_of p)) (sym e)
      (dispatched-Turn o now lease s unsettled allowed)
Follows-Turn o p s (told kind reference c g r i e) =
    subst (λ p. Turn (phase_of o) (phase_of p)) (sym e) (told-Turn o kind reference s c g r i)
Follows-Turn o p s (found_out new c u e) =
    subst (λ p. Turn (phase_of o) (phase_of p)) (sym e) (settled-Turn o new s c u)

-- Where requests are read back as they were written and the work budget adds nothing but intents,
-- each call that returns, at a journal that the operations reach, leaves an operation that is there
-- in place, and its delivery stays in its phase or takes one turn of the automaton: it is sent when
-- it is unsent or cleared, cleared, accepted, found, finished under the same reference, or refused.
pub Move-Turn :
    (codec : Codec) (gate : Gate) (ident : String) {j k : Journal} {o : Operation}
    → ReadsBack codec
    → OnlyRecords codec gate
    → Reached codec gate j
    → Move codec gate j k
    → operation j ident ≡ ok o
    → (p : Operation) × (operation k ident ≡ ok p) × Turn (phase_of o) (phase_of p)
Move-Turn codec gate ident {j} {k} {o} reads only reached step there_is =
    let v = Reached-Consistent codec gate reads only reached in
    let f = Move-Follows codec gate only ident v step there_is in
    (f.0, f.1, Follows-Turn o f.0 (v.sound o (operation-eq-ok j ident there_is).1) f.2)
