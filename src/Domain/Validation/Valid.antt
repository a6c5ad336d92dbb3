-- ===== src/Domain/Validation/Valid.antt =====
-- The state that `Program._validate` accepts.
use creatidy_kernel.Base.{
  String, ◌≡◌, refl, ap, ◌∙◌, ◌≢◌, ◌⊎◌, inl, inr, true, false, ◌&&◌, ◌||◌, not, some, List, [], ◌∷◌,
  map, arith, Bool-cases, Option-cases, is_some, ◌==◌, ◌!=◌, nat_eq, string_eq, names_eq,
  optional_eq, ==-sound, any, find_last?, select, last?, All, contains, unique, raise_if, or_raise,
  >>=-eq-ok, >>-eq-ok, or_raise-eq-ok, raise_if-eq-ok, each, invalid_domain_value,
  duplicate_attempt, Result, ok,
}
use creatidy_kernel.Domain.Checks.{Digest, json_eq}
use creatidy_kernel.Domain.Values.{
  program_status_eq, work_unit_status_eq, attempt_status_eq, domain_action_eq, policy_reference_eq,
  bindings_eq, subjects_eq, ProgramStatus, WorkUnitStatus,
}
use creatidy_kernel.Domain.Spec.{unit_named, fingerprint, program_spec_eq, ProgramSpec}
use creatidy_kernel.Domain.Facts.{is_live, states_eq, Attempt, TrustedSatisfaction}
use creatidy_kernel.Domain.Projection.{States}
use creatidy_kernel.Domain.Program.{attempt_named, Program}
use creatidy_kernel.Domain.Validation.{
  historical, ends_with, is_chain, ids, fact_ids, has_lineage, check_history, check_ids,
  check_attempt, is_source, check_satisfaction, check_cancellation, check_projection,
  check_live_unit, check_live, check_end, validate,
}

-- The finished Attempt that a satisfaction cites is one of the Program.
abbrev pub HasSource : Digest → Program → TrustedSatisfaction → Type 0
HasSource digest p f =
    (a : Attempt) × (attempt_named p.attempts f.source_attempt_id ≡ some a)
    × (is_source digest p f a ≡ true)

pub record Valid (digest : Digest) (p : Program) : Type 0 where
  -- The specification is the last one of a chain of revisions.
  pub current : last? p.spec_history ≡ some p.spec
  pub chain : is_chain digest p.spec_history ≡ true
  pub unique_attempts : unique (ids p.attempts) ≡ true
  pub unique_facts : unique (fact_ids p.satisfactions) ≡ true
  pub lineages : All (λ a. has_lineage p.attempts a ≡ true) p.attempts
  pub sources : All (HasSource digest p) p.satisfactions
  -- No two live Attempts work on one WorkUnit.
  pub one_live : unique (map (λ a. a.spec.work_unit_id) (select is_live p.attempts)) ≡ true
  pub completed :
      (p.status ≢ ProgramStatus.completed)
      ⊎ All (λ s. s.status ≡ WorkUnitStatus.satisfied) p.work_unit_states
  pub cancelled : (p.status ≢ ProgramStatus.cancelled) ⊎ (any is_live p.attempts ≡ false)

each-eq-ok {ℓ κ} :
    {A : Type ℓ} {P : A → Type κ} (f : A → Result (Unit {0})) (xs : List A)
    → each f xs ≡ ok tt
    → ((x : A) → f x ≡ ok tt → P x)
    → All P xs
each-eq-ok f [] h k = tt
each-eq-ok f (x ∷ xs) h k = let r = >>-eq-ok (f x) _ h in (k x r.0, each-eq-ok f xs r.1 k)

ends_with_sound :
    (history : List ProgramSpec) (spec : ProgramSpec)
    → ends_with history spec ≡ true
    → last? history ≡ some spec
ends_with_sound history spec h = elim (Option-cases (last? history)) [
  | inl e ↦ absurd (cc (rw (e, ends_with) at h))
  | inr e ↦ e.1 ∙ ap some (==-sound e.0 spec (rw (e.1, ends_with) at h))
]

-- WorkUnits that were not seen before are none of those seen.
unseen_unique :
    (ident : String) (seen : List String) (xs : List Attempt)
    → All (λ b. contains (ident ∷ seen) b.spec.work_unit_id ≡ false) xs
    → (contains (map (λ b. b.spec.work_unit_id) xs) ident ≡ false)
      × All (λ b. contains seen b.spec.work_unit_id ≡ false) xs
unseen_unique ident seen [] h = (refl, tt)
unseen_unique ident seen (b ∷ xs) h =
    let r = unseen_unique ident seen xs h.1 in
    (ground (arith, h.0, r.0), (ground (arith, h.0), r.1))

satisfied-All :
    (states : States)
    → any (λ s. s.status != WorkUnitStatus.satisfied) states ≡ false
    → All (λ s. s.status ≡ WorkUnitStatus.satisfied) states
satisfied-All [] h = tt
satisfied-All (s ∷ states) h = (ground arith, satisfied-All states (ground arith))

module _ (digest : Digest) (p : Program) where
  history_valid :
      check_history digest p ≡ ok tt
      → (last? p.spec_history ≡ some p.spec) × (is_chain digest p.spec_history ≡ true)
  unfolding check_history
  history_valid h =
      let a =
        >>-eq-ok (raise_if (not (ends_with p.spec_history p.spec)) invalid_domain_value) _ h in
      let b =
        >>-eq-ok
          (raise_if (not (unique (map (λ s. s.revision) p.spec_history))) invalid_domain_value) _
          a.1 in
      (
        ends_with_sound p.spec_history p.spec (ground (arith, raise_if-eq-ok _ _ a.0)),
        ground (arith, raise_if-eq-ok _ _ b.1),
      )

  ids_valid :
      check_ids digest p ≡ ok tt
      → (unique (ids p.attempts) ≡ true) × (unique (fact_ids p.satisfactions) ≡ true)
  unfolding check_ids
  ids_valid h =
      let a = >>-eq-ok (raise_if (not (unique (ids p.attempts))) duplicate_attempt) _ h in
      (ground (arith, raise_if-eq-ok _ _ a.0), ground (arith, raise_if-eq-ok _ _ a.1))

  attempt_valid : (a : Attempt) → check_attempt digest p a ≡ ok tt → has_lineage p.attempts a ≡ true
  unfolding check_attempt
  attempt_valid a h =
      let o =
        >>=-eq-ok
          (or_raise (historical digest p.spec_history a.spec.spec_revision a.spec.spec_digest)
            invalid_domain_value)
          _ h in
      let b =
        >>-eq-ok (raise_if (a.spec.program_id != p.spec.program_id) invalid_domain_value) _ o.2 in
      let c =
        >>-eq-ok
          (raise_if (not (is_some (unit_named o.0.work_units a.spec.work_unit_id)))
            invalid_domain_value)
          _ b.1 in
      ground (arith, raise_if-eq-ok _ _ c.1)

  satisfaction_valid :
      (f : TrustedSatisfaction) → check_satisfaction digest p f ≡ ok tt → HasSource digest p f
  unfolding check_satisfaction
  satisfaction_valid f h =
      let o =
        >>=-eq-ok
          (or_raise (historical digest p.spec_history f.spec_revision f.spec_digest)
            invalid_domain_value)
          _ h in
      let b = >>-eq-ok (raise_if (f.program_id != p.spec.program_id) invalid_domain_value) _ o.2 in
      let print = >>=-eq-ok (fingerprint digest o.0 f.work_unit_id) _ b.1 in
      let c =
        >>-eq-ok (raise_if (f.work_unit_fingerprint != print.0) invalid_domain_value) _ print.2 in
      let s =
        >>=-eq-ok (or_raise (attempt_named p.attempts f.source_attempt_id) invalid_domain_value) _
          c.1 in
      let e = >>-eq-ok (raise_if (not (is_source digest p f s.0)) invalid_domain_value) _ s.2 in
      (s.0, or_raise-eq-ok _ _ s.1, ground (arith, raise_if-eq-ok _ _ e.0))

  check_live_unit-fresh :
      (seen : List String) (a : Attempt)
      → check_live_unit digest p seen a ≡ ok tt
      → contains seen a.spec.work_unit_id ≡ false
  unfolding check_live_unit
  check_live_unit-fresh seen a h =
      let s =
        >>=-eq-ok
          (or_raise (find_last? (λ s. s.work_unit_id == a.spec.work_unit_id) p.work_unit_states)
            invalid_domain_value)
          _ h in
      let b =
        >>-eq-ok
          (raise_if (contains seen a.spec.work_unit_id || s.0.status == WorkUnitStatus.cancelled)
            invalid_domain_value)
          _ s.2 in
      ground (arith, raise_if-eq-ok _ _ b.0)

  check_live-unique :
      (attempts : List Attempt) (seen : List String)
      → check_live digest p attempts seen ≡ ok tt
      → (unique (map (λ a. a.spec.work_unit_id) (select is_live attempts)) ≡ true)
        × All (λ a. contains seen a.spec.work_unit_id ≡ false) (select is_live attempts)
  unfolding check_live
  check_live-unique [] seen h = (refl, tt)
  check_live-unique (a ∷ rest) seen h = elim (Bool-cases (is_live a)) [
    | inl live ↦
        let k = >>-eq-ok (check_live_unit digest p seen a) _ (rw live at h) in
        let r = check_live-unique rest (a.spec.work_unit_id ∷ seen) k.1 in
        let f = unseen_unique a.spec.work_unit_id seen (select is_live rest) r.1 in
        rw live (ground (arith, f.0, r.0), (check_live_unit-fresh seen a k.0, f.1))
    | inr dead ↦ rw dead (check_live-unique rest seen (rw dead at h))
  ]

  end_valid :
      check_end digest p ≡ ok tt
      → ((p.status ≢ ProgramStatus.completed)
          ⊎ All (λ s. s.status ≡ WorkUnitStatus.satisfied) p.work_unit_states)
        × ((p.status ≢ ProgramStatus.cancelled) ⊎ (any is_live p.attempts ≡ false))
  unfolding check_end
  end_valid h =
      let unsatisfied = any (λ s. s.status != WorkUnitStatus.satisfied) p.work_unit_states in
      let a =
        >>-eq-ok
          (raise_if (p.status == ProgramStatus.completed && unsatisfied) invalid_domain_value) _
          h in
      let b = raise_if-eq-ok (p.status == ProgramStatus.completed && unsatisfied) _ a.0 in
      let c =
        raise_if-eq-ok (p.status == ProgramStatus.cancelled && any is_live p.attempts) _ a.1 in
      (
        elim (Bool-cases (p.status == ProgramStatus.completed)) [
          | inl e ↦ inr (satisfied-All p.work_unit_states (ground (arith, b, e)))
          | inr e ↦ inl (λ f. ground (arith, e, f))
        ],
        elim (Bool-cases (p.status == ProgramStatus.cancelled)) [
          | inl e ↦ inr (ground (arith, c, e))
          | inr e ↦ inl (λ f. ground (arith, e, f))
        ],
      )

-- A Program that passes the checks is valid.
pub validate-Valid : (digest : Digest) (p : Program) → validate digest p ≡ ok tt → Valid digest p
unfolding validate
validate-Valid digest p h =
    let h1 = >>-eq-ok (check_history digest p) _ h in
    let h2 = >>-eq-ok (check_ids digest p) _ h1.1 in
    let h3 = >>-eq-ok (each (check_attempt digest p) p.attempts) _ h2.1 in
    let h4 = >>-eq-ok (each (check_satisfaction digest p) p.satisfactions) _ h3.1 in
    let h5 = >>-eq-ok (each (check_cancellation digest p) p.cancellations) _ h4.1 in
    let h6 = >>-eq-ok (check_projection digest p) _ h5.1 in
    let h7 = >>-eq-ok (check_live digest p p.attempts []) _ h6.1 in
    let history = history_valid digest p h1.0 in
    let unique_ids = ids_valid digest p h2.0 in
    let last = end_valid digest p h7.1 in
    record {
      current = history.0;
      chain = history.1;
      unique_attempts = unique_ids.0;
      unique_facts = unique_ids.1;
      lineages = each-eq-ok (check_attempt digest p) p.attempts h3.0 (attempt_valid digest p);
      sources =
          each-eq-ok (check_satisfaction digest p) p.satisfactions h4.0
            (satisfaction_valid digest p);
      one_live = (check_live-unique digest p p.attempts [] h7.0).0;
      completed = last.0;
      cancelled = last.1;
    }
