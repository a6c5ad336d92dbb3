-- ===== src/Domain/Recording/Termination.antt =====
-- The fuel of the loop of `AmendProgramSpec` and of `SatisfyWorkUnit`.
use creatidy_kernel.Base.{
  ℕ, zero, suc, ◌+◌, ◌≤◌, ◌<◌, String, ◌≡◌, ap, ◌∙◌, subst, inl, inr, Bool, true, false, List, [],
  ◌∷◌, ◌++◌, map, arith, Bool-cases, length, count_if, In, here, there, >>=-eq-ok, ok-injective,
  select_m, Ends-ok, Ends-raise_if, Ends-bind, Ends-then, Ends-if, Ends-option, Ends-select_m,
  ends_rules, illegal_transition, Result, ok, Ends,
}
use creatidy_kernel.Domain.Checks.{Digest}
use creatidy_kernel.Domain.Values.{bindings, InputBinding}
use creatidy_kernel.Domain.Topology.{WorkUnit}
use creatidy_kernel.Domain.Spec.{unit_named, fingerprint, ProgramSpec}
use creatidy_kernel.Domain.Spec.Termination.{fingerprint-Ends}
use creatidy_kernel.Domain.Amendment.{amend, SpecAmendment, Amended, unchanged, proposed}
use creatidy_kernel.Domain.Amendment.Termination.{amend-Ends}
use creatidy_kernel.Domain.Facts.{
  is_live, trusted_satisfaction, Attempt, TrustedSatisfaction, WorkUnitCancellation,
  AttemptCancellation,
}
use creatidy_kernel.Domain.Projection.{States, state_at, resolved_inputs, project}
use creatidy_kernel.Domain.Projection.Termination.{resolved_inputs-Ends, project-Ends}
use creatidy_kernel.Domain.Program.{Program}
use creatidy_kernel.Domain.Transitions.{cancel_live}
use creatidy_kernel.Domain.Transitions.Termination.{cancel_live-Ends, cancel_live-lt}
use creatidy_kernel.Domain.Recording.{
  first_historical, check_fact, check_source, satisfy, is_withdrawn, is_invalid, invalid_attempts,
  end_round, withdraw, adopt, amend_program, keep,
}

count_if-le-length : (xs : List Attempt) → count_if is_live xs ≤ length xs
count_if-le-length [] = omega arith
count_if-le-length (a ∷ xs) = ground (arith, count_if-le-length xs)

-- The first element of a comprehension satisfies its condition.
In-of_select_m :
    (p : Attempt → Result Bool) (xs : List Attempt) {a : Attempt} {rest : List Attempt}
    → select_m p xs ≡ ok (a ∷ rest)
    → In a xs × (p a ≡ ok true)
In-of_select_m p [] h = cc
In-of_select_m p (x ∷ xs) {a} {rest} h =
    let b = >>=-eq-ok (p x) _ h in
    let r = >>=-eq-ok (select_m p xs) _ b.2 in
    elim (Bool-cases b.0) [
      | inl yes_x ↦
          let e = head_eq (ok-injective (rw yes_x at r.2)) in
          (here e, subst (λ c. p c ≡ ok true) e (b.1 ∙ ap ok yes_x))
      | inr no_x ↦ let m = In-of_select_m p xs (r.1 ∙ rw no_x at r.2) in (there m.0, m.1)
    ]
  where
    head_eq : {x a : Attempt} {xs ys : List Attempt} → x ∷ xs ≡ a ∷ ys → x ≡ a
    head_eq e = cc

module _ (digest : Digest) (spec : ProgramSpec) (history : List ProgramSpec)
    (facts : List TrustedSatisfaction) where
  is_invalid-is_live :
      (states : States) (a : Attempt)
      → is_invalid digest spec history facts states a ≡ ok true
      → is_live a ≡ true
  unfolding is_invalid
  is_invalid-is_live states a h = elim (Bool-cases (is_live a)) [
    | inl live ↦ live
    | inr dead ↦ cc (rw dead at h)
  ]

  is_withdrawn-Ends :
      (states : States) (unit : WorkUnit) (source : ProgramSpec) (a : Attempt)
      → Ends (is_withdrawn digest spec history facts states unit source a)
  unfolding is_withdrawn
  is_withdrawn-Ends states unit source a =
      Ends-bind (resolved_inputs spec unit states facts) _
        (resolved_inputs-Ends spec unit states facts)
        (λ inputs _.
          Ends-bind (fingerprint digest source a.spec.work_unit_id) _
            (fingerprint-Ends digest source _)
            (λ before _.
              Ends-bind (fingerprint digest spec a.spec.work_unit_id) _
                (fingerprint-Ends digest spec _)
                (λ after _. Ends-if _ _ _ (Ends-ok true) (
                  Ends-bind (state_at states a.spec.work_unit_id) _ (search (ends_rules, tt))
                    (λ s _. Ends-ok _)))))

  is_invalid-Ends :
      (states : States) (a : Attempt) → Ends (is_invalid digest spec history facts states a)
  unfolding is_invalid
  is_invalid-Ends states a =
      Ends-if (is_live a) _ _
        (Ends-option (unit_named spec.work_units a.spec.work_unit_id) _ _ (λ _. Ends-ok true)
          (λ unit _.
            Ends-option (first_historical digest history a.spec.spec_revision a.spec.spec_digest) _
              _ (λ _. Ends-ok true) (λ source _. is_withdrawn-Ends states unit source a)))
        (Ends-ok false)

  module _ (cancellations : List WorkUnitCancellation) (actor : String) (order : ℕ) where
    invalid_attempts-Ends :
        (attempts : List Attempt)
        → Ends (invalid_attempts digest spec history facts cancellations attempts)
    unfolding invalid_attempts
    invalid_attempts-Ends attempts =
        Ends-bind (project digest spec attempts facts cancellations) _
          (project-Ends digest spec attempts facts cancellations)
          (λ states _. Ends-select_m _ attempts (is_invalid-Ends states))

    -- The first one of the invalid Attempts is live.
    In-invalid :
        (attempts invalid : List Attempt) (a : Attempt)
        → invalid_attempts digest spec history facts cancellations attempts ≡ ok (a ∷ invalid)
        → In a attempts × (is_live a ≡ true)
    unfolding invalid_attempts
    In-invalid attempts invalid a h =
        let s = >>=-eq-ok (project digest spec attempts facts cancellations) _ h in
        let m = In-of_select_m (is_invalid digest spec history facts s.0) attempts s.2 in
        (m.0, is_invalid-is_live s.0 a m.1)

    end_round-Ends :
        (fuel : ℕ)
        (again : List Attempt
          → List AttemptCancellation
          → Result (List Attempt × List AttemptCancellation))
        → ((xs : List Attempt) (ys : List AttemptCancellation)
            → count_if is_live xs < fuel
            → Ends (again xs ys))
        → (attempts : List Attempt) (records : List AttemptCancellation) (invalid : List Attempt)
        → invalid_attempts digest spec history facts cancellations attempts ≡ ok invalid
        → count_if is_live attempts < suc fuel
        → Ends (end_round digest spec history facts again actor order attempts records invalid)
    unfolding end_round
    end_round-Ends fuel again ih attempts records [] e h = Ends-ok _
    end_round-Ends fuel again ih attempts records (a ∷ invalid) e h =
        let m = In-invalid attempts invalid a e in
        Ends-bind (cancel_live _ _ actor order attempts records) _
          (cancel_live-Ends _ _ actor order attempts records)
          (λ r c. ih r.0 r.1 (
            omega (
              arith,
              cancel_live-lt (map (λ b. b.spec.attempt_id) (a ∷ invalid)) _ actor order attempts
                  records m.0 (ground (arith, m.1)) c,
            )))

    -- With more fuel than there are live Attempts, the withdrawal loop of an amendment does not run
    -- out of it.
    pub withdraw-Ends :
        (fuel : ℕ) (attempts : List Attempt) (records : List AttemptCancellation)
        → count_if is_live attempts < fuel
        → Ends (withdraw digest spec history facts fuel cancellations actor order attempts records)
    unfolding withdraw
    withdraw-Ends zero attempts records h = absurd (omega arith)
    withdraw-Ends (suc fuel) attempts records h =
        Ends-bind (invalid_attempts digest spec history facts cancellations attempts) _
          (invalid_attempts-Ends attempts)
          (λ invalid e. end_round-Ends fuel _ (withdraw-Ends fuel) attempts records invalid e h)

-- The amendment comes to an end.
pub amend_program-Ends :
    (digest : Digest) (p : Program) (actor : String) (amendment : SpecAmendment)
    → Ends (amend_program digest p actor amendment)
unfolding amend_program adopt
amend_program-Ends digest p actor amendment =
    Ends-then _ _ (Ends-raise_if _ illegal_transition tt) (
      Ends-bind (amend digest p.spec amendment) _ (amend-Ends digest p.spec amendment)
        (λ outcome _. adopt-Ends outcome))
  where
    adopt-Ends : (outcome : Amended) → Ends (adopt digest p actor outcome)
    adopt-Ends unchanged = Ends-ok keep
    adopt-Ends (proposed spec) =
        Ends-bind
          (withdraw digest spec (p.spec_history ++ spec ∷ []) p.satisfactions
            (suc (length p.attempts)) p.cancellations actor (p.revision + 1) p.attempts
            p.attempt_cancellations)
          _
          (withdraw-Ends digest spec (p.spec_history ++ spec ∷ []) p.satisfactions p.cancellations
            actor (p.revision + 1) (suc (length p.attempts)) p.attempts p.attempt_cancellations
            (omega (arith, count_if-le-length p.attempts)))
          (λ r _. Ends-ok _)

bindings-Ends : (values : List InputBinding) → Ends (bindings values)
unfolding bindings
bindings-Ends values = search (ends_rules, tt) depth 20

trusted_satisfaction-Ends : (fact : TrustedSatisfaction) → Ends (trusted_satisfaction fact)
unfolding trusted_satisfaction
trusted_satisfaction-Ends fact = search (ends_rules, bindings-Ends, tt) depth 30 fits 30000

check_fact-Ends :
    (digest : Digest) (p : Program) (actor : String) (fact : TrustedSatisfaction)
    → Ends (check_fact digest p actor fact)
unfolding check_fact
check_fact-Ends digest p actor fact = search (ends_rules, fingerprint-Ends, tt) depth 30

check_source-Ends :
    (p : Program) (unit : WorkUnit) (fact : TrustedSatisfaction) → Ends (check_source p unit fact)
unfolding check_source
check_source-Ends p unit fact = search (ends_rules, tt) depth 30

pub satisfy-Ends :
    (digest : Digest) (p : Program) (actor : String) (fact : TrustedSatisfaction)
    → Ends (satisfy digest p actor fact)
unfolding satisfy
satisfy-Ends digest p actor fact =
    search (ends_rules, check_fact-Ends, check_source-Ends, trusted_satisfaction-Ends) depth 30
