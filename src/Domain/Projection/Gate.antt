-- ===== src/Domain/Projection/Gate.antt =====
-- What the dependencies of a WorkUnit decide in `_project`.
use creatidy_kernel.Base.{
  String, ◌≡◌, refl, sym, ap, ◌∙◌, subst, ◌≢◌, ◌⊎◌, inl, inr, Bool, true, false, ◌&&◌, ◌||◌, Option,
  none, some, List, [], ◌∷◌, arith, Bool-cases, is_some, differ, ◌==◌, ◌!=◌, nat_eq, string_eq,
  names_eq, optional_eq, eq_of_ne, any, All, In, here, there, ◌>>=◌, raise_if, >>=-eq-ok, >>-eq-ok,
  ok-injective, any_m, select_m, invalid_domain_value, Result, ok,
}
use creatidy_kernel.Domain.Checks.{Digest, nonempty, optional_nonempty, json_eq}
use creatidy_kernel.Domain.Values.{
  WorkUnitStatus-discrete, program_status_eq, work_unit_status_eq, attempt_status_eq,
  domain_action_eq, policy_reference_eq, bindings_eq, subjects_eq, WorkUnitStatus, InputBinding,
}
use creatidy_kernel.Domain.Topology.{WorkUnit}
use creatidy_kernel.Domain.Spec.{work_unit, fingerprint, program_spec_eq, ProgramSpec}
use creatidy_kernel.Domain.Facts.{
  work_unit_state, states_eq, Attempt, TrustedSatisfaction, WorkUnitCancellation, WorkUnitState,
}
use creatidy_kernel.Domain.Projection.{
  States, state_at, is_waiting, resolved_inputs, is_matching, latest, unsatisfied_state,
  project_unit,
}

any_m-false {ℓ} :
    {A : Type ℓ} (p : A → Result Bool) (xs : List A)
    → any_m p xs ≡ ok false
    → All (λ x. p x ≡ ok false) xs
any_m-false p [] h = tt
any_m-false p (x ∷ xs) h =
    let b = >>=-eq-ok (p x) _ h in
    elim (Bool-cases b.0) [
      | inl yes_x ↦ absurd (cc (rw yes_x at b.2))
      | inr no_x ↦ (b.1 ∙ ap ok no_x, any_m-false p xs (rw no_x at b.2))
    ]

any_m-true {ℓ} :
    {A : Type ℓ} (p : A → Result Bool) (xs : List A) {b : Bool} {a : A}
    → In a xs
    → p a ≡ ok true
    → any_m p xs ≡ ok b
    → b ≡ true
any_m-true p [] m k h = elim m [ ]
any_m-true p (x ∷ xs) {b} (here e) k h =
    let c = >>=-eq-ok (p x) _ h in
    let yes_x = ok-injective (sym c.1 ∙ subst (λ y. p y ≡ ok true) (sym e) k) in
    sym (ok-injective (rw yes_x at c.2))
any_m-true p (x ∷ xs) {b} (there m) k h =
    let c = >>=-eq-ok (p x) _ h in
    elim (Bool-cases c.0) [
      | inl yes_x ↦ sym (ok-injective (rw yes_x at c.2))
      | inr no_x ↦ any_m-true p xs m k (rw no_x at c.2)
    ]

select_m-never {ℓ} :
    {A : Type ℓ} (p : A → Result Bool) (xs : List A)
    → ((a : A) → p a ≡ ok false)
    → select_m p xs ≡ ok []
select_m-never p [] h = refl
select_m-never p (x ∷ xs) h = rw (h x, select_m-never p xs h) refl

work_unit_state-status :
    (ident : String) (status : WorkUnitStatus) (attempt fact : Option String) {s : WorkUnitState}
    → work_unit_state ident status attempt fact ≡ ok s
    → s.status ≡ status
unfolding work_unit_state
work_unit_state-status ident status attempt fact h =
    let a = >>-eq-ok (nonempty ident) _ h in
    let b = >>-eq-ok (optional_nonempty attempt) _ a.1 in
    let c = >>-eq-ok (optional_nonempty fact) _ b.1 in
    let d =
      >>-eq-ok
        (raise_if (differ (is_some attempt) (status == WorkUnitStatus.active)) invalid_domain_value)
        _ c.1 in
    let e =
      >>-eq-ok
        (raise_if (differ (is_some fact) (status == WorkUnitStatus.satisfied)) invalid_domain_value)
        _ d.1 in
    sym (ap (λ (s : WorkUnitState). s.status) (ok-injective e.1))

-- The WorkUnit that `chosen` holds for the identifier is satisfied.
abbrev pub IsSatisfiedIn : States → String → Type 0
IsSatisfiedIn chosen d =
    (t : WorkUnitState) × (state_at chosen d ≡ ok t) × (t.status ≡ WorkUnitStatus.satisfied)

satisfied-All :
    (chosen : States) (dependencies : List String)
    → All
        (λ d. (state_at chosen d >>= λ s. ok (s.status != WorkUnitStatus.satisfied)) ≡ ok false)
        dependencies
    → All (IsSatisfiedIn chosen) dependencies
satisfied-All chosen [] h = tt
satisfied-All chosen (d ∷ ds) h =
    let t = >>=-eq-ok (state_at chosen d) _ h.0 in
    ((t.0, t.1, eq_of_ne _ _ (ok-injective t.2)), satisfied-All chosen ds h.1)

-- Inputs are resolved only where every dependency is satisfied.
pub resolved_inputs-satisfied :
    (spec : ProgramSpec) (unit : WorkUnit) (chosen : States) (facts : List TrustedSatisfaction)
    {inputs : List InputBinding}
    → resolved_inputs spec unit chosen facts ≡ ok (some inputs)
    → All (IsSatisfiedIn chosen) unit.dependencies
unfolding resolved_inputs is_waiting
resolved_inputs-satisfied spec unit chosen facts h =
    let w = >>=-eq-ok (is_waiting chosen unit.dependencies) _ h in
    elim (Bool-cases w.0) [
      | inl yes_w ↦ absurd (no_inputs (ok-injective (rw yes_w at w.2)))
      | inr no_w ↦ satisfied-All chosen unit.dependencies (any_m-false _ _ (w.1 ∙ ap ok no_w))
    ]
  where
    no_inputs : {i : List InputBinding} → none ≢ some i
    no_inputs e = cc

-- The statuses that the dependencies allow.
abbrev pub Gated : States → WorkUnit → WorkUnitState → Type 0
Gated chosen unit s =
    ((s.status ≡ WorkUnitStatus.cancelled)
      ⊎ (s.status ≡ WorkUnitStatus.pending)
      ⊎ All (IsSatisfiedIn chosen) unit.dependencies)
    × ((d : String) (t : WorkUnitState)
        → In d unit.dependencies
        → state_at chosen d ≡ ok t
        → t.status ≡ WorkUnitStatus.cancelled
        → s.status ≡ WorkUnitStatus.cancelled)

-- The state of a WorkUnit that is not cancelled, from its resolved inputs.
chosen_state :
    List Attempt
    → List TrustedSatisfaction
    → WorkUnit
    → String
    → String
    → Option (List InputBinding)
    → Result WorkUnitState
chosen_state attempts facts unit print ident inputs = do
  matching ← select_m (is_matching attempts unit print inputs) facts
  elim (latest matching) [
    | some fact ↦ work_unit_state ident WorkUnitStatus.satisfied none (some fact.reference_id)
    | none ↦ unsatisfied_state attempts ident inputs
  ]

chosen_state-none :
    (attempts : List Attempt) (facts : List TrustedSatisfaction) (unit : WorkUnit)
    (print ident : String) {s : WorkUnitState}
    → chosen_state attempts facts unit print ident none ≡ ok s
    → s.status ≡ WorkUnitStatus.pending
unfolding chosen_state is_matching latest unsatisfied_state
chosen_state-none attempts facts unit print ident {s} h =
    let never = select_m-never (is_matching attempts unit print none) facts (λ f. refl) in
    work_unit_state-status ident WorkUnitStatus.pending none none (
      subst
        (λ r.
          (r >>= λ matching. elim (latest matching) [
            | some fact ↦
                work_unit_state ident WorkUnitStatus.satisfied none (some fact.reference_id)
            | none ↦ unsatisfied_state attempts ident none
          ])
          ≡ ok s)
        never h)

opened :
    (spec : ProgramSpec) (attempts : List Attempt) (facts : List TrustedSatisfaction)
    (chosen : States) (unit : WorkUnit) (print ident : String) (inputs : Option (List InputBinding))
    {s : WorkUnitState}
    → resolved_inputs spec unit chosen facts ≡ ok inputs
    → chosen_state attempts facts unit print ident inputs ≡ ok s
    → (s.status ≡ WorkUnitStatus.pending) ⊎ All (IsSatisfiedIn chosen) unit.dependencies
opened spec attempts facts chosen unit print ident none r h =
    inl (chosen_state-none attempts facts unit print ident h)
opened spec attempts facts chosen unit print ident (some inputs) r h =
    inr (resolved_inputs-satisfied spec unit chosen facts r)

-- Where the projection of a WorkUnit returns a state, that is cancelled or pending unless each of
-- the WorkUnit's dependencies is satisfied, and it is cancelled where one of them is.
pub project_unit-Gated :
    (digest : Digest) (spec : ProgramSpec) (attempts : List Attempt)
    (facts : List TrustedSatisfaction) (cancellations : List WorkUnitCancellation) (chosen : States)
    (ident : String) {s : WorkUnitState}
    → project_unit digest spec attempts facts cancellations chosen ident ≡ ok s
    → (unit : WorkUnit) × (work_unit spec ident ≡ ok unit) × Gated chosen unit s
unfolding project_unit chosen_state WorkUnitStatus-discrete
project_unit-Gated digest spec attempts facts cancellations chosen ident {s} h =
    let u = >>=-eq-ok (work_unit spec ident) _ h in
    let f = >>=-eq-ok (fingerprint digest spec ident) _ u.2 in
    let b =
      >>=-eq-ok
        (any_m (λ d. state_at chosen d >>= λ s. ok (s.status == WorkUnitStatus.cancelled))
          u.0.dependencies)
        _ f.2 in
    let gone =
      b.0 || any (λ c. c.work_unit_id == ident && c.work_unit_fingerprint == f.0) cancellations in
    (
      u.0,
      u.1,
      elim (Bool-cases gone) [
        | inl yes_g ↦
            let c =
              work_unit_state-status ident WorkUnitStatus.cancelled none none (rw yes_g at b.2) in
            (inl c, λ d t m e k. c)
        | inr no_g ↦
            let i = >>=-eq-ok (resolved_inputs spec u.0 chosen facts) _ (rw no_g at b.2) in
            (
              inr (opened spec attempts facts chosen u.0 f.0 ident i.0 i.1 i.2),
              λ d t m e k. absurd (
                  never_blocked b.0 (ground (arith, no_g)) (
                    any_m-true
                      (λ d. state_at chosen d >>= λ s. ok (s.status == WorkUnitStatus.cancelled))
                      u.0.dependencies m (cancelled_dependency chosen d t e k) b.1)),
            )
      ],
    )
  where
    never_blocked : (b : Bool) → b ≡ false → b ≡ true → ⊥
    never_blocked b e f = cc

    cancelled_dependency :
        (chosen : States) (d : String) (t : WorkUnitState)
        → state_at chosen d ≡ ok t
        → t.status ≡ WorkUnitStatus.cancelled
        → (state_at chosen d >>= λ s. ok (s.status == WorkUnitStatus.cancelled)) ≡ ok true
    cancelled_dependency chosen d t e k = rw (e, k) refl
