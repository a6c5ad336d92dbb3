-- ===== src/Domain/Apply/Admission.antt =====
-- The branch of `Program.apply` for `PrepareAttempt`.
use creatidy_kernel.Base.{
  ◌+◌, ◌≤◌, ◌<◌, min, String, ◌≡◌, subst, inr, ◌||◌, List, [], ◌∷◌, ◌++◌, arith, leb, ◌!=◌, nat_eq,
  string_eq, names_eq, optional_eq, eq_of_ne, length, length-append, count_if, raise_if, >>=-eq-ok,
  >>-eq-ok, ok-injective, raise_if-eq-ok, stale_revision, illegal_transition, authority_violation,
  budget_exceeded, ok,
}
use creatidy_kernel.Domain.Checks.{Digest, json_eq}
use creatidy_kernel.Domain.Values.{
  program_status_eq, work_unit_status_eq, attempt_status_eq, domain_action_eq, policy_reference_eq,
  bindings_eq, subjects_eq, ProgramStatus, AttemptStatus,
}
use creatidy_kernel.Domain.Topology.{WorkUnit}
use creatidy_kernel.Domain.Spec.{spec_digest, work_unit, program_spec_eq}
use creatidy_kernel.Domain.Facts.{attempt_of, is_live, states_eq, AttemptSpec, Attempt}
use creatidy_kernel.Domain.Program.{Program}
use creatidy_kernel.Domain.Transitions.{check_admission, check_request, prepare, Draft}
use creatidy_kernel.Domain.Transitions.Evolution.{Evolves-snoc}
use creatidy_kernel.Domain.Apply.Changes.{Extends-refl, Admitted, attempts-Changes, Changes}

attempt_of-prepared :
    (requested : AttemptSpec) (actor : String) {a : Attempt}
    → attempt_of requested AttemptStatus.prepared actor ≡ ok a
    → a.status ≡ AttemptStatus.prepared
unfolding attempt_of
attempt_of-prepared requested actor h = ground arith

check_request-active :
    (digest : Digest) (p : Program) (requested : AttemptSpec) {u : WorkUnit}
    → check_request digest p requested ≡ ok u
    → p.status ≡ ProgramStatus.active
unfolding check_request
check_request-active digest p requested h =
    let a =
      >>-eq-ok (raise_if (requested.program_id != p.spec.program_id) authority_violation) _ h in
    let b =
      >>-eq-ok
        (raise_if
          (requested.spec_revision != p.spec.revision
            || requested.spec_digest != spec_digest digest p.spec)
          stale_revision)
        _ a.1 in
    let u = >>=-eq-ok (work_unit p.spec requested.work_unit_id) _ b.1 in
    let c = >>-eq-ok (raise_if (p.status != ProgramStatus.active) illegal_transition) _ u.2 in
    eq_of_ne _ _ (raise_if-eq-ok (p.status != ProgramStatus.active) _ c.0)

-- The guards of an admission.
check_admission-eq-ok :
    (p : Program)
    → check_admission p ≡ ok tt
    → (length p.attempts < p.spec.budget.max_attempts)
      × (length p.attempts < p.spec.authority.max_attempts)
      × (count_if is_live p.attempts < p.spec.budget.max_active_attempts)
unfolding check_admission
check_admission-eq-ok p h =
    let a =
      >>-eq-ok
        (raise_if
          (leb (min p.spec.budget.max_attempts p.spec.authority.max_attempts) (length p.attempts))
          budget_exceeded)
        _ h in
    let b =
      raise_if-eq-ok
        (leb (min p.spec.budget.max_attempts p.spec.authority.max_attempts) (length p.attempts))
        budget_exceeded a.0 in
    let c =
      raise_if-eq-ok (leb p.spec.budget.max_active_attempts (count_if is_live p.attempts))
        budget_exceeded a.1 in
    (ground (arith, b), ground (arith, b), ground (arith, c))

count_if-snoc :
    (xs : List Attempt) (a : Attempt) → count_if is_live (xs ++ a ∷ []) ≤ count_if is_live xs + 1
count_if-snoc [] a = ground arith
count_if-snoc (x ∷ xs) a = omega (arith, count_if-snoc xs a)

admitted :
    (p : Program) (a : Attempt)
    → (length p.attempts < p.spec.budget.max_attempts)
      × (length p.attempts < p.spec.authority.max_attempts)
      × (count_if is_live p.attempts < p.spec.budget.max_active_attempts)
    → Admitted p (p.attempts ++ a ∷ [])
admitted p a h =
    let n = length-append p.attempts (a ∷ []) in
    let l = count_if-snoc p.attempts a in
    (omega (arith, n), omega (arith, n, h.0), omega (arith, n, h.1), omega (arith, l, h.2))

pub prepare-Changes :
    (digest : Digest) (p : Program) (actor : String) (requested : AttemptSpec) {d : Draft}
    → prepare digest p actor requested ≡ ok d
    → Changes p d
unfolding prepare
prepare-Changes digest p actor requested h =
    let u = >>=-eq-ok (check_request digest p requested) _ h in
    let a = >>-eq-ok (check_admission p) _ u.2 in
    let n = >>=-eq-ok (attempt_of requested AttemptStatus.prepared actor) _ a.1 in
    subst (Changes p) (ok-injective n.2) (
      attempts-Changes p _ _ (Evolves-snoc p.attempts n.0 (attempt_of-prepared requested actor n.1))
        (inr (admitted p n.0 (check_admission-eq-ok p a.0))) (Extends-refl p.attempt_cancellations)
        (λ e. cc (check_request-active digest p requested u.1, e)))
