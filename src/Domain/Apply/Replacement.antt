-- ===== src/Domain/Apply/Replacement.antt =====
-- The branches of `Program.apply` that replace the status of one Attempt: start, finish, fail.
use creatidy_kernel.Base.{
  String, ◌≡◌, subst, ◌≢◌, inl, true, false, ◌||◌, not, some, arith, ◌!=◌, nat_eq, string_eq,
  names_eq, optional_eq, unique, raise_if, >>=-eq-ok, >>-eq-ok, raise_if-eq-ok, illegal_transition,
  ok,
}
use creatidy_kernel.Domain.Checks.{json_eq}
use creatidy_kernel.Domain.Values.{
  program_status_eq, work_unit_status_eq, attempt_status_eq, domain_action_eq, policy_reference_eq,
  bindings_eq, subjects_eq, ProgramStatus, AttemptStatus,
}
use creatidy_kernel.Domain.Spec.{program_spec_eq}
use creatidy_kernel.Domain.Facts.{is_live, states_eq, Attempt, WorkUnitState}
use creatidy_kernel.Domain.Program.{state, attempt, Program}
use creatidy_kernel.Domain.Validation.{ids}
use creatidy_kernel.Domain.Transitions.{is_begun, start, finish, fail, Draft}
use creatidy_kernel.Domain.Transitions.Evolution.{CanBecome}
use creatidy_kernel.Domain.Transitions.Attempts.{replace_status-Evolves}
use creatidy_kernel.Domain.Apply.Changes.{Extends-refl, attempts-Changes, Changes}

pub start-Changes :
    (p : Program) (ident : String) {d : Draft}
    → unique (ids p.attempts) ≡ true
    → start p ident ≡ ok d
    → Changes p d
unfolding start
start-Changes p ident u h =
    let a = >>=-eq-ok (attempt p ident) _ h in
    let s = >>=-eq-ok (state p a.0.spec.work_unit_id) _ a.2 in
    let bad =
      p.status != ProgramStatus.active
      || a.0.status != AttemptStatus.prepared
      || s.0.active_attempt_id != some ident in
    let g = >>-eq-ok (raise_if bad illegal_transition) _ s.2 in
    let can = can_start p.status a.0.status s.0 (raise_if-eq-ok bad illegal_transition g.0) in
    let r = replace_status-Evolves p ident AttemptStatus.executing a.0 u a.1 can.0 g.1 in
    subst (Changes p) r.3
      (attempts-Changes p r.0 _ r.1 (inl r.2) (Extends-refl p.attempt_cancellations) can.1)
  where
    can_start :
        (b : ProgramStatus) (t : AttemptStatus) (s : WorkUnitState)
        → (b != ProgramStatus.active
            || t != AttemptStatus.prepared
            || s.active_attempt_id != some ident)
          ≡ false
        → CanBecome t AttemptStatus.executing × (b ≢ ProgramStatus.cancelled)
    can_start b t s e = (ground arith, λ f. ground arith)

pub finish-Changes :
    (p : Program) (ident : String) {d : Draft}
    → unique (ids p.attempts) ≡ true
    → finish p ident ≡ ok d
    → Changes p d
unfolding finish
finish-Changes p ident u h =
    let a = >>=-eq-ok (attempt p ident) _ h in
    let bad = not (is_begun p.status) || a.0.status != AttemptStatus.executing in
    let g = >>-eq-ok (raise_if bad illegal_transition) _ a.2 in
    let can = can_finish p.status a.0.status (raise_if-eq-ok bad illegal_transition g.0) in
    let r = replace_status-Evolves p ident AttemptStatus.finished a.0 u a.1 can.0 g.1 in
    subst (Changes p) r.3
      (attempts-Changes p r.0 _ r.1 (inl r.2) (Extends-refl p.attempt_cancellations) can.1)
  where
    can_finish :
        (b : ProgramStatus) (t : AttemptStatus)
        → (not (is_begun b) || t != AttemptStatus.executing) ≡ false
        → CanBecome t AttemptStatus.finished × (b ≢ ProgramStatus.cancelled)
    can_finish b t e = (ground arith, λ f. ground arith)

pub fail-Changes :
    (p : Program) (ident : String) {d : Draft}
    → unique (ids p.attempts) ≡ true
    → fail p ident ≡ ok d
    → Changes p d
unfolding fail
fail-Changes p ident u h =
    let a = >>=-eq-ok (attempt p ident) _ h in
    let bad = not (is_begun p.status) || not (is_live a.0) in
    let g = >>-eq-ok (raise_if bad illegal_transition) _ a.2 in
    let can = can_fail p.status a.0 (raise_if-eq-ok bad illegal_transition g.0) in
    let r = replace_status-Evolves p ident AttemptStatus.failed a.0 u a.1 can.0 g.1 in
    subst (Changes p) r.3
      (attempts-Changes p r.0 _ r.1 (inl r.2) (Extends-refl p.attempt_cancellations) can.1)
  where
    can_fail :
        (b : ProgramStatus) (a : Attempt)
        → (not (is_begun b) || not (is_live a)) ≡ false
        → CanBecome a.status AttemptStatus.failed × (b ≢ ProgramStatus.cancelled)
    can_fail b a e = (ground arith, λ f. ground arith)
