-- ===== src/Domain/Apply/Lifecycle.antt =====
-- The branches of `Program.apply` up to `CancelWorkUnit`, and `CancelAttempt`.
use creatidy_kernel.Base.{
  ◌+◌, String, ◌≡◌, refl, subst, ◌≢◌, inl, inr, true, false, ◌||◌, not, List, [], ◌∷◌, map, arith,
  ◌==◌, ◌!=◌, nat_eq, string_eq, names_eq, optional_eq, eq_of_ne, select, contains, unique,
  raise_if, >>=-eq-ok, >>-eq-ok, ok-injective, raise_if-eq-ok, illegal_transition, ok,
}
use creatidy_kernel.Domain.Checks.{Digest, json_eq}
use creatidy_kernel.Domain.Values.{
  program_status_eq, work_unit_status_eq, attempt_status_eq, domain_action_eq, policy_reference_eq,
  bindings_eq, subjects_eq, ProgramStatus,
}
use creatidy_kernel.Domain.Spec.{program_spec_eq}
use creatidy_kernel.Domain.Facts.{is_live, states_eq, Attempt, AttemptCancellation}
use creatidy_kernel.Domain.Program.{attempt, Program}
use creatidy_kernel.Domain.Validation.{ids}
use creatidy_kernel.Domain.Transitions.{
  cancel_live, is_open, is_begun, activate, pause, resume, cancel, abandonment, cancel_unit,
  cancel_one, Draft,
}
use creatidy_kernel.Domain.Transitions.Evolution.{Evolves, Cancels→Evolves, Cancels-length}
use creatidy_kernel.Domain.Transitions.Attempts.{cancel_live-Cancels}
use creatidy_kernel.Domain.Apply.Changes.{
  Extends, Extends-refl, Extends-snoc, HasRoom, status-Changes, attempts-Changes, Changes,
}

-- The guards on the Program's status.
begun_open : (s : ProgramStatus) → is_begun s ≡ true → s ≢ ProgramStatus.cancelled
begun_open s h e = ground arith

pub activate-Changes : (p : Program) {d : Draft} → activate p ≡ ok d → Changes p d
unfolding activate
activate-Changes p h =
    let a = >>-eq-ok (raise_if (p.status != ProgramStatus.draft) illegal_transition) _ h in
    let e = eq_of_ne _ _ (raise_if-eq-ok (p.status != ProgramStatus.draft) _ a.0) in
    subst (Changes p) (ok-injective a.1) (
      status-Changes p _
        (λ (f : p.status ≡ ProgramStatus.cancelled). cc (e, f), inr (inl (e, refl))))

pub pause-Changes : (p : Program) {d : Draft} → pause p ≡ ok d → Changes p d
unfolding pause
pause-Changes p h =
    let a = >>-eq-ok (raise_if (p.status != ProgramStatus.active) illegal_transition) _ h in
    let e = eq_of_ne _ _ (raise_if-eq-ok (p.status != ProgramStatus.active) _ a.0) in
    subst (Changes p) (ok-injective a.1) (
      status-Changes p _
        (λ (f : p.status ≡ ProgramStatus.cancelled). cc (e, f), inr (inr (inl (e, refl)))))

pub resume-Changes : (p : Program) {d : Draft} → resume p ≡ ok d → Changes p d
unfolding resume
resume-Changes p h =
    let a = >>-eq-ok (raise_if (p.status != ProgramStatus.paused) illegal_transition) _ h in
    let e = eq_of_ne _ _ (raise_if-eq-ok (p.status != ProgramStatus.paused) _ a.0) in
    subst (Changes p) (ok-injective a.1) (
      status-Changes p _
        (λ (f : p.status ≡ ProgramStatus.cancelled). cc (e, f), inr (inr (inr (inl (e, refl))))))

-- The cancellation of live Attempts, as part of a branch.
cancelled_live :
    (p : Program) (idents : List String) (reason actor : String)
    {r : List Attempt × List AttemptCancellation}
    → unique (ids p.attempts) ≡ true
    → cancel_live idents reason actor (p.revision + 1) p.attempts p.attempt_cancellations ≡ ok r
    → Evolves p.attempts r.0 × HasRoom p r.0 × Extends p.attempt_cancellations r.1
cancelled_live p idents reason actor {r} u h =
    let c =
      cancel_live-Cancels idents reason actor (p.revision + 1) p.attempts p.attempt_cancellations u
        h in
    (Cancels→Evolves p.attempts r.0 c.0, inl (Cancels-length p.attempts r.0 c.0), c.1)

pub cancel-Changes :
    (p : Program) (actor : String) {d : Draft}
    → unique (ids p.attempts) ≡ true
    → cancel p actor ≡ ok d
    → Changes p d
unfolding cancel
cancel-Changes p actor u h =
    let bad = not (p.status == ProgramStatus.draft || is_open p.status) in
    let g = >>-eq-ok (raise_if bad illegal_transition) _ h in
    let off = raise_if-eq-ok bad _ g.0 in
    let r =
      >>=-eq-ok
        (cancel_live (map (λ a. a.spec.attempt_id) p.attempts) "Program abandonment" actor
          (p.revision + 1) p.attempts p.attempt_cancellations)
        _ g.1 in
    let c = cancelled_live p _ _ actor u r.1 in
    subst (Changes p) (ok-injective r.2) (record {
      attempts = c.0;
      room = c.1;
      satisfactions = Extends-refl p.satisfactions;
      cancellations = Extends-refl p.cancellations;
      attempt_cancellations = c.2;
      spec_history = Extends-refl p.spec_history;
      status = (
        λ e. not_cancelled p.status off e,
        inr (inr (inr (inr (λ e. not_completed p.status off e, refl)))),
      );
    })
  where
    not_cancelled :
        (s : ProgramStatus)
        → not (s == ProgramStatus.draft || is_open s) ≡ false
        → s ≢ ProgramStatus.cancelled
    not_cancelled s off e = ground arith

    not_completed :
        (s : ProgramStatus)
        → not (s == ProgramStatus.draft || is_open s) ≡ false
        → s ≢ ProgramStatus.completed
    not_completed s off e = ground arith

pub cancel_unit-Changes :
    (digest : Digest) (p : Program) (actor ident reason : String) {d : Draft}
    → unique (ids p.attempts) ≡ true
    → cancel_unit digest p actor ident reason ≡ ok d
    → Changes p d
unfolding cancel_unit abandonment
cancel_unit-Changes digest p actor ident reason u h =
    let a = >>=-eq-ok (abandonment digest p actor ident reason) _ h in
    let g = >>-eq-ok (raise_if (not (is_open p.status)) illegal_transition) _ a.1 in
    let r =
      >>=-eq-ok
        (cancel_live
          (map (λ t. t.spec.attempt_id)
            (select (λ t. contains a.0.1 t.spec.work_unit_id) p.attempts))
          "WorkUnit abandonment" actor (p.revision + 1) p.attempts p.attempt_cancellations)
        _ a.2 in
    let c = cancelled_live p _ _ actor u r.1 in
    subst (Changes p) (ok-injective r.2) (record {
      attempts = c.0;
      room = c.1;
      satisfactions = Extends-refl p.satisfactions;
      cancellations = Extends-snoc p.cancellations a.0.0;
      attempt_cancellations = c.2;
      spec_history = Extends-refl p.spec_history;
      status = (λ e. ground (arith, raise_if-eq-ok _ illegal_transition g.0, e), inl refl);
    })

pub cancel_one-Changes :
    (p : Program) (actor ident : String) {d : Draft}
    → unique (ids p.attempts) ≡ true
    → cancel_one p actor ident ≡ ok d
    → Changes p d
unfolding cancel_one
cancel_one-Changes p actor ident u h =
    let a = >>=-eq-ok (attempt p ident) _ h in
    let g =
      >>-eq-ok (raise_if (not (is_begun p.status) || not (is_live a.0)) illegal_transition) _ a.2 in
    let r =
      >>=-eq-ok
        (cancel_live (ident ∷ []) "Attempt cancellation" actor (p.revision + 1) p.attempts
          p.attempt_cancellations)
        _ g.1 in
    let c = cancelled_live p _ _ actor u r.1 in
    subst (Changes p) (ok-injective r.2) (
      attempts-Changes p _ _ c.0 c.1 c.2
        (begun_open p.status (ground (arith, raise_if-eq-ok _ illegal_transition g.0))))
