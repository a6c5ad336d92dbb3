-- ===== src/Domain/Apply/Branches.antt =====
-- The branches of `Program.apply` that record a fact or a new specification, and all branches
-- together.
use creatidy_kernel.Base.{
  suc, ◌+◌, String, ◌≡◌, refl, subst, ◌≢◌, inl, true, not, [], ◌∷◌, ◌++◌, arith, ◌==◌, nat_eq,
  string_eq, names_eq, optional_eq, length, unique, raise_if, >>=-eq-ok, >>-eq-ok, ok-injective,
  raise_if-eq-ok, illegal_transition, ok,
}
use creatidy_kernel.Domain.Checks.{Digest, json_eq}
use creatidy_kernel.Domain.Values.{
  program_status_eq, work_unit_status_eq, attempt_status_eq, domain_action_eq, policy_reference_eq,
  bindings_eq, subjects_eq, ProgramStatus,
}
use creatidy_kernel.Domain.Topology.{WorkUnit}
use creatidy_kernel.Domain.Spec.{program_spec_eq}
use creatidy_kernel.Domain.Amendment.{amend, SpecAmendment, Amended, unchanged, proposed}
use creatidy_kernel.Domain.Facts.{trusted_satisfaction, states_eq, TrustedSatisfaction}
use creatidy_kernel.Domain.Program.{Program}
use creatidy_kernel.Domain.Validation.{ids}
use creatidy_kernel.Domain.Commands.{Body}
use creatidy_kernel.Domain.Transitions.{is_begun, Draft}
use creatidy_kernel.Domain.Transitions.Evolution.{Evolves-refl, Cancels→Evolves, Cancels-length}
use creatidy_kernel.Domain.Recording.{
  check_fact, check_source, satisfy, withdraw, adopt, amend_program, Effect, keep, change,
}
use creatidy_kernel.Domain.Recording.Withdrawal.{withdraw-Withdrawn}
use creatidy_kernel.Domain.Apply.{perform}
use creatidy_kernel.Domain.Apply.Inversion.{changing-eq-ok}
use creatidy_kernel.Domain.Apply.Changes.{Extends-refl, Extends-snoc, Changes}
use creatidy_kernel.Domain.Apply.Lifecycle.{
  activate-Changes, pause-Changes, resume-Changes, cancel-Changes, cancel_unit-Changes,
  cancel_one-Changes,
}
use creatidy_kernel.Domain.Apply.Admission.{prepare-Changes}
use creatidy_kernel.Domain.Apply.Replacement.{start-Changes, finish-Changes, fail-Changes}

check_fact-open :
    (digest : Digest) (p : Program) (actor : String) (fact : TrustedSatisfaction) {u : WorkUnit}
    → check_fact digest p actor fact ≡ ok u
    → p.status ≢ ProgramStatus.cancelled
unfolding check_fact
check_fact-open digest p actor fact h e =
    let a = >>-eq-ok (raise_if (not (is_begun p.status)) illegal_transition) _ h in
    ground (arith, raise_if-eq-ok _ illegal_transition a.0, e)

satisfy-Changes :
    (digest : Digest) (p : Program) (actor : String) (fact : TrustedSatisfaction) {d : Draft}
    → satisfy digest p actor fact ≡ ok d
    → Changes p d
unfolding satisfy
satisfy-Changes digest p actor fact h =
    let u = >>=-eq-ok (check_fact digest p actor fact) _ h in
    let s = >>-eq-ok (check_source p u.0 fact) _ u.2 in
    let t =
      >>=-eq-ok (trusted_satisfaction (record fact { record_order = p.revision + 1 })) _ s.1 in
    subst (Changes p) (ok-injective t.2) (record {
      attempts = Evolves-refl p.attempts;
      room = inl refl;
      satisfactions = Extends-snoc p.satisfactions t.0;
      cancellations = Extends-refl p.cancellations;
      attempt_cancellations = Extends-refl p.attempt_cancellations;
      spec_history = Extends-refl p.spec_history;
      status = (check_fact-open digest p actor fact u.1, inl refl);
    })

keep-no-change : {d : Draft} → keep ≢ change d
keep-no-change e = cc

change-injective : {a b : Draft} → change a ≡ change b → a ≡ b
change-injective e = cc

adopt-Changes :
    (digest : Digest) (p : Program) (actor : String) (outcome : Amended) {d : Draft}
    → unique (ids p.attempts) ≡ true
    → p.status ≢ ProgramStatus.cancelled
    → adopt digest p actor outcome ≡ ok (change d)
    → Changes p d
unfolding adopt
adopt-Changes digest p actor unchanged u live h = absurd (keep-no-change (ok-injective h))
adopt-Changes digest p actor (proposed spec) u live h =
    let w =
      >>=-eq-ok
        (withdraw digest spec (p.spec_history ++ spec ∷ []) p.satisfactions
          (suc (length p.attempts)) p.cancellations actor (p.revision + 1) p.attempts
          p.attempt_cancellations)
        _ h in
    let r =
      withdraw-Withdrawn digest spec (p.spec_history ++ spec ∷ []) p.satisfactions p.cancellations
        actor (p.revision + 1) (suc (length p.attempts)) p.attempts p.attempt_cancellations w.0 u
        w.1 in
    subst (Changes p) (change-injective (ok-injective w.2)) (record {
      attempts = Cancels→Evolves p.attempts w.0.0 r.0;
      room = inl (Cancels-length p.attempts w.0.0 r.0);
      satisfactions = Extends-refl p.satisfactions;
      cancellations = Extends-refl p.cancellations;
      attempt_cancellations = r.1;
      spec_history = Extends-snoc p.spec_history spec;
      status = (live, inl refl);
    })

pub amend_program-open :
    (digest : Digest) (p : Program) (actor : String) (amendment : SpecAmendment) {e : Effect}
    → amend_program digest p actor amendment ≡ ok e
    → p.status ≢ ProgramStatus.cancelled
unfolding amend_program
amend_program-open digest p actor amendment h e =
    let a = >>-eq-ok (raise_if (p.status == ProgramStatus.cancelled) illegal_transition) _ h in
    ground (arith, raise_if-eq-ok (p.status == ProgramStatus.cancelled) illegal_transition a.0, e)

amend_program-Changes :
    (digest : Digest) (p : Program) (actor : String) (amendment : SpecAmendment) {d : Draft}
    → unique (ids p.attempts) ≡ true
    → amend_program digest p actor amendment ≡ ok (change d)
    → Changes p d
unfolding amend_program
amend_program-Changes digest p actor amendment u h =
    let live = amend_program-open digest p actor amendment h in
    let a = >>-eq-ok (raise_if (p.status == ProgramStatus.cancelled) illegal_transition) _ h in
    let o = >>=-eq-ok (amend digest p.spec amendment) _ a.1 in
    adopt-Changes digest p actor o.0 u live o.2

-- Every branch changes what `Changes` allows, and keeps off a cancelled Program.
pub perform-Changes :
    (digest : Digest) (p : Program) (actor : String) (body : Body) {d : Draft}
    → unique (ids p.attempts) ≡ true
    → perform digest p actor body ≡ ok (change d)
    → Changes p d
unfolding perform
perform-Changes digest p actor Body.activate_program u h = activate-Changes p (changing-eq-ok _ h)
perform-Changes digest p actor Body.pause_program u h = pause-Changes p (changing-eq-ok _ h)
perform-Changes digest p actor Body.resume_program u h = resume-Changes p (changing-eq-ok _ h)
perform-Changes digest p actor Body.cancel_program u h =
    cancel-Changes p actor u (changing-eq-ok _ h)
perform-Changes digest p actor (Body.cancel_work_unit ident reason) u h =
    cancel_unit-Changes digest p actor ident reason u (changing-eq-ok _ h)
perform-Changes digest p actor (Body.prepare_attempt requested) u h =
    prepare-Changes digest p actor requested (changing-eq-ok _ h)
perform-Changes digest p actor (Body.start_attempt ident) u h =
    start-Changes p ident u (changing-eq-ok _ h)
perform-Changes digest p actor (Body.finish_attempt ident) u h =
    finish-Changes p ident u (changing-eq-ok _ h)
perform-Changes digest p actor (Body.fail_attempt ident) u h =
    fail-Changes p ident u (changing-eq-ok _ h)
perform-Changes digest p actor (Body.cancel_attempt ident) u h =
    cancel_one-Changes p actor ident u (changing-eq-ok _ h)
perform-Changes digest p actor (Body.satisfy_work_unit fact) u h =
    satisfy-Changes digest p actor fact (changing-eq-ok _ h)
perform-Changes digest p actor (Body.amend_program_spec amendment) u h =
    amend_program-Changes digest p actor amendment u h
