-- ===== src/Domain/Apply/Status.antt =====
-- The turns of a Program's status under `Program.apply`.
use creatidy_kernel.Base.{
  String, ◌≡◌, refl, sym, ap, subst, ◌≢◌, ◌⊎◌, inl, inr, arith, Bool-cases, ◌==◌, nat_eq, string_eq,
  names_eq, optional_eq, Result, err, ok,
}
use creatidy_kernel.Domain.Checks.{Digest, json_eq}
use creatidy_kernel.Domain.Values.{
  program_status_eq, work_unit_status_eq, attempt_status_eq, domain_action_eq, policy_reference_eq,
  bindings_eq, subjects_eq, ProgramStatus,
}
use creatidy_kernel.Domain.Spec.{program_spec_eq}
use creatidy_kernel.Domain.Facts.{states_eq}
use creatidy_kernel.Domain.Projection.{States, program_status}
use creatidy_kernel.Domain.Program.{Program}
use creatidy_kernel.Domain.Commands.{Body, Command}
use creatidy_kernel.Domain.Transitions.{Draft}
use creatidy_kernel.Domain.Recording.{keep}
use creatidy_kernel.Domain.Apply.{draft_status, changing, perform, apply}
use creatidy_kernel.Domain.Apply.Inversion.{apply-inv, assemble-inv, Outcome, kept, changed}
use creatidy_kernel.Domain.Apply.Reachable.{Reachable-Valid, Reachable}
use creatidy_kernel.Domain.Apply.Changes.{Turns}
use creatidy_kernel.Domain.Apply.Branches.{amend_program-open, perform-Changes}

-- The statuses before and after a command that succeeds.
pub record LegalTurn (s t : ProgramStatus) : Type 0 where
  pub not_final : s ≢ ProgramStatus.cancelled
  pub from_draft : (t ≢ ProgramStatus.draft) ⊎ (s ≡ ProgramStatus.draft)
  pub from_active :
      (t ≢ ProgramStatus.paused) ⊎ (s ≡ ProgramStatus.active) ⊎ (s ≡ ProgramStatus.paused)
  pub from_open : (t ≢ ProgramStatus.cancelled) ⊎ (s ≢ ProgramStatus.completed)

program_status_cases :
    (s : ProgramStatus) (states : States)
    → (program_status s states ≡ s)
      ⊎ (program_status s states ≡ ProgramStatus.completed)
      ⊎ ((s ≡ ProgramStatus.completed) × (program_status s states ≡ ProgramStatus.active))
unfolding program_status
program_status_cases ProgramStatus.cancelled states = inl refl
program_status_cases ProgramStatus.draft states = inl refl
program_status_cases ProgramStatus.active states = ground arith
program_status_cases ProgramStatus.paused states = ground arith
program_status_cases ProgramStatus.completed states = ground arith

draft_status_cases :
    (d : Draft) (states : States)
    → (draft_status d states ≡ d.status)
      ⊎ (draft_status d states ≡ ProgramStatus.completed)
      ⊎ ((d.status ≡ ProgramStatus.completed) × (draft_status d states ≡ ProgramStatus.active))
unfolding draft_status
draft_status_cases d states = ground (arith, program_status_cases d.status states)

legal :
    (s t u : ProgramStatus)
    → Turns s t
    → (u ≡ t)
      ⊎ (u ≡ ProgramStatus.completed)
      ⊎ ((t ≡ ProgramStatus.completed) × (u ≡ ProgramStatus.active))
    → LegalTurn s u
legal s t u turns cases = record {
  not_final = turns.0;
  from_draft = elim (Bool-cases (u == ProgramStatus.draft)) [
    | inl e ↦ inr (ground (arith, turns, cases, e))
    | inr e ↦ inl (λ f. ground (arith, e, f))
  ];
  from_active = elim (Bool-cases (u == ProgramStatus.paused)) [
    | inl e ↦ inr (ground (arith, turns, cases, e))
    | inr e ↦ inl (λ f. ground (arith, e, f))
  ];
  from_open = elim (Bool-cases (u == ProgramStatus.cancelled)) [
    | inl e ↦ inr (λ f. ground (arith, turns, cases, e, f))
    | inr e ↦ inl (λ f. ground (arith, e, f))
  ];
}

changing-never-keeps : (r : Result Draft) → changing r ≢ ok keep
changing-never-keeps (ok d) e = cc
changing-never-keeps (err x) e = cc

-- Only an amendment keeps a Program as it is, and none is taken by a cancelled one.
perform-keep-open :
    (digest : Digest) (p : Program) (actor : String) (body : Body)
    → perform digest p actor body ≡ ok keep
    → p.status ≢ ProgramStatus.cancelled
unfolding perform
perform-keep-open digest p actor Body.activate_program h = absurd (changing-never-keeps _ h)
perform-keep-open digest p actor Body.pause_program h = absurd (changing-never-keeps _ h)
perform-keep-open digest p actor Body.resume_program h = absurd (changing-never-keeps _ h)
perform-keep-open digest p actor Body.cancel_program h = absurd (changing-never-keeps _ h)
perform-keep-open digest p actor (Body.cancel_work_unit i r) h = absurd (changing-never-keeps _ h)
perform-keep-open digest p actor (Body.prepare_attempt r) h = absurd (changing-never-keeps _ h)
perform-keep-open digest p actor (Body.start_attempt i) h = absurd (changing-never-keeps _ h)
perform-keep-open digest p actor (Body.finish_attempt i) h = absurd (changing-never-keeps _ h)
perform-keep-open digest p actor (Body.fail_attempt i) h = absurd (changing-never-keeps _ h)
perform-keep-open digest p actor (Body.cancel_attempt i) h = absurd (changing-never-keeps _ h)
perform-keep-open digest p actor (Body.satisfy_work_unit f) h = absurd (changing-never-keeps _ h)
perform-keep-open digest p actor (Body.amend_program_spec a) h =
    amend_program-open digest p actor a h

-- From a Program that was reached by commands, a successful command gives the status a legal turn:
-- the Program was not cancelled, a draft is never returned to, only an active or paused Program is
-- paused afterwards, and a completed one is not cancelled.
pub apply-LegalTurn :
    (digest : Digest) (p : Program) (c : Command) {q : Program}
    → Reachable digest p
    → apply digest p c ≡ ok q
    → LegalTurn p.status q.status
apply-LegalTurn digest p c {q} r h = turn (apply-inv digest p c h).outcome
  where
    turn : Outcome digest p c q → LegalTurn p.status q.status
    turn (kept performed e) =
        legal p.status p.status q.status
          (perform-keep-open digest p c.actor_id c.body performed, inl refl)
          (inl (ap (λ x. x.status) e))
    turn (changed d performed e) =
        let a = assemble-inv digest p d e in
        let k =
          perform-Changes digest p c.actor_id c.body (Reachable-Valid digest r).unique_attempts
            performed in
        subst (LegalTurn p.status) (sym (ap (λ x. x.status) a.made))
          (legal p.status d.status _ k.status (draft_status_cases d a.states))
