-- ===== src/Domain/Apply/History.antt =====
-- What a successful command keeps of a Program's past, and the turns of its status.
use creatidy_kernel.Base.{
  ◌+◌, ◌≡◌, sym, subst, inl, inr, ◌&&◌, ◌||◌, List, [], ◌∷◌, Bool-cases, ◌!=◌, nat_eq, string_eq,
  names_eq, optional_eq, >>=-eq-ok, ok-injective, ok,
}
use creatidy_kernel.Domain.Checks.{Digest, json_eq}
use creatidy_kernel.Domain.Values.{
  program_status_eq, work_unit_status_eq, attempt_status_eq, domain_action_eq, policy_reference_eq,
  bindings_eq, subjects_eq, ProgramStatus,
}
use creatidy_kernel.Domain.Spec.{spec_digest, program_spec_eq}
use creatidy_kernel.Domain.Facts.{program_conclusion, states_eq, ProgramConclusion}
use creatidy_kernel.Domain.Program.{Program}
use creatidy_kernel.Domain.Commands.{Command}
use creatidy_kernel.Domain.Transitions.{Draft}
use creatidy_kernel.Domain.Transitions.Evolution.{Evolves, Evolves-refl}
use creatidy_kernel.Domain.Apply.{is_concluded, conclude, apply}
use creatidy_kernel.Domain.Apply.Inversion.{apply-inv, assemble-inv, Outcome, kept, changed}
use creatidy_kernel.Domain.Apply.Reachable.{Reachable-Valid, Reachable}
use creatidy_kernel.Domain.Apply.Changes.{Extends, Extends-refl}
use creatidy_kernel.Domain.Apply.Branches.{perform-Changes}

-- The past of `p` is the past of `q`.
pub record Continues (p q : Program) : Type 0 where
  pub attempts : Evolves p.attempts q.attempts
  pub satisfactions : Extends p.satisfactions q.satisfactions
  pub cancellations : Extends p.cancellations q.cancellations
  pub attempt_cancellations : Extends p.attempt_cancellations q.attempt_cancellations
  pub conclusions : Extends p.conclusions q.conclusions
  pub spec_history : Extends p.spec_history q.spec_history

Continues-refl : (p : Program) → Continues p p
Continues-refl p = record {
  attempts = Evolves-refl p.attempts;
  satisfactions = Extends-refl p.satisfactions;
  cancellations = Extends-refl p.cancellations;
  attempt_cancellations = Extends-refl p.attempt_cancellations;
  conclusions = Extends-refl p.conclusions;
  spec_history = Extends-refl p.spec_history;
}

conclude-Extends :
    (digest : Digest) (p : Program) (d : Draft) (status : ProgramStatus)
    {cs : List ProgramConclusion}
    → conclude digest p d status ≡ ok cs
    → Extends p.conclusions cs
unfolding conclude
conclude-Extends digest p d status {cs} h =
    elim (Bool-cases (is_concluded status && (p.status != status || d.amended))) [
      | inl yes_c ↦
          let c =
            >>=-eq-ok
              (program_conclusion status d.spec.revision (spec_digest digest d.spec)
                (p.revision + 1))
              _ (rw yes_c at h) in
          (c.0 ∷ [], sym (ok-injective c.2))
      | inr no_c ↦
          subst (Extends p.conclusions) (ok-injective (rw no_c at h)) (Extends-refl p.conclusions)
    ]

-- From a Program that was reached by commands, a successful command loses or rewrites no record:
-- Attempts keep their specification and their actor while their status takes legal steps, new ones
-- come after them as prepared, and the satisfactions, cancellations, conclusions and specifications
-- are only added to.
pub apply-Continues :
    (digest : Digest) (p : Program) (c : Command) {q : Program}
    → Reachable digest p
    → apply digest p c ≡ ok q
    → Continues p q
apply-Continues digest p c {q} r h = continues (apply-inv digest p c h).outcome
  where
    continues : Outcome digest p c q → Continues p q
    continues (kept _ e) = subst (Continues p) (sym e) (Continues-refl p)
    continues (changed d performed e) =
        let a = assemble-inv digest p d e in
        let k =
          perform-Changes digest p c.actor_id c.body (Reachable-Valid digest r).unique_attempts
            performed in
        subst (Continues p) (sym a.made) (record {
          attempts = k.attempts;
          satisfactions = k.satisfactions;
          cancellations = k.cancellations;
          attempt_cancellations = k.attempt_cancellations;
          conclusions = conclude-Extends digest p d _ a.concluded;
          spec_history = k.spec_history;
        })
