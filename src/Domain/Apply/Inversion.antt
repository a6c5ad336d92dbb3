-- ===== src/Domain/Apply/Inversion.antt =====
-- What a successful `apply` went through: the guards, a branch, and `_assemble`.
use creatidy_kernel.Base.{
  ◌≡◌, sym, ap, subst, List, ◌!=◌, nat_eq, string_eq, names_eq, optional_eq, eq_of_ne, raise_if,
  >>=-eq-ok, >>-eq-ok, ok-injective, raise_if-eq-ok, stale_revision, Result, err, ok,
}
use creatidy_kernel.Domain.Checks.{Digest, json_eq}
use creatidy_kernel.Domain.Values.{
  program_status_eq, work_unit_status_eq, attempt_status_eq, domain_action_eq, policy_reference_eq,
  bindings_eq, subjects_eq,
}
use creatidy_kernel.Domain.Spec.{program_spec_eq}
use creatidy_kernel.Domain.Facts.{states_eq, ProgramConclusion}
use creatidy_kernel.Domain.Projection.{States}
use creatidy_kernel.Domain.Program.{authorize, Program}
use creatidy_kernel.Domain.Validation.{validate}
use creatidy_kernel.Domain.Commands.{action_of, Command}
use creatidy_kernel.Domain.Transitions.{Draft}
use creatidy_kernel.Domain.Recording.{Effect, keep, change}
use creatidy_kernel.Domain.Apply.{
  draft_states, draft_status, conclude, assembled, assemble, changing, perform, apply,
}

pub data Outcome (digest : Digest) (p : Program) (c : Command) (q : Program) : Type 0 where
  kept : perform digest p c.actor_id c.body ≡ ok keep → q ≡ p → Outcome digest p c q
  changed :
      (d : Draft)
      → perform digest p c.actor_id c.body ≡ ok (change d)
      → assemble digest p d ≡ ok q
      → Outcome digest p c q

to_Outcome :
    (digest : Digest) (p : Program) (c : Command) (q : Program) (e : Effect)
    → perform digest p c.actor_id c.body ≡ ok e
    → (elim e [ keep ↦ ok p | change d ↦ assemble digest p d ]) ≡ ok q
    → Outcome digest p c q
to_Outcome digest p c q keep performed h = kept performed (cc h)
to_Outcome digest p c q (change d) performed h = changed d performed h

pub record Applied (digest : Digest) (p : Program) (c : Command) (q : Program) : Type 0 where
  pub current : c.expected_revision ≡ p.revision
  pub authorized : authorize p.spec.authority (action_of c.body) c.actor_id ≡ ok tt
  pub outcome : Outcome digest p c q

pub apply-inv :
    (digest : Digest) (p : Program) (c : Command) {q : Program}
    → apply digest p c ≡ ok q
    → Applied digest p c q
unfolding apply
apply-inv digest p c {q} h =
    let a = >>-eq-ok (raise_if (c.expected_revision != p.revision) stale_revision) _ h in
    let b = >>-eq-ok (authorize p.spec.authority (action_of c.body) c.actor_id) _ a.1 in
    let e = >>=-eq-ok (perform digest p c.actor_id c.body) _ b.1 in
    record {
      current = eq_of_ne _ _ (raise_if-eq-ok _ stale_revision a.0);
      authorized = b.0;
      outcome = to_Outcome digest p c q e.0 e.1 e.2;
    }

-- The parts of a Program that `_assemble` returned.
pub record Assembled (digest : Digest) (p : Program) (d : Draft) (q : Program) : Type 0 where
  pub states : States
  pub conclusions : List ProgramConclusion
  pub projected : draft_states digest d ≡ ok states
  pub concluded : conclude digest p d (draft_status d states) ≡ ok conclusions
  pub made : q ≡ assembled p d states (draft_status d states) conclusions
  pub validated : validate digest q ≡ ok tt

pub assemble-inv :
    (digest : Digest) (p : Program) (d : Draft) {q : Program}
    → assemble digest p d ≡ ok q
    → Assembled digest p d q
unfolding assemble
assemble-inv digest p d h =
    let s = >>=-eq-ok (draft_states digest d) _ h in
    let c = >>=-eq-ok (conclude digest p d (draft_status d s.0)) _ s.2 in
    let v = >>-eq-ok (validate digest (assembled p d s.0 (draft_status d s.0) c.0)) _ c.2 in
    let e = ok-injective v.1 in
    record {
      states = s.0;
      conclusions = c.0;
      projected = s.1;
      concluded = c.1;
      made = sym e;
      validated = subst (λ r. validate digest r ≡ ok tt) e v.0;
    }

pub changing-eq-ok : (r : Result Draft) {d : Draft} → changing r ≡ ok (change d) → r ≡ ok d
changing-eq-ok (ok a) h = ap ok (change-injective (ok-injective h))
  where
    change-injective : {a b : Draft} → change a ≡ change b → a ≡ b
    change-injective e = cc
changing-eq-ok (err e) h = cc
