-- ===== src/Domain/Apply/Revision.antt =====
-- Revisions in `Program.apply`.
use creatidy_kernel.Base.{
  ◌+◌, ◌≡◌, ap, ◌∙◌, ◌≢◌, ◌⊎◌, inl, inr, arith, Bool-cases, ◌!=◌, nat_eq, string_eq, names_eq,
  optional_eq, eq_of_ne, stale_revision, err, ok,
}
use creatidy_kernel.Domain.Checks.{Digest, json_eq}
use creatidy_kernel.Domain.Values.{
  program_status_eq, work_unit_status_eq, attempt_status_eq, domain_action_eq, policy_reference_eq,
  bindings_eq, subjects_eq,
}
use creatidy_kernel.Domain.Spec.{program_spec_eq}
use creatidy_kernel.Domain.Facts.{states_eq}
use creatidy_kernel.Domain.Program.{Program}
use creatidy_kernel.Domain.Commands.{Command}
use creatidy_kernel.Domain.Transitions.{Draft}
use creatidy_kernel.Domain.Apply.{assemble, apply}
use creatidy_kernel.Domain.Apply.Inversion.{apply-inv, assemble-inv, Outcome, kept, changed}

pub assemble-revision :
    (digest : Digest) (p : Program) (d : Draft) {q : Program}
    → assemble digest p d ≡ ok q
    → q.revision ≡ p.revision + 1
assemble-revision digest p d h = let a = assemble-inv digest p d h in ap (λ r. r.revision) a.made

-- A command that succeeds names the current revision, and it raises the revision by one or leaves
-- the Program unchanged.
pub apply-revision :
    (digest : Digest) (p : Program) (c : Command) {q : Program}
    → apply digest p c ≡ ok q
    → (c.expected_revision ≡ p.revision) × ((q ≡ p) ⊎ (q.revision ≡ p.revision + 1))
apply-revision digest p c {q} h = let a = apply-inv digest p c h in (a.current, moved a.outcome)
  where
    moved : Outcome digest p c q → (q ≡ p) ⊎ (q.revision ≡ p.revision + 1)
    moved (kept _ e) = inl e
    moved (changed d _ e) = inr (assemble-revision digest p d e)

-- Of two commands for the same revision, the second one is refused as stale once the first one has
-- changed the Program.
pub apply_conflict :
    (digest : Digest) (p : Program) (c later : Command) {q : Program}
    → apply digest p c ≡ ok q
    → q ≢ p
    → later.expected_revision ≡ c.expected_revision
    → apply digest q later ≡ err stale_revision
unfolding apply
apply_conflict digest p c later {q} h moved same =
    let r = apply-revision digest p c h in
    elim (Bool-cases (later.expected_revision != q.revision)) [
      | inl stale ↦ rw stale
      | inr fresh ↦ absurd (refute r.1 (eq_of_ne _ _ fresh) (same ∙ r.0))
    ]
  where
    refute :
        (q ≡ p) ⊎ (q.revision ≡ p.revision + 1)
        → later.expected_revision ≡ q.revision
        → later.expected_revision ≡ p.revision
        → ⊥
    refute (inl e) _ _ = moved e
    refute (inr e) a b = omega arith
