-- ===== src/Domain/Apply/Reachable.antt =====
-- The Programs that `create` and `apply` reach.
use creatidy_kernel.Base.{
  ◌≡◌, refl, sym, subst, inl, inr, ◌||◌, is_some, ◌!=◌, nat_eq, string_eq, names_eq, optional_eq,
  raise_if, >>-eq-ok, ok-injective, invalid_domain_value, ok,
}
use creatidy_kernel.Domain.Checks.{Digest, json_eq}
use creatidy_kernel.Domain.Values.{
  program_status_eq, work_unit_status_eq, attempt_status_eq, domain_action_eq, policy_reference_eq,
  bindings_eq, subjects_eq,
}
use creatidy_kernel.Domain.Spec.{program_spec_eq, ProgramSpec}
use creatidy_kernel.Domain.Facts.{states_eq}
use creatidy_kernel.Domain.Program.{create, Program}
use creatidy_kernel.Domain.Validation.{is_chain, ids, fact_ids}
use creatidy_kernel.Domain.Validation.Valid.{validate-Valid, Valid}
use creatidy_kernel.Domain.Commands.{Command}
use creatidy_kernel.Domain.Apply.{apply}
use creatidy_kernel.Domain.Apply.Inversion.{apply-inv, assemble-inv, Outcome, kept, changed}

-- `Program.create` and `Program.apply`, as many times as it may be.
pub data Reachable (digest : Digest) : Program → Type 0 where
  created : (spec : ProgramSpec) (p : Program) → create spec ≡ ok p → Reachable digest p
  applied :
      (p : Program) (c : Command) (q : Program)
      → Reachable digest p
      → apply digest p c ≡ ok q
      → Reachable digest q

create-Valid :
    (digest : Digest) (spec : ProgramSpec) (p : Program) → create spec ≡ ok p → Valid digest p
unfolding create is_chain ids fact_ids
create-Valid digest spec p h =
    let a =
      >>-eq-ok (raise_if (spec.revision != 1 || is_some spec.parent_digest) invalid_domain_value) _
        h in
    subst (Valid digest) (ok-injective a.1) (record {
      current = refl;
      chain = refl;
      unique_attempts = refl;
      unique_facts = refl;
      lineages = tt;
      sources = tt;
      one_live = refl;
      completed = inl (λ e. cc e);
      cancelled = inr refl;
    })

-- A command keeps a Program valid: what it changes has passed the checks.
pub apply-Valid :
    (digest : Digest) (p : Program) (c : Command) {q : Program}
    → Valid digest p
    → apply digest p c ≡ ok q
    → Valid digest q
apply-Valid digest p c {q} v h = valid (apply-inv digest p c h).outcome
  where
    valid : Outcome digest p c q → Valid digest q
    valid (kept _ e) = subst (Valid digest) (sym e) v
    valid (changed d _ e) = validate-Valid digest q (assemble-inv digest p d e).validated

-- Every Program that commands reach from a creation is valid: its specification ends a chain of
-- revisions, Attempts and facts have unique identifiers, every remediation follows an earlier
-- finished Attempt of its subject, every fact cites a finished Attempt of its own subject, no
-- WorkUnit has two live Attempts, a completed Program has satisfied WorkUnits only, and a cancelled
-- one has no live Attempt.
pub Reachable-Valid : (digest : Digest) {p : Program} → Reachable digest p → Valid digest p
Reachable-Valid digest (created spec p h) = create-Valid digest spec p h
Reachable-Valid digest (applied p c q r h) = apply-Valid digest p c (Reachable-Valid digest r) h
