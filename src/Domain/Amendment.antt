-- ===== src/Domain/Amendment.antt =====
-- `SpecAmendment` and `ProgramSpec.amend` of `core/domain.py`, lines 572 to 591 and 878 to 945.
pub mod Termination
use creatidy_kernel.Base.{
  ℕ, ◌+◌, String, ◌||◌, not, Option, none, some, List, if◌then◌else◌, is_some, ◌==◌, ◌!=◌, nat_eq,
  string_eq, names_eq, optional_eq, ne_of_eq, ◌>>=◌, raise_if, ◌>>◌, invalid_domain_value,
  stale_revision, Result, ok,
}
use creatidy_kernel.Domain.Checks.{Digest, nonempty, positive, criteria, json_eq}
use creatidy_kernel.Domain.Values.{
  program_status_eq, work_unit_status_eq, attempt_status_eq, domain_action_eq, policy_reference_eq,
  policies, bindings_eq, subjects_eq, bindings, BudgetPolicy, AuthorityEnvelope, PolicyReference,
  InputBinding,
}
use creatidy_kernel.Domain.Topology.{WorkUnit}
use creatidy_kernel.Domain.Spec.{
  program_spec, semantic_payload, spec_digest, program_spec_eq, ProgramSpec,
}

pub record SpecAmendment : Type 0 where
  pub expected_revision : ℕ
  pub objective : Option String
  pub work_units : Option (List WorkUnit)
  pub initial_inputs : Option (List InputBinding)
  pub budget : Option BudgetPolicy
  pub authority : Option AuthorityEnvelope
  pub reason : String
  pub acceptance_criteria : Option (List String)
  pub policy_references : Option (List PolicyReference)

-- A check of an argument that may be missing.
abbrev when_given {ℓ κ} : {A : Type ℓ} {B : Type κ} → (A → Result B) → Option A → Result (Unit {0})
when_given f none = ok tt
when_given f (some a) = f a >>= λ _. ok tt

-- The checks of the constructor.
unfoldable pub spec_amendment : SpecAmendment → Result SpecAmendment
spec_amendment a = do
  positive a.expected_revision
  nonempty a.reason
  raise_if
      (not (
        is_some a.objective
        || is_some a.work_units
        || is_some a.initial_inputs
        || is_some a.budget
        || is_some a.authority
        || is_some a.acceptance_criteria
        || is_some a.policy_references))
      invalid_domain_value
  when_given nonempty a.objective
  when_given bindings a.initial_inputs
  when_given criteria a.acceptance_criteria
  when_given policies a.policy_references
  ok a

-- `current if given is None else given`
abbrev pub given_or {ℓ} : {A : Type ℓ} → Option A → A → A
given_or none current = current
given_or (some a) current = a

-- `amend` returns the very same object where the meaning does not change, and its caller tests for
-- that: so the two outcomes are told apart here.
pub data Amended : Type 0 where
  unchanged : Amended
  proposed : ProgramSpec → Amended

unfoldable pub amend : Digest → ProgramSpec → SpecAmendment → Result Amended
amend digest s a = do
  raise_if (a.expected_revision != s.revision) stale_revision
  next ←
      program_spec s.program_id (given_or a.objective s.objective)
        (given_or a.work_units s.work_units) (given_or a.initial_inputs s.initial_inputs)
        (given_or a.budget s.budget) (given_or a.authority s.authority) (s.revision + 1)
        (some (spec_digest digest s)) (given_or a.acceptance_criteria s.acceptance_criteria)
        (given_or a.policy_references s.policy_references)
  ok (if semantic_payload next == semantic_payload s then unchanged else proposed next)
