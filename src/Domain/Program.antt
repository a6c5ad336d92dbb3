-- ===== src/Domain/Program.antt =====
-- `Program` of `core/domain.py`, lines 1161 to 1284: the aggregate, its creation and its queries.
use creatidy_kernel.Base.{
  ℕ, String, Bool, ◌||◌, not, Option, none, List, [], ◌∷◌, map, if◌then◌else◌, is_some, ◌==◌, ◌!=◌,
  nat_eq, string_eq, names_eq, optional_eq, find?, select, contains, ◌>>=◌, raise_if, ◌>>◌,
  or_raise, invalid_domain_value, missing_reference, missing_input, authority_violation, Result, ok,
}
use creatidy_kernel.Domain.Checks.{json_eq}
use creatidy_kernel.Domain.Values.{
  program_status_eq, work_unit_status_eq, attempt_status_eq, domain_action_eq, policy_reference_eq,
  bindings_eq, subjects_eq, ProgramStatus, WorkUnitStatus, DomainAction, AuthorityEnvelope,
  InputBinding,
}
use creatidy_kernel.Domain.Topology.{WorkUnit}
use creatidy_kernel.Domain.Spec.{work_unit, program_spec_eq, ProgramSpec}
use creatidy_kernel.Domain.Facts.{
  states_eq, Attempt, TrustedSatisfaction, WorkUnitCancellation, AttemptCancellation,
  ProgramConclusion, WorkUnitState,
}
use creatidy_kernel.Domain.Projection.{States, resolved_inputs}

pub record Program : Type 0 where
  pub spec : ProgramSpec
  pub status : ProgramStatus
  pub revision : ℕ
  pub work_unit_states : States
  pub attempts : List Attempt
  pub satisfactions : List TrustedSatisfaction
  pub cancellations : List WorkUnitCancellation
  pub attempt_cancellations : List AttemptCancellation
  pub conclusions : List ProgramConclusion
  pub spec_history : List ProgramSpec

-- `WorkUnitState(unit.id)`
abbrev pub pending_state : WorkUnit → WorkUnitState
pending_state u = record {
  work_unit_id = u.work_unit_id;
  status = WorkUnitStatus.pending;
  active_attempt_id = none;
  satisfaction_id = none;
}

-- `Program.create`; the other arguments of `__init__` are refused unless they are the defaults.
unfoldable pub create : ProgramSpec → Result Program
create spec = do
  raise_if (spec.revision != 1 || is_some spec.parent_digest) invalid_domain_value
  ok (record {
    spec = spec;
    status = ProgramStatus.draft;
    revision = 0;
    work_unit_states = map pending_state spec.work_units;
    attempts = [];
    satisfactions = [];
    cancellations = [];
    attempt_cancellations = [];
    conclusions = [];
    spec_history = spec ∷ [];
  })

-- `ready_work_unit_ids`
unfoldable pub ready_work_unit_ids : Program → List String
ready_work_unit_ids p =
    if p.status == ProgramStatus.active
    then map (λ s. s.work_unit_id)
        (select (λ s. s.status == WorkUnitStatus.ready) p.work_unit_states)
    else []

-- `Program.state`
abbrev pub state : Program → String → Result WorkUnitState
state p ident = or_raise (find? (λ s. s.work_unit_id == ident) p.work_unit_states) missing_reference

-- `Program.attempt`
abbrev pub attempt_named : List Attempt → String → Option Attempt
attempt_named attempts ident = find? (λ a. a.spec.attempt_id == ident) attempts

abbrev pub attempt : Program → String → Result Attempt
attempt p ident = or_raise (attempt_named p.attempts ident) missing_reference

-- `Program.resolved_inputs`
unfoldable pub program_inputs : Program → String → Result (List InputBinding)
program_inputs p ident = do
  unit ← work_unit p.spec ident
  inputs ← resolved_inputs p.spec unit p.work_unit_states p.satisfactions
  or_raise inputs missing_input

-- The owner, or an actor to whom the owner delegates.
abbrev pub is_operator : AuthorityEnvelope → String → Bool
is_operator e actor = actor == e.owner_id || contains e.delegated_actor_ids actor

pub data Decider : Type 0 where
  owner_alone trusted_producer operator_allowed : Decider

-- Who decides on an action.
abbrev pub decider : DomainAction → Decider
decider DomainAction.amend_spec = owner_alone
decider DomainAction.cancel_program = owner_alone
decider DomainAction.cancel_work_unit = owner_alone
decider DomainAction.satisfy_work_unit = trusted_producer
decider _ = operator_allowed

-- The branches of `Program._authorize`.
unfoldable pub permit : AuthorityEnvelope → DomainAction → String → Decider → Result (Unit {0})
permit e action actor owner_alone = raise_if (actor != e.owner_id) authority_violation
permit e action actor trusted_producer =
    raise_if (not (contains e.trusted_satisfaction_issuers actor)) authority_violation
permit e action actor operator_allowed =
    raise_if (not (contains e.allowed_actions action) || not (is_operator e actor))
      authority_violation

-- `Program._authorize`
unfoldable pub authorize : AuthorityEnvelope → DomainAction → String → Result (Unit {0})
authorize e action actor = permit e action actor (decider action)
