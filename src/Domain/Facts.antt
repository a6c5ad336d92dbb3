-- ===== src/Domain/Facts.antt =====
-- The records of what happened to a Program: `AttemptSpec` to `WorkUnitState` of `core/domain.py`,
-- lines 594 to 875.
use creatidy_kernel.Base.{
  String_discrete, ℕ, String, Bool, ◌||◌, not, Option, none, some, List, is_some, differ, ◌==◌,
  ◌!=◌, nat_eq, string_eq, names_eq, optional_eq, Eq, any, ◌>>=◌, raise_if, ◌>>◌,
  invalid_domain_value, Result, ok,
}
use creatidy_kernel.Domain.Checks.{
  Digest, array_of, optional_text, nonempty, optional_nonempty, positive, json_eq, integer, text,
  object, Fields, end, field,
}
use creatidy_kernel.Domain.Values.{
  WorkUnitStatus-discrete, program_status_eq, work_unit_status_eq, attempt_status_eq,
  domain_action_eq, policy_reference_eq, binding_payload, bindings_eq, subjects_eq, bindings,
  ProgramStatus, WorkUnitStatus, AttemptStatus, InputBinding,
}
use creatidy_kernel.Domain.Spec.{program_spec_eq}

pub record AttemptSpec : Type 0 where
  pub attempt_id : String
  pub program_id : String
  pub work_unit_id : String
  pub spec_revision : ℕ
  pub spec_digest : String
  pub effective_inputs : List InputBinding
  pub allocation_reference : Option String
  pub agent_definition_reference : Option String
  pub workspace_reference : Option String
  pub context_reference : Option String
  pub remediation_of : Option String

-- The checks of the constructor, which sorts the bindings that it is given.
unfoldable pub attempt_spec : AttemptSpec → Result AttemptSpec
attempt_spec s = do
  nonempty s.attempt_id
  nonempty s.program_id
  nonempty s.work_unit_id
  nonempty s.spec_digest
  positive s.spec_revision
  optional_nonempty s.allocation_reference
  optional_nonempty s.agent_definition_reference
  optional_nonempty s.workspace_reference
  optional_nonempty s.context_reference
  optional_nonempty s.remediation_of
  inputs ← bindings s.effective_inputs
  ok (record s { effective_inputs = inputs })

abbrev lineage_field : Option String → Fields
lineage_field none = end
lineage_field (some ident) = field "remediation_of" (text ident) end

-- `AttemptSpec.digest`: the lineage is a field of the payload only where there is one.
unfoldable pub attempt_digest : Digest → AttemptSpec → String
attempt_digest digest s = digest (
    object (
      field "attempt_id" (text s.attempt_id) (
        field "program_id" (text s.program_id) (
          field "work_unit_id" (text s.work_unit_id) (
            field "spec_revision" (integer s.spec_revision) (
              field "spec_digest" (text s.spec_digest) (
                field "effective_inputs" (array_of binding_payload s.effective_inputs) (
                  field "allocation_reference" (optional_text s.allocation_reference) (
                    field "agent_definition_reference" (optional_text s.agent_definition_reference)
                      (field "workspace_reference" (optional_text s.workspace_reference) (
                        field "context_reference" (optional_text s.context_reference)
                          (lineage_field s.remediation_of))))))))))))

pub record Attempt : Type 0 where
  pub spec : AttemptSpec
  pub status : AttemptStatus
  pub actor_id : String

unfoldable pub attempt_of : AttemptSpec → AttemptStatus → String → Result Attempt
attempt_of spec status actor = do
  nonempty actor
  ok (record { spec = spec; status = status; actor_id = actor })

abbrev pub is_live : Attempt → Bool
is_live a = a.status == AttemptStatus.prepared || a.status == AttemptStatus.executing

pub record TrustedSatisfaction : Type 0 where
  pub reference_id : String
  pub program_id : String
  pub work_unit_id : String
  pub spec_revision : ℕ
  pub spec_digest : String
  pub work_unit_fingerprint : String
  pub issuer_id : String
  pub source_attempt_id : String
  pub output_bindings : List InputBinding
  pub record_order : ℕ

unfoldable pub trusted_satisfaction : TrustedSatisfaction → Result TrustedSatisfaction
trusted_satisfaction f = do
  nonempty f.reference_id
  nonempty f.program_id
  nonempty f.work_unit_id
  nonempty f.spec_digest
  nonempty f.work_unit_fingerprint
  nonempty f.issuer_id
  nonempty f.source_attempt_id
  positive f.spec_revision
  outputs ← bindings f.output_bindings
  raise_if (any (λ b. b.source_kind != "initial") outputs) invalid_domain_value
  ok (record f { output_bindings = outputs })

pub record WorkUnitCancellation : Type 0 where
  pub work_unit_id : String
  pub work_unit_fingerprint : String
  pub spec_revision : ℕ
  pub spec_digest : String
  pub actor_id : String
  pub reason : String
  pub record_order : ℕ

unfoldable pub work_unit_cancellation : WorkUnitCancellation → Result WorkUnitCancellation
work_unit_cancellation c = do
  nonempty c.work_unit_id
  nonempty c.work_unit_fingerprint
  nonempty c.spec_digest
  nonempty c.actor_id
  nonempty c.reason
  positive c.spec_revision
  positive c.record_order
  ok c

pub record AttemptCancellation : Type 0 where
  pub attempt_id : String
  pub actor_id : String
  pub reason : String
  pub record_order : ℕ

unfoldable pub attempt_cancellation : String → String → String → ℕ → Result AttemptCancellation
attempt_cancellation ident actor reason order = do
  nonempty ident
  nonempty actor
  nonempty reason
  positive order
  ok (record { attempt_id = ident; actor_id = actor; reason = reason; record_order = order })

pub record ProgramConclusion : Type 0 where
  pub status : ProgramStatus
  pub spec_revision : ℕ
  pub spec_digest : String
  pub record_order : ℕ

unfoldable pub program_conclusion : ProgramStatus → ℕ → String → ℕ → Result ProgramConclusion
program_conclusion status revision digest order = do
  raise_if (not (status == ProgramStatus.completed || status == ProgramStatus.cancelled))
      invalid_domain_value
  positive revision
  nonempty digest
  positive order
  ok (record {
    status = status;
    spec_revision = revision;
    spec_digest = digest;
    record_order = order;
  })

pub record WorkUnitState : Type 0 where
  pub work_unit_id : String
  pub status : WorkUnitStatus
  pub active_attempt_id : Option String
  pub satisfaction_id : Option String

unfoldable pub work_unit_state :
    String → WorkUnitStatus → Option String → Option String → Result WorkUnitState
work_unit_state ident status attempt satisfaction = do
  nonempty ident
  optional_nonempty attempt
  optional_nonempty satisfaction
  raise_if (differ (is_some attempt) (status == WorkUnitStatus.active)) invalid_domain_value
  raise_if (differ (is_some satisfaction) (status == WorkUnitStatus.satisfied)) invalid_domain_value
  ok (record {
    work_unit_id = ident;
    status = status;
    active_attempt_id = attempt;
    satisfaction_id = satisfaction;
  })

unfoldable pub WorkUnitState-discrete : Discrete WorkUnitState
WorkUnitState-discrete = hlevel (WorkUnitStatus-discrete, String_discrete)

unfoldable pub states_discrete : Discrete (List WorkUnitState)
states_discrete = hlevel WorkUnitState-discrete

instance abbrev pub states_eq : Eq (List WorkUnitState)
states_eq = record { decision = states_discrete }
