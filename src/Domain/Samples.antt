-- ===== src/Domain/Samples.antt =====
-- A Program of two WorkUnits and the commands that complete it.
use Prim.Native.String.{◌++◌ as join}
use creatidy_kernel.Base.{
  String_discrete, leb_text, names_discrete, optional_discrete, is_blank, name_set, sort_by, ℕ,
  zero, suc, String, ◌≡◌, refl, none, [], ◌∷◌, ℕ_discrete, err, ok,
}
use creatidy_kernel.Domain.Checks.{
  criteria, Json-discrete, Json, null, integer, text, array, object, Items, nil, cons, Fields, end,
  field,
}
use creatidy_kernel.Domain.Values.{
  ProgramStatus-discrete, WorkUnitStatus-discrete, AttemptStatus-discrete, DomainAction-discrete,
  domain_actions, authority_envelope, policy_reference, PolicyReference-discrete, policy_sort,
  policies, input_binding, InputBinding-discrete, bindings_discrete, subjects_discrete, bindings,
  AuthorityEnvelope, PolicyReference, InputBinding,
}
use creatidy_kernel.Domain.Topology.{
  work_unit_of, remaining_of, ready_names, without_ready, order_rounds, topological_order, WorkUnit,
}
use creatidy_kernel.Domain.Spec.{
  producer, add_outputs, collect_producers, has_source, unit_ids, check_graph, program_spec,
  budget_payload, semantic_fields, semantic_payload, spec_payload, spec_digest, closure_loop,
  dependency_closure, intent_payload, fingerprint, WorkUnit-discrete, ProgramSpec-discrete,
  ProgramSpec,
}
use creatidy_kernel.Domain.Amendment.{spec_amendment, amend}
use creatidy_kernel.Domain.Facts.{
  attempt_spec, attempt_digest, attempt_of, trusted_satisfaction, work_unit_cancellation,
  attempt_cancellation, program_conclusion, work_unit_state, WorkUnitState-discrete,
  states_discrete, AttemptSpec, TrustedSatisfaction,
}
use creatidy_kernel.Domain.Projection.{
  put_binding, add_output, add_predecessor_outputs, add_predecessors, is_waiting, resolved_inputs,
  same_subject, is_matching, latest, unsatisfied_state, project_unit, project_all, project,
  program_status,
}
use creatidy_kernel.Domain.Program.{create, ready_work_unit_ids, program_inputs, permit, authorize}
use creatidy_kernel.Domain.Validation.{
  is_chain, position, ids, fact_ids, is_lineage, check_history, check_ids, check_attempt, is_source,
  check_satisfaction, check_cancellation, check_projection, check_live_unit, check_live, check_end,
  validate,
}
use creatidy_kernel.Domain.Commands.{check_body, command, Body, Command}
use creatidy_kernel.Domain.Transitions.{
  cancelled_ids, cancel_live, activate, pause, resume, cancel, descendants, abandonment,
  cancel_unit, check_remediation, check_admission, check_request, prepare, replace_status, start,
  finish, fail, cancel_one,
}
use creatidy_kernel.Domain.Recording.{
  check_fact, check_source, satisfy, is_withdrawn, is_invalid, invalid_attempts, end_round,
  withdraw, adopt, amend_program,
}
use creatidy_kernel.Domain.Apply.{draft_states, draft_status, conclude, assemble, perform, apply}

-- A stand-in for the hash: it writes a value out, with numbers as strokes.
strokes : ℕ → String
strokes zero = ""
strokes (suc n) = join "|" (strokes n)

unfoldable mutual
  unfolding strokes

  pub written : Json → String
  written null = "null"
  written (integer n) = join "#" (strokes n)
  written (text s) = join s ";"
  written (array items) = join "[" (written_items items)
  written (object fields) = join "{" (written_fields fields)

  pub written_items : Items → String
  written_items nil = "]"
  written_items (cons j items) = join (written j) (written_items items)

  pub written_fields : Fields → String
  written_fields end = "}"
  written_fields (field name j fields) = join name (join (written j) (written_fields fields))

-- The code of `core/domain.py`, opened for evaluation by a line that names it.
unfoldable pub code : Unit {0}
unfolding cancelled_ids abandonment end_round activate adopt add_output add_outputs
    add_predecessor_outputs add_predecessors amend amend_program apply assemble attempt_cancellation
    attempt_digest attempt_of attempt_spec authority_envelope authorize bindings bindings_discrete
    cancel cancel_live cancel_one cancel_unit check_admission check_attempt check_body
    check_cancellation check_end check_fact check_graph check_history check_ids check_live
    check_live_unit check_projection check_remediation check_request check_satisfaction check_source
    closure_loop collect_producers command conclude create criteria dependency_closure descendants
    draft_states draft_status fact_ids fail fingerprint finish ids input_binding intent_payload
    invalid_attempts is_chain is_invalid is_lineage is_matching is_source is_waiting is_withdrawn
    latest order_rounds pause perform permit policies policy_reference policy_sort position prepare
    producer program_conclusion program_inputs program_spec program_status project project_all
    project_unit put_binding ready_names ready_work_unit_ids remaining_of replace_status
    resolved_inputs resume same_subject satisfy semantic_payload semantic_fields budget_payload
    spec_amendment spec_payload start states_discrete subjects_discrete topological_order
    trusted_satisfaction unit_ids unsatisfied_state validate withdraw without_ready
    work_unit_cancellation work_unit_of work_unit_state has_source is_blank name_set sort_by
    leb_text String_discrete names_discrete optional_discrete ℕ_discrete AttemptStatus-discrete
    DomainAction-discrete InputBinding-discrete Json-discrete PolicyReference-discrete
    ProgramSpec-discrete ProgramStatus-discrete WorkUnit-discrete WorkUnitState-discrete
    WorkUnitStatus-discrete written
code = tt

abbrev pub unit_a : WorkUnit
unit_a = record {
  work_unit_id = "a";
  obligation = "build";
  dependencies = [];
  required_inputs = [];
  outputs = "x" ∷ [];
  acceptance_criteria = "tests pass" ∷ [];
  acceptance_policy_reference = none;
}

abbrev pub unit_b : WorkUnit
unit_b = record {
  work_unit_id = "b";
  obligation = "publish";
  dependencies = "a" ∷ [];
  required_inputs = "x" ∷ [];
  outputs = [];
  acceptance_criteria = "tests pass" ∷ [];
  acceptance_policy_reference = none;
}

abbrev pub sample_authority : AuthorityEnvelope
sample_authority = record {
  owner_id = "owner";
  allowed_actions = domain_actions;
  max_attempts = 3;
  trusted_satisfaction_issuers = "judge" ∷ [];
  delegated_actor_ids = "worker" ∷ [];
}

abbrev pub policy : PolicyReference
policy = record { policy_id = "p"; version = "1"; digest = "d" }

abbrev pub sample_spec : ProgramSpec
sample_spec = record {
  program_id = "program";
  objective = "ship";
  work_units = unit_a ∷ unit_b ∷ [];
  initial_inputs = [];
  budget = record { max_attempts = 3; max_active_attempts = 1 };
  authority = sample_authority;
  revision = 1;
  parent_digest = none;
  acceptance_criteria = "shipped" ∷ [];
  policy_references = policy ∷ [];
}

sample_spec-accepted :
    program_spec "program" "ship"
      (unit_b ∷ unit_a ∷ [])
      []
      (record { max_attempts = 3; max_active_attempts = 1 })
      sample_authority
      1
      none
      ("shipped" ∷ [])
      (policy ∷ [])
    ≡ ok sample_spec
unfolding code
sample_spec-accepted = refl

abbrev pub sample_attempt : AttemptSpec
unfolding code
sample_attempt = record {
  attempt_id = "t1";
  program_id = "program";
  work_unit_id = "a";
  spec_revision = 1;
  spec_digest = spec_digest written sample_spec;
  effective_inputs = [];
  allocation_reference = none;
  agent_definition_reference = none;
  workspace_reference = none;
  context_reference = none;
  remediation_of = none;
}

abbrev pub by_owner : ℕ → Body → Command
by_owner revision body = record { expected_revision = revision; actor_id = "owner"; body = body }

abbrev print_of_a : String
unfolding code
print_of_a = elim (fingerprint written sample_spec "a") [ ok s ↦ s | err _ ↦ "" ]

abbrev output_x : InputBinding
output_x = record {
  name = "x";
  reference = "artifact:1";
  source_kind = "initial";
  source_work_unit_id = none;
  satisfaction_id = none;
  output_name = none;
}

abbrev pub sample_fact : TrustedSatisfaction
unfolding code
sample_fact = record {
  reference_id = "s1";
  program_id = "program";
  work_unit_id = "a";
  spec_revision = 1;
  spec_digest = spec_digest written sample_spec;
  work_unit_fingerprint = print_of_a;
  issuer_id = "judge";
  source_attempt_id = "t1";
  output_bindings = output_x ∷ [];
  record_order = 0;
}
