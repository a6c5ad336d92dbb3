-- ===== src/Domain/Values.antt =====
-- `BudgetPolicy`, `AuthorityEnvelope`, `PolicyReference` and `InputBinding` of `core/domain.py`,
-- lines 62 to 339. A constructor is a function that checks its arguments and may raise.
use creatidy_kernel.Base.{
  String_discrete, name_set, sort_by, NameSet, disjoint, ℕ, String, ◌||◌, not, Option, none, some,
  List, [], ◌∷◌, map, if◌then◌else◌, is_some, ◌==◌, ◌!=◌, nat_eq, string_eq, names_eq, optional_eq,
  Eq, select, contains, unique, raise_if, ◌>>◌, invalid_domain_value, Result, err, ok,
}
use creatidy_kernel.Domain.Checks.{
  array_of, optional_text, nonempty, immutable_strings, json_eq, Json, integer, text, object, end,
  field,
}

pub data ProgramStatus : Type 0 where
  draft active paused completed cancelled : ProgramStatus

pub data WorkUnitStatus : Type 0 where
  pending ready active satisfied cancelled : WorkUnitStatus

pub data AttemptStatus : Type 0 where
  prepared executing finished failed cancelled : AttemptStatus

pub data DomainAction : Type 0 where
  activate_program pause_program resume_program cancel_program cancel_work_unit : DomainAction
  prepare_attempt start_attempt finish_attempt fail_attempt cancel_attempt : DomainAction
  satisfy_work_unit amend_spec : DomainAction

unfoldable pub ProgramStatus-discrete : Discrete ProgramStatus
ProgramStatus-discrete = hlevel

unfoldable pub WorkUnitStatus-discrete : Discrete WorkUnitStatus
WorkUnitStatus-discrete = hlevel

unfoldable pub AttemptStatus-discrete : Discrete AttemptStatus
AttemptStatus-discrete = hlevel

unfoldable pub DomainAction-discrete : Discrete DomainAction
DomainAction-discrete = hlevel

instance abbrev pub program_status_eq : Eq ProgramStatus
program_status_eq = record { decision = ProgramStatus-discrete }

instance abbrev pub work_unit_status_eq : Eq WorkUnitStatus
work_unit_status_eq = record { decision = WorkUnitStatus-discrete }

instance abbrev pub attempt_status_eq : Eq AttemptStatus
attempt_status_eq = record { decision = AttemptStatus-discrete }

instance abbrev pub domain_action_eq : Eq DomainAction
domain_action_eq = record { decision = DomainAction-discrete }

-- The members of the enumeration, in the order of their values.
abbrev pub domain_actions : List DomainAction
domain_actions =
    DomainAction.activate_program ∷ amend_spec ∷ cancel_attempt ∷ cancel_program ∷ cancel_work_unit
    ∷ fail_attempt ∷ finish_attempt ∷ pause_program ∷ prepare_attempt ∷ resume_program
    ∷ satisfy_work_unit ∷ start_attempt ∷ []

abbrev pub action_value : DomainAction → String
action_value activate_program = "activate_program"
action_value pause_program = "pause_program"
action_value resume_program = "resume_program"
action_value cancel_program = "cancel_program"
action_value cancel_work_unit = "cancel_work_unit"
action_value prepare_attempt = "prepare_attempt"
action_value start_attempt = "start_attempt"
action_value finish_attempt = "finish_attempt"
action_value fail_attempt = "fail_attempt"
action_value cancel_attempt = "cancel_attempt"
action_value satisfy_work_unit = "satisfy_work_unit"
action_value amend_spec = "amend_spec"

pub record BudgetPolicy : Type 0 where
  pub max_attempts : ℕ
  pub max_active_attempts : ℕ

pub record AuthorityEnvelope : Type 0 where
  pub owner_id : String
  pub allowed_actions : List DomainAction
  pub max_attempts : ℕ
  pub trusted_satisfaction_issuers : NameSet
  pub delegated_actor_ids : NameSet

unfoldable pub authority_envelope :
    String → List DomainAction → ℕ → List String → List String → Result AuthorityEnvelope
authority_envelope owner_id allowed_actions max_attempts issuers delegated = do
  nonempty owner_id
  immutable_strings issuers
  immutable_strings delegated
  raise_if (not (disjoint issuers delegated)) invalid_domain_value
  ok (record {
    owner_id = owner_id;
    allowed_actions = select (contains allowed_actions) domain_actions;
    max_attempts = max_attempts;
    trusted_satisfaction_issuers = name_set issuers;
    delegated_actor_ids = name_set delegated;
  })

abbrev pub authority_payload : AuthorityEnvelope → Json
authority_payload e = object (
    field "owner_id" (text e.owner_id) (
      field "allowed_actions" (array_of (λ a. text (action_value a)) e.allowed_actions) (
        field "max_attempts" (integer e.max_attempts) (
          field "trusted_satisfaction_issuers" (array_of text e.trusted_satisfaction_issuers)
            (field "delegated_actor_ids" (array_of text e.delegated_actor_ids) end)))))

pub record PolicyReference : Type 0 where
  pub policy_id : String
  pub version : String
  pub digest : String

unfoldable pub policy_reference : String → String → String → Result PolicyReference
policy_reference policy_id version digest = do
  nonempty policy_id
  nonempty version
  nonempty digest
  ok (record { policy_id = policy_id; version = version; digest = digest })

abbrev pub policy_payload : PolicyReference → Json
policy_payload p = object (
    field "policy_id" (text p.policy_id)
      (field "version" (text p.version) (field "digest" (text p.digest) end)))

unfoldable pub PolicyReference-discrete : Discrete PolicyReference
PolicyReference-discrete = hlevel String_discrete

instance abbrev pub policy_reference_eq : Eq PolicyReference
policy_reference_eq = record { decision = PolicyReference-discrete }

-- The key of `sorted` in `_policies`: version and digest break ties, which three stable sorts do.
unfoldable pub policy_sort : List PolicyReference → List PolicyReference
policy_sort refs =
    sort_by (λ r. r.policy_id) (sort_by (λ r. r.version) (sort_by (λ r. r.digest) refs))

-- `_policies`
unfoldable pub policies : List PolicyReference → Result (List PolicyReference)
policies refs = do raise_if (not (unique refs)) invalid_domain_value; ok (policy_sort refs)

pub record InputBinding : Type 0 where
  pub name : String
  pub reference : String
  pub source_kind : String
  pub source_work_unit_id : Option String
  pub satisfaction_id : Option String
  pub output_name : Option String

-- `_nonempty` of an optional text: `None` is no text.
abbrev pub required : Option String → Result (Unit {0})
required none = err invalid_domain_value
required (some value) = nonempty value

abbrev pub input_source :
    String → String → Option String → Option String → Option String → Result (Unit {0})
input_source name kind source satisfaction output =
    if kind == "initial"
    then raise_if (is_some source || is_some satisfaction || is_some output) invalid_domain_value
    else if kind == "predecessor"
    then required source
      >> required satisfaction
      >> required output
      >> raise_if (output != some name) invalid_domain_value
    else err invalid_domain_value

unfoldable pub input_binding :
    String → String → String → Option String → Option String → Option String → Result InputBinding
input_binding name reference kind source satisfaction output = do
  nonempty name
  nonempty reference
  input_source name kind source satisfaction output
  ok (record {
    name = name;
    reference = reference;
    source_kind = kind;
    source_work_unit_id = source;
    satisfaction_id = satisfaction;
    output_name = output;
  })

abbrev pub binding_payload : InputBinding → Json
binding_payload b = object (
    field "name" (text b.name) (
      field "reference" (text b.reference) (
        field "source_kind" (text b.source_kind) (
          field "source_work_unit_id" (optional_text b.source_work_unit_id) (
            field "satisfaction_id" (optional_text b.satisfaction_id)
              (field "output_name" (optional_text b.output_name) end))))))

-- `InputBinding.subject`: the tuple that leaves the record identity of the fact out.
abbrev pub Subject : Type 0
Subject = record {
  name : String;
  reference : String;
  source_kind : String;
  source_work_unit_id : Option String;
  output_name : Option String;
}

abbrev pub subject : InputBinding → Subject
subject b = record {
  name = b.name;
  reference = b.reference;
  source_kind = b.source_kind;
  source_work_unit_id = b.source_work_unit_id;
  output_name = b.output_name;
}

unfoldable pub InputBinding-discrete : Discrete InputBinding
InputBinding-discrete = hlevel String_discrete

unfoldable pub bindings_discrete : Discrete (List InputBinding)
bindings_discrete = hlevel InputBinding-discrete

instance abbrev pub bindings_eq : Eq (List InputBinding)
bindings_eq = record { decision = bindings_discrete }

unfoldable pub subjects_discrete : Discrete (List Subject)
subjects_discrete = hlevel String_discrete

instance abbrev pub subjects_eq : Eq (List Subject)
subjects_eq = record { decision = subjects_discrete }

-- `_bindings`
unfoldable pub bindings : List InputBinding → Result (List InputBinding)
bindings values = do
  raise_if (not (unique (map (λ b. b.name) values))) invalid_domain_value
  ok (sort_by (λ b. b.name) values)
