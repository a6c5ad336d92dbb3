-- ===== src/Domain/Spec.antt =====
-- `ProgramSpec` of `core/domain.py`, lines 439 to 592: its checks, its payloads, the fingerprint of
-- a WorkUnit and amendments.
pub mod Termination
use creatidy_kernel.Base.{
  String_discrete, sort_by, sorted, subset, ℕ, zero, suc, ◌+◌, String, Bool, true, false, ◌||◌, not,
  Option, none, some, List, [], ◌∷◌, ◌++◌, map, reverse, ℕ_discrete, if◌then◌else◌, is_some, ◌==◌,
  ◌!=◌, nat_eq, string_eq, names_eq, optional_eq, ne_of_eq, Eq, length, is_empty, any, find?,
  select, contains, unique, ◌>>=◌, raise_if, ◌>>◌, or_raise, map_m, invalid_domain_value,
  invalid_graph, missing_reference, missing_input, key_error, out_of_fuel, Result, err, ok,
}
use creatidy_kernel.Domain.Checks.{
  Digest, array_of, optional_text, nonempty, optional_nonempty, positive, criteria, json_eq, Json,
  integer, text, object, Fields, end, field,
}
use creatidy_kernel.Domain.Values.{
  program_status_eq, work_unit_status_eq, attempt_status_eq, domain_action_eq, authority_payload,
  policy_payload, policy_reference_eq, policies, binding_payload, bindings_eq, subjects_eq,
  bindings, BudgetPolicy, AuthorityEnvelope, PolicyReference, InputBinding,
}
use creatidy_kernel.Domain.Topology.{unit_payload, topological_order, WorkUnit}

pub record ProgramSpec : Type 0 where
  pub program_id : String
  pub objective : String
  pub work_units : List WorkUnit
  pub initial_inputs : List InputBinding
  pub budget : BudgetPolicy
  pub authority : AuthorityEnvelope
  pub revision : ℕ
  pub parent_digest : Option String
  pub acceptance_criteria : List String
  pub policy_references : List PolicyReference

-- `producers`: each logical name with the WorkUnit that produces it, `none` for an initial input.
abbrev pub Producers : Type 0
Producers = List (String × Option String)

unfoldable pub producer : String → Producers → Option (Option String)
producer name [] = none
producer name ((key, source) ∷ rest) = if key == name then some source else producer name rest

unfoldable pub add_outputs : String → List String → Producers → Result Producers
add_outputs unit [] producers = ok producers
add_outputs unit (output ∷ outputs) producers = do
  raise_if (is_some (producer output producers)) invalid_graph
  add_outputs unit outputs ((output, some unit) ∷ producers)

unfoldable pub collect_producers : List String → List WorkUnit → Producers → Result Producers
collect_producers idents [] producers = ok producers
collect_producers idents (unit ∷ units) producers = do
  raise_if (not (subset unit.dependencies idents)) missing_reference
  more ← add_outputs unit.work_unit_id unit.outputs producers
  collect_producers idents units more

unfoldable pub has_source : Producers → WorkUnit → String → Bool
has_source producers unit name = elim (producer name producers) [
  | none ↦ false
  | some none ↦ true
  | some (some source) ↦ contains unit.dependencies source
]

unfoldable pub unit_ids : List WorkUnit → List String
unit_ids = map (λ u. u.work_unit_id)

-- The part of the constructor that reads the graph.
unfoldable pub check_graph : List WorkUnit → List InputBinding → Result (Unit {0})
check_graph units inputs = do
  producers ← collect_producers (unit_ids units) units (map (λ b. (b.name, none)) inputs)
  _ ← topological_order units
  raise_if (any (λ u. any (λ n. not (has_source producers u n)) u.required_inputs) units)
      missing_input

unfoldable pub program_spec :
    String
    → String
    → List WorkUnit
    → List InputBinding
    → BudgetPolicy
    → AuthorityEnvelope
    → ℕ
    → Option String
    → List String
    → List PolicyReference
    → Result ProgramSpec
program_spec ident objective units initial budget authority revision parent acceptance references =
    do
      nonempty ident
      nonempty objective
      raise_if (is_empty units) invalid_domain_value
      raise_if (not (unique (unit_ids units))) invalid_graph
      inputs ← bindings initial
      raise_if (any (λ b. b.source_kind != "initial") inputs) invalid_domain_value
      accepted ← criteria acceptance
      pinned ← policies references
      raise_if (is_empty accepted || is_empty pinned) invalid_domain_value
      positive revision
      optional_nonempty parent
      check_graph units inputs
      ok (record {
        program_id = ident;
        objective = objective;
        work_units = sort_by (λ u. u.work_unit_id) units;
        initial_inputs = inputs;
        budget = budget;
        authority = authority;
        revision = revision;
        parent_digest = parent;
        acceptance_criteria = accepted;
        policy_references = pinned;
      })

unfoldable pub budget_payload : BudgetPolicy → Json
budget_payload b = object (
    field "max_attempts" (integer b.max_attempts)
      (field "max_active_attempts" (integer b.max_active_attempts) end))

-- The fields of `semantic_payload`, followed by others.
unfoldable pub semantic_fields : ProgramSpec → Fields → Fields
semantic_fields s rest = field "program_id" (text s.program_id) (
    field "objective" (text s.objective) (
      field "acceptance_criteria" (array_of text s.acceptance_criteria) (
        field "policy_references" (array_of policy_payload s.policy_references) (
          field "work_units" (array_of unit_payload s.work_units) (
            field "initial_inputs" (array_of binding_payload s.initial_inputs) (
              field "budget" (budget_payload s.budget)
                (field "authority" (authority_payload s.authority) rest)))))))

unfoldable pub semantic_payload : ProgramSpec → Json
semantic_payload s = object (semantic_fields s end)

unfoldable pub spec_payload : ProgramSpec → Json
spec_payload s = object (
    semantic_fields s (
      field "revision" (integer s.revision)
        (field "parent_digest" (optional_text s.parent_digest) end)))

-- `ProgramSpec.digest`
abbrev pub spec_digest : Digest → ProgramSpec → String
spec_digest digest s = digest (spec_payload s)

-- `ProgramSpec.work_unit`
abbrev pub unit_named : List WorkUnit → String → Option WorkUnit
unit_named units ident = find? (λ u. u.work_unit_id == ident) units

abbrev pub work_unit : ProgramSpec → String → Result WorkUnit
work_unit s ident = or_raise (unit_named s.work_units ident) missing_reference

-- `by_id[ident]`
abbrev pub by_id : List WorkUnit → String → Result WorkUnit
by_id units ident = or_raise (unit_named units ident) key_error

-- The loop of `work_unit_applicability_fingerprint`. The end of the list that Python pops from
-- is the head here.
unfoldable pub closure_loop : ℕ → List WorkUnit → List String → List String → Result (List String)
closure_loop fuel units [] closure = ok closure
closure_loop zero units (p ∷ pending) closure = err out_of_fuel
closure_loop (suc fuel) units (p ∷ pending) closure = elim (contains closure p) [
  | true ↦ closure_loop fuel units pending closure
  | false ↦ by_id units p >>= λ u.
      closure_loop fuel units (reverse u.dependencies ++ pending) (p ∷ closure)
]

abbrev pub edges : List WorkUnit → ℕ
edges [] = 0
edges (u ∷ units) = length u.dependencies + edges units

-- A WorkUnit's dependencies are pushed once, when it enters the closure.
unfoldable pub dependency_closure : List WorkUnit → WorkUnit → Result (List String)
dependency_closure units target =
    closure_loop (edges units + edges units) units (reverse target.dependencies)
      (target.work_unit_id ∷ [])

unfoldable pub intent_payload : ProgramSpec → List WorkUnit → Json
intent_payload s closure = object (
    field "encoding" (text "creatidy-k1-work-unit-intent-v1") (
      field "program_id" (text s.program_id) (
        field "objective" (text s.objective) (
          field "acceptance_criteria" (array_of text s.acceptance_criteria) (
            field "policy_references" (array_of policy_payload s.policy_references) (
              field "closure" (array_of unit_payload closure) (
                field "initial_inputs"
                  (array_of binding_payload (
                    select (λ b. any (λ u. contains u.required_inputs b.name) closure)
                      s.initial_inputs))
                  end)))))))

-- `ProgramSpec.work_unit_applicability_fingerprint`
unfoldable pub fingerprint : Digest → ProgramSpec → String → Result String
fingerprint digest s ident = do
  target ← work_unit s ident
  closure ← dependency_closure s.work_units target
  units ← map_m (by_id s.work_units) (sorted closure)
  ok (digest (intent_payload s units))

unfoldable pub WorkUnit-discrete : Discrete WorkUnit
WorkUnit-discrete = hlevel String_discrete

unfoldable pub ProgramSpec-discrete : Discrete ProgramSpec
ProgramSpec-discrete = hlevel (WorkUnit-discrete, String_discrete, ℕ_discrete)

instance abbrev pub program_spec_eq : Eq ProgramSpec
program_spec_eq = record { decision = ProgramSpec-discrete }
