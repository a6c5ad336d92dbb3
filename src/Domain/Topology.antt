-- ===== src/Domain/Topology.antt =====
-- `WorkUnit` and `_topological_order` of `core/domain.py`, lines 342 to 436.
pub mod Termination
pub mod Order
use creatidy_kernel.Base.{
  is_blank, name_set, NameSet, sorted, disjoint, ℕ, zero, suc, String, true, false, ◌&&◌, ◌||◌, not,
  Option, List, [], ◌∷◌, ◌++◌, map, is_some, nat_eq, string_eq, names_eq, optional_eq, ne_of_eq,
  length, is_empty, any, select, contains, unique, ◌>>=◌, raise_if, ◌>>◌, invalid_domain_value,
  cycle_detected, out_of_fuel, Result, err, ok,
}
use creatidy_kernel.Domain.Checks.{
  array_of, optional_json, nonempty, immutable_strings, criteria, json_eq, Json, text, object, end,
  field,
}
use creatidy_kernel.Domain.Values.{
  program_status_eq, work_unit_status_eq, attempt_status_eq, domain_action_eq, policy_payload,
  policy_reference_eq, bindings_eq, subjects_eq, PolicyReference,
}

pub record WorkUnit : Type 0 where
  pub work_unit_id : String
  pub obligation : String
  pub dependencies : List String
  pub required_inputs : NameSet
  pub outputs : NameSet
  pub acceptance_criteria : List String
  pub acceptance_policy_reference : Option PolicyReference

unfoldable pub work_unit_of :
    String
    → String
    → List String
    → List String
    → List String
    → List String
    → Option PolicyReference
    → Result WorkUnit
work_unit_of ident obligation dependencies inputs outputs acceptance policy = do
  nonempty ident
  nonempty obligation
  raise_if (any is_blank dependencies || not (unique dependencies)) invalid_domain_value
  immutable_strings inputs
  immutable_strings outputs
  accepted ← criteria acceptance
  raise_if (is_empty accepted && not (is_some policy)) invalid_domain_value
  raise_if (not (disjoint inputs outputs)) invalid_domain_value
  ok (record {
    work_unit_id = ident;
    obligation = obligation;
    dependencies = sorted dependencies;
    required_inputs = name_set inputs;
    outputs = name_set outputs;
    acceptance_criteria = accepted;
    acceptance_policy_reference = policy;
  })

-- `WorkUnit.payload`
abbrev pub unit_payload : WorkUnit → Json
unit_payload u = object (
    field "work_unit_id" (text u.work_unit_id) (
      field "obligation" (text u.obligation) (
        field "dependencies" (array_of text u.dependencies) (
          field "required_inputs" (array_of text u.required_inputs) (
            field "outputs" (array_of text u.outputs) (
              field "acceptance_criteria" (array_of text u.acceptance_criteria) (
                field "acceptance_policy_reference"
                  (optional_json policy_payload u.acceptance_policy_reference) end)))))))

-- An entry of `remaining`: a WorkUnit and the dependencies that are still to be ordered.
abbrev pub Remaining : Type 0
Remaining = List (String × List String)

unfoldable pub remaining_of : List WorkUnit → Remaining
remaining_of = map (λ u. (u.work_unit_id, u.dependencies))

unfoldable pub ready_names : Remaining → List String
ready_names remaining = sorted (map (λ e. e.0) (select (λ e. is_empty e.1) remaining))

-- The names of `ready` are deleted, as entries and from every set of dependencies.
unfoldable pub without_ready : List String → Remaining → Remaining
without_ready ready remaining =
    map (λ e. (e.0, select (λ d. not (contains ready d)) e.1))
      (select (λ e. not (contains ready e.0)) remaining)

unfoldable pub order_rounds : ℕ → Remaining → List String → Result (List String)
order_rounds fuel [] ordered = ok ordered
order_rounds zero (e ∷ es) ordered = err out_of_fuel
order_rounds (suc fuel) (e ∷ es) ordered = elim (is_empty (ready_names (e ∷ es))) [
  | true ↦ err cycle_detected
  | false ↦
      order_rounds fuel (without_ready (ready_names (e ∷ es)) (e ∷ es))
        (ordered ++ ready_names (e ∷ es))
]

-- Every round removes an entry, so one round for each WorkUnit is enough.
unfoldable pub topological_order : List WorkUnit → Result (List String)
topological_order units = order_rounds (length units) (remaining_of units) []
