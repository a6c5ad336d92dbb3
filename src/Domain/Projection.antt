-- ===== src/Domain/Projection.antt =====
-- `_resolved_inputs`, `_same_subject`, `_project` and `_program_status` of `core/domain.py`, lines
-- 1071 to 1158. A dict is the sequence of the values that it was built from.
pub mod Termination
pub mod Gate
use creatidy_kernel.Base.{
  name_set, sort_by, String, Bool, false, ◌&&◌, ◌||◌, Option, none, some, List, [], ◌∷◌, ◌++◌, map,
  if◌then◌else◌, ltb, ◌==◌, ◌!=◌, nat_eq, string_eq, names_eq, optional_eq, ne_of_eq, any, all,
  find?, find_last?, select, contains, ◌>>=◌, ◌>>◌, or_raise, any_m, select_m, map_m, key_error,
  Result, ok,
}
use creatidy_kernel.Domain.Checks.{Digest, json_eq}
use creatidy_kernel.Domain.Values.{
  program_status_eq, work_unit_status_eq, attempt_status_eq, domain_action_eq, policy_reference_eq,
  input_binding, subject, bindings_eq, subjects_eq, ProgramStatus, WorkUnitStatus, InputBinding,
}
use creatidy_kernel.Domain.Topology.{topological_order, WorkUnit}
use creatidy_kernel.Domain.Spec.{work_unit, fingerprint, program_spec_eq, ProgramSpec}
use creatidy_kernel.Domain.Facts.{
  is_live, work_unit_state, states_eq, Attempt, TrustedSatisfaction, WorkUnitCancellation,
  WorkUnitState,
}

abbrev pub States : Type 0
States = List WorkUnitState

-- `projected[ident]`
abbrev pub state_at : States → String → Result WorkUnitState
state_at states ident = or_raise (find_last? (λ s. s.work_unit_id == ident) states) key_error

abbrev pub fact_at : List TrustedSatisfaction → String → Result TrustedSatisfaction
fact_at facts ident = or_raise (find_last? (λ f. f.reference_id == ident) facts) key_error

abbrev pub attempt_at : List Attempt → String → Result Attempt
attempt_at attempts ident =
    or_raise (find_last? (λ a. a.spec.attempt_id == ident) attempts) key_error

-- `resolved[binding.name] = binding`
unfoldable pub put_binding : InputBinding → List InputBinding → List InputBinding
put_binding b [] = b ∷ []
put_binding b (x ∷ xs) = if x.name == b.name then b ∷ xs else x ∷ put_binding b xs

-- One round of the inner loop: an output that the WorkUnit requires becomes a binding.
unfoldable pub add_output :
    WorkUnit
    → String
    → TrustedSatisfaction
    → InputBinding
    → List InputBinding
    → Result (List InputBinding)
add_output unit predecessor source output resolved =
    if contains unit.required_inputs output.name
    then (input_binding output.name output.reference "predecessor" (some predecessor)
          (some source.reference_id) (some output.name)
        >>= λ b. ok (put_binding b resolved))
    else ok resolved

unfoldable pub add_predecessor_outputs :
    WorkUnit
    → String
    → TrustedSatisfaction
    → List InputBinding
    → List InputBinding
    → Result (List InputBinding)
add_predecessor_outputs unit predecessor source [] resolved = ok resolved
add_predecessor_outputs unit predecessor source (output ∷ outputs) resolved = do
  more ← add_output unit predecessor source output resolved
  add_predecessor_outputs unit predecessor source outputs more

unfoldable pub add_predecessors :
    WorkUnit
    → States
    → List TrustedSatisfaction
    → List String
    → List InputBinding
    → Result (List InputBinding)
add_predecessors unit projected facts [] resolved = ok resolved
add_predecessors unit projected facts (predecessor ∷ rest) resolved = do
  state ← state_at projected predecessor
  ident ← or_raise state.satisfaction_id key_error
  source ← fact_at facts ident
  more ← add_predecessor_outputs unit predecessor source source.output_bindings resolved
  add_predecessors unit projected facts rest more

-- Whether a predecessor is not satisfied.
unfoldable pub is_waiting : States → List String → Result Bool
is_waiting projected dependencies =
    any_m (λ d. state_at projected d >>= λ s. ok (s.status != WorkUnitStatus.satisfied))
      dependencies

unfoldable pub resolved_inputs :
    ProgramSpec → WorkUnit → States → List TrustedSatisfaction → Result (Option (List InputBinding))
resolved_inputs spec unit projected facts = do
  waiting ← is_waiting projected unit.dependencies
  if waiting then ok none else do
    resolved ←
        add_predecessors unit projected facts unit.dependencies
          (select (λ b. contains unit.required_inputs b.name) spec.initial_inputs)
    ok (
        if name_set (map (λ b. b.name) resolved) != name_set unit.required_inputs
        then none
        else some (sort_by (λ b. b.name) resolved))

-- `_same_subject`
unfoldable pub same_subject : List InputBinding → List InputBinding → Bool
same_subject left right = map subject left == map subject right

-- The condition of `matching`, up to the first part that is false.
unfoldable pub is_matching :
    List Attempt
    → WorkUnit
    → String
    → Option (List InputBinding)
    → TrustedSatisfaction
    → Result Bool
is_matching attempts unit print none fact = ok false
is_matching attempts unit print (some inputs) fact =
    if fact.work_unit_id == unit.work_unit_id
      && fact.work_unit_fingerprint == print
      && name_set (map (λ b. b.name) fact.output_bindings) == name_set unit.outputs
    then (attempt_at attempts fact.source_attempt_id >>= λ a.
        ok (same_subject a.spec.effective_inputs inputs))
    else ok false

-- `max(…, key=record_order, default=None)`: the first one of the greatest order.
unfoldable pub latest : List TrustedSatisfaction → Option TrustedSatisfaction
latest [] = none
latest (f ∷ fs) = elim (latest fs) [
  | none ↦ some f
  | some g ↦ if ltb f.record_order g.record_order then some g else some f
]

-- The live Attempt of a WorkUnit, the first one of the sequence.
abbrev pub live_attempt : List Attempt → String → Option Attempt
live_attempt attempts ident = find? (λ a. a.spec.work_unit_id == ident && is_live a) attempts

abbrev pub open_state : String → Option (List InputBinding) → Result WorkUnitState
open_state ident none = work_unit_state ident WorkUnitStatus.pending none none
open_state ident (some _) = work_unit_state ident WorkUnitStatus.ready none none

-- The state of a WorkUnit that is neither cancelled nor satisfied.
unfoldable pub unsatisfied_state :
    List Attempt → String → Option (List InputBinding) → Result WorkUnitState
unsatisfied_state attempts ident none = open_state ident none
unsatisfied_state attempts ident (some inputs) = elim (live_attempt attempts ident) [
  | none ↦ open_state ident (some inputs)
  | some live ↦
      if same_subject live.spec.effective_inputs inputs
      then work_unit_state ident WorkUnitStatus.active (some live.spec.attempt_id) none
      else open_state ident (some inputs)
]

module _ (digest : Digest) (spec : ProgramSpec) (attempts : List Attempt)
    (facts : List TrustedSatisfaction) (cancellations : List WorkUnitCancellation) where
  -- One round of the loop of `_project`.
  unfoldable pub project_unit : States → String → Result WorkUnitState
  project_unit chosen ident = do
    unit ← work_unit spec ident
    print ← fingerprint digest spec ident
    blocked ←
        any_m (λ d. state_at chosen d >>= λ s. ok (s.status == WorkUnitStatus.cancelled))
          unit.dependencies
    let abandoned =
        any (λ c. c.work_unit_id == ident && c.work_unit_fingerprint == print) cancellations
    if blocked || abandoned then work_unit_state ident WorkUnitStatus.cancelled none none else do
      inputs ← resolved_inputs spec unit chosen facts
      matching ← select_m (is_matching attempts unit print inputs) facts
      elim (latest matching) [
        | some fact ↦ work_unit_state ident WorkUnitStatus.satisfied none (some fact.reference_id)
        | none ↦ unsatisfied_state attempts ident inputs
      ]

  unfoldable pub project_all : List String → States → Result States
  project_all [] chosen = ok chosen
  project_all (ident ∷ rest) chosen = do
    state ← project_unit chosen ident
    project_all rest (chosen ++ state ∷ [])

  unfoldable pub project : Result States
  project = do
    order ← topological_order spec.work_units
    chosen ← project_all order []
    map_m (λ u. state_at chosen u.work_unit_id) spec.work_units

-- `_program_status`
unfoldable pub program_status : ProgramStatus → States → ProgramStatus
program_status ProgramStatus.cancelled states = ProgramStatus.cancelled
program_status ProgramStatus.draft states = ProgramStatus.draft
program_status previous states =
    if all (λ s. s.status == WorkUnitStatus.satisfied) states
    then ProgramStatus.completed
    else elim previous [ ProgramStatus.paused ↦ ProgramStatus.paused | _ ↦ ProgramStatus.active ]
