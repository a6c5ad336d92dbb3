-- ===== src/Domain/Projection/Termination.antt =====
-- The fuel of `_project` and of what it calls.
use creatidy_kernel.Base.{
  String, false, Option, none, some, List, [], ◌∷◌, ◌++◌, ◌==◌, nat_eq, string_eq, names_eq,
  optional_eq, ◌>>=◌, any_m, select_m, Ends-ok, Ends-or_raise, Ends-bind, Ends-if, Ends-option,
  Ends-select_m, ends_rules, missing_reference, ok, Ends,
}
use creatidy_kernel.Domain.Checks.{Digest, optional_nonempty, json_eq}
use creatidy_kernel.Domain.Values.{
  program_status_eq, work_unit_status_eq, attempt_status_eq, domain_action_eq, policy_reference_eq,
  required, input_binding, bindings_eq, subjects_eq, WorkUnitStatus, InputBinding,
}
use creatidy_kernel.Domain.Topology.{WorkUnit}
use creatidy_kernel.Domain.Topology.Termination.{topological_order-Ends}
use creatidy_kernel.Domain.Spec.{unit_named, work_unit, fingerprint, program_spec_eq, ProgramSpec}
use creatidy_kernel.Domain.Spec.Termination.{fingerprint-Ends}
use creatidy_kernel.Domain.Facts.{
  work_unit_state, states_eq, Attempt, TrustedSatisfaction, WorkUnitCancellation,
}
use creatidy_kernel.Domain.Projection.{
  States, state_at, add_output, add_predecessor_outputs, add_predecessors, is_waiting,
  resolved_inputs, same_subject, is_matching, latest, live_attempt, open_state, unsatisfied_state,
  project_unit, project_all, project,
}

optional_nonempty-Ends : (o : Option String) → Ends (optional_nonempty o)
optional_nonempty-Ends none = Ends-ok tt
optional_nonempty-Ends (some s) = search (ends_rules, tt)

pub work_unit_state-Ends :
    (ident : String) (status : WorkUnitStatus) (attempt fact : Option String)
    → Ends (work_unit_state ident status attempt fact)
unfolding work_unit_state
work_unit_state-Ends ident status attempt fact =
    search (ends_rules, optional_nonempty-Ends, tt) depth 20

required-Ends : (o : Option String) → Ends (required o)
required-Ends none = search (ends_rules, tt)
required-Ends (some s) = search (ends_rules, tt)

pub input_binding-Ends :
    (name reference kind : String) (source fact output : Option String)
    → Ends (input_binding name reference kind source fact output)
unfolding input_binding
input_binding-Ends name reference kind source fact output =
    search (ends_rules, required-Ends, tt) depth 20

add_output-Ends :
    (unit : WorkUnit) (predecessor : String) (source : TrustedSatisfaction) (output : InputBinding)
    (resolved : List InputBinding)
    → Ends (add_output unit predecessor source output resolved)
unfolding add_output
add_output-Ends unit predecessor source output resolved =
    search (ends_rules, input_binding-Ends) depth 20

add_predecessor_outputs-Ends :
    (unit : WorkUnit) (predecessor : String) (source : TrustedSatisfaction)
    (outputs resolved : List InputBinding)
    → Ends (add_predecessor_outputs unit predecessor source outputs resolved)
unfolding add_predecessor_outputs
add_predecessor_outputs-Ends unit predecessor source [] resolved = Ends-ok resolved
add_predecessor_outputs-Ends unit predecessor source (output ∷ outputs) resolved =
    Ends-bind (add_output unit predecessor source output resolved) _
      (add_output-Ends unit predecessor source output resolved)
      (λ more _. add_predecessor_outputs-Ends unit predecessor source outputs more)

add_predecessors-Ends :
    (unit : WorkUnit) (projected : States) (facts : List TrustedSatisfaction)
    (dependencies : List String) (resolved : List InputBinding)
    → Ends (add_predecessors unit projected facts dependencies resolved)
unfolding add_predecessors
add_predecessors-Ends unit projected facts [] resolved = Ends-ok resolved
add_predecessors-Ends unit projected facts (d ∷ rest) resolved =
    let again = add_predecessors-Ends unit projected facts rest in
    search (ends_rules, add_predecessor_outputs-Ends, again, tt) depth 20

is_waiting-Ends :
    (projected : States) (dependencies : List String) → Ends (is_waiting projected dependencies)
unfolding is_waiting
is_waiting-Ends projected dependencies = search (ends_rules, tt) depth 20

pub resolved_inputs-Ends :
    (spec : ProgramSpec) (unit : WorkUnit) (projected : States) (facts : List TrustedSatisfaction)
    → Ends (resolved_inputs spec unit projected facts)
unfolding resolved_inputs
resolved_inputs-Ends spec unit projected facts =
    search (ends_rules, is_waiting-Ends, add_predecessors-Ends) depth 20

is_matching-Ends :
    (attempts : List Attempt) (unit : WorkUnit) (print : String)
    (inputs : Option (List InputBinding)) (fact : TrustedSatisfaction)
    → Ends (is_matching attempts unit print inputs fact)
unfolding is_matching
is_matching-Ends attempts unit print none fact = Ends-ok false
is_matching-Ends attempts unit print (some inputs) fact = search (ends_rules, tt) depth 20

open_state-Ends :
    (ident : String) (inputs : Option (List InputBinding)) → Ends (open_state ident inputs)
open_state-Ends ident none = work_unit_state-Ends ident _ _ _
open_state-Ends ident (some inputs) = work_unit_state-Ends ident _ _ _

unsatisfied_state-Ends :
    (attempts : List Attempt) (ident : String) (inputs : Option (List InputBinding))
    → Ends (unsatisfied_state attempts ident inputs)
unfolding unsatisfied_state
unsatisfied_state-Ends attempts ident none = open_state-Ends ident none
unsatisfied_state-Ends attempts ident (some inputs) =
    Ends-option (live_attempt attempts ident) _ _ (λ _. open_state-Ends ident (some inputs))
      (λ live _.
        Ends-if (same_subject live.spec.effective_inputs inputs) _ _
          (work_unit_state-Ends ident _ _ _) (open_state-Ends ident (some inputs)))

is_blocked-Ends :
    (chosen : States) (dependencies : List String)
    → Ends (
        any_m
          (λ d. state_at chosen d >>= λ s. ok (s.status == WorkUnitStatus.cancelled))
          dependencies)
is_blocked-Ends chosen dependencies = search (ends_rules, tt) depth 20

chosen_state-Ends :
    (attempts : List Attempt) (ident : String) (inputs : Option (List InputBinding))
    (o : Option TrustedSatisfaction)
    → Ends (elim o [
      | some fact ↦ work_unit_state ident WorkUnitStatus.satisfied none (some fact.reference_id)
      | none ↦ unsatisfied_state attempts ident inputs
    ])
chosen_state-Ends attempts ident inputs none = unsatisfied_state-Ends attempts ident inputs
chosen_state-Ends attempts ident inputs (some fact) = work_unit_state-Ends ident _ _ _

module _ (digest : Digest) (spec : ProgramSpec) (attempts : List Attempt)
    (facts : List TrustedSatisfaction) (cancellations : List WorkUnitCancellation) where
  project_unit-Ends :
      (chosen : States) (ident : String)
      → Ends (project_unit digest spec attempts facts cancellations chosen ident)
  unfolding project_unit
  project_unit-Ends chosen ident =
      Ends-bind (work_unit spec ident) _
        (Ends-or_raise (unit_named spec.work_units ident) missing_reference tt)
        (λ unit _.
          Ends-bind (fingerprint digest spec ident) _ (fingerprint-Ends digest spec ident)
            (λ print _.
              Ends-bind
                (any_m (λ d. state_at chosen d >>= λ s. ok (s.status == WorkUnitStatus.cancelled))
                  unit.dependencies)
                _ (is_blocked-Ends chosen unit.dependencies)
                (λ blocked _. Ends-if _ _ _ (work_unit_state-Ends ident _ _ _) (
                  Ends-bind (resolved_inputs spec unit chosen facts) _
                    (resolved_inputs-Ends spec unit chosen facts)
                    (λ inputs _.
                      Ends-bind (select_m (is_matching attempts unit print inputs) facts) _
                        (Ends-select_m _ facts (is_matching-Ends attempts unit print inputs))
                        (λ matching _.
                          chosen_state-Ends attempts ident inputs (latest matching)))))))

  project_all-Ends :
      (order : List String) (chosen : States)
      → Ends (project_all digest spec attempts facts cancellations order chosen)
  unfolding project_all
  project_all-Ends [] chosen = Ends-ok chosen
  project_all-Ends (ident ∷ rest) chosen =
      Ends-bind (project_unit digest spec attempts facts cancellations chosen ident) _
        (project_unit-Ends chosen ident) (λ s _. project_all-Ends rest (chosen ++ s ∷ []))

  pub project-Ends : Ends (project digest spec attempts facts cancellations)
  unfolding project
  project-Ends = search (ends_rules, topological_order-Ends, project_all-Ends, tt) depth 20
