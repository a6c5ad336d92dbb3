-- ===== src/Domain/Amendment/Termination.antt =====
-- The fuel of `ProgramSpec.amend`, which constructs a specification.
use creatidy_kernel.Base.{
  ℕ, String, Option, none, some, List, [], ◌∷◌, Ends-ok, Ends-raise_if, Ends-bind, Ends-then,
  ends_rules, invalid_graph, missing_reference, Ends,
}
use creatidy_kernel.Domain.Checks.{Digest, optional_nonempty, criteria}
use creatidy_kernel.Domain.Values.{
  policies, bindings, BudgetPolicy, AuthorityEnvelope, PolicyReference, InputBinding,
}
use creatidy_kernel.Domain.Topology.{WorkUnit}
use creatidy_kernel.Domain.Topology.Termination.{topological_order-Ends}
use creatidy_kernel.Domain.Spec.{
  Producers, add_outputs, collect_producers, check_graph, program_spec, ProgramSpec,
}
use creatidy_kernel.Domain.Amendment.{amend, SpecAmendment}

add_outputs-Ends :
    (unit : String) (outputs : List String) (producers : Producers)
    → Ends (add_outputs unit outputs producers)
unfolding add_outputs
add_outputs-Ends unit [] producers = Ends-ok producers
add_outputs-Ends unit (output ∷ outputs) producers =
    Ends-then _ _ (Ends-raise_if _ invalid_graph tt) (add_outputs-Ends unit outputs _)

collect_producers-Ends :
    (idents : List String) (units : List WorkUnit) (producers : Producers)
    → Ends (collect_producers idents units producers)
unfolding collect_producers
collect_producers-Ends idents [] producers = Ends-ok producers
collect_producers-Ends idents (unit ∷ units) producers =
    Ends-then _ _ (Ends-raise_if _ missing_reference tt) (
      Ends-bind (add_outputs unit.work_unit_id unit.outputs producers) _
        (add_outputs-Ends unit.work_unit_id unit.outputs producers)
        (λ more _. collect_producers-Ends idents units more))

check_graph-Ends :
    (units : List WorkUnit) (inputs : List InputBinding) → Ends (check_graph units inputs)
unfolding check_graph
check_graph-Ends units inputs =
    search (ends_rules, collect_producers-Ends, topological_order-Ends, tt) depth 20

optional_nonempty-Ends : (o : Option String) → Ends (optional_nonempty o)
optional_nonempty-Ends none = Ends-ok tt
optional_nonempty-Ends (some s) = search (ends_rules, tt)

bindings-Ends : (values : List InputBinding) → Ends (bindings values)
unfolding bindings
bindings-Ends values = search (ends_rules, tt) depth 20

criteria-Ends : (values : List String) → Ends (criteria values)
unfolding criteria
criteria-Ends values = search (ends_rules, tt) depth 20

policies-Ends : (refs : List PolicyReference) → Ends (policies refs)
unfolding policies
policies-Ends refs = search (ends_rules, tt) depth 20

pub program_spec-Ends :
    (ident objective : String) (units : List WorkUnit) (initial : List InputBinding)
    (budget : BudgetPolicy) (authority : AuthorityEnvelope) (revision : ℕ) (parent : Option String)
    (acceptance : List String) (references : List PolicyReference)
    → Ends (
        program_spec ident objective units initial budget authority revision parent acceptance
          references)
unfolding program_spec
program_spec-Ends ident objective units initial budget authority revision parent acceptance
      references =
    search
      (
        ends_rules, bindings-Ends, criteria-Ends, policies-Ends, optional_nonempty-Ends,
        check_graph-Ends, tt,
      )
      depth 40 fits 30000

pub amend-Ends : (digest : Digest) (s : ProgramSpec) (a : SpecAmendment) → Ends (amend digest s a)
unfolding amend
amend-Ends digest s a = search (ends_rules, program_spec-Ends, tt) depth 20
