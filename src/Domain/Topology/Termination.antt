-- ===== src/Domain/Topology/Termination.antt =====
-- The fuel of `_topological_order`.
use creatidy_kernel.Base.{
  is_empty-sort_by, contains-sorted, ℕ, zero, suc, ◌≤◌, ◌<◌, String, ◌≡◌, sym, ap, ◌∙◌, Bool, true,
  false, not, List, [], ◌∷◌, ◌++◌, map, arith, nat_eq, string_eq, names_eq, optional_eq, length,
  is_empty, select, length-map, is_empty-map, length-select-lt, In-of_select, In-map, In-select,
  contains, contains_of_In, In, Ends-ok, Ends-err, Ends-branch, cycle_detected, Ends,
}
use creatidy_kernel.Domain.Checks.{json_eq}
use creatidy_kernel.Domain.Values.{
  program_status_eq, work_unit_status_eq, attempt_status_eq, domain_action_eq, policy_reference_eq,
  bindings_eq, subjects_eq,
}
use creatidy_kernel.Domain.Topology.{
  Remaining, remaining_of, ready_names, without_ready, order_rounds, topological_order, WorkUnit,
}

abbrev is_free : String × List String → Bool
is_free e = is_empty e.1

some_ready :
    (remaining : Remaining)
    → is_empty (ready_names remaining) ≡ false
    → (e : String × List String) × In e remaining × (contains (ready_names remaining) e.0 ≡ true)
unfolding ready_names
some_ready remaining h =
    let free = select is_free remaining in
    let name = λ (e : String × List String). e.0 in
    let some_free =
      sym (is_empty-map name free) ∙ sym (is_empty-sort_by (λ s. s) (map name free)) ∙ h in
    let r = In-of_select is_free remaining some_free in
    (
      r.0,
      r.1,
      contains-sorted (map name free) r.0.0
          ∙ contains_of_In (map name free) (In-map name (In-select is_free remaining r.1 r.2)),
    )

-- A round with a ready WorkUnit leaves fewer entries.
pub length-without_ready :
    (remaining : Remaining)
    → is_empty (ready_names remaining) ≡ false
    → length (without_ready (ready_names remaining) remaining) < length remaining
unfolding without_ready
length-without_ready remaining h =
    let e = some_ready remaining h in
    rw (length-map _ _) (
      length-select-lt (λ d. not (contains (ready_names remaining) d.0)) remaining e.1 (ap not e.2))

pub order_rounds-Ends :
    (fuel : ℕ) (remaining : Remaining) (ordered : List String)
    → length remaining ≤ fuel
    → Ends (order_rounds fuel remaining ordered)
unfolding order_rounds
order_rounds-Ends fuel [] ordered h = Ends-ok ordered
order_rounds-Ends zero (e ∷ es) ordered h = absurd (omega arith)
order_rounds-Ends (suc fuel) (e ∷ es) ordered h =
    Ends-branch (is_empty (ready_names (e ∷ es))) _ _ (λ _. Ends-err cycle_detected tt)
      (λ goes.
        order_rounds-Ends fuel (without_ready (ready_names (e ∷ es)) (e ∷ es))
          (ordered ++ ready_names (e ∷ es)) (omega (arith, length-without_ready (e ∷ es) goes)))

entry : WorkUnit → String × List String
entry u = (u.work_unit_id, u.dependencies)

-- With as many rounds as there are WorkUnits, the topological order is found or a cycle is
-- reported.
pub topological_order-Ends : (units : List WorkUnit) → Ends (topological_order units)
unfolding topological_order remaining_of entry
topological_order-Ends units =
    order_rounds-Ends (length units) (remaining_of units) [] (omega (arith, length-map entry units))
