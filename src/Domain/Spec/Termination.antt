-- ===== src/Domain/Spec/Termination.antt =====
-- The fuel of `work_unit_applicability_fingerprint`.
use creatidy_kernel.Base.{
  sorted, ℕ, zero, suc, ◌+◌, ◌≤◌, String, ◌≡◌, sym, ap, subst, inl, inr, false, some, List, [], ◌∷◌,
  ◌++◌, reverse, arith, if◌then◌else◌, Bool-cases, ◌==◌, nat_eq, string_eq, names_eq, optional_eq,
  ==-sound, length, length-append, length-reverse, contains, some-injective, or_raise-eq-ok, map_m,
  Ends-ok, Ends-or_raise, Ends-bind, Ends-map_m, missing_reference, key_error, Ends,
}
use creatidy_kernel.Domain.Checks.{Digest, json_eq}
use creatidy_kernel.Domain.Values.{
  program_status_eq, work_unit_status_eq, attempt_status_eq, domain_action_eq, policy_reference_eq,
  bindings_eq, subjects_eq,
}
use creatidy_kernel.Domain.Topology.{WorkUnit}
use creatidy_kernel.Domain.Spec.{
  unit_named, work_unit, by_id, closure_loop, edges, dependency_closure, fingerprint,
  program_spec_eq, ProgramSpec,
}

-- The dependencies of the WorkUnits that the closure does not hold yet.
unseen : List WorkUnit → List String → ℕ
unseen [] closure = 0
unseen (u ∷ units) closure =
    (if contains closure u.work_unit_id then 0 else length u.dependencies) + unseen units closure

unseen-le-edges :
    (units : List WorkUnit) (closure : List String) → unseen units closure ≤ edges units
unfolding unseen
unseen-le-edges [] closure = omega arith
unseen-le-edges (u ∷ units) closure = ground (arith, unseen-le-edges units closure)

unseen_mono :
    (units : List WorkUnit) (closure : List String) (p : String)
    → unseen units (p ∷ closure) ≤ unseen units closure
unfolding unseen
unseen_mono [] closure p = omega arith
unseen_mono (u ∷ units) closure p = ground (arith, unseen_mono units closure p)

unseen-visit :
    (units : List WorkUnit) (closure : List String) (p : String) (u : WorkUnit)
    → contains closure p ≡ false
    → unit_named units p ≡ some u
    → unseen units (p ∷ closure) + length u.dependencies ≤ unseen units closure
unfolding unseen
unseen-visit [] closure p u new found = absurd (cc found)
unseen-visit (v ∷ units) closure p u new found = elim (Bool-cases (v.work_unit_id == p)) [
  | inl same ↦
      let e = some-injective (rw same at found) in
      let named = ==-sound v.work_unit_id p same in
      let unvisited = subst (λ n. contains closure n ≡ false) (sym named) new in
      ground (
        arith,
        same,
        unvisited,
        ap (λ (w : WorkUnit). length w.dependencies) e,
        unseen_mono units closure p,
      )
  | inr other ↦ ground (arith, unseen-visit units closure p u new)
]

closure_loop-Ends :
    (fuel : ℕ) (units : List WorkUnit) (todo closure : List String)
    → length todo + unseen units closure ≤ fuel
    → Ends (closure_loop fuel units todo closure)
unfolding closure_loop
closure_loop-Ends fuel units [] closure h = Ends-ok closure
closure_loop-Ends zero units (p ∷ todo) closure h = absurd (omega arith)
closure_loop-Ends (suc fuel) units (p ∷ todo) closure h = elim (Bool-cases (contains closure p)) [
  | inl old ↦ rw (old, closure_loop) (closure_loop-Ends fuel units todo closure (omega arith))
  | inr new ↦
      rw (new, closure_loop)
        (Ends-bind (by_id units p) _ (Ends-or_raise (unit_named units p) key_error tt) (λ u found.
          closure_loop-Ends fuel units (reverse u.dependencies ++ todo) (p ∷ closure) (
            omega (
              arith,
              length-append (reverse u.dependencies) todo,
              length-reverse u.dependencies,
              unseen-visit units closure p u new (or_raise-eq-ok _ key_error found),
            ))))
]

length-le-edges :
    (units : List WorkUnit) (ident : String) (u : WorkUnit)
    → unit_named units ident ≡ some u
    → length u.dependencies ≤ edges units
length-le-edges [] ident u found = absurd (cc found)
length-le-edges (v ∷ units) ident u found = elim (Bool-cases (v.work_unit_id == ident)) [
  | inl same ↦
      let e = some-injective (rw same at found) in
      omega (arith, ap (λ (w : WorkUnit). length w.dependencies) e)
  | inr other ↦ omega (arith, length-le-edges units ident u (rw other at found))
]

dependency_closure-Ends :
    (units : List WorkUnit) (ident : String) (u : WorkUnit)
    → unit_named units ident ≡ some u
    → Ends (dependency_closure units u)
unfolding dependency_closure
dependency_closure-Ends units ident u found =
    closure_loop-Ends (edges units + edges units) units (reverse u.dependencies)
      (u.work_unit_id ∷ [])
      (omega (
        arith,
        length-reverse u.dependencies,
        length-le-edges units ident u found,
        unseen-le-edges units (u.work_unit_id ∷ []),
      ))

-- The fingerprint of a WorkUnit is computed or an unknown identifier is reported: the loop over the
-- dependencies has fuel enough, whatever the graph.
pub fingerprint-Ends :
    (digest : Digest) (s : ProgramSpec) (ident : String) → Ends (fingerprint digest s ident)
unfolding fingerprint
fingerprint-Ends digest s ident =
    Ends-bind (work_unit s ident) _
      (Ends-or_raise (unit_named s.work_units ident) missing_reference tt)
      (λ u found.
        Ends-bind (dependency_closure s.work_units u) _
          (dependency_closure-Ends s.work_units ident u (or_raise-eq-ok _ missing_reference found))
          (λ closure _.
            Ends-bind (map_m (by_id s.work_units) (sorted closure)) _
              (Ends-map_m _ (sorted closure)
                (λ i. Ends-or_raise (unit_named s.work_units i) key_error tt))
              (λ units _. Ends-ok _)))
