-- ===== src/Domain/Topology/Order.antt =====
-- The order that `_topological_order` returns.
use creatidy_kernel.Base.{
  contains-sorted, ℕ, zero, suc, ◌<◌, String, ◌≡◌, refl, sym, ap, ◌∙◌, subst, ◌⊎◌, inl, inr, true,
  false, not, List, [], ◌∷◌, ◌++◌, map, arith, Bool-cases, nat_eq, string_eq, names_eq, optional_eq,
  length, is_empty, select, In-map, contains, unique, contains-append, contains_of_In, In, here,
  there, ok-injective, ok, In-of_map, In-select-inv, select-select, select-every, none_left,
  In-of_contains, place, place-lt, place-append_left, place-append_right,
}
use creatidy_kernel.Domain.Checks.{json_eq}
use creatidy_kernel.Domain.Values.{
  program_status_eq, work_unit_status_eq, attempt_status_eq, domain_action_eq, policy_reference_eq,
  bindings_eq, subjects_eq,
}
use creatidy_kernel.Domain.Topology.{
  Remaining, remaining_of, ready_names, without_ready, order_rounds, topological_order, WorkUnit,
}

-- The dependencies of a WorkUnit that are not ordered yet.
abbrev pending : List String → WorkUnit → List String
pending ordered u = select (λ d. not (contains ordered d)) u.dependencies

module _ (units : List WorkUnit) where
  -- A WorkUnit that is ordered comes after its dependencies.
  abbrev Placed : List String → Type 0
  Placed ordered =
      (u : WorkUnit)
      → In u units
      → contains ordered u.work_unit_id ≡ true
      → (d : String) → In d u.dependencies
      → (contains ordered d ≡ true) × (place ordered d < place ordered u.work_unit_id)

  -- The entries hold what is left of the dependencies.
  abbrev Exact : Remaining → List String → Type 0
  Exact remaining ordered =
      (e : String × List String)
      → In e remaining
      → (u : WorkUnit) → In u units
      → u.work_unit_id ≡ e.0
      → e.1 ≡ pending ordered u

  abbrev Known : Remaining → List String → Type 0
  Known remaining ordered =
      (u : WorkUnit)
      → In u units
      → (contains ordered u.work_unit_id ≡ true)
        ⊎ (contains (map (λ e. e.0) remaining) u.work_unit_id ≡ true)

module _ (units : List WorkUnit) (ready : List String) (remaining : Remaining)
    (ordered : List String) where
  Exact-step :
      Exact units remaining ordered → Exact units (without_ready ready remaining) (ordered ++ ready)
  unfolding without_ready
  Exact-step exact e m u v same =
      let k =
        In-of_map (λ (b : String × List String). (b.0, select (λ d. not (contains ready d)) b.1))
          (select (λ b. not (contains ready b.0)) remaining) m in
      let old = In-select-inv (λ b. not (contains ready b.0)) remaining k.1 in
      let was = exact k.0 old.0 u v (same ∙ sym (ap (λ x. x.0) k.2)) in
      sym (ap (λ x. x.1) k.2)
      ∙ ap (select (λ d. not (contains ready d))) was
      ∙ select-select (λ d. not (contains ordered d)) (λ d. not (contains ready d))
          (λ d. not (contains (ordered ++ ready) d)) u.dependencies
          (λ d. ground (arith, contains-append ordered ready d))

  still_named :
      (rest : Remaining) (ident : String)
      → contains ready ident ≡ false
      → contains (map (λ e. e.0) rest) ident ≡ true
      → contains (map (λ e. e.0) (without_ready ready rest)) ident ≡ true
  unfolding without_ready
  still_named [] ident h k = absurd (cc k)
  still_named (e ∷ rest) ident h k = ground (arith, still_named rest ident h, h, k)

  Known-step :
      Known units remaining ordered → Known units (without_ready ready remaining) (ordered ++ ready)
  Known-step known u v = elim (Bool-cases (contains ready u.work_unit_id)) [
    | inl now ↦ inl (ground (arith, contains-append ordered ready u.work_unit_id, now))
    | inr later ↦ next later (known u v)
  ]
    where
      next :
          contains ready u.work_unit_id ≡ false
          → (contains ordered u.work_unit_id ≡ true)
            ⊎ (contains (map (λ e. e.0) remaining) u.work_unit_id ≡ true)
          → (contains (ordered ++ ready) u.work_unit_id ≡ true)
            ⊎ (contains (map (λ e. e.0) (without_ready ready remaining)) u.work_unit_id ≡ true)
      next later (inl old) = inl (ground (arith, contains-append ordered ready u.work_unit_id, old))
      next later (inr k) = inr (still_named remaining u.work_unit_id later k)

  -- A WorkUnit of a ready entry has no pending dependencies.
  ready_free :
      Exact units remaining ordered
      → (u : WorkUnit) → In u units
      → contains (ready_names remaining) u.work_unit_id ≡ true
      → is_empty (pending ordered u) ≡ true
  unfolding ready_names
  ready_free exact u v h =
      let free = select (λ (e : String × List String). is_empty e.1) remaining in
      let m =
        In-of_contains (map (λ e. e.0) free)
          (sym (contains-sorted (map (λ e. e.0) free) u.work_unit_id) ∙ h) in
      let e = In-of_map (λ e. e.0) free m in
      let k = In-select-inv (λ e. is_empty e.1) remaining e.1 in
      ap is_empty (sym (exact e.0 k.0 u v (sym e.2))) ∙ k.1

  Placed-step :
      ready ≡ ready_names remaining
      → Exact units remaining ordered
      → Placed units ordered
      → Placed units (ordered ++ ready)
  Placed-step named exact placed u v h d m = elim (Bool-cases (contains ordered u.work_unit_id)) [
    | inl old ↦
        let r = placed u v old d m in
        (
          ground (arith, contains-append ordered ready d, r.0),
          omega (
            arith,
            r.1,
            place-append_left ordered ready d r.0,
            place-append_left ordered ready u.work_unit_id old,
          ),
        )
    | inr new ↦
        let now : contains ready u.work_unit_id ≡ true =
          ground (arith, contains-append ordered ready u.work_unit_id, h, new) in
        let free = ready_free exact u v (subst (λ l. contains l u.work_unit_id ≡ true) named now) in
        let before = none_left (λ d. not (contains ordered d)) u.dependencies free m in
        let held : contains ordered d ≡ true = ground (arith, before) in
        (
          ground (arith, contains-append ordered ready d, held),
          omega (
            arith,
            place-lt ordered d held,
            place-append_left ordered ready d held,
            place-append_right ordered ready u.work_unit_id new,
          ),
        )
  ]

-- What the order is: it holds every WorkUnit, and each comes after its dependencies.
abbrev pub IsOrder : List WorkUnit → List String → Type 0
IsOrder units order =
    (u : WorkUnit)
    → In u units
    → (contains order u.work_unit_id ≡ true)
      × ((d : String)
          → In d u.dependencies
          → (contains order d ≡ true) × (place order d < place order u.work_unit_id))

order_rounds-IsOrder :
    (units : List WorkUnit) (fuel : ℕ) (remaining : Remaining) (ordered : List String)
    {order : List String}
    → Exact units remaining ordered
    → Known units remaining ordered
    → Placed units ordered
    → order_rounds fuel remaining ordered ≡ ok order
    → IsOrder units order
unfolding order_rounds
order_rounds-IsOrder units fuel [] ordered exact known placed h =
    subst (IsOrder units) (ok-injective h)
      (λ u m. (all_held u (known u m), placed u m (all_held u (known u m))))
  where
    all_held :
        (u : WorkUnit)
        → (contains ordered u.work_unit_id ≡ true) ⊎ (false ≡ true)
        → contains ordered u.work_unit_id ≡ true
    all_held u (inl k) = k
    all_held u (inr k) = absurd (cc k)
order_rounds-IsOrder units zero (e ∷ es) ordered exact known placed h = absurd (cc h)
order_rounds-IsOrder units (suc fuel) (e ∷ es) ordered exact known placed h =
    let ready = ready_names (e ∷ es) in
    elim (Bool-cases (is_empty ready)) [
      | inl stuck ↦ absurd (cc (rw (stuck, order_rounds) at h))
      | inr some_r ↦
          order_rounds-IsOrder units fuel (without_ready ready (e ∷ es)) (ordered ++ ready)
            (Exact-step units ready (e ∷ es) ordered exact)
            (Known-step units ready (e ∷ es) ordered known)
            (Placed-step units ready (e ∷ es) ordered refl exact placed)
            (rw (some_r, order_rounds) at h)
    ]

same_unit :
    (units : List WorkUnit) (u v : WorkUnit)
    → unique (map (λ w. w.work_unit_id) units) ≡ true
    → In u units
    → In v units
    → u.work_unit_id ≡ v.work_unit_id
    → u ≡ v
same_unit [] u v q m n e = elim m [ ]
same_unit (w ∷ units) u v q (here a) (here b) e = cc
same_unit (w ∷ units) u v q (here a) (there n) e =
    absurd (ground (arith, q, contains_of_In _ (In-map (λ w. w.work_unit_id) n), a, e))
same_unit (w ∷ units) u v q (there m) (here b) e =
    absurd (ground (arith, q, contains_of_In _ (In-map (λ w. w.work_unit_id) m), b, e))
same_unit (w ∷ units) u v q (there m) (there n) e = same_unit units u v (ground (arith, q)) m n e

-- Where the identifiers of the WorkUnits are unique and an order is returned, it holds every
-- WorkUnit, and every dependency of a WorkUnit is in it, before the WorkUnit.
pub topological_order-IsOrder :
    (units : List WorkUnit) {order : List String}
    → unique (map (λ u. u.work_unit_id) units) ≡ true
    → topological_order units ≡ ok order
    → IsOrder units order
unfolding topological_order remaining_of
topological_order-IsOrder units q h =
    order_rounds-IsOrder units (length units) (remaining_of units) [] exact known
      (λ u m k. absurd (cc k)) h
  where
    exact : Exact units (remaining_of units) []
    exact e m u n same =
        let k = In-of_map (λ (w : WorkUnit). (w.work_unit_id, w.dependencies)) units m in
        let s = same_unit units u k.0 q n k.1 (same ∙ sym (ap (λ x. x.0) k.2)) in
        sym (ap (λ x. x.1) k.2)
        ∙ ap (λ (w : WorkUnit). w.dependencies) (sym s)
        ∙ sym (select-every (λ d. not (contains [] d)) u.dependencies (λ d. refl))

    known : Known units (remaining_of units) []
    known u m = inr (
        contains_of_In _ (
          In-map (λ (e : String × List String). e.0)
            (In-map (λ (w : WorkUnit). (w.work_unit_id, w.dependencies)) m)))
