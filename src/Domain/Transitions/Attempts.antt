-- ===== src/Domain/Transitions/Attempts.antt =====
-- `cancel_live` and the replacement of a status in `Program.apply`, Attempt for Attempt.
use creatidy_kernel.Base.{
  name_set, contains-name_set, ℕ, String, ◌≡◌, refl, sym, ap, ◌∙◌, subst, ◌⊎◌, inl, inr, Bool, true,
  false, ◌&&◌, some, List, [], ◌∷◌, ◌++◌, map, arith, if◌then◌else◌, Bool-cases, ◌==◌, nat_eq,
  string_eq, names_eq, optional_eq, length, select, All, contains, unique, >>=-eq-ok, ok-injective,
  or_raise-eq-ok, map_m, missing_reference, Result, ok,
}
use creatidy_kernel.Domain.Checks.{json_eq}
use creatidy_kernel.Domain.Values.{
  program_status_eq, work_unit_status_eq, attempt_status_eq, domain_action_eq, policy_reference_eq,
  bindings_eq, subjects_eq, AttemptStatus,
}
use creatidy_kernel.Domain.Spec.{program_spec_eq}
use creatidy_kernel.Domain.Facts.{
  attempt_of, is_live, attempt_cancellation, states_eq, Attempt, AttemptCancellation,
}
use creatidy_kernel.Domain.Program.{attempt_named, attempt, Program}
use creatidy_kernel.Domain.Validation.{ids}
use creatidy_kernel.Domain.Transitions.{
  draft_of, replace_if, is_cancelled_by, cancelled_ids, cancel_live, replace_status, Draft,
}
use creatidy_kernel.Domain.Transitions.Evolution.{CanBecome, Evolves, Cancels}

-- One entry of a replacement.
pub replace_if-eq-ok :
    (chosen : Attempt → Bool) (status : AttemptStatus) (a : Attempt) {b : Attempt}
    → replace_if chosen status a ≡ ok b
    → b ≡ (if chosen a then record a { status = status } else a)
unfolding attempt_of
replace_if-eq-ok chosen status a h = ground arith

map_m-Cancels :
    (chosen : Attempt → Bool) (xs ys : List Attempt)
    → map_m (replace_if (λ a. chosen a && is_live a) AttemptStatus.cancelled) xs ≡ ok ys
    → Cancels xs ys
map_m-Cancels chosen [] ys h = subst (Cancels []) (ok-injective h) tt
map_m-Cancels chosen (a ∷ xs) ys h =
    let f = replace_if (λ a. chosen a && is_live a) AttemptStatus.cancelled in
    let b = >>=-eq-ok (f a) _ h in
    let bs = >>=-eq-ok (map_m f xs) _ b.2 in
    subst (Cancels (a ∷ xs)) (ok-injective bs.2) (
      one (replace_if-eq-ok (λ a. chosen a && is_live a) AttemptStatus.cancelled a b.1),
      map_m-Cancels chosen xs bs.0 bs.1,
    )
  where
    one :
        {b : Attempt}
        → b ≡ (if chosen a && is_live a then record a { status = AttemptStatus.cancelled } else a)
        → (b ≡ a) ⊎ ((is_live a ≡ true) × (b ≡ record a { status = AttemptStatus.cancelled }))
    one e = ground arith

absent-select :
    (chosen : Attempt → Bool) (xs : List Attempt) (ident : String)
    → contains (ids xs) ident ≡ false
    → contains (map (λ a. a.spec.attempt_id) (select chosen xs)) ident ≡ false
unfolding ids
absent-select chosen [] ident h = refl
absent-select chosen (x ∷ xs) ident h = ground (arith, h, absent-select chosen xs ident)

absent-others :
    (chosen : Attempt → Bool) (x : Attempt) (xs ys : List Attempt)
    → contains (ids ys) x.spec.attempt_id ≡ false
    → All
        (λ a.
          contains (map (λ b. b.spec.attempt_id) (select chosen xs)) a.spec.attempt_id ≡ chosen a)
        ys
    → All
        (λ a.
          contains (map (λ b. b.spec.attempt_id) (select chosen (x ∷ xs))) a.spec.attempt_id
          ≡ chosen a)
        ys
unfolding ids
absent-others chosen x xs [] h k = tt
absent-others chosen x xs (y ∷ ys) h k =
    (ground (arith, h, k.0), absent-others chosen x xs ys (ground (arith, h)) k.1)

-- Where identifiers are unique, an identifier stands for its Attempt.
chosen_by_ident :
    (chosen : Attempt → Bool) (xs : List Attempt)
    → unique (ids xs) ≡ true
    → All
        (λ a.
          contains (map (λ b. b.spec.attempt_id) (select chosen xs)) a.spec.attempt_id ≡ chosen a)
        xs
unfolding ids
chosen_by_ident chosen [] u = tt
chosen_by_ident chosen (x ∷ xs) u = (
  ground (arith, u, absent-select chosen xs x.spec.attempt_id),
  absent-others chosen x xs xs (ground (arith, u)) (chosen_by_ident chosen xs (ground (arith, u))),
)

-- The identifiers that `cancel_live` replaces are those of live Attempts among `idents`.
cancelled_ids-live :
    (idents : List String) (attempts : List Attempt)
    → unique (ids attempts) ≡ true
    → All
        (λ a. contains (cancelled_ids idents attempts) a.spec.attempt_id ≡ is_cancelled_by idents a)
        attempts
unfolding cancelled_ids
cancelled_ids-live idents attempts u =
    named attempts (chosen_by_ident (is_cancelled_by idents) attempts u)
  where
    members : List String
    members = map (λ b. b.spec.attempt_id) (select (is_cancelled_by idents) attempts)

    named :
        (xs : List Attempt)
        → All (λ a. contains members a.spec.attempt_id ≡ is_cancelled_by idents a) xs
        → All (λ a. contains (name_set members) a.spec.attempt_id ≡ is_cancelled_by idents a) xs
    named [] h = tt
    named (x ∷ xs) h = (contains-name_set members x.spec.attempt_id ∙ h.0, named xs h.1)

map_m-pointwise :
    (p q : Attempt → Bool) (status : AttemptStatus) (xs : List Attempt)
    → All (λ a. p a ≡ q a) xs
    → map_m (replace_if p status) xs ≡ map_m (replace_if q status) xs
map_m-pointwise p q status [] h = refl
map_m-pointwise p q status (x ∷ xs) h = rw (h.0, map_m-pointwise p q status xs h.1) refl

-- `cancel_live` cancels live Attempts only, and its records come after the ones there were.
pub cancel_live-Cancels :
    (idents : List String) (reason actor : String) (order : ℕ) (attempts : List Attempt)
    (records : List AttemptCancellation) {r : List Attempt × List AttemptCancellation}
    → unique (ids attempts) ≡ true
    → cancel_live idents reason actor order attempts records ≡ ok r
    → Cancels attempts r.0 × ((more : List AttemptCancellation) × (r.1 ≡ records ++ more))
unfolding cancel_live cancelled_ids
cancel_live-Cancels idents reason actor order attempts records u h =
    let gone = cancelled_ids idents attempts in
    let f = replace_if (λ a. contains gone a.spec.attempt_id) AttemptStatus.cancelled in
    let xs = >>=-eq-ok (map_m f attempts) _ h in
    let ys =
      >>=-eq-ok (map_m (λ ident. attempt_cancellation ident actor reason order) gone) _ xs.2 in
    let e = ok-injective ys.2 in
    let same =
      map_m-pointwise _ _ AttemptStatus.cancelled attempts (cancelled_ids-live idents attempts u) in
    (
      subst (Cancels attempts) (ap (λ r. r.0) e)
          (map_m-Cancels (λ a. contains idents a.spec.attempt_id) attempts xs.0 (sym same ∙ xs.1)),
      (ys.0, sym (ap (λ r. r.1) e)),
    )

-- Every Attempt that bears the identifier is `current`, which is what unique identifiers give.
abbrev Only : String → Attempt → List Attempt → Type 0
Only ident current [] = Unit
Only ident current (a ∷ xs) =
    ((a.spec.attempt_id == ident) ≡ true → a ≡ current) × Only ident current xs

absent-Only :
    (ident : String) (current : Attempt) (xs : List Attempt)
    → contains (ids xs) ident ≡ false
    → Only ident current xs
unfolding ids
absent-Only ident current [] h = tt
absent-Only ident current (a ∷ xs) h =
    (λ e. ground arith, absent-Only ident current xs (ground arith))

unique-Only :
    (ident : String) (current : Attempt) (xs : List Attempt)
    → unique (ids xs) ≡ true
    → attempt_named xs ident ≡ some current
    → Only ident current xs
unfolding ids
unique-Only ident current [] u h = tt
unique-Only ident current (a ∷ xs) u h = elim (Bool-cases (a.spec.attempt_id == ident)) [
  | inl same ↦ (λ _. ground arith, absent-Only ident current xs (ground arith))
  | inr other ↦ (
    λ same. absurd (cc (same, other)),
    unique-Only ident current xs (ground arith) (ground arith),
  )
]

map_m-Evolves :
    (ident : String) (status : AttemptStatus) (current : Attempt) (xs ys : List Attempt)
    → CanBecome current.status status
    → Only ident current xs
    → map_m (replace_if (λ a. a.spec.attempt_id == ident) status) xs ≡ ok ys
    → Evolves xs ys
map_m-Evolves ident status current [] ys can o h = subst (Evolves []) (ok-injective h) tt
map_m-Evolves ident status current (a ∷ xs) ys can o h =
    let chosen = λ (a : Attempt). a.spec.attempt_id == ident in
    let b = >>=-eq-ok (replace_if chosen status a) _ h in
    let bs = >>=-eq-ok (map_m (replace_if chosen status) xs) _ b.2 in
    let e = replace_if-eq-ok chosen status a b.1 in
    subst (Evolves (a ∷ xs)) (ok-injective bs.2)
      (ground arith, ground arith, step e, map_m-Evolves ident status current xs bs.0 can o.1 bs.1)
  where
    step :
        {b : Attempt}
        → b ≡ (if a.spec.attempt_id == ident then record a { status = status } else a)
        → CanBecome a.status b.status
    step e = elim (Bool-cases (a.spec.attempt_id == ident)) [
      | inl same ↦ rw (e, same) (subst (λ c. CanBecome c.status status) (sym (o.0 same)) can)
      | inr other ↦ rw (e, other) (inl refl)
    ]

map_m-length :
    (f : Attempt → Result Attempt) (xs : List Attempt) {ys : List Attempt}
    → map_m f xs ≡ ok ys
    → length ys ≡ length xs
map_m-length f [] h = ap length (sym (ok-injective h))
map_m-length f (x ∷ xs) h =
    let b = >>=-eq-ok (f x) _ h in
    let bs = >>=-eq-ok (map_m f xs) _ b.2 in
    ap length (sym (ok-injective bs.2)) ∙ omega (arith, map_m-length f xs bs.1)

-- The replacement of the status of one Attempt, in a sequence with unique identifiers.
pub replace_status-Evolves :
    (p : Program) (ident : String) (status : AttemptStatus) (current : Attempt) {d : Draft}
    → unique (ids p.attempts) ≡ true
    → attempt p ident ≡ ok current
    → CanBecome current.status status
    → replace_status p ident status ≡ ok d
    → (xs : List Attempt) × Evolves p.attempts xs
      × (length xs ≡ length p.attempts)
      × (record (draft_of p) { attempts = xs } ≡ d)
unfolding replace_status
replace_status-Evolves p ident status current u found can h =
    let chosen = λ (a : Attempt). a.spec.attempt_id == ident in
    let xs = >>=-eq-ok (map_m (replace_if chosen status) p.attempts) _ h in
    (
      xs.0,
      map_m-Evolves ident status current p.attempts xs.0 can
          (unique-Only ident current p.attempts u (or_raise-eq-ok _ missing_reference found)) xs.1,
      map_m-length (replace_if chosen status) p.attempts xs.1,
      ok-injective xs.2,
    )
