-- ===== src/Journal/Rows.antt =====
-- The rows of the journal one by one: lookups, updates, and what belongs to another operation.
use creatidy_kernel.Base.{
  is_blank, String, ◌≡◌, refl, sym, ◌∙◌, ◌⊎◌, inl, inr, Bool, true, false, ◌&&◌, ◌||◌, not, some,
  List, [], ◌∷◌, map, arith, Bool-cases, is_some, differ, ◌==◌, nat_eq, string_eq, names_eq,
  optional_eq, all, find?, select, In-map, contains, unique, contains_of_In, In, here, there,
  raise_if, >>-eq-ok, or_raise-eq-ok, value_error, ok, In-of_map,
}
use creatidy_kernel.Journal.Tables.{
  operation_status_eq, observation_kind_eq, lookup_eq, update, OperationStatus, Operation, Journal,
}
use creatidy_kernel.Journal.Operations.{operation, is_retry_proof}

unfoldable pub operation_ids : List Operation → List String
operation_ids operations = map (λ o. o.operation_id) operations

unfoldable pub effect_keys : List Operation → List String
effect_keys operations = map (λ o. o.effect_key) operations

-- What an operation is, whatever becomes of it.
pub record Keeps (step : Operation → Operation) : Type 0 where
  pub ident : (o : Operation) → (step o).operation_id ≡ o.operation_id
  pub key : (o : Operation) → (step o).effect_key ≡ o.effect_key

module _ (ident : String) (step : Operation → Operation) (k : Keeps step) where
  pub operation_ids-update :
      (xs : List Operation) → operation_ids (update ident step xs) ≡ operation_ids xs
  unfolding operation_ids update
  operation_ids-update [] = refl
  operation_ids-update (x ∷ xs) = ground (arith, operation_ids-update xs, k.ident x)

  pub effect_keys-update :
      (xs : List Operation) → effect_keys (update ident step xs) ≡ effect_keys xs
  unfolding effect_keys update
  effect_keys-update [] = refl
  effect_keys-update (x ∷ xs) = ground (arith, effect_keys-update xs, k.key x)

-- A row after an update is the old one, or the changed one where the identifier is the one sought.
pub In-update :
    (ident : String) (step : Operation → Operation) (xs : List Operation) {b : Operation}
    → In b (update ident step xs)
    → (o : Operation) × In o xs
      × (((o.operation_id == ident) ≡ false × (b ≡ o))
          ⊎ ((o.operation_id == ident) ≡ true × (b ≡ step o)))
unfolding update
In-update ident step xs m =
    let r = In-of_map _ xs m in
    (
      r.0,
      r.1,
      elim (Bool-cases (r.0.operation_id == ident)) [
        | inl same ↦ inr (same, sym r.2 ∙ rw same refl)
        | inr other ↦ inl (other, sym r.2 ∙ rw other refl)
      ],
    )

-- The operation that is found is in the table, under the identifier sought.
pub find-In :
    (ident : String) (xs : List Operation) {op : Operation}
    → find? (λ o. o.operation_id == ident) xs ≡ some op
    → In op xs × (op.operation_id ≡ ident)
find-In ident [] h = absurd (cc h)
find-In ident (x ∷ xs) {op} h = elim (Bool-cases (x.operation_id == ident)) [
  | inl same ↦ (here (ground arith), ground arith)
  | inr other ↦ let r = find-In ident xs (ground arith) in (there r.0, r.1)
]

pub operation-eq-ok :
    (j : Journal) (ident : String) {op : Operation}
    → operation j ident ≡ ok op
    → (find? (λ o. o.operation_id == ident) j.operations ≡ some op)
      × In op j.operations
      × (op.operation_id ≡ ident)
unfolding operation
operation-eq-ok j ident {op} h =
    let a = >>-eq-ok (raise_if (is_blank ident) value_error) _ h in
    let found = or_raise-eq-ok (find? (λ o. o.operation_id == ident) j.operations) _ a.1 in
    let r = find-In ident j.operations found in (found, r.0, r.1)

pub operation_ids-In :
    {o : Operation} (xs : List Operation)
    → In o xs
    → contains (operation_ids xs) o.operation_id ≡ true
unfolding operation_ids
operation_ids-In xs m =
    contains_of_In (map (λ o. o.operation_id) xs) (In-map (λ o. o.operation_id) m)

-- The primary key: a row that bears the identifier is the one that is found.
pub only_row :
    (ident : String) (xs : List Operation) {op o : Operation}
    → unique (operation_ids xs) ≡ true
    → find? (λ o. o.operation_id == ident) xs ≡ some op
    → In o xs
    → (o.operation_id == ident) ≡ true
    → o ≡ op
unfolding operation_ids
only_row ident [] u h m s = absurd (cc h)
only_row ident (x ∷ xs) u h (here e) s = ground arith
only_row ident (x ∷ xs) {op} {o} u h (there m) s = elim (Bool-cases (x.operation_id == ident)) [
  | inl same ↦ absurd (twice same)
  | inr other ↦ only_row ident xs (ground arith) (ground arith) m s
]
  where
    twice : (x.operation_id == ident) ≡ true → ⊥
    twice same =
        ground
          (arith, contains_of_In (map (λ o. o.operation_id) xs) (In-map (λ o. o.operation_id) m))

-- The rows of a table that name no operation but known ones.
module _ {A : Type 0} (owner : A → String) where
  pub unknown-empty :
      (known : List String) (ident : String) (xs : List A)
      → contains known ident ≡ false
      → all (λ a. contains known (owner a)) xs ≡ true
      → select (λ a. owner a == ident) xs ≡ []
  unknown-empty known ident [] h k = refl
  unknown-empty known ident (x ∷ xs) h k = elim (Bool-cases (owner x == ident)) [
    | inl same ↦ ground arith
    | inr other ↦ rw other (unknown-empty known ident xs h (ground arith))
  ]

  pub known-cons :
      (known : List String) (ident : String) (xs : List A)
      → all (λ a. contains known (owner a)) xs ≡ true
      → all (λ a. contains (ident ∷ known) (owner a)) xs ≡ true
  known-cons known ident [] h = refl
  known-cons known ident (x ∷ xs) h = ground (arith, known-cons known ident xs (ground arith))

-- What no check at startup looks for: the accepted reference is there exactly in the states that
-- follow an acceptance, and a proof that allows another delivery in the unknown state only.
unfoldable pub is_sound : Operation → Bool
is_sound o =
    not (
      differ (is_some o.accepted_reference) (
        contains
          (OperationStatus.accepted ∷ OperationStatus.running ∷ OperationStatus.waiting
            ∷ OperationStatus.terminal ∷ [])
          o.status))
    && (not (is_some o.retry_proof)
        || o.status == OperationStatus.unknown && is_retry_proof o.retry_proof)
