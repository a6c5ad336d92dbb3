-- ===== src/Journal/Consistent.antt =====
-- A valid journal: its rows pass the check at startup, and the effect_keys of the schema hold.
use creatidy_kernel.Base.{
  String, ◌≡◌, refl, sym, ap, ◌∙◌, subst, ◌⊎◌, inl, inr, true, false, some, List, [], ◌∷◌, ◌==◌,
  nat_eq, string_eq, names_eq, optional_eq, all, find?, contains, unique, In, here, there, each,
  Result, ok,
}
use creatidy_kernel.Journal.Tables.{
  operation_status_eq, observation_kind_eq, lookup_eq, update, Operation, Journal, Codec,
}
use creatidy_kernel.Journal.Operations.{operation}
use creatidy_kernel.Journal.Validation.{check_row, validate_records}
use creatidy_kernel.Journal.Rows.{
  operation_ids, effect_keys, operation_ids-update, effect_keys-update, In-update, operation-eq-ok,
  operation_ids-In, only_row, is_sound, Keeps,
}

-- The foreign keys: no table tells of an unknown operation.
pub record Known (idents : List String) (j : Journal) : Type 0 where
  pub attempts : all (λ a. contains idents a.operation_id) j.attempts ≡ true
  pub observations : all (λ o. contains idents o.operation_id) j.observations ≡ true
  pub reconciliations : all (λ r. contains idents r.operation_id) j.reconciliations ≡ true

pub record Consistent (codec : Codec) (j : Journal) : Type 0 where
  pub rows : (o : Operation) → In o j.operations → check_row codec j o ≡ ok tt
  pub sound : (o : Operation) → In o j.operations → is_sound o ≡ true
  pub idents : unique (operation_ids j.operations) ≡ true
  pub effects : unique (effect_keys j.operations) ≡ true
  pub known : Known (operation_ids j.operations) j

-- `k` comes from `j` by a change of the operation `ident`: the other rows, and what is recorded of
-- other operations, stay.
pub record Touches (codec : Codec) (ident : String) (op : Operation) (step : Operation → Operation)
    (j k : Journal) : Type 0 where
  pub rows : k.operations ≡ update ident step j.operations
  pub keeps : Keeps step
  pub others :
      (o : Operation)
      → (o.operation_id == ident) ≡ false
      → check_row codec k o ≡ check_row codec j o
  pub own : check_row codec j op ≡ ok tt → check_row codec k (step op) ≡ ok tt
  pub sound : is_sound op ≡ true → is_sound (step op) ≡ true
  pub known :
      (idents : List String) → contains idents ident ≡ true → Known idents j → Known idents k

module _ (codec : Codec) (ident : String) (step : Operation → Operation) (j k : Journal)
    {op : Operation} (c : Touches codec ident op step j k) (found : operation j ident ≡ ok op) where
  pub Touches-Consistent : Consistent codec j → Consistent codec k
  Touches-Consistent v = record {
    rows = λ o m. row o (In-update ident step j.operations (subst (In o) c.rows m));
    sound = λ o m. sound_row o (In-update ident step j.operations (subst (In o) c.rows m));
    idents =
        subst (λ xs. unique xs ≡ true)
          (sym (ap operation_ids c.rows ∙ operation_ids-update ident step c.keeps j.operations))
          v.idents;
    effects =
        subst (λ xs. unique xs ≡ true)
          (sym (ap effect_keys c.rows ∙ effect_keys-update ident step c.keeps j.operations))
          v.effects;
    known =
        subst (λ xs. Known xs k)
          (sym (ap operation_ids c.rows ∙ operation_ids-update ident step c.keeps j.operations))
          (c.known (operation_ids j.operations)
            (subst (λ s. contains (operation_ids j.operations) s ≡ true) there_is.2
              (operation_ids-In j.operations there_is.1))
            v.known);
  }
    where
      there_is :
          (find? (λ o. o.operation_id == ident) j.operations ≡ some op)
          × In op j.operations
          × (op.operation_id ≡ ident)
      there_is = operation-eq-ok j ident found

      row :
          (b : Operation)
          → (o : Operation) × In o j.operations
            × (((o.operation_id == ident) ≡ false × (b ≡ o))
                ⊎ ((o.operation_id == ident) ≡ true × (b ≡ step o)))
          → check_row codec k b ≡ ok tt
      row b (o, m, inl (other, e)) =
          subst (λ b. check_row codec k b ≡ ok tt) (sym e) (c.others o other ∙ v.rows o m)
      row b (o, m, inr (same, e)) =
          let eq = only_row ident j.operations v.idents there_is.0 m same in
          subst (λ b. check_row codec k b ≡ ok tt) (sym (e ∙ ap step eq))
            (c.own (v.rows op there_is.1))

      sound_row :
          (b : Operation)
          → (o : Operation) × In o j.operations
            × (((o.operation_id == ident) ≡ false × (b ≡ o))
                ⊎ ((o.operation_id == ident) ≡ true × (b ≡ step o)))
          → is_sound b ≡ true
      sound_row b (o, m, inl (other, e)) = subst (λ b. is_sound b ≡ true) (sym e) (v.sound o m)
      sound_row b (o, m, inr (same, e)) =
          let eq = only_row ident j.operations v.idents there_is.0 m same in
          subst (λ b. is_sound b ≡ true) (sym (e ∙ ap step eq)) (c.sound (v.sound op there_is.1))

each-In :
    {A : Type 0} (f : A → Result (Unit {0})) (xs : List A)
    → ((a : A) → In a xs → f a ≡ ok tt)
    → each f xs ≡ ok tt
each-In f [] h = refl
each-In f (x ∷ xs) h = rw (h x (here refl)) (each-In f xs (λ a m. h a (there m)))

-- A valid journal passes the check at startup.
pub Consistent-validate :
    (codec : Codec) (j : Journal) → Consistent codec j → validate_records codec j ≡ ok tt
unfolding validate_records
Consistent-validate codec j v = each-In (check_row codec j) j.operations v.rows
