-- ===== src/Journal/Intents.antt =====
-- A new intent, and the records that the work budget adds.
use creatidy_kernel.Base.{
  String, ◌≡◌, refl, sym, subst, ◌⊎◌, inl, inr, Bool, true, false, ◌||◌, none, some, List, [], ◌∷◌,
  arith, Bool-cases, ◌==◌, nat_eq, string_eq, names_eq, optional_eq, is_empty, select, contains, In,
  here, there, ok,
}
use creatidy_kernel.Journal.Tables.{
  OperationStatus-discrete, operation_status_eq, observation_kind_eq, lookup_eq, attempts_at,
  observations_at, reconciliations_at, OperationStatus, Operation, Journal, Request, Codec,
}
use creatidy_kernel.Journal.Operations.{insert_intent, operation, Gate}
use creatidy_kernel.Journal.Validation.{
  has_receipt, has_proof, check_fence, check_receipts, check_request_json, check_row,
}
use creatidy_kernel.Journal.Rows.{
  operation_ids, effect_keys, operation-eq-ok, operation_ids-In, unknown-empty, known-cons,
  is_sound,
}
use creatidy_kernel.Journal.Consistent.{Known, Consistent}
use creatidy_kernel.Journal.Parts.{parts, joined}

-- What the JSON library does: a request is read back as it was written.
abbrev pub ReadsBack : Codec → Type 0
ReadsBack codec = (r : Request) → codec.loads (codec.dumps r) ≡ some r

abbrev pub new_row : Codec → String → String → Request → Operation
new_row codec ident effect_key request = record {
  operation_id = ident;
  effect_key = effect_key;
  request_json = codec.dumps request;
  request_digest = codec.sha256 (codec.dumps request);
  fence = 0;
  lease_until = none;
  status = OperationStatus.intent;
  accepted_reference = none;
  retry_proof = none;
}

abbrev pub intended : Codec → String → String → Request → Journal → Journal
intended codec ident effect_key request j = record j {
  operations = new_row codec ident effect_key request ∷ j.operations;
  outbox = ident ∷ j.outbox;
}

-- An intent that is committed is either known already, with the same key and digest, or new: then no
-- operation has its identifier or its key.
pub insert_intent-cases :
    (codec : Codec) (ident effect_key : String) (request : Request) (allow : Bool) (j : Journal)
    {k : Journal}
    → insert_intent codec ident effect_key request allow j ≡ ok k
    → (k ≡ j)
      ⊎ ((k ≡ intended codec ident effect_key request j)
          × (is_empty
                (select (λ o. o.operation_id == ident || o.effect_key == effect_key) j.operations)
              ≡ true))
unfolding insert_intent
insert_intent-cases codec ident effect_key request allow j h =
    elim (Bool-cases (
      is_empty
        (select (λ o. o.operation_id == ident || o.effect_key == effect_key) j.operations))) [
          | inl none_yet ↦ inr (ground (arith, h, none_yet), none_yet)
          | inr there_are ↦ inl (ground (arith, h, there_are))
        ]

absent_idents :
    (ident effect_key : String) (xs : List Operation)
    → is_empty (select (λ o. o.operation_id == ident || o.effect_key == effect_key) xs) ≡ true
    → (contains (operation_ids xs) ident ≡ false) × (contains (effect_keys xs) effect_key ≡ false)
unfolding operation_ids effect_keys
absent_idents ident effect_key [] h = (refl, refl)
absent_idents ident effect_key (x ∷ xs) h =
    elim (Bool-cases (x.operation_id == ident || x.effect_key == effect_key)) [
      | inl same ↦ absurd (ground (arith, h, same))
      | inr other ↦
          let r = absent_idents ident effect_key xs (ground (arith, h, other)) in
          (ground (arith, other, r.0), ground (arith, other, r.1))
    ]

new_row-is_sound :
    (codec : Codec) (ident effect_key : String) (request : Request)
    → is_sound (new_row codec ident effect_key request) ≡ true
unfolding is_sound OperationStatus-discrete
new_row-is_sound codec ident effect_key request = refl

module _ (codec : Codec) (reads : ReadsBack codec) (ident effect_key : String) (request : Request)
    (j : Journal) where
  -- The rows there were.
  intended-others :
      (o : Operation)
      → check_row codec j o ≡ ok tt
      → check_row codec (intended codec ident effect_key request j) o ≡ ok tt
  unfolding attempts_at observations_at reconciliations_at
  intended-others o h =
      let p = parts codec j o h in
      joined codec (intended codec ident effect_key request j) o (record {
        request = p.request;
        outbox = ground (arith, p.outbox);
        fences = p.fences;
        receipts = p.receipts;
      })

  -- The new row.
  intended-own :
      Known (operation_ids j.operations) j
      → contains (operation_ids j.operations) ident ≡ false
      → check_row codec
          (intended codec ident effect_key request j)
          (new_row codec ident effect_key request)
        ≡ ok tt
  unfolding check_request_json check_fence check_receipts attempts_at OperationStatus-discrete
      has_receipt has_proof
  intended-own known absent =
      joined codec (intended codec ident effect_key request j)
        (new_row codec ident effect_key request)
        (record {
          request = rw (check_request_json, reads request) (ground arith);
          outbox = ground arith;
          fences =
              rw
                (unknown-empty (λ a. a.operation_id) (operation_ids j.operations) ident j.attempts
                  absent known.attempts)
                (ground arith);
          receipts = refl;
        })

  pub intended-Consistent :
      is_empty (select (λ o. o.operation_id == ident || o.effect_key == effect_key) j.operations)
        ≡ true
      → Consistent codec j
      → Consistent codec (intended codec ident effect_key request j)
  intended-Consistent fresh v =
      let absent = absent_idents ident effect_key j.operations fresh in
      record {
        rows = λ o m. row o m (intended-own v.known absent.0);
        sound = λ o m. sound_row o m;
        idents = unfold operation_ids in ground (arith, v.idents, absent.0);
        effects = unfold effect_keys in ground (arith, v.effects, absent.1);
        known =
            unfold operation_ids in
            record {
              attempts =
                  known-cons _ (operation_ids j.operations) ident j.attempts v.known.attempts;
              observations =
                  known-cons _ (operation_ids j.operations) ident j.observations
                    v.known.observations;
              reconciliations =
                  known-cons _ (operation_ids j.operations) ident j.reconciliations
                    v.known.reconciliations;
            };
      }
    where
      row :
          (o : Operation)
          → In o (new_row codec ident effect_key request ∷ j.operations)
          → check_row codec
              (intended codec ident effect_key request j)
              (new_row codec ident effect_key request)
            ≡ ok tt
          → check_row codec (intended codec ident effect_key request j) o ≡ ok tt
      row o (here e) own =
          subst (λ o. check_row codec (intended codec ident effect_key request j) o ≡ ok tt) e own
      row o (there m) own = intended-others o (v.rows o m)

      sound_row :
          (o : Operation)
          → In o (new_row codec ident effect_key request ∷ j.operations)
          → is_sound o ≡ true
      sound_row o (here e) =
          subst (λ o. is_sound o ≡ true) e (new_row-is_sound codec ident effect_key request)
      sound_row o (there m) = v.sound o m

pub insert_intent-Consistent :
    (codec : Codec) (ident effect_key : String) (request : Request) (allow : Bool) (j : Journal)
    {k : Journal}
    → ReadsBack codec
    → insert_intent codec ident effect_key request allow j ≡ ok k
    → Consistent codec j
    → Consistent codec k
insert_intent-Consistent codec ident effect_key request allow j reads h v =
    elim (insert_intent-cases codec ident effect_key request allow j h) [
      | inl again ↦ subst (Consistent codec) (sym again) v
      | inr more ↦
          subst (Consistent codec) (sym more.0)
            (intended-Consistent codec reads ident effect_key request j more.1 v)
    ]

-- The work records that a gate adds, one intent after the other.
pub data Records (codec : Codec) : Journal → Journal → Type 0 where
  same : {j k : Journal} → j ≡ k → Records codec j k
  more :
      {j k l : Journal} (ident effect_key : String) (request : Request) (allow : Bool)
      → insert_intent codec ident effect_key request allow j ≡ ok k
      → Records codec k l
      → Records codec j l

-- What the work budget promises of a gate.
abbrev pub OnlyRecords : Codec → Gate → Type 0
OnlyRecords codec gate =
    (j : Journal) (op : Operation) (k : Journal) → gate j op ≡ ok k → Records codec j k

pub Records-Consistent :
    (codec : Codec) {j k : Journal}
    → ReadsBack codec
    → Records codec j k
    → Consistent codec j
    → Consistent codec k
Records-Consistent codec reads (same e) v = subst (Consistent codec) e v
Records-Consistent codec {j} reads (more ident effect_key request allow h later) v =
    Records-Consistent codec reads later
      (insert_intent-Consistent codec ident effect_key request allow j reads h v)

-- An operation that is there is found as before.
intended-operation :
    (codec : Codec) (ident effect_key : String) (request : Request) (j : Journal) (q : String)
    {o : Operation}
    → contains (operation_ids j.operations) ident ≡ false
    → operation j q ≡ ok o
    → operation (intended codec ident effect_key request j) q ≡ ok o
intended-operation codec ident effect_key request j q absent h =
    let r = operation-eq-ok j q h in
    let there_is = operation_ids-In j.operations r.1 in
    unfold operation in ground (arith, h, r.2, there_is, absent)

pub insert_intent-operation :
    (codec : Codec) (ident effect_key : String) (request : Request) (allow : Bool) (j : Journal)
    (q : String) {o : Operation} {k : Journal}
    → insert_intent codec ident effect_key request allow j ≡ ok k
    → operation j q ≡ ok o
    → operation k q ≡ ok o
insert_intent-operation codec ident effect_key request allow j q {o} h there_is =
    elim (insert_intent-cases codec ident effect_key request allow j h) [
      | inl again ↦ subst (λ k. operation k q ≡ ok o) (sym again) there_is
      | inr added ↦
          subst (λ k. operation k q ≡ ok o) (sym added.0)
            (intended-operation codec ident effect_key request j q
              (absent_idents ident effect_key j.operations added.1).0 there_is)
    ]

pub Records-operation :
    (codec : Codec) (q : String) {o : Operation} {j k : Journal}
    → Records codec j k
    → operation j q ≡ ok o
    → operation k q ≡ ok o
Records-operation codec q {o} (same e) h = subst (λ k. operation k q ≡ ok o) e h
Records-operation codec q {o} {j} (more ident effect_key request allow step later) h =
    Records-operation codec q later
      (insert_intent-operation codec ident effect_key request allow j q step h)
