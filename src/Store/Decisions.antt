-- ===== src/Store/Decisions.antt =====
-- What a creation or an admission that succeeds has read and written.
use creatidy_kernel.Base.{
  is_blank, ◌+◌, String, ◌≡◌, refl, sym, ap, ◌∙◌, subst, ◌⊎◌, inl, inr, false, ◌||◌, Option, none,
  some, Option-cases, is_some, ◌==◌, ◌!=◌, nat_eq, string_eq, names_eq, optional_eq, eq_of_ne,
  find?, raise_if, ◌>>◌, or_raise, >>=-eq-ok, >>-eq-ok, ok-injective, some-injective,
  or_raise-eq-ok, raise_if-eq-ok, value_error, program_not_found, program_already_exists,
  corrupt_history, Result, ok,
}
use creatidy_kernel.Domain.Checks.{Digest, json_eq}
use creatidy_kernel.Domain.Values.{
  program_status_eq, work_unit_status_eq, attempt_status_eq, domain_action_eq, policy_reference_eq,
  bindings_eq, subjects_eq,
}
use creatidy_kernel.Domain.Spec.{program_spec_eq, ProgramSpec}
use creatidy_kernel.Domain.Facts.{states_eq}
use creatidy_kernel.Domain.Program.{create, Program}
use creatidy_kernel.Domain.Commands.{Command}
use creatidy_kernel.Domain.Apply.{apply}
use creatidy_kernel.Journal.Tables.{
  operation_status_eq, observation_kind_eq, lookup_eq, Journal, Codec,
}
use creatidy_kernel.Store.Tables.{AdmissionRow, ProjectionRow, Store}
use creatidy_kernel.Store.Admission.{
  projection, load_head, recorded, duplicate_result, write_facts, create_anew, create_program,
  check_intent, add_intent, decide, admit, StoreCodec, Intent, Guards,
}

module _ {Facts Input : Type 0} (codec : StoreCodec Facts Input) where
  -- A key that is known gives back what was recorded under it.
  pub record Repeated (store : Store Facts Input) (key input_digest : String) (program : Program)
      : Type 0 where
    pub row : AdmissionRow Facts Input
    pub known : find? (λ row. row.command_key == key) store.admissions ≡ some row
    pub result : recorded codec row input_digest ≡ ok program

  pub duplicate_result-cases :
      (store : Store Facts Input) (key input_digest : String) {known : Option Program}
      → duplicate_result codec store key input_digest ≡ ok known
      → ((known ≡ none) × (find? (λ row. row.command_key == key) store.admissions ≡ none))
        ⊎ ((program : Program) × (known ≡ some program) × Repeated store key input_digest program)
  unfolding duplicate_result
  duplicate_result-cases store key input_digest h =
      elim (Option-cases (find? (λ row. row.command_key == key) store.admissions)) [
        | inl none_yet ↦ inl (sym (ok-injective (rw (none_yet, duplicate_result) at h)), none_yet)
        | inr (row, e) ↦
            let r = >>=-eq-ok (recorded codec row input_digest) _ (rw (e, duplicate_result) at h) in
            inr (r.0, sym (ok-injective r.2), record { row = row; known = e; result = r.1 })
      ]

module _ {Facts Input : Type 0} (codec : StoreCodec Facts Input) (requests : Codec)
    (guards : Guards Facts Input) (digest : Digest) where
  -- A command that was new: it is applied to the Program that is loaded.
  pub record Decided (store after : Store Facts Input) (ident key : String) (c : Command)
      (program : Program) : Type 0 where
    pub current : Program
    pub loaded : load_head codec store ident ≡ ok current
    pub done : apply digest current c ≡ ok program
    pub named : program.spec.program_id ≡ ident
    pub row : ProjectionRow Facts Input
    pub projected : projection store ident ≡ some row
    pub facts : Facts
    pub encoded : codec.program_json program ≡ ok facts
    pub journal : Journal
    pub written :
        after
        ≡ record (write_facts codec store program facts
            (row.history_sequence + 1)
            key
            c.actor_id
            (codec.command_input_json ident c)) { journal = journal }

  decide-eq-ok :
      (store : Store Facts Input) (ident key : String) (c : Command) (intent : Option Intent)
      {after : Store Facts Input} {program : Program}
      → decide codec requests guards digest store ident key c intent ≡ ok (after, program)
      → Decided store after ident key c program
  unfolding decide
  decide-eq-ok store ident key c intent {after} {program} h =
      let l = >>=-eq-ok (load_head codec store ident) _ h in
      let o = >>-eq-ok (guards.ownership store ident c) _ l.2 in
      let a = >>=-eq-ok (apply digest l.0 c) _ o.1 in
      let g = >>=-eq-ok (guards.reserve store ident c intent) _ a.2 in
      let n = >>-eq-ok (raise_if (a.0.spec.program_id != ident) corrupt_history) _ g.2 in
      let p = >>=-eq-ok (or_raise (projection store ident) program_not_found) _ n.1 in
      let f = >>=-eq-ok (codec.program_json a.0) _ p.2 in
      let i = >>=-eq-ok (add_intent codec requests guards digest intent g.0) _ f.2 in
      let b = >>=-eq-ok (guards.bind i.0 ident c intent) _ i.2 in
      let e = ok-injective b.2 in
      let same_program : a.0 ≡ program = ap (λ r. r.1) e in
      record {
        current = l.0;
        loaded = l.1;
        done = subst (λ q. apply digest l.0 c ≡ ok q) same_program a.1;
        named =
            sym (ap (λ q. q.spec.program_id) same_program) ∙ eq_of_ne _ _ (raise_if-eq-ok _ _ n.0);
        row = p.0;
        projected = or_raise-eq-ok (projection store ident) program_not_found p.1;
        facts = f.0;
        encoded = ap codec.program_json (sym same_program) ∙ f.1;
        journal = b.0;
        written =
            sym (ap (λ r. r.0) e)
            ∙ ap
                (λ q.
                  record (write_facts codec store q f.0 (p.0.history_sequence + 1) key c.actor_id
                    (codec.command_input_json ident c)) { journal = b.0 })
                same_program;
      }

  -- An admission repeats one that is recorded, or decides.
  pub admit-cases :
      (store : Store Facts Input) (ident key : String) (c : Command) (intent : Option Intent)
      {after : Store Facts Input} {program : Program}
      → admit codec requests guards digest store ident key c intent ≡ ok (after, program)
      → ((after ≡ store)
          × Repeated codec store key (codec.digest_json (codec.command_input_json ident c)) program)
        ⊎ (Decided store after ident key c program
            × (find? (λ row. row.command_key == key) store.admissions ≡ none))
  unfolding admit
  admit-cases store ident key c intent {after} {program} h =
      let a = >>-eq-ok (raise_if (is_blank ident || is_blank key) value_error) _ h in
      let d =
        >>=-eq-ok
          (duplicate_result codec store key (codec.digest_json (codec.command_input_json ident c)))
          _ a.1 in
      by_known d.0 d.2 (duplicate_result-cases codec store key _ d.1)
    where
      by_known :
          (known : Option Program)
          → (elim known as (λ _. Result (Store Facts Input × Program)) [
            | some program ↦
                check_intent codec requests guards digest store intent >> ok (store, program)
            | none ↦ decide codec requests guards digest store ident key c intent
          ])
            ≡ ok (after, program)
          → ((known ≡ none) × (find? (λ row. row.command_key == key) store.admissions ≡ none))
            ⊎ ((program : Program) × (known ≡ some program)
                × Repeated codec store key
                    (codec.digest_json (codec.command_input_json ident c))
                    program)
          → ((after ≡ store)
              × Repeated codec store key
                  (codec.digest_json (codec.command_input_json ident c))
                  program)
            ⊎ (Decided store after ident key c program
                × (find? (λ row. row.command_key == key) store.admissions ≡ none))
      by_known none e (inl absent) = inr (decide-eq-ok store ident key c intent e, absent.1)
      by_known none e (inr (p, is_none, r)) = absurd (cc is_none)
      by_known (some old) e (inl absent) = absurd (cc absent.0)
      by_known (some old) e (inr (p, is_old, r)) =
          let k = >>-eq-ok (check_intent codec requests guards digest store intent) _ e in
          let f = ok-injective k.1 in
          let same_program : p ≡ program = some-injective (sym is_old) ∙ ap (λ r. r.1) f in
          inl (sym (ap (λ r. r.0) f), subst (Repeated codec store key _) same_program r)

module _ {Facts Input : Type 0} (codec : StoreCodec Facts Input) where
  -- A creation that was new.
  pub record Created (store after : Store Facts Input) (spec : ProgramSpec) (key : String)
      (program : Program) : Type 0 where
    pub absent : projection store spec.program_id ≡ none
    pub made : create spec ≡ ok program
    pub facts : Facts
    pub encoded : codec.program_json program ≡ ok facts
    pub written :
        after
        ≡ write_facts codec store program facts 1 key spec.authority.owner_id
            (codec.create_input_json spec)

  create_anew-Created :
      (store : Store Facts Input) (spec : ProgramSpec) (key : String) {after : Store Facts Input}
      {program : Program}
      → create_anew codec store spec key ≡ ok (after, program)
      → Created store after spec key program
  unfolding create_anew
  create_anew-Created store spec key h =
      let a =
        >>-eq-ok (raise_if (is_some (projection store spec.program_id)) program_already_exists) _
          h in
      let c = >>=-eq-ok (create spec) _ a.1 in
      let f = >>=-eq-ok (codec.program_json c.0) _ c.2 in
      let e = ok-injective f.2 in
      let same_program = ap (λ r. r.1) e in
      record {
        absent = absent_of (projection store spec.program_id) (raise_if-eq-ok _ _ a.0);
        made = c.1 ∙ ap ok same_program;
        facts = f.0;
        encoded = ap codec.program_json (sym same_program) ∙ f.1;
        written =
            sym (ap (λ r. r.0) e)
            ∙ ap
                (λ q.
                  write_facts codec store q f.0 1 key spec.authority.owner_id
                    (codec.create_input_json spec))
                same_program;
      }
    where
      absent_of : (o : Option (ProjectionRow Facts Input)) → is_some o ≡ false → o ≡ none
      absent_of none h = refl
      absent_of (some r) h = absurd (cc h)

  -- A creation repeats one that is recorded, or is new.
  pub create_program-cases :
      (store : Store Facts Input) (spec : ProgramSpec) (key : String) {after : Store Facts Input}
      {program : Program}
      → create_program codec store spec key ≡ ok (after, program)
      → (after ≡ store) ⊎ Created store after spec key program
  unfolding create_program
  create_program-cases store spec key {after} {program} h =
      let a = >>-eq-ok (raise_if (is_blank key) value_error) _ h in
      let d =
        >>=-eq-ok
          (duplicate_result codec store key (codec.digest_json (codec.create_input_json spec))) _
          a.1 in
      by_known d.0 d.2
    where
      by_known :
          (known : Option Program)
          → (elim known as (λ _. Result (Store Facts Input × Program)) [
            | some program ↦ ok (store, program)
            | none ↦ create_anew codec store spec key
          ])
            ≡ ok (after, program)
          → (after ≡ store) ⊎ Created store after spec key program
      by_known none e = inr (create_anew-Created store spec key e)
      by_known (some old) e = inl (sym (ap (λ r. r.0) (ok-injective e)))
