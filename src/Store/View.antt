-- ===== src/Store/View.antt =====
-- The store implements two maps: from identifiers to revisions and texts of Programs, and from keys
-- of commands to the texts of the results that were recorded under them.
use mathlib.Core.Path.{fun_ext}
use creatidy_kernel.Base.{
  ℕ, ◌+◌, String, ◌≡◌, refl, ap, ◌∙◌, inl, inr, true, false, Option, none, some, arith,
  if◌then◌else◌, Bool-cases, ◌==◌, ◌!=◌, nat_eq, string_eq, names_eq, optional_eq, ==-sound,
  ==-refl, eq_of_ne, find?, raise_if, >>=-eq-ok, >>-eq-ok, or_raise-eq-ok, raise_if-eq-ok,
  idempotency_conflict, corrupt_history, ok,
}
use creatidy_kernel.Domain.Checks.{Digest, json_eq}
use creatidy_kernel.Domain.Values.{
  program_status_eq, work_unit_status_eq, attempt_status_eq, domain_action_eq, policy_reference_eq,
  bindings_eq, subjects_eq,
}
use creatidy_kernel.Domain.Spec.{program_spec_eq}
use creatidy_kernel.Domain.Facts.{states_eq}
use creatidy_kernel.Domain.Program.{Program}
use creatidy_kernel.Domain.Commands.{Command}
use creatidy_kernel.Domain.Apply.{apply}
use creatidy_kernel.Journal.Tables.{
  operation_status_eq, observation_kind_eq, lookup_eq, Journal, Codec,
}
use creatidy_kernel.Store.Tables.{AdmissionRow, ProjectionRow, Store}
use creatidy_kernel.Store.Admission.{
  latest_row, projection, is_behind, decode_facts, load_head, recorded, write_facts, admit,
  StoreCodec, Intent, Guards,
}
use creatidy_kernel.Store.Heads.{projection-write_other}
use creatidy_kernel.Store.Writes.{chosen}
use creatidy_kernel.Store.Decisions.{admit-cases}

-- The two maps: a Program is the text that its codec wrote, under its revision; a result is a text,
-- with the digest of the input that led to it.
pub record View (Facts : Type 0) : Type 0 where
  pub programs : String → Option (ℕ × Facts)
  pub results : String → Option (String × Facts)

abbrev pub set_at : {A : Type 0} → (String → Option A) → String → A → String → Option A
set_at f key a q = if q == key then some a else f q

module _ {Facts Input : Type 0} (codec : StoreCodec Facts Input) (digest : Digest) where
  -- A command on the two maps: a key that is known with the same input gives its result, one that
  -- is not known applies the command to the Program and notes the result.
  pub data Admits (v w : View Facts) (ident key input : String) (c : Command) (program : Program)
      : Type 0 where
    repeated :
        (facts : Facts)
        → v.results key ≡ some (input, facts)
        → codec.program_from_json facts ≡ some program
        → w ≡ v
        → Admits v w ident key input c program
    decided :
        (revision : ℕ) (before : Facts) (current : Program) (facts : Facts)
        → v.results key ≡ none
        → v.programs ident ≡ some (revision, before)
        → decode_facts codec before ident revision ≡ ok current
        → apply digest current c ≡ ok program
        → program.spec.program_id ≡ ident
        → codec.program_json program ≡ ok facts
        → w ≡ record {
          programs = set_at v.programs ident (program.revision, facts);
          results = set_at v.results key (input, facts);
        }
        → Admits v w ident key input c program

module _ {Facts Input : Type 0} where
  unfoldable pub program_of : Option (ProjectionRow Facts Input) → Option (ℕ × Facts)
  program_of none = none
  program_of (some row) = some (row.aggregate_revision, row.program_json)

  unfoldable pub result_of : Option (AdmissionRow Facts Input) → Option (String × Facts)
  result_of none = none
  result_of (some row) = some (row.input_digest, row.result_json)

  unfoldable pub view : Store Facts Input → View Facts
  view store = record {
    programs = λ ident. program_of (projection store ident);
    results = λ key. result_of (find? (λ row. row.command_key == key) store.admissions);
  }

  journal-view :
      (store : Store Facts Input) (journal : Journal)
      → view (record store { journal = journal }) ≡ view store
  unfolding view projection
  journal-view store journal = refl

module _ {Facts Input : Type 0} (codec : StoreCodec Facts Input) where
  pub recorded-result :
      (row : AdmissionRow Facts Input) (input : String) {program : Program}
      → recorded codec row input ≡ ok program
      → (result_of (some row) ≡ some (input, row.result_json))
        × (codec.program_from_json row.result_json ≡ some program)
  unfolding recorded result_of
  recorded-result row input {program} h =
      let a = >>-eq-ok (raise_if (row.input_digest != input) idempotency_conflict) _ h in
      let b =
        >>-eq-ok (raise_if (codec.sha256 row.result_json != row.result_digest) corrupt_history) _
          a.1 in
      let p = or_raise-eq-ok (codec.program_from_json row.result_json) corrupt_history b.1 in
      let i = eq_of_ne row.input_digest input (raise_if-eq-ok _ _ a.0) in
      (ap (λ d. some (d, row.result_json)) i, p)

  -- The two maps after a write.
  write-view :
      (store : Store Facts Input) (program : Program) (facts : Facts) (sequence : ℕ)
      (key actor : String) (input : Input)
      → view (write_facts codec store program facts sequence key actor input) ≡ record {
        programs = set_at (view store).programs program.spec.program_id (program.revision, facts);
        results = set_at (view store).results key (codec.digest_json input, facts);
      }
  unfolding view program_of result_of write_facts projection
  write-view store program facts sequence key actor input =
      λ i. record { programs = programs_then i; results = results_then i }
    where
      own :
          program_of (
            projection
              (write_facts codec store program facts sequence key actor input)
              program.spec.program_id)
          ≡ some (program.revision, facts)
      own = ap program_of (chosen _ _ (==-refl program.spec.program_id))

      programs_then :
          (view (write_facts codec store program facts sequence key actor input)).programs
          ≡ set_at (view store).programs program.spec.program_id (program.revision, facts)
      programs_then = fun_ext λ q. elim (Bool-cases (q == program.spec.program_id)) [
        | inl same_ident ↦
            let e = ==-sound q program.spec.program_id same_ident in
            rw same_ident (
              ap
                (λ i.
                  program_of
                    (projection (write_facts codec store program facts sequence key actor input) i))
                e
              ∙ own)
        | inr other ↦ rw other (
            ap program_of
              (projection-write_other codec store program facts sequence key actor input q other))
      ]

      results_then :
          (view (write_facts codec store program facts sequence key actor input)).results
          ≡ set_at (view store).results key (codec.digest_json input, facts)
      results_then = fun_ext λ q. elim (Bool-cases (q == key)) [
        | inl same_key ↦
            let e : (key == q) ≡ true = ground (arith, same_key) in rw (same_key, e) refl
        | inr other ↦ let e : (key == q) ≡ false = ground (arith, other) in rw (other, e) refl
      ]

  -- What an admission finds at the head of the history.
  loaded-text :
      (store : Store Facts Input) (ident : String) (row : ProjectionRow Facts Input)
      {program : Program}
      → projection store ident ≡ some row
      → load_head codec store ident ≡ ok program
      → decode_facts codec row.program_json ident row.aggregate_revision ≡ ok program
  unfolding load_head
  loaded-text store ident row found_row h =
      let a =
        >>-eq-ok (raise_if (codec.sha256 row.program_json != row.facts_digest) corrupt_history) _
          (rw (found_row, load_head) at h) in
      let d = >>=-eq-ok (decode_facts codec row.program_json ident row.aggregate_revision) _ a.1 in
      let b = >>-eq-ok (raise_if (is_behind row (latest_row store ident)) corrupt_history) _ d.2 in
      d.1 ∙ b.1

-- An admission that succeeds is one step on two maps, from identifiers to revisions and texts of
-- Programs and from keys to texts of results, whatever the codec does. Either the key was known
-- with the same digest of the input, the result is what the text noted under it decodes to, and the
-- maps stay. Or the key was not known, the text at the identifier decodes to a Program of that
-- identifier and revision, the command applied to it gives the Program that is returned, which has
-- that identifier too, and the maps change at that identifier and at that key only, to the text
-- that this Program is written as.
pub admit-Admits :
    {Facts Input : Type 0} (codec : StoreCodec Facts Input) (requests : Codec)
    (guards : Guards Facts Input) (digest : Digest) (store : Store Facts Input) (ident key : String)
    (c : Command) (intent : Option Intent) {after : Store Facts Input} {program : Program}
    → admit codec requests guards digest store ident key c intent ≡ ok (after, program)
    → Admits codec digest
        (view store)
        (view after)
        ident
        key
        (codec.digest_json (codec.command_input_json ident c))
        c
        program
unfolding view program_of result_of
admit-Admits codec requests guards digest store ident key c intent {after} {program} h =
    elim (admit-cases codec requests guards digest store ident key c intent h) [
      | inl (again, r) ↦
          let e = recorded-result codec r.row _ r.result in
          repeated r.row.result_json (ap result_of r.known ∙ e.0) e.1 (ap view again)
      | inr (d, absent) ↦
          decided d.row.aggregate_revision d.row.program_json d.current d.facts
            (ap result_of absent) (ap program_of d.projected)
            (loaded-text codec store ident d.row d.projected d.loaded) d.done d.named d.encoded
            (ap view d.written
              ∙ journal-view _ d.journal
              ∙ write-view codec store program d.facts (d.row.history_sequence + 1) key c.actor_id
                  (codec.command_input_json ident c)
              ∙ ap
                  (λ i. record {
                    programs = set_at (view store).programs i (program.revision, d.facts);
                    results =
                        set_at (view store).results key
                          (codec.digest_json (codec.command_input_json ident c), d.facts);
                  })
                  d.named)
    ]
