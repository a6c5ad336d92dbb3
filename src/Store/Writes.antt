-- ===== src/Store/Writes.antt =====
-- A write of facts keeps the store sound and is loaded again.
use creatidy_kernel.Base.{
  ℕ, String, ◌≡◌, refl, sym, ap, ◌∙◌, subst, inl, inr, Bool, true, false, none, some, arith,
  if◌then◌else◌, Bool-cases, ◌==◌, ◌!=◌, nat_eq, string_eq, names_eq, optional_eq, ==-sound,
  ==-refl, In, here, there, ok, In-select-inv,
}
use creatidy_kernel.Domain.Checks.{Digest, json_eq}
use creatidy_kernel.Domain.Values.{
  program_status_eq, work_unit_status_eq, attempt_status_eq, domain_action_eq, policy_reference_eq,
  bindings_eq, subjects_eq,
}
use creatidy_kernel.Domain.Spec.{program_spec_eq}
use creatidy_kernel.Domain.Facts.{states_eq}
use creatidy_kernel.Domain.Program.{Program}
use creatidy_kernel.Journal.Tables.{operation_status_eq, observation_kind_eq, lookup_eq, Journal}
use creatidy_kernel.Store.Tables.{AdmissionRow, ProjectionRow, Store}
use creatidy_kernel.Store.Admission.{
  codec_version, latest_row, projection, decode_facts, load_head, write_facts, StoreCodec,
}
use creatidy_kernel.Store.Heads.{
  latest_row-write_own, latest_row-write_other, projection-write_other, IsNext,
}
use creatidy_kernel.Store.Sound.{load_row, Carried, Backed, Kept, Sound}

pub chosen : {A : Type 0} (b : Bool) {x : A} (y : A) → b ≡ true → (if b then x else y) ≡ x
chosen true y h = refl
chosen false y h = absurd (cc h)

module _ {Facts Input : Type 0} (codec : StoreCodec Facts Input) (digest : Digest) where
  relabel :
      (store : Store Facts Input) (journal : Journal) (row : ProjectionRow Facts Input)
      → Backed codec digest store row
      → Backed codec digest (record store { journal = journal }) row
  unfolding latest_row
  relabel store journal row b = record {
    program = b.program;
    carried = b.carried;
    json = b.json;
    hashed = b.hashed;
    named = b.named;
    revised = b.revised;
    versioned = b.versioned;
    head = b.head;
    latest = b.latest;
    in_step = b.in_step;
    same_facts = b.same_facts;
  }

  -- The journal is no matter of the store's soundness.
  pub journal-Sound :
      (store : Store Facts Input) (journal : Journal)
      → Sound codec digest store
      → Sound codec digest (record store { journal = journal })
  journal-Sound store journal s = record {
    projected = λ row m. relabel store journal row (s.projected row m);
    admitted = s.admitted;
    absent = unfold projection latest_row in s.absent;
  }

module _ {Facts Input : Type 0} (codec : StoreCodec Facts Input) (digest : Digest)
    (store : Store Facts Input) (program : Program) (facts : Facts) (sequence : ℕ)
    (key actor : String) (input : Input) (carried : Carried codec digest program)
    (encoded : codec.program_json program ≡ ok facts)
    (next : IsNext store program.spec.program_id sequence) where
  abbrev written_store : Store Facts Input
  written_store = write_facts codec store program facts sequence key actor input

  abbrev own_row : ProjectionRow Facts Input
  own_row = record {
    program_id = program.spec.program_id;
    aggregate_revision = program.revision;
    history_sequence = sequence;
    schema_version = codec_version;
    facts_digest = codec.sha256 facts;
    program_json = facts;
  }

  own-Backed : Backed codec digest written_store own_row
  own-Backed =
      let l = latest_row-write_own codec store program facts sequence key actor input next in
      record {
        program = program;
        carried = carried;
        json = encoded;
        hashed = refl;
        named = refl;
        revised = refl;
        versioned = refl;
        head = l.0;
        latest = l.1;
        in_step = l.2;
        same_facts = l.3;
      }

  row-Backed :
      (row : ProjectionRow Facts Input)
      → Sound codec digest store
      → In row written_store.projections
      → Backed codec digest written_store row
  unfolding write_facts
  row-Backed row s (here e) = subst (Backed codec digest written_store) e own-Backed
  row-Backed row s (there m) =
      let r =
        In-select-inv (λ row. row.program_id != program.spec.program_id) store.projections m in
      let b = s.projected row r.0 in
      let other : (row.program_id == program.spec.program_id) ≡ false = ground (arith, r.1) in
      record {
        program = b.program;
        carried = b.carried;
        json = b.json;
        hashed = b.hashed;
        named = b.named;
        revised = b.revised;
        versioned = b.versioned;
        head = b.head;
        latest =
            latest_row-write_other codec store program facts sequence key actor input row.program_id
              other
            ∙ b.latest;
        in_step = b.in_step;
        same_facts = b.same_facts;
      }

  row-Kept :
      (row : AdmissionRow Facts Input)
      → Sound codec digest store
      → In row written_store.admissions
      → Kept codec digest row
  unfolding write_facts
  row-Kept row s (here e) =
      subst (Kept codec digest) e (record { program = program; json = encoded; hashed = refl })
  row-Kept row s (there m) = s.admitted row m

  pub projection-own : projection written_store program.spec.program_id ≡ some own_row
  unfolding projection write_facts
  projection-own = chosen _ _ (==-refl program.spec.program_id)

  pub write-Sound : Sound codec digest store → Sound codec digest written_store
  write-Sound s = record {
    projected = λ row m. row-Backed row s m;
    admitted = λ row m. row-Kept row s m;
    absent = λ ident h. elim (Bool-cases (ident == program.spec.program_id)) [
      | inl own ↦
          let same_ident = ==-sound ident program.spec.program_id own in
          let e : none ≡ some own_row =
            sym h ∙ ap (projection written_store) same_ident ∙ projection-own in
          absurd (cc e)
      | inr other ↦
          latest_row-write_other codec store program facts sequence key actor input ident other
          ∙ s.absent ident (
              sym (
                projection-write_other codec store program facts sequence key actor input ident
                  other)
              ∙ h)
    ];
  }

  -- What was written is read again.
  pub load_head-write :
      load_head codec written_store program.spec.program_id
      ≡ decode_facts codec facts program.spec.program_id program.revision
  unfolding own-Backed
  load_head-write =
      load_row codec digest written_store program.spec.program_id own_row own-Backed projection-own
        refl
