-- ===== src/Store/Stores.antt =====
-- The stores that creations and admissions reach.
use creatidy_kernel.Base.{
  is_blank, ◌+◌, String, ◌≡◌, refl, sym, ap, ◌∙◌, subst, ◌⊎◌, inl, inr, false, Option, [], raise_if,
  >>-eq-ok, ok-injective, some-injective, invalid_domain_value, program_not_found, err, ok,
}
use creatidy_kernel.Domain.Checks.{Digest}
use creatidy_kernel.Domain.Spec.{ProgramSpec}
use creatidy_kernel.Domain.Program.{create, Program}
use creatidy_kernel.Domain.Commands.{Command}
use creatidy_kernel.Journal.Tables.{empty_journal, Codec}
use creatidy_kernel.Store.Tables.{Store}
use creatidy_kernel.Store.Admission.{
  greatest, latest_row, projection, decode_facts, load, create_program, admit, StoreCodec, Intent,
  Guards,
}
use creatidy_kernel.Store.Heads.{IsNext, no_head}
use creatidy_kernel.Store.Sound.{
  decode_facts-eq-ok, load_head-cases, Carried, made_by_create, made_by_command, Sound,
}
use creatidy_kernel.Store.Writes.{journal-Sound, write-Sound}
use creatidy_kernel.Store.Decisions.{admit-cases, create_program-cases, Decided, Created}

module _ {Facts Input : Type 0} where
  abbrev pub empty_store : Store Facts Input
  empty_store = record { history = []; admissions = []; projections = []; journal = empty_journal }

module _ {Facts Input : Type 0} (codec : StoreCodec Facts Input) (requests : Codec)
    (guards : Guards Facts Input) (digest : Digest) where
  -- The stores that creations and admissions reach from the empty one.
  pub data Served : Store Facts Input → Type 0 where
    opened : {store : Store Facts Input} → store ≡ empty_store → Served store
    program_created :
        {store after : Store Facts Input} {program : Program} (spec : ProgramSpec) (key : String)
        → Served store
        → create_program codec store spec key ≡ ok (after, program)
        → Served after
    command_admitted :
        {store after : Store Facts Input} {program : Program} (ident key : String) (c : Command)
        (intent : Option Intent)
        → Served store
        → admit codec requests guards digest store ident key c intent ≡ ok (after, program)
        → Served after

  empty_store-Sound : Sound codec digest empty_store
  unfolding projection latest_row greatest
  empty_store-Sound = record {
    projected = λ row m. absurd (elim m [ ]);
    admitted = λ row m. absurd (elim m [ ]);
    absent = λ ident h. refl;
  }

  create-named :
      (spec : ProgramSpec) {program : Program} → create spec ≡ ok program → program.spec ≡ spec
  unfolding create
  create-named spec h =
      sym (ap (λ p. p.spec) (ok-injective (>>-eq-ok (raise_if _ invalid_domain_value) _ h).1))

  Created-Sound :
      (store : Store Facts Input) (spec : ProgramSpec) (key : String) {after : Store Facts Input}
      {program : Program}
      → Sound codec digest store
      → Created codec store after spec key program
      → Sound codec digest after
  Created-Sound store spec key {after} {program} s c =
      let named = create-named spec c.made in
      subst (Sound codec digest) (sym c.written) (
        write-Sound codec digest store program c.facts 1 key spec.authority.owner_id
          (codec.create_input_json spec) (made_by_create spec program c.made) c.encoded
          (no_head (
            s.absent program.spec.program_id
              (ap (λ q. projection store q.program_id) named ∙ c.absent)))
          s)

  -- The Program that is returned was made from one that was read, and its next row is numbered after the others.
  pub Decided-IsNext :
      (store : Store Facts Input) (ident key : String) (c : Command) {after : Store Facts Input}
      {program : Program}
      → Sound codec digest store
      → (d : Decided codec requests guards digest store after ident key c program)
      → Carried codec digest program
        × IsNext store program.spec.program_id (d.row.history_sequence + 1)
  Decided-IsNext store ident key c {after} {program} s d =
      elim (load_head-cases codec digest store ident s) [
        | inl none_yet ↦ absurd (cc (none_yet.0, d.projected))
        | inr (row, e, (b, loaded, named, next)) ↦
            let same_row : row ≡ d.row = some-injective (sym e ∙ d.projected) in
            let e2 : decode_facts codec row.program_json ident b.program.revision ≡ ok d.current =
              sym loaded ∙ d.loaded in
            (
              made_by_command b.program row.program_json d.current c program b.carried b.json
                  (decode_facts-eq-ok codec row.program_json ident b.program.revision e2) d.done,
              subst (λ i. IsNext store i (d.row.history_sequence + 1)) (sym d.named)
                  (subst (λ r. IsNext store ident (r.history_sequence + 1)) same_row next),
            )
      ]

  Decided-Sound :
      (store : Store Facts Input) (ident key : String) (c : Command) {after : Store Facts Input}
      {program : Program}
      → Sound codec digest store
      → Decided codec requests guards digest store after ident key c program
      → Sound codec digest after
  Decided-Sound store ident key c {after} {program} s d =
      let n = Decided-IsNext store ident key c s d in
      subst (Sound codec digest) (sym d.written) (
        journal-Sound codec digest _ d.journal (
          write-Sound codec digest store program d.facts (d.row.history_sequence + 1) key c.actor_id
            (codec.command_input_json ident c) n.0 d.encoded n.1 s))

  pub Served-Sound : {store : Store Facts Input} → Served store → Sound codec digest store
  Served-Sound (opened e) = subst (Sound codec digest) (sym e) empty_store-Sound
  Served-Sound (program_created {store} spec key before h) =
      elim (create_program-cases codec store spec key h) [
        | inl again ↦ subst (Sound codec digest) (sym again) (Served-Sound before)
        | inr c ↦ Created-Sound store spec key (Served-Sound before) c
      ]
  Served-Sound (command_admitted {store} ident key c intent before h) =
      elim (admit-cases codec requests guards digest store ident key c intent h) [
        | inl again ↦ subst (Sound codec digest) (sym again.0) (Served-Sound before)
        | inr d ↦ Decided-Sound store ident key c (Served-Sound before) d.0
      ]

  -- What is read by a load: a text that was written for a Program under the identifier.
  pub record Readable (store : Store Facts Input) (ident : String) : Type 0 where
    pub program : Program
    pub facts : Facts
    pub carried : Carried codec digest program
    pub encoded : codec.program_json program ≡ ok facts
    pub named : program.spec.program_id ≡ ident
    pub loaded : load codec store ident ≡ decode_facts codec facts ident program.revision

  -- At a store that creations and admissions reach, with any codec, a load by an identifier that is
  -- not blank finds no Program, or it comes to the decoding of one text against the identifier and
  -- a revision: the text was written for a Program with that identifier and revision, which
  -- creation made or a command on a Program that was read. So no refusal is left but that of the
  -- text by the codec, or of what it decodes to.
  pub Served-load :
      (store : Store Facts Input) (ident : String)
      → Served store
      → is_blank ident ≡ false
      → (load codec store ident ≡ err program_not_found) ⊎ Readable store ident
  Served-load store ident served named =
      elim (load_head-cases codec digest store ident (Served-Sound served)) [
        | inl none_yet ↦ inl (unfold load in rw named none_yet.1)
        | inr (row, e, (b, loaded, own, next)) ↦ inr (record {
          program = b.program;
          facts = row.program_json;
          carried = b.carried;
          encoded = b.json;
          named = own;
          loaded = unfold load in rw named loaded;
        })
      ]
