-- ===== src/Store/Keys.antt =====
-- A key of a command, used again.
use creatidy_kernel.Base.{
  is_blank, ℕ, ◌+◌, String, ◌≡◌, refl, sym, ◌∙◌, subst, ◌≢◌, inl, inr, true, false, ◌||◌, Option,
  none, some, arith, ◌==◌, ◌!=◌, nat_eq, string_eq, names_eq, optional_eq, ==-refl, eq_of_ne,
  ne_of_eq, find?, ◌>>=◌, raise_if, ◌>>◌, or_raise, >>-eq-ok, raise_if-eq-ok, idempotency_conflict,
  corrupt_history, Result, err, ok,
}
use creatidy_kernel.Domain.Checks.{Digest, json_eq}
use creatidy_kernel.Domain.Values.{
  program_status_eq, work_unit_status_eq, attempt_status_eq, domain_action_eq, policy_reference_eq,
  bindings_eq, subjects_eq,
}
use creatidy_kernel.Domain.Spec.{program_spec_eq}
use creatidy_kernel.Domain.Facts.{states_eq}
use creatidy_kernel.Domain.Program.{Program}
use creatidy_kernel.Domain.Commands.{Command}
use creatidy_kernel.Journal.Tables.{
  operation_status_eq, observation_kind_eq, lookup_eq, Journal, Codec,
}
use creatidy_kernel.Store.Tables.{AdmissionRow, Store}
use creatidy_kernel.Store.Admission.{
  latest_row, projection, decode_facts, load_head, load, recorded, duplicate_result, write_facts,
  check_intent, decide, admit, StoreCodec, Intent, Guards,
}
use creatidy_kernel.Store.Writes.{chosen, load_head-write}
use creatidy_kernel.Store.Decisions.{admit-cases, Decided}
use creatidy_kernel.Store.Stores.{Decided-IsNext, Served-Sound, Served}

module _ {Facts Input : Type 0} (codec : StoreCodec Facts Input) (digest : Digest) where
  -- The row that is found for a key bears the digest of an input.
  pub record Bound (store : Store Facts Input) (key input_digest : String) : Type 0 where
    pub row : AdmissionRow Facts Input
    pub known : find? (λ row. row.command_key == key) store.admissions ≡ some row
    pub same_input : row.input_digest ≡ input_digest

  -- The row that a write of facts adds for its key.
  abbrev written_row : Program → Facts → ℕ → String → Input → AdmissionRow Facts Input
  written_row program facts sequence key input = record {
    command_key = key;
    program_id = program.spec.program_id;
    command_type = codec.command_type input;
    input_digest = codec.digest_json input;
    result_sequence = sequence;
    result_digest = codec.sha256 facts;
    result_json = facts;
  }

  write-known :
      (store : Store Facts Input) (program : Program) (facts : Facts) (sequence : ℕ)
      (key actor : String) (input : Input)
      → find?
          (λ row. row.command_key == key)
          (write_facts codec store program facts sequence key actor input).admissions
        ≡ some (written_row program facts sequence key input)
  unfolding write_facts
  write-known store program facts sequence key actor input = chosen (key == key) _ (==-refl key)

  duplicate-known :
      (store : Store Facts Input) (key input_digest : String) {row : AdmissionRow Facts Input}
      → find? (λ row. row.command_key == key) store.admissions ≡ some row
      → duplicate_result codec store key input_digest
        ≡ (recorded codec row input_digest >>= λ program. ok (some program))
  unfolding duplicate_result
  duplicate-known store key input_digest e = rw (duplicate_result, e) refl

  journal-load_head :
      (store : Store Facts Input) (journal : Journal) (ident : String)
      → load_head codec (record store { journal = journal }) ident ≡ load_head codec store ident
  unfolding load_head projection latest_row
  journal-load_head store journal ident = refl

  recorded-input :
      (row : AdmissionRow Facts Input) (input_digest : String) {program : Program}
      → recorded codec row input_digest ≡ ok program
      → row.input_digest ≡ input_digest
  unfolding recorded
  recorded-input row input_digest h = eq_of_ne _ _ (
      raise_if-eq-ok _ _
        (>>-eq-ok (raise_if (row.input_digest != input_digest) idempotency_conflict) _ h).0)

module _ {Facts Input : Type 0} (codec : StoreCodec Facts Input) (requests : Codec)
    (guards : Guards Facts Input) (digest : Digest) (store : Store Facts Input) (ident key : String)
    (c : Command) (intent : Option Intent) {after : Store Facts Input} {program : Program}
    (done : admit codec requests guards digest store ident key c intent ≡ ok (after, program)) where
  -- After an admission its key is known.
  admit-Bound : Bound codec digest after key (codec.digest_json (codec.command_input_json ident c))
  admit-Bound = elim (admit-cases codec requests guards digest store ident key c intent done) [
    | inl (again, r) ↦
        subst (λ t. Bound codec digest t key (codec.digest_json (codec.command_input_json ident c)))
          (sym again)
          (record {
            row = r.row;
            known = r.known;
            same_input = recorded-input codec digest r.row _ r.result;
          })
    | inr (d, absent) ↦
        subst (λ t. Bound codec digest t key (codec.digest_json (codec.command_input_json ident c)))
          (sym d.written)
          (record {
            row = _;
            known =
                write-known codec digest store program d.facts (d.row.history_sequence + 1) key
                  c.actor_id (codec.command_input_json ident c);
            same_input = refl;
          })
  ]

  -- Once a command has been admitted, any command under the same key whose input has another
  -- digest, where identifier and key are not blank, is refused with IdempotencyConflict.
  pub admit-conflict :
      (other : String) (e : Command) (wish : Option Intent)
      → (is_blank other || is_blank key) ≡ false
      → codec.digest_json (codec.command_input_json other e)
        ≢ codec.digest_json (codec.command_input_json ident c)
      → admit codec requests guards digest after other key e wish ≡ err idempotency_conflict
  unfolding admit recorded
  admit-conflict other e wish named differs =
      let r = admit-Bound in
      let refused : (r.row.input_digest != codec.digest_json (codec.command_input_json other e))
          ≡ true =
        ground (arith, r.same_input, differs) in
      let k =
        duplicate-known codec digest after key
          (codec.digest_json (codec.command_input_json other e)) r.known in
      rw (named, k, refused) refl

  module _ (absent : find? (λ row. row.command_key == key) store.admissions ≡ none) where
    -- An admission under a new key has decided.
    fresh : Decided codec requests guards digest store after ident key c program
    fresh = elim (admit-cases codec requests guards digest store ident key c intent done) [
      | inl (again, r) ↦ absurd (cc (r.known, absent))
      | inr (d, unknown_key) ↦ d
    ]

    -- A command that has been admitted under a new key, with an identifier and a key that are not
    -- blank, can be admitted again without an intent: that leaves the store as it is and returns
    -- what the text decodes to that the Program was written as, or reports it as corrupt where the
    -- text does not decode.
    pub admit-admit :
        (is_blank ident || is_blank key) ≡ false
        → (facts : Facts) × (codec.program_json program ≡ ok facts)
          × (admit codec requests guards digest after ident key c none
              ≡ (or_raise (codec.program_from_json facts) corrupt_history >>= λ p. ok (after, p)))
    unfolding admit check_intent recorded
    admit-admit named =
        let d = fresh in
        let input = codec.command_input_json ident c in
        let known =
          subst
            (λ (t : Store Facts Input).
              find? (λ row. row.command_key == key) t.admissions
              ≡ some
                  (written_row codec digest program d.facts (d.row.history_sequence + 1) key input))
            (sym d.written)
            (write-known codec digest store program d.facts (d.row.history_sequence + 1) key
              c.actor_id input) in
        let k = duplicate-known codec digest after key (codec.digest_json input) known in
        let i : (codec.digest_json input != codec.digest_json input) ≡ false =
          ne_of_eq {A = String} _ _ refl in
        let h : (codec.sha256 d.facts != codec.sha256 d.facts) ≡ false =
          ne_of_eq {A = String} _ _ refl in
        (d.facts, d.encoded, rw (named, k, i, h) (again (codec.program_from_json d.facts)))
      where
        again :
            (o : Option Program)
            → ((or_raise o corrupt_history >>= λ p. ok (some p)) >>= λ known.
                elim known as (λ _. Result (Store Facts Input × Program)) [
                  | some p ↦ check_intent codec requests guards digest after none >> ok (after, p)
                  | none ↦ decide codec requests guards digest after ident key c none
                ])
              ≡ (or_raise o corrupt_history >>= λ p. ok (after, p))
        again none = refl
        again (some p) = refl

    -- After an admission under a new key, at a store that creations and admissions reach, a load by
    -- the identifier, which is not blank, comes to the decoding of the text that the returned
    -- Program was written as, against the identifier and the revision of that Program.
    pub admit-load :
        is_blank ident ≡ false
        → Served codec requests guards digest store
        → (facts : Facts) × (codec.program_json program ≡ ok facts)
          × (load codec after ident ≡ decode_facts codec facts ident program.revision)
    unfolding load
    admit-load named served =
        let d = fresh in
        let s = Served-Sound codec requests guards digest served in
        let n = Decided-IsNext codec requests guards digest store ident key c s d in
        let w =
          load_head-write codec digest store program d.facts (d.row.history_sequence + 1) key
            c.actor_id (codec.command_input_json ident c) n.0 d.encoded n.1 in
        (
          d.facts,
          d.encoded,
          rw named (
              subst
                (λ t. load_head codec t ident ≡ decode_facts codec d.facts ident program.revision)
                (sym d.written)
                (journal-load_head codec digest _ d.journal ident
                  ∙ subst
                      (λ i.
                        load_head codec
                          (write_facts codec store program d.facts (d.row.history_sequence + 1) key
                            c.actor_id (codec.command_input_json ident c))
                          i
                        ≡ decode_facts codec d.facts i program.revision)
                      d.named w)),
        )
