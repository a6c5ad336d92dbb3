-- ===== src/Store/Sound.antt =====
-- A sound store: its texts were written for Programs that creation and commands made, and it keeps
-- them under their digests.
use creatidy_kernel.Base.{
  ℕ, ◌+◌, String, ◌≡◌, refl, sym, ap, ◌∙◌, subst, ◌⊎◌, inl, inr, false, ◌||◌, none, some, arith,
  Option-cases, ◌!=◌, nat_eq, string_eq, names_eq, optional_eq, ne_of_eq, In, ◌>>=◌, raise_if,
  or_raise, >>=-eq-ok, >>-eq-ok, ok-injective, or_raise-eq-ok, program_not_found, corrupt_history,
  Result, err, ok,
}
use creatidy_kernel.Domain.Checks.{Digest, json_eq}
use creatidy_kernel.Domain.Values.{
  program_status_eq, work_unit_status_eq, attempt_status_eq, domain_action_eq, policy_reference_eq,
  bindings_eq, subjects_eq,
}
use creatidy_kernel.Domain.Spec.{program_spec_eq, ProgramSpec}
use creatidy_kernel.Domain.Facts.{states_eq}
use creatidy_kernel.Domain.Program.{create, Program}
use creatidy_kernel.Domain.Commands.{Command}
use creatidy_kernel.Domain.Apply.{apply}
use creatidy_kernel.Journal.Tables.{operation_status_eq, observation_kind_eq, lookup_eq}
use creatidy_kernel.Store.Tables.{HistoryRow, AdmissionRow, ProjectionRow, Store}
use creatidy_kernel.Store.Admission.{
  codec_version, latest_row, projection, is_behind, decode_facts, load_head, StoreCodec,
}
use creatidy_kernel.Store.Heads.{projection-In, IsNext, after_head}

last_step {ℓ} : {A : Type ℓ} (r : Result A) → (r >>= λ a. ok a) ≡ r
last_step (err e) = refl
last_step (ok a) = refl

pub decode_facts-eq-ok :
    {Facts Input : Type 0} (codec : StoreCodec Facts Input) (raw : Facts) (ident : String)
    (revision : ℕ) {program : Program}
    → decode_facts codec raw ident revision ≡ ok program
    → codec.program_from_json raw ≡ some program
unfolding decode_facts
decode_facts-eq-ok codec raw ident revision h =
    let p = >>=-eq-ok (or_raise (codec.program_from_json raw) corrupt_history) _ h in
    let c =
      >>-eq-ok (raise_if (p.0.spec.program_id != ident || p.0.revision != revision) corrupt_history)
        _ p.2 in
    or_raise-eq-ok (codec.program_from_json raw) corrupt_history p.1 ∙ ap some (ok-injective c.1)

module _ {Facts Input : Type 0} (codec : StoreCodec Facts Input) (digest : Digest) where
  -- The Programs that creation makes and commands make of Programs that were written and read.
  pub data Carried : Program → Type 0 where
    made_by_create : (spec : ProgramSpec) (p : Program) → create spec ≡ ok p → Carried p
    made_by_command :
        (p : Program) (facts : Facts) (current : Program) (c : Command) (q : Program)
        → Carried p
        → codec.program_json p ≡ ok facts
        → codec.program_from_json facts ≡ some current
        → apply digest current c ≡ ok q
        → Carried q

  -- The projection of a Program, and the head of its history.
  pub record Backed (store : Store Facts Input) (row : ProjectionRow Facts Input) : Type 0 where
    pub program : Program
    pub carried : Carried program
    pub json : codec.program_json program ≡ ok row.program_json
    pub hashed : row.facts_digest ≡ codec.sha256 row.program_json
    pub named : program.spec.program_id ≡ row.program_id
    pub revised : program.revision ≡ row.aggregate_revision
    pub versioned : row.schema_version ≡ codec_version
    pub head : HistoryRow Facts Input
    pub latest : latest_row store row.program_id ≡ some head
    pub in_step : head.sequence ≡ row.history_sequence
    pub same_facts : head.facts_digest ≡ row.facts_digest

  pub record Kept (row : AdmissionRow Facts Input) : Type 0 where
    pub program : Program
    pub json : codec.program_json program ≡ ok row.result_json
    pub hashed : row.result_digest ≡ codec.sha256 row.result_json

  pub record Sound (store : Store Facts Input) : Type 0 where
    pub projected : (row : ProjectionRow Facts Input) → In row store.projections → Backed store row
    pub admitted : (row : AdmissionRow Facts Input) → In row store.admissions → Kept row
    pub absent : (ident : String) → projection store ident ≡ none → latest_row store ident ≡ none

  -- The steps of the load, one by one.
  module _ (store : Store Facts Input) (ident : String) (row : ProjectionRow Facts Input)
      (b : Backed store row) (found_row : projection store ident ≡ some row)
      (named : row.program_id ≡ ident) where
    head_of : latest_row store ident ≡ some b.head
    head_of = subst (λ i. latest_row store i ≡ some b.head) named b.latest

    not_behind : is_behind row (latest_row store ident) ≡ false
    unfolding is_behind
    not_behind =
        let h = head_of in
        let s : (b.head.sequence != row.history_sequence) ≡ false = ne_of_eq _ _ b.in_step in
        let f : (b.head.facts_digest != row.facts_digest) ≡ false = ne_of_eq _ _ b.same_facts in
        let v : (row.schema_version != codec_version) ≡ false = ne_of_eq _ _ b.versioned in
        rw (h, s, f, v) refl

    pub load_row :
        load_head codec store ident ≡ decode_facts codec row.program_json ident b.program.revision
    unfolding load_head
    load_row =
        let a : (codec.sha256 row.program_json != row.facts_digest) ≡ false =
          ne_of_eq _ _ (sym b.hashed) in
        let n = not_behind in
        rw (found_row, a, n)
          (last_step (decode_facts codec row.program_json ident row.aggregate_revision)
            ∙ ap (decode_facts codec row.program_json ident) (sym b.revised))

  -- What is loaded: the Program that is projected, or none.
  pub load_head-cases :
      (store : Store Facts Input) (ident : String)
      → Sound store
      → ((projection store ident ≡ none) × (load_head codec store ident ≡ err program_not_found))
        ⊎ ((row : ProjectionRow Facts Input) × (projection store ident ≡ some row)
            × ((b : Backed store row) × (load_head codec store ident
                  ≡ decode_facts codec row.program_json ident b.program.revision)
                × (b.program.spec.program_id ≡ ident)
                × (IsNext store ident (row.history_sequence + 1))))
  load_head-cases store ident s = elim (Option-cases (projection store ident)) [
    | inl none_yet ↦ inl (none_yet, unfold load_head in rw none_yet refl)
    | inr found_row ↦
        let m = projection-In store ident found_row.1 in
        let b = s.projected found_row.0 m.0 in
        inr (
          found_row.0,
          found_row.1,
          (
            b,
            load_row store ident found_row.0 b found_row.1 m.1,
            b.named ∙ m.1,
            after_head b.head (head_of store ident found_row.0 b found_row.1 m.1)
                (omega (arith, b.in_step)),
          ),
        )
  ]
