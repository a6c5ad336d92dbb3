-- ===== src/Store/Heads.antt =====
-- The head of a Program's history, and its projection, after a write.
use creatidy_kernel.Base.{
  ℕ, ◌<◌, String, ◌≡◌, refl, ap, ◌∙◌, ◌⊎◌, inl, inr, false, none, some, List, [], ◌∷◌, arith,
  Bool-cases, ltb, ◌==◌, ◌!=◌, nat_eq, string_eq, names_eq, optional_eq, find?, select, In, here,
  there,
}
use creatidy_kernel.Domain.Checks.{json_eq}
use creatidy_kernel.Domain.Values.{
  program_status_eq, work_unit_status_eq, attempt_status_eq, domain_action_eq, policy_reference_eq,
  bindings_eq, subjects_eq,
}
use creatidy_kernel.Domain.Spec.{program_spec_eq}
use creatidy_kernel.Domain.Facts.{states_eq}
use creatidy_kernel.Domain.Program.{Program}
use creatidy_kernel.Journal.Tables.{operation_status_eq, observation_kind_eq, lookup_eq}
use creatidy_kernel.Journal.Parts.{select-other, select-own}
use creatidy_kernel.Store.Tables.{HistoryRow, ProjectionRow, Store}
use creatidy_kernel.Store.Admission.{greatest, latest_row, projection, write_facts, StoreCodec}

module _ {Facts Input : Type 0} where
  -- The sequence comes after those that a Program has.
  pub data IsNext (store : Store Facts Input) (ident : String) (sequence : ℕ) : Type 0 where
    no_head : latest_row store ident ≡ none → IsNext store ident sequence
    after_head :
        (head : HistoryRow Facts Input)
        → latest_row store ident ≡ some head
        → head.sequence < sequence
        → IsNext store ident sequence

  greatest-cons :
      (row : HistoryRow Facts Input) (rows : List (HistoryRow Facts Input))
      → (greatest rows ≡ none)
        ⊎ ((head : HistoryRow Facts Input) × (greatest rows ≡ some head)
            × (head.sequence < row.sequence))
      → greatest (row ∷ rows) ≡ some row
  unfolding greatest
  greatest-cons row rows (inl none_yet) = rw none_yet refl
  greatest-cons row rows (inr (head, e, l)) =
      let before : ltb row.sequence head.sequence ≡ false = ground (arith, l) in rw (e, before) refl

  find-In :
      (ident : String) (rows : List (ProjectionRow Facts Input)) {row : ProjectionRow Facts Input}
      → find? (λ r. r.program_id == ident) rows ≡ some row
      → In row rows × (row.program_id ≡ ident)
  find-In ident [] h = absurd (cc h)
  find-In ident (r ∷ rows) h = elim (Bool-cases (r.program_id == ident)) [
    | inl found_now ↦ (here (ground arith), ground arith)
    | inr other ↦ let m = find-In ident rows (ground arith) in (there m.0, m.1)
  ]

  pub projection-In :
      (store : Store Facts Input) (ident : String) {row : ProjectionRow Facts Input}
      → projection store ident ≡ some row
      → In row store.projections × (row.program_id ≡ ident)
  unfolding projection
  projection-In store ident h = find-In ident store.projections h

  find-select :
      (ident q : String) (rows : List (ProjectionRow Facts Input))
      → (q == ident) ≡ false
      → find? (λ row. row.program_id == q) (select (λ row. row.program_id != ident) rows)
        ≡ find? (λ row. row.program_id == q) rows
  find-select ident q [] h = refl
  find-select ident q (row ∷ rows) h = ground (arith, h, find-select ident q rows h)

module _ {Facts Input : Type 0} (codec : StoreCodec Facts Input) (store : Store Facts Input)
    (program : Program) (facts : Facts) (sequence : ℕ) (key actor : String) (input : Input) where
  pub latest_row-write_own :
      IsNext store program.spec.program_id sequence
      → (head : HistoryRow Facts Input) × (latest_row
            (write_facts codec store program facts sequence key actor input)
            program.spec.program_id
          ≡ some head)
        × (head.sequence ≡ sequence)
        × (head.facts_digest ≡ codec.sha256 facts)
  unfolding latest_row write_facts
  latest_row-write_own n = (
    _,
    ap greatest (select-own (λ row. row.program_id) _ store.history program.spec.program_id refl)
        ∙ greatest-cons _ _ (before n),
    refl,
    refl,
  )
    where
      before :
          IsNext store program.spec.program_id sequence
          → (greatest (select (λ row. row.program_id == program.spec.program_id) store.history)
              ≡ none)
            ⊎ ((head : HistoryRow Facts Input) × (greatest
                    (select (λ row. row.program_id == program.spec.program_id) store.history)
                  ≡ some head)
                × (head.sequence < sequence))
      before (no_head e) = inl e
      before (after_head head e l) = inr (head, e, l)

  pub latest_row-write_other :
      (q : String)
      → (q == program.spec.program_id) ≡ false
      → latest_row (write_facts codec store program facts sequence key actor input) q
        ≡ latest_row store q
  unfolding latest_row write_facts
  latest_row-write_other q h =
      ap greatest (select-other (λ row. row.program_id) _ store.history q h)

  pub projection-write_other :
      (q : String)
      → (q == program.spec.program_id) ≡ false
      → projection (write_facts codec store program facts sequence key actor input) q
        ≡ projection store q
  unfolding projection write_facts
  projection-write_other q h =
      let other : (program.spec.program_id == q) ≡ false = ground (arith, h) in
      rw other (find-select program.spec.program_id q store.projections h)
