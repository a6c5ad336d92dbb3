-- ===== src/Domain/Recording.antt =====
-- The branches of `Program.apply` for `SatisfyWorkUnit` and `AmendProgramSpec`, `core/domain.py`,
-- lines 1592 to 1688.
pub mod Withdrawal
pub mod Termination
use creatidy_kernel.Base.{
  name_set, ℕ, zero, suc, ◌+◌, String, Bool, true, false, ◌&&◌, ◌||◌, not, Option, none, some, List,
  [], ◌∷◌, ◌++◌, map, if◌then◌else◌, ◌==◌, ◌!=◌, nat_eq, string_eq, names_eq, optional_eq, ne_of_eq,
  length, find?, any_option, contains, ◌>>=◌, raise_if, ◌>>◌, or_raise, select_m, missing_input,
  stale_revision, illegal_transition, authority_violation, out_of_fuel, Result, err, ok,
}
use creatidy_kernel.Domain.Checks.{Digest, json_eq}
use creatidy_kernel.Domain.Values.{
  program_status_eq, work_unit_status_eq, attempt_status_eq, domain_action_eq, policy_reference_eq,
  bindings_eq, subjects_eq, ProgramStatus, WorkUnitStatus, AttemptStatus, DomainAction,
}
use creatidy_kernel.Domain.Topology.{WorkUnit}
use creatidy_kernel.Domain.Spec.{
  spec_digest, unit_named, work_unit, fingerprint, program_spec_eq, ProgramSpec,
}
use creatidy_kernel.Domain.Amendment.{amend, SpecAmendment, Amended, unchanged, proposed}
use creatidy_kernel.Domain.Facts.{
  is_live, trusted_satisfaction, states_eq, Attempt, TrustedSatisfaction, WorkUnitCancellation,
  AttemptCancellation,
}
use creatidy_kernel.Domain.Projection.{States, state_at, resolved_inputs, same_subject, project}
use creatidy_kernel.Domain.Program.{attempt, is_operator, Program}
use creatidy_kernel.Domain.Validation.{fact_ids}
use creatidy_kernel.Domain.Transitions.{draft_of, cancel_live, is_begun, Draft}

-- `next((item for item in spec_history if …), None)`
abbrev pub first_historical : Digest → List ProgramSpec → ℕ → String → Option ProgramSpec
first_historical digest history revision pinned =
    find? (λ s. s.revision == revision && spec_digest digest s == pinned) history

-- The guards on the fact and on the specification that it cites.
unfoldable pub check_fact : Digest → Program → String → TrustedSatisfaction → Result WorkUnit
check_fact digest p actor fact = do
  raise_if (not (is_begun p.status)) illegal_transition
  raise_if (fact.issuer_id != actor) authority_violation
  raise_if (fact.program_id != p.spec.program_id) authority_violation
  old ←
      or_raise (first_historical digest p.spec_history fact.spec_revision fact.spec_digest)
        stale_revision
  unit ← work_unit old fact.work_unit_id
  print ← fingerprint digest old unit.work_unit_id
  raise_if (fact.work_unit_fingerprint != print) stale_revision
  raise_if (fact.record_order != 0 || contains (fact_ids p.satisfactions) fact.reference_id)
      illegal_transition
  ok unit

-- The guards on the Attempt that the fact cites, and on the outputs.
unfoldable pub check_source : Program → WorkUnit → TrustedSatisfaction → Result (Unit {0})
check_source p unit fact = do
  source ← attempt p fact.source_attempt_id
  raise_if (source.status != AttemptStatus.finished) illegal_transition
  raise_if
      (source.spec.program_id != p.spec.program_id || source.spec.work_unit_id != unit.work_unit_id)
      authority_violation
  raise_if
      (source.spec.spec_revision != fact.spec_revision
        || source.spec.spec_digest != fact.spec_digest)
      stale_revision
  raise_if (name_set (map (λ b. b.name) fact.output_bindings) != name_set unit.outputs)
      missing_input

unfoldable pub satisfy : Digest → Program → String → TrustedSatisfaction → Result Draft
satisfy digest p actor fact = do
  unit ← check_fact digest p actor fact
  check_source p unit fact
  recorded ← trusted_satisfaction (record fact { record_order = p.revision + 1 })
  ok (record (draft_of p) { satisfactions = p.satisfactions ++ recorded ∷ [] })

-- The action that a live Attempt still has to be allowed.
abbrev pub required_action : Attempt → DomainAction
required_action a =
    if a.status == AttemptStatus.prepared
    then DomainAction.start_attempt
    else DomainAction.finish_attempt

module _ (digest : Digest) (spec : ProgramSpec) (history : List ProgramSpec)
    (facts : List TrustedSatisfaction) where
  -- Whether the subject of a live Attempt is withdrawn, for a WorkUnit `unit` of `spec` and the
  -- specification `source` that the Attempt cites.
  unfoldable pub is_withdrawn : States → WorkUnit → ProgramSpec → Attempt → Result Bool
  is_withdrawn states unit source a = do
    inputs ← resolved_inputs spec unit states facts
    before ← fingerprint digest source a.spec.work_unit_id
    after ← fingerprint digest spec a.spec.work_unit_id
    let changed = before != after || not (any_option (same_subject a.spec.effective_inputs) inputs)
    let denied =
        not (contains spec.authority.allowed_actions (required_action a))
        || not (is_operator spec.authority a.actor_id)
    if changed || denied
        then ok true
        else do s ← state_at states a.spec.work_unit_id; ok (s.status == WorkUnitStatus.cancelled)

  -- The body of the `for` loop: whether the Attempt goes into `invalid`.
  unfoldable pub is_invalid : States → Attempt → Result Bool
  is_invalid states a =
      if is_live a
      then (elim (unit_named spec.work_units a.spec.work_unit_id) [
        | none ↦ ok true
        | some unit ↦
            elim (first_historical digest history a.spec.spec_revision a.spec.spec_digest) [
              | none ↦ ok true
              | some source ↦ is_withdrawn states unit source a
            ]
      ])
      else ok false

  -- The set `invalid` of one round.
  unfoldable pub invalid_attempts : List WorkUnitCancellation → List Attempt → Result (List Attempt)
  invalid_attempts cancellations attempts = do
    states ← project digest spec attempts facts cancellations
    select_m (is_invalid states) attempts

  -- The end of a round: the loop breaks, or the invalid Attempts are cancelled and it goes on.
  unfoldable pub end_round :
      (List Attempt → List AttemptCancellation → Result (List Attempt × List AttemptCancellation))
      → String
      → ℕ
      → List Attempt
      → List AttemptCancellation
      → List Attempt
      → Result (List Attempt × List AttemptCancellation)
  end_round again actor order attempts records [] = ok (attempts, records)
  end_round again actor order attempts records (a ∷ invalid) = do
    r ←
        cancel_live (map (λ b. b.spec.attempt_id) (a ∷ invalid))
          "amendment withdrew Attempt subject or operational authority" actor order attempts records
    again r.0 r.1

  -- The `while True` loop. Each round but the last cancels a live Attempt.
  unfoldable pub withdraw :
      ℕ
      → List WorkUnitCancellation
      → String
      → ℕ
      → List Attempt
      → List AttemptCancellation
      → Result (List Attempt × List AttemptCancellation)
  withdraw zero cancellations actor order attempts records = err out_of_fuel
  withdraw (suc fuel) cancellations actor order attempts records = do
    invalid ← invalid_attempts cancellations attempts
    end_round (withdraw fuel cancellations actor order) actor order attempts records invalid

-- What `AmendProgramSpec` does: nothing, where the meaning of the specification is unchanged.
pub data Effect : Type 0 where
  keep : Effect
  change : Draft → Effect

-- The new specification, once the Attempts have been withdrawn.
abbrev pub amended_draft : Program → ProgramSpec → List Attempt × List AttemptCancellation → Draft
amended_draft p spec r = record (draft_of p) {
  spec = spec;
  attempts = r.0;
  attempt_cancellations = r.1;
  spec_history = p.spec_history ++ spec ∷ [];
  amended = true;
}

unfoldable pub adopt : Digest → Program → String → Amended → Result Effect
adopt digest p actor unchanged = ok keep
adopt digest p actor (proposed spec) = do
  r ←
      withdraw digest spec (p.spec_history ++ spec ∷ []) p.satisfactions (suc (length p.attempts))
        p.cancellations actor (p.revision + 1) p.attempts p.attempt_cancellations
  ok (change (amended_draft p spec r))

unfoldable pub amend_program : Digest → Program → String → SpecAmendment → Result Effect
amend_program digest p actor amendment = do
  raise_if (p.status == ProgramStatus.cancelled) illegal_transition
  outcome ← amend digest p.spec amendment
  adopt digest p actor outcome
