-- ===== src/Domain/Validation.antt =====
-- `Program._validate` of `core/domain.py`, lines 1326 to 1422, check by check.
pub mod Termination
pub mod Valid
use creatidy_kernel.Base.{
  name_set, ℕ, ◌+◌, String, Bool, true, false, ◌&&◌, ◌||◌, not, Option, none, some, List, [], ◌∷◌,
  map, if◌then◌else◌, is_some, ltb, leb, ◌==◌, ◌!=◌, nat_eq, string_eq, names_eq, optional_eq,
  ne_of_eq, any, find_last?, last?, contains, unique, ◌>>=◌, raise_if, ◌>>◌, or_raise, each,
  invalid_domain_value, duplicate_attempt, Result, ok,
}
use creatidy_kernel.Domain.Checks.{Digest, json_eq}
use creatidy_kernel.Domain.Values.{
  program_status_eq, work_unit_status_eq, attempt_status_eq, domain_action_eq, policy_reference_eq,
  bindings_eq, subjects_eq, ProgramStatus, WorkUnitStatus, AttemptStatus,
}
use creatidy_kernel.Domain.Spec.{
  spec_digest, unit_named, work_unit, fingerprint, program_spec_eq, ProgramSpec,
}
use creatidy_kernel.Domain.Facts.{
  is_live, states_eq, Attempt, TrustedSatisfaction, WorkUnitCancellation,
}
use creatidy_kernel.Domain.Projection.{project}
use creatidy_kernel.Domain.Program.{attempt_named, Program}

-- `history.get((revision, digest))`
abbrev pub historical : Digest → List ProgramSpec → ℕ → String → Option ProgramSpec
historical digest history revision pinned =
    find_last? (λ s. s.revision == revision && spec_digest digest s == pinned) history

abbrev pub ends_with : List ProgramSpec → ProgramSpec → Bool
ends_with history spec = elim (last? history) [ none ↦ false | some s ↦ s == spec ]

-- Each specification with the next one.
unfoldable pub is_chain : Digest → List ProgramSpec → Bool
is_chain digest [] = true
is_chain digest (earlier ∷ []) = true
is_chain digest (earlier ∷ later ∷ rest) =
    later.revision == earlier.revision + 1
    && later.parent_digest == some (spec_digest digest earlier)
    && later.program_id == earlier.program_id
    && is_chain digest (later ∷ rest)

-- `attempt_positions[ident]`; the identifiers have been found to be unique.
unfoldable pub position : String → List Attempt → ℕ
position ident [] = 0
position ident (a ∷ rest) = if a.spec.attempt_id == ident then 0 else position ident rest + 1

unfoldable pub ids : List Attempt → List String
ids = map (λ a. a.spec.attempt_id)

unfoldable pub fact_ids : List TrustedSatisfaction → List String
fact_ids = map (λ f. f.reference_id)

-- The lineage of a remediation: an earlier, finished Attempt of the same subject.
unfoldable pub is_lineage : List Attempt → Attempt → String → Bool
is_lineage attempts a origin = elim (attempt_named attempts origin) [
  | none ↦ false
  | some source ↦
      ltb (position origin attempts) (position a.spec.attempt_id attempts)
      && source.status == AttemptStatus.finished
      && source.spec.work_unit_id == a.spec.work_unit_id
      && source.spec.spec_revision == a.spec.spec_revision
      && source.spec.spec_digest == a.spec.spec_digest
]

abbrev pub has_lineage : List Attempt → Attempt → Bool
has_lineage attempts a = elim a.spec.remediation_of [
  | none ↦ true
  | some origin ↦ is_lineage attempts a origin
]

module _ (digest : Digest) (p : Program) where
  unfoldable pub check_history : Result (Unit {0})
  check_history = do
    raise_if (not (ends_with p.spec_history p.spec)) invalid_domain_value
    raise_if (not (unique (map (λ s. s.revision) p.spec_history))) invalid_domain_value
    raise_if (not (is_chain digest p.spec_history)) invalid_domain_value

  unfoldable pub check_ids : Result (Unit {0})
  check_ids = do
    raise_if (not (unique (ids p.attempts))) duplicate_attempt
    raise_if (not (unique (fact_ids p.satisfactions))) invalid_domain_value

  unfoldable pub check_attempt : Attempt → Result (Unit {0})
  check_attempt a = do
    old ←
        or_raise (historical digest p.spec_history a.spec.spec_revision a.spec.spec_digest)
          invalid_domain_value
    raise_if (a.spec.program_id != p.spec.program_id) invalid_domain_value
    raise_if (not (is_some (unit_named old.work_units a.spec.work_unit_id))) invalid_domain_value
    raise_if (not (has_lineage p.attempts a)) invalid_domain_value

  -- The finished Attempt that a satisfaction cites.
  unfoldable pub is_source : TrustedSatisfaction → Attempt → Bool
  is_source f source =
      source.status == AttemptStatus.finished
      && source.spec.work_unit_id == f.work_unit_id
      && source.spec.spec_revision == f.spec_revision
      && source.spec.spec_digest == f.spec_digest

  unfoldable pub check_satisfaction : TrustedSatisfaction → Result (Unit {0})
  check_satisfaction f = do
    old ←
        or_raise (historical digest p.spec_history f.spec_revision f.spec_digest)
          invalid_domain_value
    raise_if (f.program_id != p.spec.program_id) invalid_domain_value
    print ← fingerprint digest old f.work_unit_id
    raise_if (f.work_unit_fingerprint != print) invalid_domain_value
    source ← or_raise (attempt_named p.attempts f.source_attempt_id) invalid_domain_value
    raise_if (not (is_source f source)) invalid_domain_value
    unit ← work_unit old f.work_unit_id
    raise_if (name_set (map (λ b. b.name) f.output_bindings) != name_set unit.outputs)
        invalid_domain_value
    raise_if (not (ltb 0 f.record_order && leb f.record_order p.revision)) invalid_domain_value

  unfoldable pub check_cancellation : WorkUnitCancellation → Result (Unit {0})
  check_cancellation c = do
    old ←
        or_raise (historical digest p.spec_history c.spec_revision c.spec_digest)
          invalid_domain_value
    print ← fingerprint digest old c.work_unit_id
    raise_if (c.work_unit_fingerprint != print) invalid_domain_value
    raise_if (ltb p.revision c.record_order) invalid_domain_value

  unfoldable pub check_projection : Result (Unit {0})
  check_projection =
      if p.status == ProgramStatus.draft
      then ok tt
      else (project digest p.spec p.attempts p.satisfactions p.cancellations >>= λ states.
          raise_if (p.work_unit_states != states) invalid_domain_value)

  -- One live Attempt against the projection and the units that have one already.
  unfoldable pub check_live_unit : List String → Attempt → Result (Unit {0})
  check_live_unit live_by_unit a = do
    s ←
        or_raise (find_last? (λ s. s.work_unit_id == a.spec.work_unit_id) p.work_unit_states)
          invalid_domain_value
    raise_if (contains live_by_unit a.spec.work_unit_id || s.status == WorkUnitStatus.cancelled)
        invalid_domain_value
    raise_if (s.status == WorkUnitStatus.active && s.active_attempt_id != some a.spec.attempt_id)
        invalid_domain_value

  unfoldable pub check_live : List Attempt → List String → Result (Unit {0})
  check_live [] live_by_unit = ok tt
  check_live (a ∷ rest) live_by_unit = do
    (if is_live a then check_live_unit live_by_unit a else ok tt)
    check_live rest (if is_live a then a.spec.work_unit_id ∷ live_by_unit else live_by_unit)

  unfoldable pub check_end : Result (Unit {0})
  check_end = do
    raise_if
        (p.status == ProgramStatus.completed
          && any (λ s. s.status != WorkUnitStatus.satisfied) p.work_unit_states)
        invalid_domain_value
    raise_if (p.status == ProgramStatus.cancelled && any is_live p.attempts) invalid_domain_value

  unfoldable pub validate : Result (Unit {0})
  validate = do
    check_history
    check_ids
    each check_attempt p.attempts
    each check_satisfaction p.satisfactions
    each check_cancellation p.cancellations
    check_projection
    check_live p.attempts []
    check_end
