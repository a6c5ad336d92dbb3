-- ===== src/Domain/Transitions.antt =====
-- The branches of `Program.apply`, `core/domain.py`, lines 1447 to 1591. Each one maps the local
-- variables of `apply` to their new values, or raises.
pub mod Evolution
pub mod Attempts
pub mod Termination
use creatidy_kernel.Base.{
  name_set, NameSet, ℕ, ◌+◌, min, String, Bool, false, ◌&&◌, ◌||◌, not, Option, none, some, List,
  [], ◌∷◌, ◌++◌, map, if◌then◌else◌, is_some, leb, ◌==◌, ◌!=◌, nat_eq, string_eq, names_eq,
  optional_eq, ne_of_eq, length, any, find_last?, select, any_option, count_if, contains, ◌>>=◌,
  raise_if, ◌>>◌, map_m, missing_input, stale_revision, illegal_transition, authority_violation,
  budget_exceeded, duplicate_attempt, Result, ok,
}
use creatidy_kernel.Domain.Checks.{Digest, json_eq}
use creatidy_kernel.Domain.Values.{
  program_status_eq, work_unit_status_eq, attempt_status_eq, domain_action_eq, policy_reference_eq,
  bindings_eq, subjects_eq, ProgramStatus, WorkUnitStatus, AttemptStatus,
}
use creatidy_kernel.Domain.Topology.{topological_order, WorkUnit}
use creatidy_kernel.Domain.Spec.{spec_digest, work_unit, fingerprint, program_spec_eq, ProgramSpec}
use creatidy_kernel.Domain.Facts.{
  attempt_of, is_live, work_unit_cancellation, attempt_cancellation, states_eq, AttemptSpec,
  Attempt, TrustedSatisfaction, WorkUnitCancellation, AttemptCancellation,
}
use creatidy_kernel.Domain.Projection.{live_attempt}
use creatidy_kernel.Domain.Program.{state, attempt_named, attempt, program_inputs, Program}

-- The local variables. `amended` tells whether `spec` is another object than `self.spec`.
pub record Draft : Type 0 where
  pub spec : ProgramSpec
  pub status : ProgramStatus
  pub attempts : List Attempt
  pub satisfactions : List TrustedSatisfaction
  pub cancellations : List WorkUnitCancellation
  pub attempt_cancellations : List AttemptCancellation
  pub spec_history : List ProgramSpec
  pub amended : Bool

abbrev pub draft_of : Program → Draft
draft_of p = record {
  spec = p.spec;
  status = p.status;
  attempts = p.attempts;
  satisfactions = p.satisfactions;
  cancellations = p.cancellations;
  attempt_cancellations = p.attempt_cancellations;
  spec_history = p.spec_history;
  amended = false;
}

-- `Attempt(item.spec, status, item.actor_id) if chosen else item`
abbrev pub replace_if : (Attempt → Bool) → AttemptStatus → Attempt → Result Attempt
replace_if chosen status item =
    if chosen item then attempt_of item.spec status item.actor_id else ok item

abbrev pub is_cancelled_by : List String → Attempt → Bool
is_cancelled_by idents item = contains idents item.spec.attempt_id && is_live item

-- `cancelled_ids`, in ascending order
unfoldable pub cancelled_ids : List String → List Attempt → NameSet
cancelled_ids idents attempts =
    name_set (map (λ a. a.spec.attempt_id) (select (is_cancelled_by idents) attempts))

-- `cancel_live`: the live Attempts among `idents` are cancelled, each with a record of it.
unfoldable pub cancel_live :
    List String
    → String
    → String
    → ℕ
    → List Attempt
    → List AttemptCancellation
    → Result (List Attempt × List AttemptCancellation)
cancel_live idents reason actor order attempts records = do
  let gone = cancelled_ids idents attempts
  attempts' ←
      map_m (replace_if (λ a. contains gone a.spec.attempt_id) AttemptStatus.cancelled) attempts
  more ← map_m (λ ident. attempt_cancellation ident actor reason order) gone
  ok (attempts', records ++ more)

abbrev pub is_open : ProgramStatus → Bool
is_open s = s == ProgramStatus.active || s == ProgramStatus.paused

abbrev pub is_begun : ProgramStatus → Bool
is_begun s = is_open s || s == ProgramStatus.completed

unfoldable pub activate : Program → Result Draft
activate p = do
  raise_if (p.status != ProgramStatus.draft) illegal_transition
  ok (record (draft_of p) { status = ProgramStatus.active })

unfoldable pub pause : Program → Result Draft
pause p = do
  raise_if (p.status != ProgramStatus.active) illegal_transition
  ok (record (draft_of p) { status = ProgramStatus.paused })

unfoldable pub resume : Program → Result Draft
resume p = do
  raise_if (p.status != ProgramStatus.paused) illegal_transition
  ok (record (draft_of p) { status = ProgramStatus.active })

unfoldable pub cancel : Program → String → Result Draft
cancel p actor = do
  raise_if (not (p.status == ProgramStatus.draft || is_open p.status)) illegal_transition
  withdrawn ←
      cancel_live (map (λ a. a.spec.attempt_id) p.attempts) "Program abandonment" actor
        (p.revision + 1) p.attempts p.attempt_cancellations
  ok (record (draft_of p) {
    status = ProgramStatus.cancelled;
    attempts = withdrawn.0;
    attempt_cancellations = withdrawn.1;
  })

-- The WorkUnits that depend on one of `affected`, in topological order, and `affected` itself.
unfoldable pub descendants : ProgramSpec → List String → List String → Result (List String)
descendants spec [] affected = ok affected
descendants spec (ident ∷ rest) affected = do
  unit ← work_unit spec ident
  let below = any (contains affected) unit.dependencies
  descendants spec rest (if below then ident ∷ affected else affected)

-- The guards of an abandonment, its record and the WorkUnits that it affects.
unfoldable pub abandonment :
    Digest → Program → String → String → String → Result (WorkUnitCancellation × List String)
abandonment digest p actor ident reason = do
  raise_if (not (is_open p.status)) illegal_transition
  unit ← work_unit p.spec ident
  order ← topological_order p.spec.work_units
  affected ← descendants p.spec order (unit.work_unit_id ∷ [])
  current ← state p unit.work_unit_id
  raise_if (current.status == WorkUnitStatus.cancelled) illegal_transition
  print ← fingerprint digest p.spec unit.work_unit_id
  cancellation ← work_unit_cancellation (record {
    work_unit_id = unit.work_unit_id;
    work_unit_fingerprint = print;
    spec_revision = p.spec.revision;
    spec_digest = spec_digest digest p.spec;
    actor_id = actor;
    reason = reason;
    record_order = p.revision + 1;
  })
  ok (cancellation, affected)

unfoldable pub cancel_unit : Digest → Program → String → String → String → Result Draft
cancel_unit digest p actor ident reason = do
  a ← abandonment digest p actor ident reason
  withdrawn ←
      cancel_live
        (map (λ t. t.spec.attempt_id) (select (λ t. contains a.1 t.spec.work_unit_id) p.attempts))
        "WorkUnit abandonment" actor (p.revision + 1) p.attempts p.attempt_cancellations
  ok (record (draft_of p) {
    attempts = withdrawn.0;
    cancellations = p.cancellations ++ a.0 ∷ [];
    attempt_cancellations = withdrawn.1;
  })

-- The source of a remediation: finished, of this subject, and the latest Attempt of the WorkUnit.
unfoldable pub check_remediation : Digest → Program → WorkUnit → Option String → Result (Unit {0})
check_remediation digest p unit none = ok tt
check_remediation digest p unit (some origin) = do
  source ← attempt p origin
  let previous = find_last? (λ a. a.spec.work_unit_id == unit.work_unit_id) p.attempts
  raise_if
      (source.status != AttemptStatus.finished
        || source.spec.work_unit_id != unit.work_unit_id
        || source.spec.spec_revision != p.spec.revision
        || source.spec.spec_digest != spec_digest digest p.spec
        || not (any_option (λ a. a.spec.attempt_id == source.spec.attempt_id) previous))
      illegal_transition

unfoldable pub check_admission : Program → Result (Unit {0})
check_admission p = do
  raise_if (leb (min p.spec.budget.max_attempts p.spec.authority.max_attempts) (length p.attempts))
      budget_exceeded
  raise_if (leb p.spec.budget.max_active_attempts (count_if is_live p.attempts)) budget_exceeded

-- The subject of the request: this Program, its current specification and a ready WorkUnit.
unfoldable pub check_request : Digest → Program → AttemptSpec → Result WorkUnit
check_request digest p requested = do
  raise_if (requested.program_id != p.spec.program_id) authority_violation
  raise_if
      (requested.spec_revision != p.spec.revision
        || requested.spec_digest != spec_digest digest p.spec)
      stale_revision
  unit ← work_unit p.spec requested.work_unit_id
  raise_if (p.status != ProgramStatus.active) illegal_transition
  current ← state p unit.work_unit_id
  raise_if (current.status != WorkUnitStatus.ready) illegal_transition
  raise_if (is_some (attempt_named p.attempts requested.attempt_id)) duplicate_attempt
  raise_if (is_some (live_attempt p.attempts unit.work_unit_id)) illegal_transition
  inputs ← program_inputs p unit.work_unit_id
  raise_if (requested.effective_inputs != inputs) missing_input
  check_remediation digest p unit requested.remediation_of
  ok unit

unfoldable pub prepare : Digest → Program → String → AttemptSpec → Result Draft
prepare digest p actor requested = do
  _ ← check_request digest p requested
  check_admission p
  new ← attempt_of requested AttemptStatus.prepared actor
  ok (record (draft_of p) { attempts = p.attempts ++ new ∷ [] })

-- The last part of the commands on one Attempt.
unfoldable pub replace_status : Program → String → AttemptStatus → Result Draft
replace_status p ident status = do
  attempts ← map_m (replace_if (λ a. a.spec.attempt_id == ident) status) p.attempts
  ok (record (draft_of p) { attempts = attempts })

unfoldable pub start : Program → String → Result Draft
start p ident = do
  current ← attempt p ident
  work_state ← state p current.spec.work_unit_id
  raise_if
      (p.status != ProgramStatus.active
        || current.status != AttemptStatus.prepared
        || work_state.active_attempt_id != some ident)
      illegal_transition
  replace_status p ident AttemptStatus.executing

unfoldable pub finish : Program → String → Result Draft
finish p ident = do
  current ← attempt p ident
  raise_if (not (is_begun p.status) || current.status != AttemptStatus.executing) illegal_transition
  replace_status p ident AttemptStatus.finished

unfoldable pub fail : Program → String → Result Draft
fail p ident = do
  current ← attempt p ident
  raise_if (not (is_begun p.status) || not (is_live current)) illegal_transition
  replace_status p ident AttemptStatus.failed

unfoldable pub cancel_one : Program → String → String → Result Draft
cancel_one p actor ident = do
  current ← attempt p ident
  raise_if (not (is_begun p.status) || not (is_live current)) illegal_transition
  withdrawn ←
      cancel_live (ident ∷ []) "Attempt cancellation" actor (p.revision + 1) p.attempts
        p.attempt_cancellations
  ok (record (draft_of p) { attempts = withdrawn.0; attempt_cancellations = withdrawn.1 })
