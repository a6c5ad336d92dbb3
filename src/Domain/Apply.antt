-- ===== src/Domain/Apply.antt =====
-- `Program.apply` and `Program._assemble` of `core/domain.py`, lines 1286 to 1324, 1424 to 1446 and
-- 1692; `dispatch`, `execute`, `activate`, `pause`, `resume` and `cancel` are calls of `apply`.
pub mod Inversion
pub mod Revision
pub mod Authority
pub mod Lifecycle
pub mod Termination
pub mod Reachable
pub mod Changes
pub mod Replacement
pub mod Branches
pub mod History
pub mod Status
pub mod Budget
pub mod Admission
use creatidy_kernel.Base.{
  ◌+◌, String, Bool, ◌&&◌, ◌||◌, List, [], ◌∷◌, ◌++◌, map, if◌then◌else◌, ◌==◌, ◌!=◌, nat_eq,
  string_eq, names_eq, optional_eq, ne_of_eq, ◌>>=◌, raise_if, ◌>>◌, stale_revision, Result, ok,
}
use creatidy_kernel.Domain.Checks.{Digest, json_eq}
use creatidy_kernel.Domain.Values.{
  program_status_eq, work_unit_status_eq, attempt_status_eq, domain_action_eq, policy_reference_eq,
  bindings_eq, subjects_eq, ProgramStatus,
}
use creatidy_kernel.Domain.Spec.{spec_digest, program_spec_eq}
use creatidy_kernel.Domain.Facts.{program_conclusion, states_eq, ProgramConclusion}
use creatidy_kernel.Domain.Projection.{States, project, program_status}
use creatidy_kernel.Domain.Program.{pending_state, authorize, Program}
use creatidy_kernel.Domain.Validation.{validate}
use creatidy_kernel.Domain.Commands.{action_of, Body, Command}
use creatidy_kernel.Domain.Transitions.{
  activate, pause, resume, cancel, cancel_unit, prepare, start, finish, fail, cancel_one, Draft,
}
use creatidy_kernel.Domain.Recording.{satisfy, amend_program, Effect, keep, change}

-- `_assemble`: the projection, the status that follows from it, and the conclusion.
abbrev pub is_concluded : ProgramStatus → Bool
is_concluded s = s == ProgramStatus.completed || s == ProgramStatus.cancelled

unfoldable pub draft_states : Digest → Draft → Result States
draft_states digest d =
    if d.status == ProgramStatus.draft
    then ok (map pending_state d.spec.work_units)
    else project digest d.spec d.attempts d.satisfactions d.cancellations

-- The statuses `DRAFT` and `CANCELLED` are kept.
unfoldable pub draft_status : Draft → States → ProgramStatus
draft_status d states =
    if d.status == ProgramStatus.draft || d.status == ProgramStatus.cancelled
    then d.status
    else program_status d.status states

unfoldable pub conclude : Digest → Program → Draft → ProgramStatus → Result (List ProgramConclusion)
conclude digest p d status =
    if is_concluded status && (p.status != status || d.amended)
    then (program_conclusion status d.spec.revision (spec_digest digest d.spec) (p.revision + 1)
        >>= λ c. ok (p.conclusions ++ c ∷ []))
    else ok p.conclusions

abbrev pub assembled : Program → Draft → States → ProgramStatus → List ProgramConclusion → Program
assembled p d states status conclusions = record {
  spec = d.spec;
  status = status;
  revision = p.revision + 1;
  work_unit_states = states;
  attempts = d.attempts;
  satisfactions = d.satisfactions;
  cancellations = d.cancellations;
  attempt_cancellations = d.attempt_cancellations;
  conclusions = conclusions;
  spec_history = d.spec_history;
}

unfoldable pub assemble : Digest → Program → Draft → Result Program
assemble digest p d = do
  states ← draft_states digest d
  let status = draft_status d states
  conclusions ← conclude digest p d status
  let next = assembled p d states status conclusions
  validate digest next
  ok next

abbrev pub changing : Result Draft → Result Effect
changing r = r >>= λ d. ok (change d)

-- The branches of `apply`, for an actor and a command's class.
unfoldable pub perform : Digest → Program → String → Body → Result Effect
perform digest p actor Body.activate_program = changing (activate p)
perform digest p actor Body.pause_program = changing (pause p)
perform digest p actor Body.resume_program = changing (resume p)
perform digest p actor Body.cancel_program = changing (cancel p actor)
perform digest p actor (Body.cancel_work_unit ident reason) =
    changing (cancel_unit digest p actor ident reason)
perform digest p actor (Body.prepare_attempt requested) =
    changing (prepare digest p actor requested)
perform digest p actor (Body.start_attempt ident) = changing (start p ident)
perform digest p actor (Body.finish_attempt ident) = changing (finish p ident)
perform digest p actor (Body.fail_attempt ident) = changing (fail p ident)
perform digest p actor (Body.cancel_attempt ident) = changing (cancel_one p actor ident)
perform digest p actor (Body.satisfy_work_unit fact) = changing (satisfy digest p actor fact)
perform digest p actor (Body.amend_program_spec amendment) = amend_program digest p actor amendment

unfoldable pub apply : Digest → Program → Command → Result Program
apply digest p c = do
  raise_if (c.expected_revision != p.revision) stale_revision
  authorize p.spec.authority (action_of c.body) c.actor_id
  effect ← perform digest p c.actor_id c.body
  elim effect [ keep ↦ ok p | change d ↦ assemble digest p d ]
