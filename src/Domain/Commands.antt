-- ===== src/Domain/Commands.antt =====
-- The domain commands of `core/domain.py`, lines 948 to 1068. A class is a constructor of `Body`;
-- the fields that all classes share stand in `Command`.
use creatidy_kernel.Base.{ℕ, String, ◌>>◌, Result, ok}
use creatidy_kernel.Domain.Checks.{nonempty}
use creatidy_kernel.Domain.Values.{DomainAction}
use creatidy_kernel.Domain.Amendment.{SpecAmendment}
use creatidy_kernel.Domain.Facts.{AttemptSpec, TrustedSatisfaction}

pub data Body : Type 0 where
  activate_program pause_program resume_program cancel_program : Body
  cancel_work_unit : (work_unit_id reason : String) → Body
  prepare_attempt : AttemptSpec → Body
  start_attempt finish_attempt fail_attempt cancel_attempt : (attempt_id : String) → Body
  satisfy_work_unit : TrustedSatisfaction → Body
  amend_program_spec : SpecAmendment → Body

pub record Command : Type 0 where
  pub expected_revision : ℕ
  pub actor_id : String
  pub body : Body

-- The checks of `__post_init__`; those of the nested values are their own constructors'.
unfoldable pub check_body : Body → Result (Unit {0})
check_body (Body.cancel_work_unit ident reason) = nonempty ident >> nonempty reason
check_body (Body.start_attempt ident) = nonempty ident
check_body (Body.finish_attempt ident) = nonempty ident
check_body (Body.fail_attempt ident) = nonempty ident
check_body (Body.cancel_attempt ident) = nonempty ident
check_body _ = ok tt

unfoldable pub command : ℕ → String → Body → Result Command
command revision actor body = do
  nonempty actor
  check_body body
  ok (record { expected_revision = revision; actor_id = actor; body = body })

-- The table `actions` of `Program.apply`.
abbrev pub action_of : Body → DomainAction
action_of Body.activate_program = DomainAction.activate_program
action_of Body.pause_program = DomainAction.pause_program
action_of Body.resume_program = DomainAction.resume_program
action_of Body.cancel_program = DomainAction.cancel_program
action_of (Body.cancel_work_unit _ _) = DomainAction.cancel_work_unit
action_of (Body.prepare_attempt _) = DomainAction.prepare_attempt
action_of (Body.start_attempt _) = DomainAction.start_attempt
action_of (Body.finish_attempt _) = DomainAction.finish_attempt
action_of (Body.fail_attempt _) = DomainAction.fail_attempt
action_of (Body.cancel_attempt _) = DomainAction.cancel_attempt
action_of (Body.satisfy_work_unit _) = DomainAction.satisfy_work_unit
action_of (Body.amend_program_spec _) = DomainAction.amend_spec
