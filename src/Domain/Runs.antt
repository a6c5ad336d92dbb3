-- ===== src/Domain/Runs.antt =====
-- Runs of the sample Program: its states after commands, and facts about them by evaluation.
use creatidy_kernel.Base.{
  ℕ, ◌≡◌, refl, ap, ◌≢◌, true, none, some, List, [], ◌∷◌, map, arith, nat_eq, string_eq, names_eq,
  optional_eq, count_if, unique, ◌>>=◌, Result, err, ok,
}
use creatidy_kernel.Domain.Checks.{json_eq}
use creatidy_kernel.Domain.Values.{
  program_status_eq, work_unit_status_eq, attempt_status_eq, domain_action_eq, policy_reference_eq,
  bindings_eq, subjects_eq, ProgramStatus, WorkUnitStatus,
}
use creatidy_kernel.Domain.Topology.{topological_order}
use creatidy_kernel.Domain.Spec.{spec_digest, program_spec_eq, ProgramSpec}
use creatidy_kernel.Domain.Facts.{is_live, states_eq, Attempt, AttemptCancellation, WorkUnitState}
use creatidy_kernel.Domain.Projection.{project_unit}
use creatidy_kernel.Domain.Program.{create, Program}
use creatidy_kernel.Domain.Validation.{ids}
use creatidy_kernel.Domain.Commands.{Body, Command}
use creatidy_kernel.Domain.Recording.{withdraw}
use creatidy_kernel.Domain.Apply.{apply}
use creatidy_kernel.Domain.Samples.{
  written, code, unit_b, sample_spec, sample_attempt, by_owner, sample_fact,
}

run : Program → List Command → Result Program
unfolding code
run p [] = ok p
run p (c ∷ cs) = apply written p c >>= λ q. run q cs

abbrev run_new : List Command → Result Program
run_new cs = create sample_spec >>= λ p. run p cs

abbrev pub commands : List Command
unfolding code
commands =
    by_owner 0 Body.activate_program
    ∷ by_owner 1 (Body.prepare_attempt sample_attempt)
    ∷ by_owner 2 (Body.start_attempt "t1")
    ∷ by_owner 3 (Body.finish_attempt "t1")
    ∷ record {
      expected_revision = 4;
      actor_id = "judge";
      body = Body.satisfy_work_unit sample_fact;
    }
    ∷ []

abbrev summary : Result Program → Result (ProgramStatus × ℕ × List WorkUnitStatus)
summary r = r >>= λ p. ok (p.status, p.revision, map (λ s. s.status) p.work_unit_states)

sample_run :
    summary (run_new commands)
    ≡ ok (ProgramStatus.active, 5, WorkUnitStatus.satisfied ∷ WorkUnitStatus.ready ∷ [])
unfolding code run
sample_run = refl

-- The Program itself after each of the commands.
abbrev blank : Program
blank = record {
  spec = sample_spec;
  status = ProgramStatus.draft;
  revision = 0;
  work_unit_states = [];
  attempts = [];
  satisfactions = [];
  cancellations = [];
  attempt_cancellations = [];
  conclusions = [];
  spec_history = [];
}

abbrev got : Result Program → Program
got (ok p) = p
got (err e) = blank

abbrev pub program_0 : Program
unfolding code
program_0 = got (create sample_spec)

abbrev pub prepare_command : Command
prepare_command = by_owner 1 (Body.prepare_attempt sample_attempt)

abbrev pub program_1 : Program
unfolding code
program_1 = got (apply written program_0 (by_owner 0 Body.activate_program))

abbrev pub program_2 : Program
unfolding code
program_2 = got (apply written program_1 prepare_command)

abbrev pub cancelled_program : Program
unfolding code
cancelled_program = got (apply written program_1 (by_owner 1 Body.cancel_program))

pub applied_0 : apply written program_0 (by_owner 0 Body.activate_program) ≡ ok program_1
unfolding code
applied_0 = refl

pub applied_1 : apply written program_1 prepare_command ≡ ok program_2
unfolding code
applied_1 = refl

pub created_0 : create sample_spec ≡ ok program_0
unfolding code
created_0 = refl

pub cancelled_1 : apply written program_1 (by_owner 1 Body.cancel_program) ≡ ok cancelled_program
unfolding code
cancelled_1 = refl

pub cancelled_program-status : cancelled_program.status ≡ ProgramStatus.cancelled
unfolding code
cancelled_program-status = refl

pub program_2-new : program_2 ≢ program_1
unfolding code
program_2-new e = omega (arith, ap (λ (p : Program). p.revision) e)

-- Another specification, without the WorkUnit that the Attempt works on.
abbrev pub narrowed_spec : ProgramSpec
unfolding code
narrowed_spec = record sample_spec {
  work_units = record unit_b { dependencies = []; required_inputs = [] } ∷ [];
  revision = 2;
  parent_digest = some (spec_digest written sample_spec);
}

abbrev pub withdrawn : List Attempt × List AttemptCancellation
unfolding code
withdrawn =
    elim (withdraw written narrowed_spec (sample_spec ∷ narrowed_spec ∷ []) [] 2 [] "owner" 3
      program_2.attempts []) [ ok r ↦ r | err _ ↦ ([], []) ]

pub withdrawn-eq :
    withdraw written narrowed_spec
      (sample_spec ∷ narrowed_spec ∷ [])
      []
      2
      []
      "owner"
      3
      program_2.attempts
      []
    ≡ ok withdrawn
unfolding code
withdrawn-eq = refl

pub program_0-live : count_if is_live program_0.attempts ≡ 0
unfolding code
program_0-live = refl

pub program_2-unique : unique (ids program_2.attempts) ≡ true
unfolding code
program_2-unique = refl

withdrawn_one : count_if is_live withdrawn.0 ≡ 0
unfolding code
withdrawn_one = refl

pub sample_order : topological_order sample_spec.work_units ≡ ok ("a" ∷ "b" ∷ [])
unfolding code
sample_order = refl

pub sample_units-unique : unique (map (λ u. u.work_unit_id) sample_spec.work_units) ≡ true
unfolding code
sample_units-unique = refl

abbrev pub ready_a : WorkUnitState
ready_a = record {
  work_unit_id = "a";
  status = WorkUnitStatus.ready;
  active_attempt_id = none;
  satisfaction_id = none;
}

pub projected_b :
    project_unit written sample_spec [] [] [] (ready_a ∷ []) "b"
    ≡ ok (record {
      work_unit_id = "b";
      status = WorkUnitStatus.pending;
      active_attempt_id = none;
      satisfaction_id = none;
    })
unfolding code
projected_b = refl

pub program_1-revision : 1 ≡ program_1.revision
unfolding code
program_1-revision = refl
