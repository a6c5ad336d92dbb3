-- ===== src/Domain/Examples.antt =====
-- The theorems about `core/domain.py` at concrete Programs, specifications and commands.
use creatidy_kernel.Base.{
  ◌+◌, ◌≤◌, ◌≡◌, refl, ◌≢◌, ◌⊎◌, none, [], ◌∷◌, arith, length, count_if, stale_revision,
  authority_violation, out_of_fuel, err, ok, Ends,
}
use creatidy_kernel.Domain.Values.{WorkUnitStatus, DomainAction}
use creatidy_kernel.Domain.Topology.{topological_order, WorkUnit}
use creatidy_kernel.Domain.Topology.Termination.{topological_order-Ends}
use creatidy_kernel.Domain.Topology.Order.{IsOrder, topological_order-IsOrder}
use creatidy_kernel.Domain.Spec.{work_unit, fingerprint}
use creatidy_kernel.Domain.Spec.Termination.{fingerprint-Ends}
use creatidy_kernel.Domain.Facts.{is_live}
use creatidy_kernel.Domain.Projection.Gate.{Gated, project_unit-Gated}
use creatidy_kernel.Domain.Program.{authorize}
use creatidy_kernel.Domain.Validation.Valid.{Valid}
use creatidy_kernel.Domain.Commands.{Body}
use creatidy_kernel.Domain.Recording.{withdraw}
use creatidy_kernel.Domain.Recording.Withdrawal.{Withdrawn, withdraw-Withdrawn}
use creatidy_kernel.Domain.Recording.Termination.{withdraw-Ends}
use creatidy_kernel.Domain.Apply.{apply}
use creatidy_kernel.Domain.Apply.Reachable.{Reachable-Valid, Reachable, created, applied}
use creatidy_kernel.Domain.Apply.Revision.{apply-revision, apply_conflict}
use creatidy_kernel.Domain.Apply.Authority.{MayPerform, apply-MayPerform}
use creatidy_kernel.Domain.Apply.Changes.{Admitted}
use creatidy_kernel.Domain.Apply.History.{apply-Continues, Continues}
use creatidy_kernel.Domain.Apply.Status.{apply-LegalTurn, LegalTurn}
use creatidy_kernel.Domain.Apply.Budget.{apply-Budget}
use creatidy_kernel.Domain.Apply.Termination.{apply-Ends}
use creatidy_kernel.Domain.Samples.{written, sample_spec, by_owner}
use creatidy_kernel.Domain.Runs.{
  program_0, prepare_command, program_1, program_2, cancelled_program, applied_0, applied_1,
  created_0, cancelled_1, program_2-new, narrowed_spec, withdrawn, withdrawn-eq, program_0-live,
  program_2-unique, sample_order, sample_units-unique, ready_a, projected_b, program_1-revision,
}

reached_0 : Reachable written program_0
reached_0 = created sample_spec program_0 created_0

reached_1 : Reachable written program_1
reached_1 = applied program_0 (by_owner 0 Body.activate_program) program_1 reached_0 applied_0

reached_cancelled : Reachable written cancelled_program
reached_cancelled =
    applied program_1 (by_owner 1 Body.cancel_program) cancelled_program reached_1 cancelled_1

Reachable-Valid_example : Valid written program_1
Reachable-Valid_example = Reachable-Valid written reached_1

apply-Continues_example : Continues program_1 program_2
apply-Continues_example = apply-Continues written program_1 prepare_command reached_1 applied_1

apply-LegalTurn_example : LegalTurn program_0.status program_1.status
apply-LegalTurn_example =
    apply-LegalTurn written program_0 (by_owner 0 Body.activate_program) reached_0 applied_0

apply-Budget_example :
    ((length program_2.attempts ≡ length program_1.attempts)
      × (count_if is_live program_2.attempts ≤ count_if is_live program_1.attempts))
    ⊎ Admitted program_1 program_2.attempts
apply-Budget_example = apply-Budget written program_1 prepare_command reached_1 applied_1

apply-revision_example :
    (1 ≡ program_1.revision)
    × ((program_2 ≡ program_1) ⊎ (program_2.revision ≡ program_1.revision + 1))
apply-revision_example = apply-revision written program_1 prepare_command applied_1

apply_conflict_example :
    apply written program_2 (by_owner 1 Body.pause_program) ≡ err stale_revision
apply_conflict_example =
    apply_conflict written program_1 prepare_command (by_owner 1 Body.pause_program) applied_1
      program_2-new refl

apply-Ends_example : apply written program_1 prepare_command ≢ err out_of_fuel
apply-Ends_example = apply-Ends written program_1 prepare_command

withdraw-Withdrawn_example :
    Withdrawn written narrowed_spec
      (sample_spec ∷ narrowed_spec ∷ [])
      []
      []
      program_2.attempts
      []
      withdrawn
withdraw-Withdrawn_example =
    withdraw-Withdrawn written narrowed_spec (sample_spec ∷ narrowed_spec ∷ []) [] [] "owner" 3 2
      program_2.attempts [] withdrawn program_2-unique withdrawn-eq

withdraw-Ends_example : Ends (
    withdraw written narrowed_spec
      (sample_spec ∷ narrowed_spec ∷ [])
      []
      1
      []
      "owner"
      3
      program_0.attempts
      [])
withdraw-Ends_example =
    withdraw-Ends written narrowed_spec (sample_spec ∷ narrowed_spec ∷ []) [] [] "owner" 3 1
      program_0.attempts [] (omega (arith, program_0-live))

topological_order-Ends_example : Ends (topological_order sample_spec.work_units)
topological_order-Ends_example = topological_order-Ends sample_spec.work_units

fingerprint-Ends_example : Ends (fingerprint written sample_spec "b")
fingerprint-Ends_example = fingerprint-Ends written sample_spec "b"

apply-MayPerform_example :
    ((authorize program_1.spec.authority DomainAction.prepare_attempt "owner" ≡ ok tt)
      × MayPerform program_1.spec.authority "owner" prepare_command.body)
    ⊎ ((apply written program_1 prepare_command ≡ err authority_violation)
        × ¬ (MayPerform program_1.spec.authority "owner" prepare_command.body))
apply-MayPerform_example = apply-MayPerform written program_1 prepare_command program_1-revision

topological_order-IsOrder_example : IsOrder sample_spec.work_units ("a" ∷ "b" ∷ [])
topological_order-IsOrder_example =
    topological_order-IsOrder sample_spec.work_units sample_units-unique sample_order

project_unit-Gated_example :
    (unit : WorkUnit) × (work_unit sample_spec "b" ≡ ok unit)
    × Gated (ready_a ∷ []) unit (record {
      work_unit_id = "b";
      status = WorkUnitStatus.pending;
      active_attempt_id = none;
      satisfaction_id = none;
    })
project_unit-Gated_example =
    project_unit-Gated written sample_spec [] [] [] (ready_a ∷ []) "b" projected_b
