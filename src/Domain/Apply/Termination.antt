-- ===== src/Domain/Apply/Termination.antt =====
-- The fuel of `Program.apply`.
use creatidy_kernel.Base.{
  ℕ, String, ◌≢◌, Ends-ok, Ends-raise_if, Ends-bind, Ends-then, ends_rules, stale_revision,
  authority_violation, out_of_fuel, Result, err, ok, Ends,
}
use creatidy_kernel.Domain.Checks.{Digest}
use creatidy_kernel.Domain.Values.{ProgramStatus, DomainAction, AuthorityEnvelope}
use creatidy_kernel.Domain.Facts.{program_conclusion}
use creatidy_kernel.Domain.Projection.Termination.{project-Ends}
use creatidy_kernel.Domain.Program.{
  permit, authorize, Program, Decider, owner_alone, trusted_producer, operator_allowed,
}
use creatidy_kernel.Domain.Validation.Termination.{validate-Ends}
use creatidy_kernel.Domain.Commands.{Body, Command}
use creatidy_kernel.Domain.Transitions.{activate, pause, resume, Draft}
use creatidy_kernel.Domain.Transitions.Termination.{
  cancel-Ends, cancel_unit-Ends, prepare-Ends, start-Ends, finish-Ends, fail-Ends, cancel_one-Ends,
}
use creatidy_kernel.Domain.Recording.{Effect, keep, change}
use creatidy_kernel.Domain.Recording.Termination.{amend_program-Ends, satisfy-Ends}
use creatidy_kernel.Domain.Apply.{
  draft_states, draft_status, conclude, assemble, changing, perform, apply,
}

module _ (digest : Digest) (p : Program) where
  draft_states-Ends : (d : Draft) → Ends (draft_states digest d)
  unfolding draft_states
  draft_states-Ends d = search (ends_rules, project-Ends) depth 20

  program_conclusion-Ends :
      (status : ProgramStatus) (revision : ℕ) (pinned : String) (order : ℕ)
      → Ends (program_conclusion status revision pinned order)
  unfolding program_conclusion
  program_conclusion-Ends status revision pinned order = search (ends_rules, tt) depth 20

  conclude-Ends : (d : Draft) (status : ProgramStatus) → Ends (conclude digest p d status)
  unfolding conclude
  conclude-Ends d status = search (ends_rules, program_conclusion-Ends) depth 20

  assemble-Ends : (d : Draft) → Ends (assemble digest p d)
  unfolding assemble
  assemble-Ends d = Ends-bind (draft_states digest d) _ (draft_states-Ends d) (λ states _.
      Ends-bind (conclude digest p d (draft_status d states)) _ (conclude-Ends d _)
        (λ conclusions _. Ends-then _ _ (validate-Ends digest _) (Ends-ok _)))

  changing-Ends : (r : Result Draft) → Ends r → Ends (changing r)
  changing-Ends r h = Ends-bind r _ h (λ d _. Ends-ok (change d))

  perform-Ends : (actor : String) (body : Body) → Ends (perform digest p actor body)
  unfolding perform activate pause resume
  perform-Ends actor Body.activate_program = search (ends_rules, tt) depth 20
  perform-Ends actor Body.pause_program = search (ends_rules, tt) depth 20
  perform-Ends actor Body.resume_program = search (ends_rules, tt) depth 20
  perform-Ends actor Body.cancel_program = changing-Ends _ (cancel-Ends p actor)
  perform-Ends actor (Body.cancel_work_unit ident reason) =
      changing-Ends _ (cancel_unit-Ends digest p actor ident reason)
  perform-Ends actor (Body.prepare_attempt requested) =
      changing-Ends _ (prepare-Ends digest p actor requested)
  perform-Ends actor (Body.start_attempt ident) = changing-Ends _ (start-Ends p ident)
  perform-Ends actor (Body.finish_attempt ident) = changing-Ends _ (finish-Ends p ident)
  perform-Ends actor (Body.fail_attempt ident) = changing-Ends _ (fail-Ends p ident)
  perform-Ends actor (Body.cancel_attempt ident) = changing-Ends _ (cancel_one-Ends p actor ident)
  perform-Ends actor (Body.satisfy_work_unit fact) =
      changing-Ends _ (satisfy-Ends digest p actor fact)
  perform-Ends actor (Body.amend_program_spec amendment) =
      amend_program-Ends digest p actor amendment

  permit-Ends :
      (e : AuthorityEnvelope) (action : DomainAction) (actor : String) (d : Decider)
      → Ends (permit e action actor d)
  unfolding permit
  permit-Ends e action actor owner_alone = Ends-raise_if _ authority_violation tt
  permit-Ends e action actor trusted_producer = Ends-raise_if _ authority_violation tt
  permit-Ends e action actor operator_allowed = Ends-raise_if _ authority_violation tt

  result-Ends : (e : Effect) → Ends (elim e [ keep ↦ ok p | change d ↦ assemble digest p d ])
  result-Ends keep = Ends-ok p
  result-Ends (change d) = assemble-Ends d

  -- For every Program and command, apply returns a Program or raises an exception of the source: no
  -- loop uses up the fuel that the model gives to it.
  pub apply-Ends : (c : Command) → apply digest p c ≢ err out_of_fuel
  unfolding apply authorize
  apply-Ends c =
      (Ends-then _ _ (Ends-raise_if _ stale_revision tt) (
        Ends-then _ _ (permit-Ends _ _ _ _) (
          Ends-bind (perform digest p c.actor_id c.body) _ (perform-Ends c.actor_id c.body)
            (λ e _. result-Ends e)))).enough
