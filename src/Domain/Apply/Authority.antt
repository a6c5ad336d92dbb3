-- ===== src/Domain/Apply/Authority.antt =====
-- Who may perform an action: `Program._authorize`.
use creatidy_kernel.Base.{
  String, ◌≡◌, refl, ◌⊎◌, inl, inr, true, arith, nat_eq, string_eq, names_eq, optional_eq, ne_of_eq,
  contains, authority_violation, err, ok,
}
use creatidy_kernel.Domain.Checks.{Digest, json_eq}
use creatidy_kernel.Domain.Values.{
  program_status_eq, work_unit_status_eq, attempt_status_eq, domain_action_eq, policy_reference_eq,
  bindings_eq, subjects_eq, DomainAction, AuthorityEnvelope,
}
use creatidy_kernel.Domain.Spec.{program_spec_eq}
use creatidy_kernel.Domain.Facts.{states_eq}
use creatidy_kernel.Domain.Program.{
  decider, permit, authorize, Program, owner_alone, trusted_producer, operator_allowed,
}
use creatidy_kernel.Domain.Commands.{action_of, Body, Command}
use creatidy_kernel.Domain.Apply.{apply}

-- The owner, or an actor to whom the owner delegates, may do an action that is allowed.
abbrev pub Allowed : AuthorityEnvelope → String → DomainAction → Type 0
Allowed e actor action =
    (contains e.allowed_actions action ≡ true)
    × ((actor ≡ e.owner_id) ⊎ (contains e.delegated_actor_ids actor ≡ true))

-- Who may give which command: the owner alone amends and abandons, a trusted issuer records a
-- satisfaction, and the other commands are allowed actions.
abbrev pub MayPerform : AuthorityEnvelope → String → Body → Type 0
MayPerform e actor (Body.amend_program_spec amendment) = actor ≡ e.owner_id
MayPerform e actor Body.cancel_program = actor ≡ e.owner_id
MayPerform e actor (Body.cancel_work_unit ident reason) = actor ≡ e.owner_id
MayPerform e actor (Body.satisfy_work_unit fact) =
    contains e.trusted_satisfaction_issuers actor ≡ true
MayPerform e actor Body.activate_program = Allowed e actor DomainAction.activate_program
MayPerform e actor Body.pause_program = Allowed e actor DomainAction.pause_program
MayPerform e actor Body.resume_program = Allowed e actor DomainAction.resume_program
MayPerform e actor (Body.prepare_attempt spec) = Allowed e actor DomainAction.prepare_attempt
MayPerform e actor (Body.start_attempt ident) = Allowed e actor DomainAction.start_attempt
MayPerform e actor (Body.finish_attempt ident) = Allowed e actor DomainAction.finish_attempt
MayPerform e actor (Body.fail_attempt ident) = Allowed e actor DomainAction.fail_attempt
MayPerform e actor (Body.cancel_attempt ident) = Allowed e actor DomainAction.cancel_attempt

Settled : AuthorityEnvelope → DomainAction → String → Type 0 → Type 0
Settled e action actor may =
    ((authorize e action actor ≡ ok tt) × may)
    ⊎ ((authorize e action actor ≡ err authority_violation) × ¬ may)

owner-Settled :
    (e : AuthorityEnvelope) (action : DomainAction) (actor : String)
    → decider action ≡ owner_alone
    → Settled e action actor (actor ≡ e.owner_id)
unfolding Settled authorize permit
owner-Settled e action actor h = rw h (ground arith)

producer-Settled :
    (e : AuthorityEnvelope) (action : DomainAction) (actor : String)
    → decider action ≡ trusted_producer
    → Settled e action actor (contains e.trusted_satisfaction_issuers actor ≡ true)
unfolding Settled authorize permit
producer-Settled e action actor h = rw h (ground arith)

operator-Settled :
    (e : AuthorityEnvelope) (action : DomainAction) (actor : String)
    → decider action ≡ operator_allowed
    → Settled e action actor (Allowed e actor action)
unfolding Settled authorize permit
operator-Settled e action actor h = rw h (ground arith)

by_body :
    (e : AuthorityEnvelope) (actor : String) (b : Body)
    → Settled e (action_of b) actor (MayPerform e actor b)
by_body e actor (Body.amend_program_spec amendment) = owner-Settled e _ actor refl
by_body e actor Body.cancel_program = owner-Settled e _ actor refl
by_body e actor (Body.cancel_work_unit ident reason) = owner-Settled e _ actor refl
by_body e actor (Body.satisfy_work_unit fact) = producer-Settled e _ actor refl
by_body e actor Body.activate_program = operator-Settled e _ actor refl
by_body e actor Body.pause_program = operator-Settled e _ actor refl
by_body e actor Body.resume_program = operator-Settled e _ actor refl
by_body e actor (Body.prepare_attempt spec) = operator-Settled e _ actor refl
by_body e actor (Body.start_attempt ident) = operator-Settled e _ actor refl
by_body e actor (Body.finish_attempt ident) = operator-Settled e _ actor refl
by_body e actor (Body.fail_attempt ident) = operator-Settled e _ actor refl
by_body e actor (Body.cancel_attempt ident) = operator-Settled e _ actor refl

-- For a command that names the current revision, either it is authorized and its actor may give it,
-- or it is refused with AuthorityViolation and its actor may not: the owner alone may amend and
-- abandon Program and WorkUnits, a trusted issuer may record a satisfaction, and the owner or a
-- delegate may give each other command whose action is allowed.
pub apply-MayPerform :
    (digest : Digest) (p : Program) (c : Command)
    → c.expected_revision ≡ p.revision
    → let may = MayPerform p.spec.authority c.actor_id c.body in
      ((authorize p.spec.authority (action_of c.body) c.actor_id ≡ ok tt) × may)
      ⊎ ((apply digest p c ≡ err authority_violation) × ¬ may)
unfolding apply Settled
apply-MayPerform digest p c current = elim (by_body p.spec.authority c.actor_id c.body) [
  | inl granted ↦ inl granted
  | inr (refused, never) ↦ inr (rw (ne_of_eq _ _ current, refused) refl, never)
]
