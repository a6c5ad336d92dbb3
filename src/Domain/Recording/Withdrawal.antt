-- ===== src/Domain/Recording/Withdrawal.antt =====
-- The loop of `AmendProgramSpec` that withdraws live Attempts, and what it leaves.
use creatidy_kernel.Base.{
  ℕ, zero, suc, String, ◌≡◌, sym, ap, ◌∙◌, subst, true, List, [], ◌∷◌, ◌++◌, map, append-nil,
  append_assoc, nat_eq, string_eq, names_eq, optional_eq, unique, >>=-eq-ok, ok-injective, Result,
  ok,
}
use creatidy_kernel.Domain.Checks.{Digest, json_eq}
use creatidy_kernel.Domain.Values.{
  program_status_eq, work_unit_status_eq, attempt_status_eq, domain_action_eq, policy_reference_eq,
  bindings_eq, subjects_eq,
}
use creatidy_kernel.Domain.Spec.{program_spec_eq, ProgramSpec}
use creatidy_kernel.Domain.Facts.{
  states_eq, Attempt, TrustedSatisfaction, WorkUnitCancellation, AttemptCancellation,
}
use creatidy_kernel.Domain.Validation.{ids}
use creatidy_kernel.Domain.Transitions.{cancel_live}
use creatidy_kernel.Domain.Transitions.Evolution.{Cancels, Cancels-refl, Cancels-trans, Cancels-ids}
use creatidy_kernel.Domain.Transitions.Attempts.{cancel_live-Cancels}
use creatidy_kernel.Domain.Recording.{invalid_attempts, end_round, withdraw}

module _ (digest : Digest) (spec : ProgramSpec) (history : List ProgramSpec)
    (facts : List TrustedSatisfaction) where
  -- What a successful loop did: it cancelled live Attempts, added records, and found nothing more
  -- to withdraw.
  abbrev pub Withdrawn :
      List WorkUnitCancellation
      → List Attempt
      → List AttemptCancellation
      → List Attempt × List AttemptCancellation
      → Type 0
  Withdrawn cancellations attempts records r =
      Cancels attempts r.0
      × ((more : List AttemptCancellation) × (r.1 ≡ records ++ more))
      × (invalid_attempts digest spec history facts cancellations r.0 ≡ ok [])

  module _ (cancellations : List WorkUnitCancellation) (actor : String) (order : ℕ) where
    end_round-Withdrawn :
        (again : List Attempt
          → List AttemptCancellation
          → Result (List Attempt × List AttemptCancellation))
        → ((xs : List Attempt) (ys : List AttemptCancellation)
              (r : List Attempt × List AttemptCancellation)
            → unique (ids xs) ≡ true
            → again xs ys ≡ ok r
            → Withdrawn cancellations xs ys r)
        → (attempts : List Attempt) (records : List AttemptCancellation) (invalid : List Attempt)
          (r : List Attempt × List AttemptCancellation)
        → unique (ids attempts) ≡ true
        → invalid_attempts digest spec history facts cancellations attempts ≡ ok invalid
        → end_round digest spec history facts again actor order attempts records invalid ≡ ok r
        → Withdrawn cancellations attempts records r
    unfolding end_round
    end_round-Withdrawn again ih attempts records [] r u e h =
        subst (Withdrawn cancellations attempts records) (ok-injective h)
          (Cancels-refl attempts, ([], sym (append-nil records)), e)
    end_round-Withdrawn again ih attempts records (a ∷ invalid) r u e h =
        let why : String = "amendment withdrew Attempt subject or operational authority" in
        let idents = map (λ (b : Attempt). b.spec.attempt_id) (a ∷ invalid) in
        let c = >>=-eq-ok (cancel_live idents why actor order attempts records) _ h in
        let first = cancel_live-Cancels idents why actor order attempts records u c.1 in
        let rest =
          ih c.0.0 c.0.1 r
            (subst (λ l. unique l ≡ true) (sym (Cancels-ids attempts c.0.0 first.0)) u) c.2 in
        (
          Cancels-trans attempts c.0.0 r.0 first.0 rest.0,
          (
            first.1.0 ++ rest.1.0,
            rest.1.1 ∙ ap (λ l. l ++ rest.1.0) first.1.1 ∙ append_assoc records first.1.0 rest.1.0,
          ),
          rest.2,
        )

    -- Where identifiers are unique and the withdrawal loop of an amendment returns, it has
    -- cancelled live Attempts only, has added records after those there were, and finds no invalid
    -- Attempt any more.
    pub withdraw-Withdrawn :
        (fuel : ℕ) (attempts : List Attempt) (records : List AttemptCancellation)
        (r : List Attempt × List AttemptCancellation)
        → unique (ids attempts) ≡ true
        → withdraw digest spec history facts fuel cancellations actor order attempts records ≡ ok r
        → Withdrawn cancellations attempts records r
    unfolding withdraw
    withdraw-Withdrawn zero attempts records r u h = cc
    withdraw-Withdrawn (suc fuel) attempts records r u h =
        let i = >>=-eq-ok (invalid_attempts digest spec history facts cancellations attempts) _ h in
        end_round-Withdrawn (withdraw digest spec history facts fuel cancellations actor order)
          (withdraw-Withdrawn fuel) attempts records i.0 r u i.1 i.2
