-- ===== src/Domain/Validation/Termination.antt =====
-- The fuel of `Program._validate`.
use creatidy_kernel.Base.{String, List, [], ◌∷◌, Ends-ok, Ends-then, Ends-if, ends_rules, Ends}
use creatidy_kernel.Domain.Checks.{Digest}
use creatidy_kernel.Domain.Spec.Termination.{fingerprint-Ends}
use creatidy_kernel.Domain.Facts.{is_live, Attempt, TrustedSatisfaction, WorkUnitCancellation}
use creatidy_kernel.Domain.Projection.Termination.{project-Ends}
use creatidy_kernel.Domain.Program.{Program}
use creatidy_kernel.Domain.Validation.{
  check_history, check_ids, check_attempt, check_satisfaction, check_cancellation, check_projection,
  check_live_unit, check_live, check_end, validate,
}

module _ (digest : Digest) (p : Program) where
  check_attempt-Ends : (a : Attempt) → Ends (check_attempt digest p a)
  unfolding check_attempt
  check_attempt-Ends a = search (ends_rules, tt) depth 30

  check_satisfaction-Ends : (f : TrustedSatisfaction) → Ends (check_satisfaction digest p f)
  unfolding check_satisfaction
  check_satisfaction-Ends f = search (ends_rules, fingerprint-Ends, tt) depth 30 fits 30000

  check_cancellation-Ends : (c : WorkUnitCancellation) → Ends (check_cancellation digest p c)
  unfolding check_cancellation
  check_cancellation-Ends c = search (ends_rules, fingerprint-Ends, tt) depth 30

  check_history-Ends : Ends (check_history digest p)
  unfolding check_history
  check_history-Ends = search (ends_rules, tt) depth 30

  check_ids-Ends : Ends (check_ids digest p)
  unfolding check_ids
  check_ids-Ends = search (ends_rules, tt) depth 30

  check_projection-Ends : Ends (check_projection digest p)
  unfolding check_projection
  check_projection-Ends = search (ends_rules, project-Ends, tt) depth 30

  check_live_unit-Ends : (seen : List String) (a : Attempt) → Ends (check_live_unit digest p seen a)
  unfolding check_live_unit
  check_live_unit-Ends seen a = search (ends_rules, tt) depth 30

  check_live-Ends :
      (attempts : List Attempt) (seen : List String) → Ends (check_live digest p attempts seen)
  unfolding check_live
  check_live-Ends [] seen = Ends-ok tt
  check_live-Ends (a ∷ rest) seen =
      Ends-then _ _ (Ends-if (is_live a) _ _ (check_live_unit-Ends seen a) (Ends-ok tt))
        (check_live-Ends rest _)

  check_end-Ends : Ends (check_end digest p)
  unfolding check_end
  check_end-Ends = search (ends_rules, tt) depth 30

  pub validate-Ends : Ends (validate digest p)
  unfolding validate
  validate-Ends =
      search
        (
          ends_rules, check_history-Ends, check_ids-Ends, check_attempt-Ends,
          check_satisfaction-Ends, check_cancellation-Ends, check_projection-Ends, check_live-Ends,
          check_end-Ends, tt,
        )
        depth 30 fits 30000
