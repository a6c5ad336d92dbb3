-- ===== src/Remediation/Examples.antt =====
-- Remediation at concrete findings.
use creatidy_kernel.Base.{◌+◌, ◌≤◌, ◌≡◌, refl, true, false, [], ◌∷◌, arith, ok}
use creatidy_kernel.Remediation.{RemediationStatus-discrete, decision, assess_remediation}
use creatidy_kernel.Remediation.Bounds.{rounds, rounds-le, Round}

abbrev failing : Round
failing = record { history = ("f1" ∷ []) ∷ []; authorized = true; owner_decision_required = false }

-- A budget of two: the third round is not tried again.
three_rounds : rounds 2 0 (failing ∷ failing ∷ failing ∷ []) ≡ ok (2, 2)
unfolding rounds assess_remediation decision RemediationStatus-discrete
three_rounds = refl

rounds-le_example : ((0 + 2) ≡ 2) × (2 ≤ 2)
rounds-le_example = rounds-le 2 0 (failing ∷ failing ∷ failing ∷ []) (omega arith) three_rounds
