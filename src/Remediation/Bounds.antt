-- ===== src/Remediation/Bounds.antt =====
-- How often a remediation is tried again.
use creatidy_kernel.Base.{
  ℕ, ◌+◌, ◌≤◌, String, ◌≡◌, refl, ap, ◌⊎◌, inl, inr, Bool, true, false, List, [], ◌∷◌, arith,
  if◌then◌else◌, Bool-cases, leb, ◌==◌, nat_eq, string_eq, names_eq, optional_eq, ◌>>=◌, >>=-eq-ok,
  ok-injective, Result, ok,
}
use creatidy_kernel.Remediation.{
  RemediationStatus-discrete, remediation_status_eq, decision, assess_remediation,
  RemediationStatus, RemediationDecision,
}

-- A retry is authorized, within the budget, and counted; anything else leaves the count.
pub assess_remediation-cases :
    (history : List (List String)) (max_changes used : ℕ) (authorized owner : Bool)
    {d : RemediationDecision}
    → assess_remediation history max_changes used authorized owner ≡ ok d
    → (((d.status == RemediationStatus.retry) ≡ true)
        × (authorized ≡ true)
        × (owner ≡ false)
        × (d.used ≡ used + 1)
        × (d.used ≤ max_changes))
      ⊎ (((d.status == RemediationStatus.retry) ≡ false)
          × (d.used ≡ used)
          × ((owner ≡ true) ⊎ (authorized ≡ false) ⊎ (max_changes ≤ used)))
unfolding assess_remediation decision RemediationStatus-discrete
assess_remediation-cases [] max_changes used authorized owner h = absurd (cc h)
assess_remediation-cases (f ∷ history) max_changes used authorized true h =
    inr (ground (arith, h), ground (arith, h), inl refl)
assess_remediation-cases (f ∷ history) max_changes used false false h =
    inr (ground (arith, h), ground (arith, h), inr (inl refl))
assess_remediation-cases (f ∷ history) max_changes used true false h =
    elim (Bool-cases (leb max_changes used)) [
      | inl spent ↦
          inr
            (ground (arith, h, spent), ground (arith, h, spent), inr (inr (ground (arith, spent))))
      | inr room ↦
          inl
            (ground (arith, h, room), refl, refl, ground (arith, h, room), ground (arith, h, room))
    ]

-- One result after the other, with the count carried on.
pub record Round : Type 0 where
  pub history : List (List String)
  pub authorized : Bool
  pub owner_decision_required : Bool

-- How many rounds were tried again, and the count at the end.
unfoldable pub rounds : ℕ → ℕ → List Round → Result (ℕ × ℕ)
rounds max_changes used [] = ok (0, used)
rounds max_changes used (r ∷ rs) = do
  d ← assess_remediation r.history max_changes used r.authorized r.owner_decision_required
  rest ← rounds max_changes d.used rs
  ok ((if d.status == RemediationStatus.retry then 1 else 0) + rest.0, rest.1)

-- Over any sequence of assessments that all return, each fed with the count of the one before, from
-- a count within the budget on: the count at the end is the first one and the number of retries
-- together, and stays within the budget.
pub rounds-le :
    (max_changes used : ℕ) (rs : List Round) {retries last : ℕ}
    → used ≤ max_changes
    → rounds max_changes used rs ≡ ok (retries, last)
    → (used + retries ≡ last) × (last ≤ max_changes)
unfolding rounds
rounds-le max_changes used [] l h =
    let e = ok-injective h in
    (omega (arith, ap (λ p. p.0) e, ap (λ p. p.1) e), omega (arith, l, ap (λ p. p.1) e))
rounds-le max_changes used (r ∷ rs) {retries} {last} l h =
    let a =
      >>=-eq-ok
        (assess_remediation r.history max_changes used r.authorized r.owner_decision_required) _
        h in
    let b = >>=-eq-ok (rounds max_changes a.0.used rs) _ a.2 in
    let c =
      assess_remediation-cases r.history max_changes used r.authorized r.owner_decision_required
        a.1 in
    let e = ok-injective b.2 in
    elim c [
      | inl again ↦
          let i = rounds-le max_changes a.0.used rs again.4 b.1 in
          (ground (arith, again.0, again.3, i.0, e), ground (arith, i.1, e))
      | inr same_count ↦
          let i = rounds-le max_changes a.0.used rs (omega (arith, same_count.1, l)) b.1 in
          (ground (arith, same_count.0, same_count.1, i.0, e), ground (arith, i.1, e))
    ]
