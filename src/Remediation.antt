-- ===== src/Remediation.antt =====
-- The budget of remediation: `assess_remediation` of `core/verification.py`. A rejected result is the
-- sequence of its findings' fingerprints; the reasons of a decision are left out.
pub mod Bounds
mod Examples
use creatidy_kernel.Base.{
  name_set, ℕ, ◌+◌, String, Bool, true, false, ◌||◌, not, List, [], ◌∷◌, map, reverse,
  if◌then◌else◌, leb, nat_eq, string_eq, names_eq, optional_eq, ne_of_eq, Eq, is_empty, any,
  contains, raise_if, ◌>>◌, invalid_domain_value, Result, ok,
}

pub data RemediationStatus : Type 0 where
  retry pause human_gate : RemediationStatus

unfoldable pub RemediationStatus-discrete : Discrete RemediationStatus
RemediationStatus-discrete = hlevel

instance abbrev pub remediation_status_eq : Eq RemediationStatus
remediation_status_eq = record { decision = RemediationStatus-discrete }

pub record RemediationDecision : Type 0 where
  pub status : RemediationStatus
  pub used : ℕ
  pub progress : Bool
  pub oscillation : Bool

-- `len(sets) == 1 or bool(sets[-2] - sets[-1])`, on the sets from the last one on
unfoldable pub has_progress : List (List String) → Bool
has_progress [] = false
has_progress (last ∷ []) = true
has_progress (last ∷ before ∷ earlier) = any (λ finding. not (contains last finding)) before

-- `len(sets) > 2 and sets[-1] in sets[:-2]`
unfoldable pub is_oscillation : List (List String) → Bool
is_oscillation [] = false
is_oscillation (last ∷ []) = false
is_oscillation (last ∷ before ∷ earlier) = contains earlier last

-- A decision, with what the sets of findings show.
unfoldable pub decision : List (List String) → RemediationStatus → ℕ → RemediationDecision
decision history status used =
    let sets = reverse (map name_set history) in
    record {
      status = status;
      used = used;
      progress = has_progress sets;
      oscillation = is_oscillation sets;
    }

-- `assess_remediation`
unfoldable pub assess_remediation :
    List (List String) → ℕ → ℕ → Bool → Bool → Result RemediationDecision
assess_remediation history max_changes used authorized owner_decision_required =
    raise_if (is_empty history) invalid_domain_value
    >> (if owner_decision_required
        then ok (decision history RemediationStatus.human_gate used)
        else if not authorized || leb max_changes used
        then ok (decision history RemediationStatus.pause used)
        else ok (decision history RemediationStatus.retry (used + 1)))
