-- ===== src/Domain/Apply/Budget.antt =====
-- The budgets of Attempts under `Program.apply`.
use creatidy_kernel.Base.{
  ◌≤◌, ◌≡◌, sym, ap, subst, ◌⊎◌, inl, inr, List, arith, length, count_if, ok,
}
use creatidy_kernel.Domain.Checks.{Digest}
use creatidy_kernel.Domain.Facts.{is_live, Attempt}
use creatidy_kernel.Domain.Program.{Program}
use creatidy_kernel.Domain.Commands.{Command}
use creatidy_kernel.Domain.Transitions.Evolution.{Evolves, Evolves-live}
use creatidy_kernel.Domain.Apply.{apply}
use creatidy_kernel.Domain.Apply.Inversion.{apply-inv, assemble-inv, Outcome, kept, changed}
use creatidy_kernel.Domain.Apply.Reachable.{Reachable-Valid, Reachable}
use creatidy_kernel.Domain.Apply.Changes.{Admitted, HasRoom}
use creatidy_kernel.Domain.Apply.Branches.{perform-Changes}

-- From a Program that was reached by commands, a successful command either adds no Attempt and
-- leaves no more of them live than before, or adds one, where the number of Attempts stays within
-- the maxima of the budget and of the owner, and the number of live ones within that of the budget.
pub apply-Budget :
    (digest : Digest) (p : Program) (c : Command) {q : Program}
    → Reachable digest p
    → apply digest p c ≡ ok q
    → ((length q.attempts ≡ length p.attempts)
        × (count_if is_live q.attempts ≤ count_if is_live p.attempts))
      ⊎ Admitted p q.attempts
apply-Budget digest p c {q} r h = budget (apply-inv digest p c h).outcome
  where
    Bounded : List Attempt → Type 0
    Bounded xs =
        ((length xs ≡ length p.attempts) × (count_if is_live xs ≤ count_if is_live p.attempts))
        ⊎ Admitted p xs

    bounded : (xs : List Attempt) → Evolves p.attempts xs → HasRoom p xs → Bounded xs
    bounded xs e (inl same) = inl (same, Evolves-live p.attempts xs e same)
    bounded xs e (inr a) = inr a

    budget : Outcome digest p c q → Bounded q.attempts
    budget (kept _ e) =
        inl (ap (λ x. length x.attempts) e, omega (arith, ap (λ x. count_if is_live x.attempts) e))
    budget (changed d performed e) =
        let a = assemble-inv digest p d e in
        let k =
          perform-Changes digest p c.actor_id c.body (Reachable-Valid digest r).unique_attempts
            performed in
        subst (λ x. Bounded x.attempts) (sym a.made) (bounded d.attempts k.attempts k.room)
