-- ===== src/Domain/Apply/Changes.antt =====
-- What a branch of `Program.apply` may change in the local variables.
use creatidy_kernel.Base.{
  ◌+◌, ◌≤◌, ◌≡◌, refl, sym, ap, ◌∙◌, ◌≢◌, ◌⊎◌, inl, List, [], ◌∷◌, ◌++◌, append-nil, append_assoc,
  length, count_if,
}
use creatidy_kernel.Domain.Values.{ProgramStatus}
use creatidy_kernel.Domain.Facts.{is_live, Attempt, AttemptCancellation}
use creatidy_kernel.Domain.Program.{Program}
use creatidy_kernel.Domain.Transitions.{draft_of, Draft}
use creatidy_kernel.Domain.Transitions.Evolution.{Evolves, Evolves-refl}

-- The sequence has grown at its end.
abbrev pub Extends {ℓ} : {A : Type ℓ} → List A → List A → Type ℓ
Extends {A = A} xs ys = (more : List A) × (ys ≡ xs ++ more)

pub Extends-refl {ℓ} : {A : Type ℓ} (xs : List A) → Extends xs xs
Extends-refl xs = ([], sym (append-nil xs))

pub Extends-snoc {ℓ} : {A : Type ℓ} (xs : List A) (a : A) → Extends xs (xs ++ a ∷ [])
Extends-snoc xs a = (a ∷ [], refl)

pub Extends-trans {ℓ} :
    {A : Type ℓ} (xs ys zs : List A) → Extends xs ys → Extends ys zs → Extends xs zs
Extends-trans xs ys zs (a, e) (b, f) = (a ++ b, f ∙ ap (λ l. l ++ b) e ∙ append_assoc xs a b)

-- The status that a command asks for.
abbrev pub Turns : ProgramStatus → ProgramStatus → Type 0
Turns s t =
    (s ≢ ProgramStatus.cancelled)
    × ((t ≡ s)
        ⊎ ((s ≡ ProgramStatus.draft) × (t ≡ ProgramStatus.active))
        ⊎ ((s ≡ ProgramStatus.active) × (t ≡ ProgramStatus.paused))
        ⊎ ((s ≡ ProgramStatus.paused) × (t ≡ ProgramStatus.active))
        ⊎ ((s ≢ ProgramStatus.completed) × (t ≡ ProgramStatus.cancelled)))

-- The budgets leave room for the Attempts, of which there is one more.
abbrev pub Admitted : Program → List Attempt → Type 0
Admitted p xs =
    (length xs ≡ length p.attempts + 1)
    × (length xs ≤ p.spec.budget.max_attempts)
    × (length xs ≤ p.spec.authority.max_attempts)
    × (count_if is_live xs ≤ p.spec.budget.max_active_attempts)

abbrev pub HasRoom : Program → List Attempt → Type 0
HasRoom p xs = (length xs ≡ length p.attempts) ⊎ Admitted p xs

-- Attempts evolve, records are only added, and the status takes a legal turn.
pub record Changes (p : Program) (d : Draft) : Type 0 where
  pub attempts : Evolves p.attempts d.attempts
  pub room : HasRoom p d.attempts
  pub satisfactions : Extends p.satisfactions d.satisfactions
  pub cancellations : Extends p.cancellations d.cancellations
  pub attempt_cancellations : Extends p.attempt_cancellations d.attempt_cancellations
  pub spec_history : Extends p.spec_history d.spec_history
  pub status : Turns p.status d.status

pub status-Changes :
    (p : Program) (s : ProgramStatus)
    → Turns p.status s
    → Changes p (record (draft_of p) { status = s })
status-Changes p s t = record {
  attempts = Evolves-refl p.attempts;
  room = inl refl;
  satisfactions = Extends-refl p.satisfactions;
  cancellations = Extends-refl p.cancellations;
  attempt_cancellations = Extends-refl p.attempt_cancellations;
  spec_history = Extends-refl p.spec_history;
  status = t;
}

pub attempts-Changes :
    (p : Program) (xs : List Attempt) (records : List AttemptCancellation)
    → Evolves p.attempts xs
    → HasRoom p xs
    → Extends p.attempt_cancellations records
    → p.status ≢ ProgramStatus.cancelled
    → Changes p (record (draft_of p) { attempts = xs; attempt_cancellations = records })
attempts-Changes p xs records evolves room extends open_p = record {
  attempts = evolves;
  room = room;
  satisfactions = Extends-refl p.satisfactions;
  cancellations = Extends-refl p.cancellations;
  attempt_cancellations = extends;
  spec_history = Extends-refl p.spec_history;
  status = (open_p, inl refl);
}
