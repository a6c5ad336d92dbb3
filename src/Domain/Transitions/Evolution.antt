-- ===== src/Domain/Transitions/Evolution.antt =====
-- How the Attempts of a Program may change under the branches of `Program.apply`.
use creatidy_kernel.Base.{
  ◌≤◌, ◌≡◌, refl, ◌⊎◌, inl, true, List, [], ◌∷◌, ◌++◌, arith, length, count_if, All,
}
use creatidy_kernel.Domain.Values.{AttemptStatus}
use creatidy_kernel.Domain.Facts.{is_live, Attempt}
use creatidy_kernel.Domain.Validation.{ids}

-- The statuses that may follow one another in the life of an Attempt.
abbrev pub CanBecome : AttemptStatus → AttemptStatus → Type 0
CanBecome s t =
    (t ≡ s)
    ⊎ ((s ≡ AttemptStatus.prepared) × (t ≡ AttemptStatus.executing))
    ⊎ ((s ≡ AttemptStatus.executing) × (t ≡ AttemptStatus.finished))
    ⊎ (((s ≡ AttemptStatus.prepared) ⊎ (s ≡ AttemptStatus.executing))
        × ((t ≡ AttemptStatus.failed) ⊎ (t ≡ AttemptStatus.cancelled)))

-- Attempt for Attempt, the specification and the actor stay and the status takes a legal step;
-- what comes after them is prepared.
abbrev pub Evolves : List Attempt → List Attempt → Type 0
Evolves [] new = All (λ b. b.status ≡ AttemptStatus.prepared) new
Evolves (a ∷ xs) [] = ⊥
Evolves (a ∷ xs) (b ∷ ys) =
    (b.spec ≡ a.spec) × (b.actor_id ≡ a.actor_id) × CanBecome a.status b.status × Evolves xs ys

-- Attempt for Attempt, a live one may have been cancelled, and nothing else has changed.
abbrev pub Cancels : List Attempt → List Attempt → Type 0
Cancels [] [] = Unit
Cancels [] (b ∷ ys) = ⊥
Cancels (a ∷ xs) [] = ⊥
Cancels (a ∷ xs) (b ∷ ys) =
    ((b ≡ a) ⊎ ((is_live a ≡ true) × (b ≡ record a { status = AttemptStatus.cancelled })))
    × Cancels xs ys

pub Evolves-refl : (xs : List Attempt) → Evolves xs xs
Evolves-refl [] = tt
Evolves-refl (a ∷ xs) = (refl, refl, inl refl, Evolves-refl xs)

pub Evolves-snoc :
    (xs : List Attempt) (b : Attempt)
    → b.status ≡ AttemptStatus.prepared
    → Evolves xs (xs ++ b ∷ [])
Evolves-snoc [] b h = (h, tt)
Evolves-snoc (a ∷ xs) b h = (refl, refl, inl refl, Evolves-snoc xs b h)

pub Cancels-refl : (xs : List Attempt) → Cancels xs xs
Cancels-refl [] = tt
Cancels-refl (a ∷ xs) = (inl refl, Cancels-refl xs)

pub Cancels-trans : (xs ys zs : List Attempt) → Cancels xs ys → Cancels ys zs → Cancels xs zs
Cancels-trans [] [] zs h k = k
Cancels-trans [] (y ∷ ys) zs h k = absurd h
Cancels-trans (x ∷ xs) [] zs h k = absurd h
Cancels-trans (x ∷ xs) (y ∷ ys) [] h k = absurd k
Cancels-trans (x ∷ xs) (y ∷ ys) (z ∷ zs) h k = (ground arith, Cancels-trans xs ys zs h.1 k.1)

pub Cancels→Evolves : (xs ys : List Attempt) → Cancels xs ys → Evolves xs ys
Cancels→Evolves [] [] h = tt
Cancels→Evolves [] (b ∷ ys) h = absurd h
Cancels→Evolves (a ∷ xs) [] h = absurd h
Cancels→Evolves (a ∷ xs) (b ∷ ys) h =
    (ground arith, ground arith, ground arith, Cancels→Evolves xs ys h.1)

pub Cancels-ids : (xs ys : List Attempt) → Cancels xs ys → ids ys ≡ ids xs
unfolding ids
Cancels-ids [] [] h = refl
Cancels-ids [] (b ∷ ys) h = absurd h
Cancels-ids (a ∷ xs) [] h = absurd h
Cancels-ids (a ∷ xs) (b ∷ ys) h = ground (arith, Cancels-ids xs ys h.1, h.0)

pub Cancels-length : (xs ys : List Attempt) → Cancels xs ys → length ys ≡ length xs
Cancels-length [] [] h = refl
Cancels-length [] (b ∷ ys) h = absurd h
Cancels-length (a ∷ xs) [] h = absurd h
Cancels-length (a ∷ xs) (b ∷ ys) h = omega (arith, Cancels-length xs ys h.1)

CanBecome-live : (a b : Attempt) → CanBecome a.status b.status → is_live b ≡ true → is_live a ≡ true
CanBecome-live a b c h = ground arith

-- Where no Attempt is added, no more of them are live than before.
pub Evolves-live :
    (xs ys : List Attempt)
    → Evolves xs ys
    → length ys ≡ length xs
    → count_if is_live ys ≤ count_if is_live xs
Evolves-live [] [] h e = omega arith
Evolves-live [] (b ∷ ys) h e = absurd (omega arith)
Evolves-live (a ∷ xs) [] h e = absurd h
Evolves-live (a ∷ xs) (b ∷ ys) h e =
    ground (arith, Evolves-live xs ys h.3 (omega arith), CanBecome-live a b h.2)
