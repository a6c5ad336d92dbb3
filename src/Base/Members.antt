-- ===== src/Base/Members.antt =====
-- The members of a sequence, what a comprehension keeps of them, and their places.
use Prim.Native.Nat.{ℕ, suc, ◌≤◌, ◌<◌}
use Prim.Native.String.{String}
use mathlib.Core.Path.{◌≡◌, refl, subst}
use mathlib.Core.Logic.{inl, inr}
use mathlib.Core.Bool.{Bool, true, false, ◌&&◌}
use mathlib.Core.List.{List, [], ◌∷◌, ◌++◌, map}
use native.Mathlib.Omega.{arith}
use creatidy_kernel.Base.Tests.{if◌then◌else◌, ◌==◌, ==-sound, Bool-cases, string_eq}
use creatidy_kernel.Base.Lists.{is_empty, length, contains, select, In, here, there, In-select}

module _ {ℓ} {A : Type ℓ} where
  pub In-of_map {κ} :
      {B : Type κ} (f : B → A) (xs : List B) {a : A}
      → In a (map f xs)
      → (b : B) × In b xs × (f b ≡ a)
  In-of_map f [] m = elim m [ ]
  In-of_map f (x ∷ xs) (here e) = (x, here refl, e)
  In-of_map f (x ∷ xs) (there m) = let r = In-of_map f xs m in (r.0, there r.1, r.2)

  pub In-select-inv :
      (p : A → Bool) (xs : List A) {a : A} → In a (select p xs) → In a xs × (p a ≡ true)
  In-select-inv p [] m = elim m [ ]
  In-select-inv p (x ∷ xs) {a} m = elim (Bool-cases (p x)) [
    | inl yes_x ↦ first yes_x (In-select-inv p xs) (rw yes_x at m)
    | inr no_x ↦ let r = In-select-inv p xs (rw no_x at m) in (there r.0, r.1)
  ]
    where
      first :
          p x ≡ true
          → (In a (select p xs) → In a xs × (p a ≡ true))
          → In a (x ∷ select p xs)
          → In a (x ∷ xs) × (p a ≡ true)
      first yes_x later (here e) = (here e, subst (λ b. p b ≡ true) e yes_x)
      first yes_x later (there n) = let r = later n in (there r.0, r.1)

  pub select-select :
      (p q r : A → Bool) (xs : List A)
      → ((a : A) → r a ≡ (p a && q a))
      → select q (select p xs) ≡ select r xs
  select-select p q r [] h = refl
  select-select p q r (x ∷ xs) h = ground (arith, h x, select-select p q r xs h)

  pub select-every : (p : A → Bool) (xs : List A) → ((a : A) → p a ≡ true) → select p xs ≡ xs
  select-every p [] h = refl
  select-every p (x ∷ xs) h = rw (h x, select-every p xs h) refl

  pub none_left :
      (p : A → Bool) (xs : List A) {a : A} → is_empty (select p xs) ≡ true → In a xs → p a ≡ false
  none_left p xs {a} h m = elim (Bool-cases (p a)) [
    | inl yes_a ↦ absurd (nonempty_of_In (select p xs) (In-select p xs m yes_a) h)
    | inr no_a ↦ no_a
  ]
    where
      nonempty_of_In : (ys : List A) → In a ys → is_empty ys ≡ true → ⊥
      nonempty_of_In [] n e = elim n [ ]
      nonempty_of_In (y ∷ ys) n e = cc

pub In-of_contains : (xs : List String) {a : String} → contains xs a ≡ true → In a xs
In-of_contains [] h = absurd (cc h)
In-of_contains (x ∷ xs) {a} h = elim (Bool-cases (x == a)) [
  | inl same ↦ here (==-sound x a same)
  | inr other ↦ there (In-of_contains xs (ground (arith, h, other)))
]

-- The place of an identifier in a sequence that holds it.
abbrev pub place : List String → String → ℕ
place [] a = 0
place (x ∷ xs) a = if x == a then 0 else suc (place xs a)

pub place-lt : (xs : List String) (a : String) → contains xs a ≡ true → place xs a < length xs
place-lt [] a h = absurd (cc h)
place-lt (x ∷ xs) a h = ground (arith, place-lt xs a)

pub place-append_left :
    (xs ys : List String) (a : String) → contains xs a ≡ true → place (xs ++ ys) a ≡ place xs a
place-append_left [] ys a h = absurd (cc h)
place-append_left (x ∷ xs) ys a h = ground (arith, place-append_left xs ys a)

pub place-append_right :
    (xs ys : List String) (a : String) → contains xs a ≡ false → length xs ≤ place (xs ++ ys) a
place-append_right [] ys a h = omega arith
place-append_right (x ∷ xs) ys a h = ground (arith, place-append_right xs ys a)
