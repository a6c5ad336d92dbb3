-- ===== src/Base/Lists.antt =====
-- Lists measured and searched as Python's built-ins do it.
use Prim.Native.Nat.{ℕ, suc, ◌+◌, ◌≤◌, ◌<◌}
use mathlib.Core.Path.{◌≡◌, refl, ap, sym, subst, ◌∙◌}
use mathlib.Core.Logic.{inl, inr}
use mathlib.Core.Bool.{Bool, true, false, ◌&&◌, ◌||◌, not}
use mathlib.Core.Option.{Option, none, some}
use mathlib.Core.List.{List, [], ◌∷◌, ◌++◌, map, reverse, reverse-append}
use native.Mathlib.Omega.{arith}
use creatidy_kernel.Base.Tests.{if◌then◌else◌, Eq, ◌==◌, Bool-cases}

module _ {ℓ} {A : Type ℓ} where
  abbrev pub length : List A → ℕ
  length [] = 0
  length (x ∷ xs) = suc (length xs)

  pub length-append : (xs ys : List A) → length (xs ++ ys) ≡ length xs + length ys
  length-append [] ys = omega arith
  length-append (x ∷ xs) ys = omega (arith, length-append xs ys)

  -- `not xs`
  abbrev pub is_empty : List A → Bool
  is_empty [] = true
  is_empty (x ∷ xs) = false

  -- `any(p(x) for x in xs)` and `all(p(x) for x in xs)`
  abbrev pub any : (A → Bool) → List A → Bool
  any p [] = false
  any p (x ∷ xs) = p x || any p xs

  abbrev pub all : (A → Bool) → List A → Bool
  all p [] = true
  all p (x ∷ xs) = p x && all p xs

  -- `next((x for x in xs if p(x)), None)`
  abbrev pub find? : (A → Bool) → List A → Option A
  find? p [] = none
  find? p (x ∷ xs) = if p x then some x else find? p xs

  -- The value that a dict built from `xs` holds for the keys that satisfy `p`: the last one.
  abbrev pub find_last? : (A → Bool) → List A → Option A
  find_last? p [] = none
  find_last? p (x ∷ xs) = elim (find_last? p xs) [
    | some y ↦ some y
    | none ↦ if p x then some x else none
  ]

  -- `[x for x in xs if p(x)]`
  abbrev pub select : (A → Bool) → List A → List A
  select p [] = []
  select p (x ∷ xs) = let rest = select p xs in if p x then x ∷ rest else rest

  abbrev pub any_option : (A → Bool) → Option A → Bool
  any_option p none = false
  any_option p (some x) = p x

  -- `sum(p(x) for x in xs)`
  abbrev pub count_if : (A → Bool) → List A → ℕ
  count_if p [] = 0
  count_if p (x ∷ xs) = (if p x then 1 else 0) + count_if p xs

  -- `xs[-1]`, with no element for the empty sequence
  abbrev pub last? : List A → Option A
  last? [] = none
  last? (x ∷ []) = some x
  last? (x ∷ y ∷ r) = last? (y ∷ r)

  pub last?-snoc : (xs : List A) (a : A) → last? (xs ++ a ∷ []) ≡ some a
  last?-snoc [] a = refl
  last?-snoc (x ∷ []) a = refl
  last?-snoc (x ∷ y ∷ r) a = last?-snoc (y ∷ r) a

pub length-map {ℓ κ} :
    {A : Type ℓ} {B : Type κ} (f : A → B) (xs : List A) → length (map f xs) ≡ length xs
length-map f [] = refl
length-map f (x ∷ xs) = omega (arith, length-map f xs)

pub is_empty-map {ℓ κ} :
    {A : Type ℓ} {B : Type κ} (f : A → B) (xs : List A) → is_empty (map f xs) ≡ is_empty xs
is_empty-map f [] = refl
is_empty-map f (x ∷ xs) = refl

-- `for x in xs` as a predicate: it computes to tuples.
abbrev pub All {ℓ κ} : {A : Type ℓ} → (A → Type κ) → List A → Type κ
All P [] = Unit
All P (x ∷ xs) = P x × All P xs

-- The position of a value in a sequence: this family can be taken apart.
pub data In {ℓ} {A : Type ℓ} (a : A) : List A → Type ℓ where
  here : {x : A} {xs : List A} → x ≡ a → In a (x ∷ xs)
  there : {x : A} {xs : List A} → In a xs → In a (x ∷ xs)

module _ {ℓ} {A : Type ℓ} where
  pub In-append_left : {a : A} {xs : List A} (ys : List A) → In a xs → In a (xs ++ ys)
  In-append_left ys (here e) = here e
  In-append_left ys (there m) = there (In-append_left ys m)

  pub In-append_right : {a : A} (xs : List A) {ys : List A} → In a ys → In a (xs ++ ys)
  In-append_right [] m = m
  In-append_right (x ∷ xs) m = there (In-append_right xs m)

  pub length-select-le : (p : A → Bool) (xs : List A) → length (select p xs) ≤ length xs
  length-select-le p [] = omega arith
  length-select-le p (x ∷ xs) = ground (arith, length-select-le p xs)

  -- A comprehension that leaves an element out is shorter.
  pub length-select-lt :
      (p : A → Bool) (xs : List A) {a : A}
      → In a xs
      → p a ≡ false
      → length (select p xs) < length xs
  length-select-lt p [] m h = elim m [ ]
  length-select-lt p (x ∷ xs) (here e) h =
      ground (arith, subst (λ b. p b ≡ false) (sym e) h, length-select-le p xs)
  length-select-lt p (x ∷ xs) (there m) h = ground (arith, length-select-lt p xs m h)

  -- A comprehension that is not empty has a first element.
  pub In-of_select :
      (p : A → Bool) (xs : List A)
      → is_empty (select p xs) ≡ false
      → (a : A) × In a xs × (p a ≡ true)
  In-of_select p [] h = absurd (cc h)
  In-of_select p (x ∷ xs) h = elim (Bool-cases (p x)) [
    | inl yes_x ↦ (x, here refl, yes_x)
    | inr no_x ↦ let r = In-of_select p xs (rw no_x at h) in (r.0, there r.1, r.2)
  ]

  pub length-reverse : (xs : List A) → length (reverse xs) ≡ length xs
  length-reverse [] = refl
  length-reverse (x ∷ xs) =
      ap length (reverse-append (x ∷ []) xs)
      ∙ omega (arith, length-append (reverse xs) (reverse (x ∷ [])), length-reverse xs)

pub In-map {ℓ κ} :
    {A : Type ℓ} {B : Type κ} (f : A → B) {a : A} {xs : List A} → In a xs → In (f a) (map f xs)
In-map f (here e) = here (ap f e)
In-map f (there m) = there (In-map f m)

pub In-select {ℓ} :
    {A : Type ℓ} (p : A → Bool) (xs : List A) {a : A} → In a xs → p a ≡ true → In a (select p xs)
In-select p [] m h = elim m [ ]
In-select p (x ∷ xs) {a} (here e) h = rw (subst (λ b. p b ≡ true) (sym e) h) (here e)
In-select p (x ∷ xs) (there m) h = elim (Bool-cases (p x)) [
  | inl yes_x ↦ rw yes_x (there (In-select p xs m h))
  | inr no_x ↦ rw no_x (In-select p xs m h)
]

module _ {ℓ} {A : Type ℓ} ⦃e : Eq A⦄ where
  -- `a in xs`
  abbrev pub contains : List A → A → Bool
  contains [] a = false
  contains (x ∷ xs) a = x == a || contains xs a

  -- `len(set(xs)) == len(xs)`
  abbrev pub unique : List A → Bool
  unique [] = true
  unique (x ∷ xs) = not (contains xs x) && unique xs

  pub contains-append :
      (xs ys : List A) (a : A) → contains (xs ++ ys) a ≡ (contains xs a || contains ys a)
  contains-append [] ys a = refl
  contains-append (x ∷ xs) ys a = ground (arith, contains-append xs ys a)

  pub contains_of_In : {a : A} (xs : List A) → In a xs → contains xs a ≡ true
  contains_of_In [] m = elim m [ ]
  contains_of_In (x ∷ xs) (here h) = ground arith
  contains_of_In (x ∷ xs) (there m) = ground (arith, contains_of_In xs m)
