-- ===== src/Base/Tests.antt =====
-- Boolean tests: the conditional, equality through a decision, and order on the native numbers.
use Prim.Native.Nat.{ℕ, compare, Ordering}
use Prim.Native.String.{String, compare as compare_text}
use mathlib.Core.Path.{◌≡◌, refl}
use mathlib.Core.Logic.{◌↔◌, ◌⊎◌, inl, inr}
use mathlib.Core.Bool.{Bool, true, false}
use mathlib.Core.Option.{Option, none, some}
use mathlib.Core.List.{List}
use native.Mathlib.Omega.{arith}
use native.Mathlib.Decide.{ℕ_discrete}
use text.Mathlib.Text.{◌==◌ as text_eq}
use text.Mathlib.TextEquality.{eq_iff}

infix 1 if◌then◌else◌
abbrev pub if◌then◌else◌ {ℓ} : {A : Type ℓ} → Bool → A → A → A
if true then x else _ = x
if false then _ else y = y

pub Bool-cases : (b : Bool) → (b ≡ true) ⊎ (b ≡ false)
Bool-cases true = inl refl
Bool-cases false = inr refl

pub Option-cases {ℓ} : {A : Type ℓ} (o : Option A) → (o ≡ none) ⊎ ((a : A) × (o ≡ some a))
Option-cases none = inl refl
Option-cases (some a) = inr (a, refl)

abbrev pub is_some {ℓ} : {A : Type ℓ} → Option A → Bool
is_some none = false
is_some (some _) = true

-- `a != b` on Booleans
abbrev pub differ : Bool → Bool → Bool
differ true true = false
differ true false = true
differ false b = b

-- `a < b` and `a <= b` on integers that are never negative.
abbrev pub ltb : ℕ → ℕ → Bool
ltb a b = elim (compare a b) [ Ordering.lt ↦ true | _ ↦ false ]

abbrev pub leb : ℕ → ℕ → Bool
leb a b = elim (compare a b) [ Ordering.gt ↦ false | _ ↦ true ]

text_decision : (s t : String) (b : Bool) → ((b ≡ true) ↔ (s ≡ t)) → Dec (s ≡ t)
text_decision s t true h = yes (h.0 refl)
text_decision s t false h = no (λ e. cc (h.1 e))

unfoldable pub String_discrete : Discrete String
unfolding text_decision
String_discrete s t = text_decision s t (text_eq s t) (eq_iff s t)

-- `s <= t` on texts: Python compares code point by code point.
unfoldable pub leb_text : String → String → Bool
leb_text s t = elim (compare_text s t) [ Ordering.gt ↦ false | _ ↦ true ]

-- A type whose values the program compares by `==`.
pub record Eq {ℓ} (A : Type ℓ) : Type ℓ where
  pub decision : Discrete A

infix 50 ◌==◌ ◌!=◌
abbrev pub ◌==◌ {ℓ} : {A : Type ℓ} ⦃e : Eq A⦄ → A → A → Bool
◌==◌ ⦃e⦄ a b = elim (e.decision a b) [ yes _ ↦ true | no _ ↦ false ]

abbrev pub ◌!=◌ {ℓ} : {A : Type ℓ} ⦃e : Eq A⦄ → A → A → Bool
◌!=◌ ⦃e⦄ a b = elim (e.decision a b) [ yes _ ↦ false | no _ ↦ true ]

instance abbrev pub nat_eq : Eq ℕ
nat_eq = record { decision = ℕ_discrete }

instance abbrev pub string_eq : Eq String
string_eq = record { decision = String_discrete }

unfoldable pub names_discrete : Discrete (List String)
unfolding String_discrete
names_discrete = hlevel String_discrete

instance abbrev pub names_eq : Eq (List String)
names_eq = record { decision = names_discrete }

unfoldable pub optional_discrete : Discrete (Option String)
unfolding String_discrete
optional_discrete = hlevel String_discrete

instance abbrev pub optional_eq : Eq (Option String)
optional_eq = record { decision = optional_discrete }

module _ {ℓ} {A : Type ℓ} ⦃e : Eq A⦄ where
  pub ==-sound : (a b : A) → (a == b) ≡ true → a ≡ b
  ==-sound a b h = ground arith

  pub ==-refl : (a : A) → (a == a) ≡ true
  ==-refl a = ground arith

  -- `a != b` is false: the guard `if a != b: raise …` was passed.
  pub eq_of_ne : (a b : A) → (a != b) ≡ false → a ≡ b
  eq_of_ne a b h = ground arith

  pub ne_of_eq : (a b : A) → a ≡ b → (a != b) ≡ false
  ne_of_eq a b h = ground arith
