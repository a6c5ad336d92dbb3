-- ===== src/Base/Results.antt =====
-- A computation that returns or raises. The exceptions are those of `core/domain.py` and of
-- `adapters/sqlite_store.py`; their message texts are left out.
use mathlib.Core.Path.{◌≡◌, refl, ap, subst}
use mathlib.Core.Logic.{◌≢◌}
use mathlib.Core.Bool.{Bool, true, false}
use mathlib.Core.Option.{Option, none, some}
use mathlib.Core.List.{List, [], ◌∷◌}
use creatidy_kernel.Base.Tests.{if◌then◌else◌}

-- `key_error` is Python's own, of a dict that lacks a key. `out_of_fuel` is the model's alone.
pub data Error : Type 0 where
  invalid_domain_value invalid_graph missing_reference missing_input cycle_detected : Error
  stale_revision illegal_transition authority_violation budget_exceeded duplicate_attempt : Error
  value_error operation_conflict idempotency_conflict program_not_found : Error
  program_already_exists corrupt_history ownership_conflict record_codec_error : Error
  key_error out_of_fuel : Error

-- What a computation comes to: an exception, or a value.
pub data Result {ℓ} (A : Type ℓ) : Type ℓ where
  err : Error → Result A
  ok : A → Result A

infixl 5 ◌>>=◌
abbrev pub ◌>>=◌ {ℓ κ} : {A : Type ℓ} {B : Type κ} → Result A → (A → Result B) → Result B
err raised >>= next = err raised
ok value >>= next = next value

-- `if c: raise e`
abbrev pub raise_if : Bool → Error → Result (Unit {0})
raise_if true e = err e
raise_if false e = ok tt

infixl 5 ◌>>◌
abbrev pub ◌>>◌ {ℓ} : {B : Type ℓ} → Result (Unit {0}) → Result B → Result B
check >> rest = check >>= λ _. rest

abbrev pub or_raise {ℓ} : {A : Type ℓ} → Option A → Error → Result A
or_raise none e = err e
or_raise (some a) e = ok a

-- A successful bind, taken apart where its parts stay shut.
pub >>=-eq-ok {ℓ κ} :
    {A : Type ℓ} {B : Type κ} (first : Result A) (next : A → Result B) {last : B}
    → (first >>= next) ≡ ok last
    → (value : A) × (first ≡ ok value) × (next value ≡ ok last)
>>=-eq-ok (err raised) next h = cc
>>=-eq-ok (ok value) next h = (value, refl, h)

pub >>-eq-ok {ℓ} :
    {B : Type ℓ} (m : Result (Unit {0})) (k : Result B) {b : B}
    → (m >> k) ≡ ok b
    → (m ≡ ok tt) × (k ≡ ok b)
>>-eq-ok (ok tt) k h = (refl, h)
>>-eq-ok (err e) k h = cc

pub ok-injective {ℓ} : {A : Type ℓ} {a b : A} → ok a ≡ ok b → a ≡ b
ok-injective h = cc

pub some-injective {ℓ} : {A : Type ℓ} {a b : A} → some a ≡ some b → a ≡ b
some-injective h = cc

pub or_raise-eq-ok {ℓ} :
    {A : Type ℓ} (o : Option A) (e : Error) {a : A} → or_raise o e ≡ ok a → o ≡ some a
or_raise-eq-ok none e h = absurd (cc h)
or_raise-eq-ok (some b) e h = ap some (ok-injective h)

pub raise_if-eq-ok : (c : Bool) (e : Error) → raise_if c e ≡ ok tt → c ≡ false
raise_if-eq-ok true e h = cc
raise_if-eq-ok false e h = refl

module _ {ℓ} {A : Type ℓ} where
  -- `any(...)` over a generator that may raise: it stops at the first true value.
  abbrev pub any_m : (A → Result Bool) → List A → Result Bool
  any_m p [] = ok false
  any_m p (x ∷ xs) = let rest = any_m p xs in p x >>= λ b. if b then ok true else rest

  abbrev pub select_m : (A → Result Bool) → List A → Result (List A)
  select_m p [] = ok []
  select_m p (x ∷ xs) = do b ← p x; rest ← select_m p xs; ok (if b then x ∷ rest else rest)

  abbrev pub each : (A → Result (Unit {0})) → List A → Result (Unit {0})
  each f [] = ok tt
  each f (x ∷ xs) = f x >> each f xs

  abbrev pub map_m {κ} : {B : Type κ} → (A → Result B) → List A → Result (List B)
  map_m f [] = ok []
  map_m f (x ∷ xs) = do y ← f x; ys ← map_m f xs; ok (y ∷ ys)

-- The computation does not run out of the fuel that the model gives to its loops.
pub record Ends {ℓ} {A : Type ℓ} (r : Result A) : Type ℓ where
  pub enough : r ≢ err out_of_fuel

pub Ends-ok {ℓ} : {A : Type ℓ} (a : A) → Ends (ok a)
Ends-ok a = record { enough = λ e. cc }

-- The exceptions of the program: all but `out_of_fuel`.
abbrev pub IsRaised : Error → Type 0
IsRaised out_of_fuel = ⊥
IsRaised _ = Unit

err-injective {ℓ} : {A : Type ℓ} (r : Result A) (e f : Error) → r ≡ err e → r ≡ err f → e ≡ f
err-injective r e f h k = cc

pub Ends-err {ℓ} : {A : Type ℓ} (e : Error) → IsRaised e → Ends {A = A} (err e)
Ends-err e h = record {
  enough = λ p. subst IsRaised (err-injective (err e) e out_of_fuel refl p) h;
}

pub Ends-raise_if : (c : Bool) (e : Error) → IsRaised e → Ends (raise_if c e)
Ends-raise_if true e h = Ends-err e h
Ends-raise_if false e h = Ends-ok tt

pub Ends-or_raise {ℓ} : {A : Type ℓ} (o : Option A) (e : Error) → IsRaised e → Ends (or_raise o e)
Ends-or_raise none e h = Ends-err e h
Ends-or_raise (some a) e h = Ends-ok a

pub Ends-bind {ℓ κ} :
    {A : Type ℓ} {B : Type κ} (m : Result A) (f : A → Result B)
    → Ends m
    → ((a : A) → m ≡ ok a → Ends (f a))
    → Ends (m >>= f)
Ends-bind (ok a) f hm hf = hf a refl
Ends-bind (err e) f hm hf = record { enough = λ p. hm.enough (cc p) }

pub Ends-then {ℓ} :
    {B : Type ℓ} (m : Result (Unit {0})) (k : Result B) → Ends m → Ends k → Ends (m >> k)
Ends-then m k hm hk = Ends-bind m (λ _. k) hm (λ _ _. hk)

pub Ends-if {ℓ} :
    {A : Type ℓ} (b : Bool) (m k : Result A) → Ends m → Ends k → Ends (if b then m else k)
Ends-if true m k hm hk = hm
Ends-if false m k hm hk = hk

-- The same for a branch that is computed only when it is taken.
pub Ends-branch {ℓ} :
    {A : Type ℓ} (b : Bool) (m k : Result A)
    → (b ≡ true → Ends m)
    → (b ≡ false → Ends k)
    → Ends (elim b [ true ↦ m | false ↦ k ])
Ends-branch true m k hm hk = hm refl
Ends-branch false m k hm hk = hk refl

pub Ends-option {ℓ κ} :
    {A : Type ℓ} {B : Type κ} (o : Option A) (m : Result B) (f : A → Result B)
    → (o ≡ none → Ends m)
    → ((a : A) → o ≡ some a → Ends (f a))
    → Ends (elim o [ none ↦ m | some a ↦ f a ])
Ends-option none m f hm hf = hm refl
Ends-option (some a) m f hm hf = hf a refl

module _ {ℓ} {A : Type ℓ} where
  pub Ends-any_m : (p : A → Result Bool) (xs : List A) → ((x : A) → Ends (p x)) → Ends (any_m p xs)
  Ends-any_m p [] h = Ends-ok false
  Ends-any_m p (x ∷ xs) h =
      Ends-bind (p x) _ (h x)
        (λ b _. Ends-if b (ok true) (any_m p xs) (Ends-ok true) (Ends-any_m p xs h))

  pub Ends-select_m :
      (p : A → Result Bool) (xs : List A) → ((x : A) → Ends (p x)) → Ends (select_m p xs)
  Ends-select_m p [] h = Ends-ok []
  Ends-select_m p (x ∷ xs) h =
      Ends-bind (p x) _ (h x)
        (λ b _. Ends-bind (select_m p xs) _ (Ends-select_m p xs h) (λ rest _. Ends-ok _))

  pub Ends-each :
      (f : A → Result (Unit {0})) (xs : List A) → ((x : A) → Ends (f x)) → Ends (each f xs)
  Ends-each f [] h = Ends-ok tt
  Ends-each f (x ∷ xs) h = Ends-then (f x) (each f xs) (h x) (Ends-each f xs h)

  pub Ends-map_m {κ} :
      {B : Type κ} (f : A → Result B) (xs : List A) → ((x : A) → Ends (f x)) → Ends (map_m f xs)
  Ends-map_m f [] h = Ends-ok []
  Ends-map_m f (x ∷ xs) h =
      Ends-bind (f x) _ (h x)
        (λ y _. Ends-bind (map_m f xs) _ (Ends-map_m f xs h) (λ ys _. Ends-ok (y ∷ ys)))

pub ruleset ends_rules = (
  Ends-ok, Ends-err, Ends-raise_if, Ends-or_raise, Ends-bind, Ends-then, Ends-if, Ends-any_m,
  Ends-select_m, Ends-each, Ends-map_m,
)
