-- ===== src/Domain/Checks.antt =====
-- Canonical JSON values and the local checks of `core/domain.py`, lines 101 to 144.
use creatidy_kernel.Base.{
  String_discrete, is_blank, sorted, ℕ, String, not, Option, none, some, List, [], ◌∷◌, ℕ_discrete,
  ltb, nat_eq, string_eq, names_eq, optional_eq, Eq, any, unique, raise_if, ◌>>◌,
  invalid_domain_value, Result, ok,
}

-- What the `payload` methods build, for `json.dumps`.
mutual
  pub data Json : Type 0 where
    null : Json
    integer : ℕ → Json
    text : String → Json
    array : Items → Json
    object : Fields → Json

  pub data Items : Type 0 where
    nil : Items
    cons : Json → Items → Items

  pub data Fields : Type 0 where
    end : Fields
    field : String → Json → Fields → Fields

-- `_digest`: `hashlib.sha256` of `json.dumps(…)`, neither of which is part of the repository.
abbrev pub Digest : Type 0
Digest = Json → String

abbrev pub items_of {ℓ} : {A : Type ℓ} → (A → Json) → List A → Items
items_of f [] = nil
items_of f (x ∷ xs) = cons (f x) (items_of f xs)

abbrev pub array_of {ℓ} : {A : Type ℓ} → (A → Json) → List A → Json
array_of f xs = array (items_of f xs)

abbrev pub optional_text : Option String → Json
optional_text none = null
optional_text (some s) = text s

abbrev pub optional_json {ℓ} : {A : Type ℓ} → (A → Json) → Option A → Json
optional_json f none = null
optional_json f (some a) = f a

-- `_nonempty`
abbrev pub nonempty : String → Result (Unit {0})
nonempty value = raise_if (is_blank value) invalid_domain_value

-- `_optional_nonempty`
abbrev pub optional_nonempty : Option String → Result (Unit {0})
optional_nonempty none = ok tt
optional_nonempty (some value) = nonempty value

-- `_revision`, where zero is not allowed; with `allow_zero` every natural number passes.
abbrev pub positive : ℕ → Result (Unit {0})
positive value = raise_if (ltb value 1) invalid_domain_value

-- `_immutable_strings`
abbrev pub immutable_strings : List String → Result (Unit {0})
immutable_strings values = raise_if (any is_blank values) invalid_domain_value

-- `_criteria`
unfoldable pub criteria : List String → Result (List String)
criteria values = do
  raise_if (any is_blank values) invalid_domain_value
  raise_if (not (unique values)) invalid_domain_value
  ok (sorted values)

unfoldable pub Json-discrete : Discrete Json
Json-discrete = hlevel (String_discrete, ℕ_discrete)

instance abbrev pub json_eq : Eq Json
json_eq = record { decision = Json-discrete }
