-- ===== src/Base/Names.antt =====
-- Identifiers, sets of identifiers and sorting. A `frozenset` of identifiers is the strictly
-- ascending list of its members, so that equal sets are equal lists.
use Prim.Native.Nat.{ℕ, suc}
use Prim.Native.Char.{code}
use Prim.Native.String.{String}
use mathlib.Core.Path.{◌≡◌, refl}
use mathlib.Core.Bool.{Bool, true, false, ◌&&◌, ◌||◌, not}
use mathlib.Core.List.{List, [], ◌∷◌}
use native.Mathlib.Omega.{arith}
use creatidy_kernel.Base.Tests.{if◌then◌else◌, leb, ◌==◌, leb_text, nat_eq, string_eq}
use creatidy_kernel.Base.Lists.{is_empty, length, contains, any, all}

-- The characters that `str.strip` removes.
unfoldable pub is_space : ℕ → Bool
is_space c =
    (leb 9 c && leb c 13)
    || (leb 28 c && leb c 32)
    || c == 0x85
    || c == 0xa0
    || c == 0x1680
    || (leb 0x2000 c && leb c 0x200a)
    || c == 0x2028
    || c == 0x2029
    || c == 0x202f
    || c == 0x205f
    || c == 0x3000

-- `not s.strip()`
unfoldable pub is_blank : String → Bool
unfolding is_space
is_blank String.[] = true
is_blank (String.◌∷◌ c s) = is_space (code c) && is_blank s

abbrev pub NameSet : Type 0
NameSet = List String

insert_name : String → NameSet → NameSet
insert_name a [] = a ∷ []
insert_name a (x ∷ xs) =
    if a == x then x ∷ xs else if leb_text a x then a ∷ x ∷ xs else x ∷ insert_name a xs

-- `frozenset(xs)`
unfoldable pub name_set : List String → NameSet
unfolding insert_name leb_text
name_set [] = []
name_set (x ∷ xs) = insert_name x (name_set xs)

contains-insert_name :
    (a : String) (xs : List String) (b : String)
    → contains (insert_name a xs) b ≡ contains (a ∷ xs) b
unfolding insert_name
contains-insert_name a [] b = refl
contains-insert_name a (x ∷ xs) b = ground (arith, contains-insert_name a xs b)

-- A set has the members of the sequence that it was made from.
pub contains-name_set : (xs : List String) (b : String) → contains (name_set xs) b ≡ contains xs b
unfolding name_set
contains-name_set [] b = refl
contains-name_set (x ∷ xs) b =
    ground (arith, contains-insert_name x (name_set xs) b, contains-name_set xs b)

module _ {ℓ} {A : Type ℓ} (key : A → String) where
  insert_by : A → List A → List A
  insert_by a [] = a ∷ []
  insert_by a (x ∷ xs) = if leb_text (key a) (key x) then a ∷ x ∷ xs else x ∷ insert_by a xs

  -- `sorted(xs, key=key)`
  unfoldable pub sort_by : List A → List A
  unfolding insert_by leb_text
  sort_by [] = []
  sort_by (x ∷ xs) = insert_by x (sort_by xs)

  length-insert_by : (a : A) (xs : List A) → length (insert_by a xs) ≡ suc (length xs)
  unfolding insert_by
  length-insert_by a [] = refl
  length-insert_by a (x ∷ xs) = ground (arith, length-insert_by a xs)

  pub length-sort_by : (xs : List A) → length (sort_by xs) ≡ length xs
  unfolding sort_by
  length-sort_by [] = refl
  length-sort_by (x ∷ xs) = omega (arith, length-insert_by x (sort_by xs), length-sort_by xs)

  is_empty-insert_by : (a : A) (xs : List A) → is_empty (insert_by a xs) ≡ false
  unfolding insert_by
  is_empty-insert_by a [] = refl
  is_empty-insert_by a (x ∷ xs) = ground arith

  pub is_empty-sort_by : (xs : List A) → is_empty (sort_by xs) ≡ is_empty xs
  unfolding sort_by
  is_empty-sort_by [] = refl
  is_empty-sort_by (x ∷ xs) = is_empty-insert_by x (sort_by xs)

abbrev pub sorted : List String → List String
sorted = sort_by (λ s. s)

contains-insert_by :
    (a : String) (xs : List String) (b : String)
    → contains (insert_by (λ s. s) a xs) b ≡ contains (a ∷ xs) b
unfolding insert_by
contains-insert_by a [] b = refl
contains-insert_by a (x ∷ xs) b = ground (arith, contains-insert_by a xs b)

-- Sorting keeps the members.
pub contains-sorted : (xs : List String) (b : String) → contains (sorted xs) b ≡ contains xs b
unfolding sort_by
contains-sorted [] b = refl
contains-sorted (x ∷ xs) b =
    ground (arith, contains-insert_by x (sort_by (λ s. s) xs) b, contains-sorted xs b)

-- `a.isdisjoint(b)`, the negation of `a & b`
abbrev pub disjoint : List String → List String → Bool
disjoint xs ys = not (any (contains ys) xs)

-- `a <= b` on sets
abbrev pub subset : List String → List String → Bool
subset xs ys = all (contains ys) xs
