-- ===== src/Ownership/Texts.antt =====
-- `str.startswith` and `str.split`, character by character.
use Prim.Native.Char.{Char}
use Prim.Native.String.{String, [], ◌∷◌}
use mathlib.Core.List as Lists
use mathlib.Core.List.{List}
use creatidy_kernel.Base.{
  String_discrete, ◌≡◌, sym, ◌∙◌, subst, ◌⊎◌, inl, inr, Bool, true, false, ◌&&◌, ◌||◌, arith,
  if◌then◌else◌, Bool-cases, ◌==◌, nat_eq, string_eq, names_eq, optional_eq, ==-sound, ==-refl,
}
use creatidy_kernel.Domain.Checks.{json_eq}
use creatidy_kernel.Domain.Values.{
  program_status_eq, work_unit_status_eq, attempt_status_eq, domain_action_eq, policy_reference_eq,
  bindings_eq, subjects_eq,
}
use creatidy_kernel.Domain.Spec.{program_spec_eq}
use creatidy_kernel.Domain.Facts.{states_eq}
use creatidy_kernel.Domain.Transitions.{start}

unfoldable pub is_same_char : Char → Char → Bool
is_same_char c d = (c ∷ []) == (d ∷ [])

-- `text.startswith(start)`
unfoldable pub starts_with : String → String → Bool
starts_with word [] = true
starts_with [] (c ∷ start) = false
starts_with (d ∷ word) (c ∷ start) = is_same_char d c && starts_with word start

-- `text + "/"`
unfoldable pub slashed : String → String
slashed [] = "/"
slashed (c ∷ word) = c ∷ slashed word

-- A path lies in the tree under another one.
unfoldable pub is_within : String → String → Bool
is_within path root = path == root || starts_with path (slashed root)

-- `text.split("/")`: the first part and the others
unfoldable pub split_first : String → String × List String
split_first [] = ([], Lists.[])
split_first (c ∷ word) =
    let rest = split_first word in
    if is_same_char c "/" then ([], Lists.◌∷◌ rest.0 rest.1) else (c ∷ rest.0, rest.1)

is_same_char-eq : (c d : Char) → is_same_char c d ≡ true → c ≡ d
unfolding is_same_char
is_same_char-eq c d h = let e = ==-sound (c ∷ []) (d ∷ []) h in cc

is_same_char_refl : (c : Char) → is_same_char c c ≡ true
unfolding is_same_char
is_same_char_refl c = ==-refl (c ∷ [])

within_refl : (path : String) → is_within path path ≡ true
unfolding is_within
within_refl path = ground (arith, ==-refl path)

within-tail :
    (z : Char) (path : String) (x : Char) (a : String)
    → is_within (z ∷ path) (x ∷ a) ≡ true
    → (z ≡ x) × (is_within path a ≡ true)
unfolding is_within starts_with slashed
within-tail z path x a h = elim (Bool-cases ((z ∷ path) == (x ∷ a))) [
  | inl same_text ↦
      let e = ==-sound (z ∷ path) (x ∷ a) same_text in
      let t : path ≡ a = cc e in (cc e, subst (λ a. is_within path a ≡ true) t (within_refl path))
  | inr other ↦ (is_same_char-eq z x (ground (arith, h, other)), ground (arith, h, other))
]

within-cons :
    (z : Char) (path : String) (x : Char) (a : String)
    → z ≡ x
    → is_within path a ≡ true
    → is_within (z ∷ path) (x ∷ a) ≡ true
unfolding is_within starts_with slashed
within-cons z path x a e h = elim (Bool-cases (path == a)) [
  | inl same_text ↦
      let t = ==-sound path a same_text in
      let both : (z ∷ path) ≡ (x ∷ a) = cc (e, t) in ground (arith, both)
  | inr other ↦
      ground (arith, subst (λ x. is_same_char z x ≡ true) e (is_same_char_refl z), h, other)
]

within-nothing : (x : Char) (a : String) → is_within [] (x ∷ a) ≡ true → ⊥
unfolding is_within starts_with slashed String_discrete
within-nothing x a h =
    let e : [] ≡ (x ∷ a) = ==-sound [] (x ∷ a) (ground (arith, h)) in absurd (cc e)

-- What the root of all paths holds starts with a slash.
within-root :
    (z : Char) (path b : String) → is_within (z ∷ path) [] ≡ true → is_within (z ∷ b) [] ≡ true
unfolding is_within starts_with slashed
within-root z path b h = elim (Bool-cases ((z ∷ path) == [])) [
  | inl empty_text ↦ let e = ==-sound (z ∷ path) [] empty_text in absurd (cc e)
  | inr other ↦ ground (arith, h, other)
]

-- Two trees that share a path: one lies in the other.
pub nested :
    (path a b : String)
    → is_within path a ≡ true
    → is_within path b ≡ true
    → (is_within a b ≡ true) ⊎ (is_within b a ≡ true)
nested path [] [] h k = inl (within_refl [])
nested [] [] (y ∷ b) h k = absurd (within-nothing y b k)
nested (z ∷ path) [] (y ∷ b) h k =
    let t = within-tail z path y b k in
    inr (subst (λ y. is_within (y ∷ b) [] ≡ true) t.0 (within-root z path b h))
nested [] (x ∷ a) [] h k = absurd (within-nothing x a h)
nested (z ∷ path) (x ∷ a) [] h k =
    let t = within-tail z path x a h in
    inl (subst (λ x. is_within (x ∷ a) [] ≡ true) t.0 (within-root z path a k))
nested [] (x ∷ a) (y ∷ b) h k = absurd (within-nothing x a h)
nested (z ∷ path) (x ∷ a) (y ∷ b) h k =
    let t = within-tail z path x a h in
    let u = within-tail z path y b k in
    elim (nested path a b t.1 u.1) [
      | inl left ↦ inl (within-cons x a y b (sym t.0 ∙ u.0) left)
      | inr right ↦ inr (within-cons y b x a (sym u.0 ∙ t.0) right)
    ]
