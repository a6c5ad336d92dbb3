-- ===== src/Store/Trusted.antt =====
-- The Programs that the store gives out: they have passed the checks of the codec.
use creatidy_kernel.Base.{
  is_blank, ℕ, ◌≤◌, ◌<◌, String, ◌≡◌, refl, sym, ap, ◌∙◌, subst, inl, inr, Bool, true, false, ◌&&◌,
  ◌||◌, not, Option, none, some, List, [], ◌∷◌, map, arith, Bool-cases, Option-cases, ltb, leb,
  ◌==◌, ◌!=◌, nat_eq, string_eq, names_eq, optional_eq, ==-sound, eq_of_ne, any, find_last?, All,
  contains, unique, In, here, there, raise_if, or_raise, >>=-eq-ok, >>-eq-ok, ok-injective,
  some-injective, or_raise-eq-ok, raise_if-eq-ok, value_error, program_not_found, corrupt_history,
  record_codec_error, Result, err, ok,
}
use creatidy_kernel.Domain.Checks.{Digest, json_eq}
use creatidy_kernel.Domain.Values.{
  program_status_eq, work_unit_status_eq, attempt_status_eq, domain_action_eq, policy_reference_eq,
  bindings_eq, subjects_eq, AttemptStatus,
}
use creatidy_kernel.Domain.Spec.{spec_digest, program_spec_eq, ProgramSpec}
use creatidy_kernel.Domain.Facts.{states_eq, Attempt, AttemptCancellation, ProgramConclusion}
use creatidy_kernel.Domain.Program.{Program}
use creatidy_kernel.Domain.Validation.{validate}
use creatidy_kernel.Domain.Validation.Valid.{validate-Valid, Valid}
use creatidy_kernel.Domain.Commands.{Command}
use creatidy_kernel.Journal.Tables.{operation_status_eq, observation_kind_eq, lookup_eq, Codec}
use creatidy_kernel.Store.Tables.{Store}
use creatidy_kernel.Store.Admission.{
  latest_row, projection, is_behind, decode_facts, load_head, load, admit, Intent, Guards,
}
use creatidy_kernel.Store.Codec.{
  is_cancelled, check_cancelled, check_conclusions, check_references, check_persisted,
  write_program, accepted_program, read_program, sqlite_codec, Texts,
}
use creatidy_kernel.Store.Decisions.{admit-cases}
use creatidy_kernel.Store.View.{recorded-result}

-- A cancelled Attempt that is on record.
abbrev pub IsRecorded : Program → AttemptCancellation → Type 0
IsRecorded p c =
    ((a : Attempt) × (In a p.attempts)
      × (a.spec.attempt_id ≡ c.attempt_id)
      × (a.status ≡ AttemptStatus.cancelled))
    × (c.record_order ≤ p.revision)

-- A conclusion that cites a specification of the history.
abbrev pub IsCited : Digest → Program → ProgramConclusion → Type 0
IsCited digest p c =
    ((s : ProgramSpec) × (In s p.spec_history)
      × (s.revision ≡ c.spec_revision)
      × (spec_digest digest s ≡ c.spec_digest))
    × (c.record_order ≤ p.revision)

-- The orders rise.
abbrev pub Rising : ℕ → List ProgramConclusion → Type 0
Rising previous [] = Unit
Rising previous (c ∷ rest) = (previous < c.record_order) × Rising c.record_order rest

abbrev pub recorded_ids : List AttemptCancellation → List String
recorded_ids = map (λ c. c.attempt_id)

pub record Trusted (digest : Digest) (p : Program) : Type 0 where
  pub valid : Valid digest p
  pub recorded_once : unique (recorded_ids p.attempt_cancellations) ≡ true
  pub recorded_all : All (IsRecorded p) p.attempt_cancellations
  pub cited_all : All (IsCited digest p) p.conclusions
  pub rising : Rising 0 p.conclusions

find_last-In :
    {A : Type 0} (f : A → Bool) (xs : List A) {x : A}
    → find_last? f xs ≡ some x
    → In x xs × (f x ≡ true)
find_last-In f [] h = absurd (cc h)
find_last-In f (y ∷ ys) h = elim (Option-cases (find_last? f ys)) [
  | inl none_later ↦ elim (Bool-cases (f y)) [
    | inl yes_y ↦
        let e = some-injective (rw (none_later, yes_y) at h) in
        (here e, subst (λ x. f x ≡ true) e yes_y)
    | inr no_y ↦ absurd (cc (rw (none_later, no_y) at h))
  ]
  | inr (z, later) ↦
      let e = some-injective (rw later at h) in
      let r = find_last-In f ys (later ∙ ap some e) in (there r.0, r.1)
]

any-In :
    {A : Type 0} (f : A → Bool) (xs : List A) → any f xs ≡ true → (x : A) × In x xs × (f x ≡ true)
any-In f [] h = absurd (cc h)
any-In f (y ∷ ys) h = elim (Bool-cases (f y)) [
  | inl yes_y ↦ (y, here refl, yes_y)
  | inr no_y ↦ let r = any-In f ys (ground (arith, h, no_y)) in (r.0, there r.1, r.2)
]

Unseen : List String → List AttemptCancellation → Type 0
Unseen seen = All (λ c. contains seen c.attempt_id ≡ false)

Unseen-cons :
    (x : String) (seen : List String) (cs : List AttemptCancellation)
    → Unseen (x ∷ seen) cs
    → (contains (recorded_ids cs) x ≡ false) × Unseen seen cs
unfolding Unseen
Unseen-cons x seen [] u = (refl, tt)
Unseen-cons x seen (c ∷ cs) u =
    let r = Unseen-cons x seen cs u.1 in (ground (arith, u.0, r.0), (ground (arith, u.0), r.1))

module _ (digest : Digest) (p : Program) where
  is_cancelled-IsRecorded :
      (c : AttemptCancellation)
      → is_cancelled digest p c ≡ true
      → (a : Attempt) × (In a p.attempts)
        × (a.spec.attempt_id ≡ c.attempt_id)
        × (a.status ≡ AttemptStatus.cancelled)
  unfolding is_cancelled
  is_cancelled-IsRecorded c h =
      elim (Option-cases (find_last? (λ a. a.spec.attempt_id == c.attempt_id) p.attempts)) [
        | inl e ↦ absurd (cc (rw (e, is_cancelled) at h))
        | inr (a, e) ↦
            let r = find_last-In (λ a. a.spec.attempt_id == c.attempt_id) p.attempts e in
            let s : (a.status == AttemptStatus.cancelled) ≡ true = rw (e, is_cancelled) at h in
            (a, r.0, ==-sound a.spec.attempt_id c.attempt_id r.1, ==-sound _ _ s)
      ]

  check_cancelled_sound :
      (seen : List String) (cs : List AttemptCancellation)
      → check_cancelled digest p seen cs ≡ ok tt
      → (unique (recorded_ids cs) ≡ true) × All (IsRecorded p) cs × Unseen seen cs
  unfolding check_cancelled Unseen
  check_cancelled_sound seen [] h = (refl, tt, tt)
  check_cancelled_sound seen (c ∷ cs) h =
      let a = >>-eq-ok (raise_if (not (is_cancelled digest p c)) record_codec_error) _ h in
      let b = >>-eq-ok (raise_if (contains seen c.attempt_id) record_codec_error) _ a.1 in
      let d = >>-eq-ok (raise_if (ltb p.revision c.record_order) record_codec_error) _ b.1 in
      let r = check_cancelled_sound (c.attempt_id ∷ seen) cs d.1 in
      let u = Unseen-cons c.attempt_id seen cs (unfold Unseen in r.2) in
      let yes_c : is_cancelled digest p c ≡ true = ground (arith, raise_if-eq-ok _ _ a.0) in
      (
        ground (arith, u.0, r.0),
        ((is_cancelled-IsRecorded c yes_c, ground (arith, raise_if-eq-ok _ _ d.0)), r.1),
        (raise_if-eq-ok _ _ b.0, u.1),
      )

  check_conclusions_sound :
      (previous : ℕ) (cs : List ProgramConclusion)
      → check_conclusions digest p previous cs ≡ ok tt
      → All (IsCited digest p) cs × Rising previous cs
  unfolding check_conclusions
  check_conclusions_sound previous [] h = (tt, tt)
  check_conclusions_sound previous (c ∷ cs) h =
      let cites : ProgramSpec → Bool =
        λ s. s.revision == c.spec_revision && spec_digest digest s == c.spec_digest in
      let a = >>-eq-ok (raise_if (not (any cites p.spec_history)) record_codec_error) _ h in
      let b = >>-eq-ok (raise_if (ltb p.revision c.record_order) record_codec_error) _ a.1 in
      let d = >>-eq-ok (raise_if (leb c.record_order previous) record_codec_error) _ b.1 in
      let r = check_conclusions_sound c.record_order cs d.1 in
      let s = any-In cites p.spec_history (ground (arith, raise_if-eq-ok _ _ a.0)) in
      (
        (
          (
            (s.0, s.1, ground (arith, s.2), ground (arith, s.2)),
            ground (arith, raise_if-eq-ok _ _ b.0),
          ),
          r.0,
        ),
        (ground (arith, raise_if-eq-ok _ _ d.0), r.1),
      )

  check_persisted-Trusted : check_persisted digest p ≡ ok tt → Trusted digest p
  unfolding check_persisted check_references
  check_persisted-Trusted h =
      let a = >>-eq-ok (validate digest p) _ h in
      let b = >>-eq-ok (check_cancelled digest p [] p.attempt_cancellations) _ a.1 in
      let c = check_cancelled_sound [] p.attempt_cancellations b.0 in
      let d = check_conclusions_sound 0 p.conclusions b.1 in
      record {
        valid = validate-Valid digest p a.0;
        recorded_once = c.0;
        recorded_all = c.1;
        cited_all = d.0;
        rising = d.1;
      }

module _ {Facts Input : Type 0} (digest : Digest) (texts : Texts Facts Input) where
  accepted-Trusted :
      (ident : String) (q : Program) {p : Program}
      → accepted_program digest texts (ident, q) ≡ some p
      → Trusted digest p
  unfolding accepted_program
  accepted-Trusted ident q {p} h = elim (Bool-cases (q.spec.program_id != ident)) [
    | inl foreign ↦ absurd (cc (rw foreign at h))
    | inr own ↦ by_check (check_persisted digest q) refl (rw own at h)
  ]
    where
      by_check :
          (r : Result (Unit {0}))
          → check_persisted digest q ≡ r
          → (elim r as (λ _. Option Program) [ err e ↦ none | ok checked ↦ some q ]) ≡ some p
          → Trusted digest p
      by_check (err e) k h = absurd (cc h)
      by_check (ok tt) k h =
          subst (Trusted digest) (some-injective h) (check_persisted-Trusted digest q k)

  read_program-Trusted :
      (raw : Facts) {p : Program} → read_program digest texts raw ≡ some p → Trusted digest p
  unfolding read_program
  read_program-Trusted raw h = elim (Option-cases (texts.loads_program raw)) [
    | inl e ↦ absurd (cc (rw (e, read_program) at h))
    | inr (r, e) ↦ accepted-Trusted r.0 r.1 (rw (e, read_program) at h)
  ]

  write_program-Trusted :
      (p : Program) {raw : Facts} → write_program digest texts p ≡ ok raw → Trusted digest p
  unfolding write_program
  write_program-Trusted p h =
      check_persisted-Trusted digest p (>>-eq-ok (check_persisted digest p) _ h).0

-- Whatever the rows of the store hold, a load that returns gives a Program under the identifier
-- that is asked for which is valid, whose cancellations name distinct cancelled Attempts of it,
-- whose conclusions cite specifications of its history in rising order, and whose revision no such
-- record is beyond.
pub load-Trusted :
    {Facts Input : Type 0} (digest : Digest) (texts : Texts Facts Input) (store : Store Facts Input)
    (ident : String) {p : Program}
    → load (sqlite_codec digest texts) store ident ≡ ok p
    → Trusted digest p × (p.spec.program_id ≡ ident)
unfolding load load_head decode_facts
load-Trusted digest texts store ident {p} h =
    let codec = sqlite_codec digest texts in
    let a = >>-eq-ok (raise_if (is_blank ident) value_error) _ h in
    let b = >>=-eq-ok (or_raise (projection store ident) program_not_found) _ a.1 in
    let c =
      >>-eq-ok (raise_if (codec.sha256 b.0.program_json != b.0.facts_digest) corrupt_history) _
        b.2 in
    let d = >>=-eq-ok (decode_facts codec b.0.program_json ident b.0.aggregate_revision) _ c.1 in
    let e = >>-eq-ok (raise_if (is_behind b.0 (latest_row store ident)) corrupt_history) _ d.2 in
    let same_program : d.0 ≡ p = ok-injective e.1 in
    let f = >>=-eq-ok (or_raise (codec.program_from_json b.0.program_json) corrupt_history) _ d.1 in
    let g =
      >>-eq-ok
        (raise_if (f.0.spec.program_id != ident || f.0.revision != b.0.aggregate_revision)
          corrupt_history)
        _ f.2 in
    let same_read : f.0 ≡ p = ok-injective g.1 ∙ same_program in
    let t =
      read_program-Trusted digest texts b.0.program_json
        (or_raise-eq-ok (codec.program_from_json b.0.program_json) corrupt_history f.1) in
    let named : (f.0.spec.program_id != ident) ≡ false = ground (arith, raise_if-eq-ok _ _ g.0) in
    (
      subst (Trusted digest) same_read t,
      ap (λ q. q.spec.program_id) (sym same_read) ∙ eq_of_ne _ _ named,
    )

-- Whatever the rows of the store hold, the Program that an admission returns, one recorded under
-- its key or a new one, is valid, its cancellations name distinct cancelled Attempts of it, its
-- conclusions cite specifications of its history in rising order, and no such record is beyond its
-- revision.
pub admit-Trusted :
    {Facts Input : Type 0} (digest : Digest) (texts : Texts Facts Input) (requests : Codec)
    (guards : Guards Facts Input) (store : Store Facts Input) (ident key : String) (c : Command)
    (intent : Option Intent) {after : Store Facts Input} {p : Program}
    → admit (sqlite_codec digest texts) requests guards digest store ident key c intent
      ≡ ok (after, p)
    → Trusted digest p
admit-Trusted digest texts requests guards store ident key c intent {after} {p} h =
    elim (admit-cases (sqlite_codec digest texts) requests guards digest store ident key c intent
      h) [
        | inl (again, r) ↦
            read_program-Trusted digest texts r.row.result_json
              (recorded-result (sqlite_codec digest texts) r.row _ r.result).1
        | inr (d, absent) ↦ write_program-Trusted digest texts p d.encoded
      ]
