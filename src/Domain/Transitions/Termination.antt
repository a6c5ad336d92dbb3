-- ===== src/Domain/Transitions/Termination.antt =====
-- The fuel of the branches of `Program.apply` up to `CancelAttempt`.
use creatidy_kernel.Base.{
  contains-name_set, ℕ, ◌≤◌, ◌<◌, String, ◌≡◌, sym, ◌∙◌, subst, Bool, true, ◌&&◌, Option, none,
  some, List, [], ◌∷◌, map, arith, nat_eq, string_eq, names_eq, optional_eq, select, count_if,
  In-map, In-select, contains, contains_of_In, In, here, there, >>=-eq-ok, ok-injective, map_m,
  Ends-ok, Ends-raise_if, Ends-bind, Ends-map_m, ends_rules, illegal_transition, ok, Ends,
}
use creatidy_kernel.Domain.Checks.{Digest, json_eq}
use creatidy_kernel.Domain.Values.{
  program_status_eq, work_unit_status_eq, attempt_status_eq, domain_action_eq, policy_reference_eq,
  bindings_eq, subjects_eq, AttemptStatus,
}
use creatidy_kernel.Domain.Topology.{WorkUnit}
use creatidy_kernel.Domain.Topology.Termination.{topological_order-Ends}
use creatidy_kernel.Domain.Spec.{work_unit, program_spec_eq, ProgramSpec}
use creatidy_kernel.Domain.Spec.Termination.{fingerprint-Ends}
use creatidy_kernel.Domain.Facts.{
  attempt_of, is_live, work_unit_cancellation, attempt_cancellation, states_eq, AttemptSpec,
  Attempt, WorkUnitCancellation, AttemptCancellation,
}
use creatidy_kernel.Domain.Projection.Termination.{resolved_inputs-Ends}
use creatidy_kernel.Domain.Program.{attempt, program_inputs, Program}
use creatidy_kernel.Domain.Transitions.{
  replace_if, is_cancelled_by, cancelled_ids, cancel_live, cancel, descendants, abandonment,
  cancel_unit, check_remediation, check_admission, check_request, prepare, replace_status, start,
  finish, fail, cancel_one,
}
use creatidy_kernel.Domain.Transitions.Attempts.{replace_if-eq-ok}

module _ (chosen : Attempt → Bool) where
  -- The cancellation leaves no more live Attempts than there were.
  live-le :
      (xs ys : List Attempt)
      → map_m (replace_if chosen AttemptStatus.cancelled) xs ≡ ok ys
      → count_if is_live ys ≤ count_if is_live xs
  live-le [] ys h = subst (λ l. count_if is_live l ≤ 0) (ok-injective h) (omega arith)
  live-le (a ∷ xs) ys h =
      let f = replace_if chosen AttemptStatus.cancelled in
      let b = >>=-eq-ok (f a) _ h in
      let bs = >>=-eq-ok (map_m f xs) _ b.2 in
      let e = replace_if-eq-ok chosen AttemptStatus.cancelled a b.1 in
      subst (λ l. count_if is_live l ≤ count_if is_live (a ∷ xs)) (ok-injective bs.2)
        (ground (arith, e, live-le xs bs.0 bs.1))

  -- It leaves fewer where a chosen one is live.
  live-lt :
      (xs ys : List Attempt) {a : Attempt}
      → In a xs
      → chosen a && is_live a ≡ true
      → map_m (replace_if chosen AttemptStatus.cancelled) xs ≡ ok ys
      → count_if is_live ys < count_if is_live xs
  live-lt [] ys m c h = elim m [ ]
  live-lt (x ∷ xs) ys m c h =
      let f = replace_if chosen AttemptStatus.cancelled in
      let b = >>=-eq-ok (f x) _ h in
      let bs = >>=-eq-ok (map_m f xs) _ b.2 in
      let e = replace_if-eq-ok chosen AttemptStatus.cancelled x b.1 in
      subst (λ l. count_if is_live l < count_if is_live (x ∷ xs)) (ok-injective bs.2)
        (elim m [
          | here same ↦ ground (
            arith,
            e,
            subst (λ q. chosen q && is_live q ≡ true) (sym same) c,
            live-le xs bs.0 bs.1,
          )
          | there later ↦ ground (arith, e, live-lt xs bs.0 later c bs.1)
        ])

pub attempt_of-Ends :
    (spec : AttemptSpec) (status : AttemptStatus) (actor : String)
    → Ends (attempt_of spec status actor)
unfolding attempt_of
attempt_of-Ends spec status actor = search (ends_rules, tt) depth 20

replace_if-Ends :
    (chosen : Attempt → Bool) (status : AttemptStatus) (a : Attempt)
    → Ends (replace_if chosen status a)
replace_if-Ends chosen status a = search (ends_rules, attempt_of-Ends) depth 20

attempt_cancellation-Ends :
    (ident actor reason : String) (order : ℕ) → Ends (attempt_cancellation ident actor reason order)
unfolding attempt_cancellation
attempt_cancellation-Ends ident actor reason order = search (ends_rules, tt) depth 20

pub cancel_live-Ends :
    (idents : List String) (reason actor : String) (order : ℕ) (attempts : List Attempt)
    (records : List AttemptCancellation)
    → Ends (cancel_live idents reason actor order attempts records)
unfolding cancel_live
cancel_live-Ends idents reason actor order attempts records =
    let gone = cancelled_ids idents attempts in
    Ends-bind
      (map_m (replace_if (λ a. contains gone a.spec.attempt_id) AttemptStatus.cancelled) attempts) _
      (Ends-map_m _ attempts (replace_if-Ends _ _))
      (λ xs _.
        Ends-bind (map_m (λ ident. attempt_cancellation ident actor reason order) gone) _
          (Ends-map_m _ gone (λ i. attempt_cancellation-Ends i actor reason order))
          (λ ys _. Ends-ok _))

cancelled_ids-member :
    (idents : List String) (attempts : List Attempt) {a : Attempt}
    → In a attempts
    → is_cancelled_by idents a ≡ true
    → contains (cancelled_ids idents attempts) a.spec.attempt_id && is_live a ≡ true
unfolding cancelled_ids
cancelled_ids-member idents attempts {a} m c =
    let members =
      map (λ (b : Attempt). b.spec.attempt_id) (select (is_cancelled_by idents) attempts) in
    let k =
      contains-name_set members a.spec.attempt_id
      ∙ contains_of_In members
          (In-map (λ b. b.spec.attempt_id) (In-select (is_cancelled_by idents) attempts m c)) in
    rw k (ground (arith, c))

pub cancel_live-lt :
    (idents : List String) (reason actor : String) (order : ℕ) (attempts : List Attempt)
    (records : List AttemptCancellation) {r : List Attempt × List AttemptCancellation} {a : Attempt}
    → In a attempts
    → is_cancelled_by idents a ≡ true
    → cancel_live idents reason actor order attempts records ≡ ok r
    → count_if is_live r.0 < count_if is_live attempts
unfolding cancel_live
cancel_live-lt idents reason actor order attempts records m c h =
    let gone = cancelled_ids idents attempts in
    let chosen : (Attempt → Bool) = λ a. contains gone a.spec.attempt_id in
    let xs = >>=-eq-ok (map_m (replace_if chosen AttemptStatus.cancelled) attempts) _ h in
    let ys =
      >>=-eq-ok (map_m (λ ident. attempt_cancellation ident actor reason order) gone) _ xs.2 in
    subst (λ r. count_if is_live r.0 < count_if is_live attempts) (ok-injective ys.2)
      (live-lt chosen attempts xs.0 m (cancelled_ids-member idents attempts m c) xs.1)

pub cancel-Ends : (p : Program) (actor : String) → Ends (cancel p actor)
unfolding cancel
cancel-Ends p actor = search (ends_rules, cancel_live-Ends, tt) depth 20

descendants-Ends :
    (spec : ProgramSpec) (order affected : List String) → Ends (descendants spec order affected)
unfolding descendants
descendants-Ends spec [] affected = Ends-ok affected
descendants-Ends spec (ident ∷ rest) affected =
    Ends-bind (work_unit spec ident) _ (search (ends_rules, tt))
      (λ unit _. descendants-Ends spec rest _)

work_unit_cancellation-Ends : (c : WorkUnitCancellation) → Ends (work_unit_cancellation c)
unfolding work_unit_cancellation
work_unit_cancellation-Ends c = search (ends_rules, tt) depth 20

abandonment-Ends :
    (digest : Digest) (p : Program) (actor ident reason : String)
    → Ends (abandonment digest p actor ident reason)
unfolding abandonment
abandonment-Ends digest p actor ident reason =
    search
      (
        ends_rules, topological_order-Ends, descendants-Ends, fingerprint-Ends,
        work_unit_cancellation-Ends, tt,
      )
      depth 30

pub cancel_unit-Ends :
    (digest : Digest) (p : Program) (actor ident reason : String)
    → Ends (cancel_unit digest p actor ident reason)
unfolding cancel_unit
cancel_unit-Ends digest p actor ident reason =
    search (ends_rules, abandonment-Ends, cancel_live-Ends) depth 30

check_remediation-Ends :
    (digest : Digest) (p : Program) (unit : WorkUnit) (origin : Option String)
    → Ends (check_remediation digest p unit origin)
unfolding check_remediation
check_remediation-Ends digest p unit none = Ends-ok tt
check_remediation-Ends digest p unit (some origin) =
    Ends-bind (attempt p origin) _ (search (ends_rules, tt))
      (λ source _. Ends-raise_if _ illegal_transition tt)

program_inputs-Ends : (p : Program) (ident : String) → Ends (program_inputs p ident)
unfolding program_inputs
program_inputs-Ends p ident = search (ends_rules, resolved_inputs-Ends, tt) depth 20

check_request-Ends :
    (digest : Digest) (p : Program) (requested : AttemptSpec)
    → Ends (check_request digest p requested)
unfolding check_request
check_request-Ends digest p requested =
    search (ends_rules, program_inputs-Ends, check_remediation-Ends, tt) depth 40 fits 30000

pub prepare-Ends :
    (digest : Digest) (p : Program) (actor : String) (requested : AttemptSpec)
    → Ends (prepare digest p actor requested)
unfolding prepare check_admission
prepare-Ends digest p actor requested =
    search (ends_rules, check_request-Ends, attempt_of-Ends, tt) depth 30

replace_status-Ends :
    (p : Program) (ident : String) (status : AttemptStatus) → Ends (replace_status p ident status)
unfolding replace_status
replace_status-Ends p ident status = search (ends_rules, replace_if-Ends) depth 20

pub start-Ends : (p : Program) (ident : String) → Ends (start p ident)
unfolding start
start-Ends p ident = search (ends_rules, replace_status-Ends, tt) depth 20

pub finish-Ends : (p : Program) (ident : String) → Ends (finish p ident)
unfolding finish
finish-Ends p ident = search (ends_rules, replace_status-Ends, tt) depth 20

pub fail-Ends : (p : Program) (ident : String) → Ends (fail p ident)
unfolding fail
fail-Ends p ident = search (ends_rules, replace_status-Ends, tt) depth 20

pub cancel_one-Ends : (p : Program) (actor ident : String) → Ends (cancel_one p actor ident)
unfolding cancel_one
cancel_one-Ends p actor ident = search (ends_rules, cancel_live-Ends, tt) depth 20

pub ruleset transitions_end = (
  cancel-Ends, cancel_unit-Ends, prepare-Ends, start-Ends, finish-Ends, fail-Ends, cancel_one-Ends,
)
