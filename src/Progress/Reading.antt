-- ===== src/Progress/Reading.antt =====
-- What `ProgressBuffer.read` of `core/served.py` delivers to a reader.
use creatidy_kernel.Base.{
  ℕ, zero, suc, ◌+◌, ◌≤◌, ◌≡◌, refl, sym, ap, ◌∙◌, subst, ◌⊎◌, inl, inr, Bool, true, false, ◌&&◌,
  ◌||◌, not, some, List, [], ◌∷◌, arith, Bool-cases, ltb, leb, ◌!=◌, nat_eq, string_eq, names_eq,
  optional_eq, length, is_empty, any, select, In, here, there, some-injective, In-select-inv,
}
use creatidy_kernel.Domain.Checks.{json_eq}
use creatidy_kernel.Domain.Values.{
  program_status_eq, work_unit_status_eq, attempt_status_eq, domain_action_eq, policy_reference_eq,
  bindings_eq, subjects_eq,
}
use creatidy_kernel.Domain.Spec.{program_spec_eq}
use creatidy_kernel.Domain.Facts.{states_eq}
use creatidy_kernel.Progress.{
  first_of, is_resync, position_after, has_lost, batch_of, read, ProgressPosition, ProgressEvent,
  ProgressBatch, ProgressBuffer,
}
use creatidy_kernel.Progress.Buffer.{Follows, Owned, IsValid}

select_later :
    (n b : ℕ) (es : List ProgressEvent)
    → Follows b es
    → n ≤ b
    → select (λ e. ltb n e.position.sequence) es ≡ es
select_later n b [] f l = refl
select_later n b (e ∷ es) f l =
    let later : ltb n e.position.sequence ≡ true = ground (arith, f.0, l) in
    rw (later, select_later n (b + 1) es f.1 (omega (arith, l))) refl

-- What comes after the position is the rest of the events, to the last.
Follows-select :
    (b n : ℕ) (es : List ProgressEvent)
    → Follows b es
    → b ≤ n
    → n ≤ b + length es
    → Follows n (select (λ e. ltb n e.position.sequence) es)
      × (n + length (select (λ e. ltb n e.position.sequence) es) ≡ b + length es)
Follows-select b n [] f l m = (tt, omega arith)
Follows-select b n (e ∷ es) f l m = elim (Bool-cases (ltb n e.position.sequence)) [
  | inl later ↦
      let same : n ≡ b = ground (arith, later, f.0, l) in
      let every = select_later n (b + 1) es f.1 (omega (arith, same)) in
      rw (later, every)
        (
          (omega (arith, f.0, same), subst (λ k. Follows (k + 1) es) (sym same) f.1),
          omega (arith, same),
        )
  | inr earlier ↦
      let r = Follows-select (b + 1) n es f.1 (ground (arith, earlier, f.0)) (omega (arith, m)) in
      rw earlier (r.0, omega (arith, r.1))
]

Follows-first_of :
    (k n : ℕ) (es : List ProgressEvent)
    → Follows n es
    → Follows n (first_of k es) × ((length (first_of k es) ≡ k) ⊎ (first_of k es ≡ es))
unfolding first_of
Follows-first_of zero n es f = (tt, inl refl)
Follows-first_of (suc k) n [] f = (tt, inr refl)
Follows-first_of (suc k) n (e ∷ es) f =
    let r = Follows-first_of k (n + 1) es f.1 in ((f.0, r.0), ground (arith, r.1))

position_after-sequence :
    (n : ℕ) (es : List ProgressEvent) (after : ProgressPosition)
    → after.sequence ≡ n
    → Follows n es
    → (position_after es after).sequence ≡ n + length es
unfolding position_after
position_after-sequence n [] after h f = omega (arith, h)
position_after-sequence n (e ∷ es) after h f =
    omega (arith, position_after-sequence (n + 1) es e.position f.0 f.1)

-- The end of a read that tells of no gap.
batch_of_complete :
    (current after : ProgressPosition) (events : List ProgressEvent)
    → (batch_of current after events).gap ≡ false
    → batch_of current after events
      ≡ record { events = events; position = position_after events after; gap = false }
unfolding batch_of
batch_of_complete current after events h = elim (Bool-cases (any is_resync events)) [
  | inl yes_r ↦ absurd (cc (rw yes_r at h))
  | inr no_r ↦ rw no_r refl
]

In-first_of : (k : ℕ) (es : List ProgressEvent) {e : ProgressEvent} → In e (first_of k es) → In e es
unfolding first_of
In-first_of zero es m = elim m [ ]
In-first_of (suc k) [] m = m
In-first_of (suc k) (x ∷ es) (here h) = here h
In-first_of (suc k) (x ∷ es) (there m) = there (In-first_of k es m)

In-Owned :
    (p : ProgressPosition) (es : List ProgressEvent) {e : ProgressEvent}
    → Owned p es
    → In e es
    → (e.position.producer ≡ p.producer) × (e.position.scope ≡ p.scope)
In-Owned p [] o m = elim m [ ]
In-Owned p (x ∷ es) o (here h) =
    subst (λ e. (e.position.producer ≡ p.producer) × (e.position.scope ≡ p.scope)) h (o.0, o.1)
In-Owned p (x ∷ es) o (there m) = In-Owned p es o.2 m

-- The position after events is the one before them, or that of one of them.
position_after-cases :
    (es : List ProgressEvent) (after : ProgressPosition)
    → (position_after es after ≡ after)
      ⊎ ((e : ProgressEvent) × (In e es) × (position_after es after ≡ e.position))
unfolding position_after
position_after-cases [] after = inl refl
position_after-cases (e ∷ es) after = elim (position_after-cases es e.position) [
  | inl at_first ↦ inr (e, here refl, at_first)
  | inr (last, m, at_last) ↦ inr (last, there m, at_last)
]

-- What the reader of a batch without a gap knows: the events and the position to go on from.
pub record Delivered (b : ProgressBuffer) (after : ProgressPosition) (limit : ℕ)
    (batch : ProgressBatch) : Type 0 where
  pub same_producer : after.producer ≡ b.position.producer
  pub same_scope : after.scope ≡ b.position.scope
  pub follows : Follows after.sequence batch.events
  pub held : (e : ProgressEvent) → In e batch.events → In e b.events
  pub next_sequence : batch.position.sequence ≡ after.sequence + length batch.events
  pub next_producer : batch.position.producer ≡ b.position.producer
  pub next_scope : batch.position.scope ≡ b.position.scope
  pub ended : (length batch.events ≡ limit) ⊎ (batch.position.sequence ≡ b.position.sequence)

delivered :
    (b : ProgressBuffer) (after : ProgressPosition) (limit : ℕ)
    → IsValid b
    → after.producer ≡ b.position.producer
    → after.scope ≡ b.position.scope
    → ltb b.position.sequence after.sequence ≡ false
    → has_lost b.events after ≡ false
    → let events = first_of limit (select (λ e. ltb after.sequence e.position.sequence) b.events) in
      Delivered b after limit
        (record { events = events; position = position_after events after; gap = false })
unfolding has_lost
delivered b after limit v own_producer own_scope ahead lost =
    let rest = select (λ e. ltb after.sequence e.position.sequence) b.events in
    let s =
      Follows-select v.lost after.sequence b.events v.follows
        (lost_before b.events v.follows v.complete v.unused lost)
        (ground (arith, ahead, v.complete)) in
    let t = Follows-first_of limit after.sequence rest s.0 in
    let u = position_after-sequence after.sequence (first_of limit rest) after refl t.0 in
    let inside : (e : ProgressEvent) → In e (first_of limit rest) → In e b.events =
      λ e m. (In-select-inv _ b.events (In-first_of limit rest m)).0 in
    let place = next_place (first_of limit rest) inside in
    record {
      same_producer = own_producer;
      same_scope = own_scope;
      follows = t.0;
      held = inside;
      next_sequence = u;
      next_producer = place.0;
      next_scope = place.1;
      ended = ending t.1 u (s.1 ∙ v.complete);
    }
  where
    next_place :
        (es : List ProgressEvent)
        → ((e : ProgressEvent) → In e es → In e b.events)
        → ((position_after es after).producer ≡ b.position.producer)
          × ((position_after es after).scope ≡ b.position.scope)
    next_place es inside = elim (position_after-cases es after) [
      | inl stays ↦ rw stays (own_producer, own_scope)
      | inr (e, m, moved) ↦ rw moved (In-Owned b.position b.events v.owned (inside e m))
    ]

    lost_before :
        (es : List ProgressEvent)
        → Follows v.lost es
        → v.lost + length es ≡ b.position.sequence
        → (is_empty es ≡ true → b.position.sequence ≡ 0)
        → has_lost es after ≡ false
        → v.lost ≤ after.sequence
    lost_before [] f c z k = omega (arith, c, z refl)
    lost_before (e ∷ es) f c z k = ground (arith, f.0, k)

    ending :
        {es rest : List ProgressEvent} {n : ℕ}
        → (length es ≡ limit) ⊎ (es ≡ rest)
        → n ≡ after.sequence + length es
        → after.sequence + length rest ≡ b.position.sequence
        → (length es ≡ limit) ⊎ (n ≡ b.position.sequence)
    ending (inl k) u c = inl k
    ending (inr k) u c = inr (omega (arith, u, c, ap length k))

-- At a valid buffer, a reader who is told of no gap asks with the buffer's own producer and scope,
-- gets events of the buffer, those that come right after its position, one by one, up to the limit
-- or to the last one, and the position to go on from, with the same producer and scope.
pub read-Delivered :
    (b : ProgressBuffer) (after : ProgressPosition) (limit : ℕ) {batch : ProgressBatch}
    → IsValid b
    → read b after limit ≡ some batch
    → batch.gap ≡ false
    → Delivered b after limit batch
unfolding read
read-Delivered b after limit {batch} v h g =
    elim (Bool-cases (not (leb 1 limit && leb limit 4096))) [
      | inl bad ↦ absurd (cc (rw bad at h))
      | inr good ↦ elim (Bool-cases told) [
        | inl yes_t ↦
            absurd
              (cc (g, ap (λ (x : ProgressBatch). x.gap) (some-injective (rw (good, yes_t) at h))))
        | inr no_t ↦
            let e = some-injective (rw (good, no_t) at h) in
            let c =
              batch_of_complete b.position after events (ap (λ (x : ProgressBatch). x.gap) e ∙ g) in
            subst (Delivered b after limit) (sym c ∙ e) (
              delivered b after limit v (ground (arith, no_t)) (ground (arith, no_t))
                (ground (arith, no_t)) (ground (arith, no_t)))
      ]
    ]
  where
    told : Bool
    told =
        after.producer != b.position.producer
        || after.scope != b.position.scope
        || ltb b.position.sequence after.sequence
        || has_lost b.events after

    events : List ProgressEvent
    events = first_of limit (select (λ e. ltb after.sequence e.position.sequence) b.events)
