-- ===== src/Progress/Buffer.antt =====
-- The events that a progress buffer holds: `__init__` and `append` of `core/served.py`.
use creatidy_kernel.Base.{
  ℕ, ◌+◌, ◌≤◌, String, ◌≡◌, refl, sym, ap, ◌∙◌, subst, ◌≢◌, ◌⊎◌, inl, inr, true, false, ◌&&◌, not,
  none, some, List, [], ◌∷◌, ◌++◌, arith, Bool-cases, Option-cases, ltb, leb, length, length-append,
  is_empty, some-injective,
}
use creatidy_kernel.Domain.Spec.{producer}
use creatidy_kernel.Domain.Validation.{position}
use creatidy_kernel.Progress.{
  progress_position, progress_event, new_buffer, push, append, ProgressPosition, ProgressEvent,
  ProgressBuffer,
}

-- The events have the sequences that come after `n`, one by one.
abbrev pub Follows : ℕ → List ProgressEvent → Type 0
Follows n [] = Unit
Follows n (e ∷ es) = (e.position.sequence ≡ n + 1) × Follows (n + 1) es

-- The events are of the producer and the scope of a position.
abbrev pub Owned : ProgressPosition → List ProgressEvent → Type 0
Owned p [] = Unit
Owned p (e ∷ es) = (e.position.producer ≡ p.producer) × (e.position.scope ≡ p.scope) × Owned p es

-- The deque holds the latest events of its own producer, without a hole and within its capacity.
pub record IsValid (b : ProgressBuffer) : Type 0 where
  pub lost : ℕ
  pub follows : Follows lost b.events
  pub owned : Owned b.position b.events
  pub complete : lost + length b.events ≡ b.position.sequence
  pub bounded : length b.events ≤ b.capacity
  pub capacious : 1 ≤ b.capacity
  pub unused : is_empty b.events ≡ true → b.position.sequence ≡ 0

Follows-snoc :
    (n : ℕ) (es : List ProgressEvent) (e : ProgressEvent)
    → Follows n es
    → e.position.sequence ≡ n + length es + 1
    → Follows n (es ++ e ∷ [])
Follows-snoc n [] e h k = (omega (arith, k), tt)
Follows-snoc n (x ∷ es) e h k = (h.0, Follows-snoc (n + 1) es e h.1 (omega (arith, k)))

Owned-snoc :
    (p : ProgressPosition) (es : List ProgressEvent) (e : ProgressEvent)
    → Owned p es
    → e.position.producer ≡ p.producer
    → e.position.scope ≡ p.scope
    → Owned p (es ++ e ∷ [])
Owned-snoc p [] e o h k = (h, k, tt)
Owned-snoc p (x ∷ es) e o h k = (o.0, o.1, Owned-snoc p es e o.2 h k)

Owned-push :
    (capacity : ℕ) (p : ProgressPosition) (es : List ProgressEvent) (e : ProgressEvent)
    → Owned p es
    → e.position.producer ≡ p.producer
    → e.position.scope ≡ p.scope
    → Owned p (push capacity es e)
unfolding push
Owned-push capacity p [] e o h k = (h, k, tt)
Owned-push capacity p (x ∷ es) e o h k = elim (Bool-cases (ltb (length (x ∷ es)) capacity)) [
  | inl room ↦ rw room (Owned-snoc p (x ∷ es) e o h k)
  | inr full ↦ rw full (Owned-snoc p es e o.2 h k)
]

Owned-same :
    (p q : ProgressPosition) (es : List ProgressEvent)
    → q.producer ≡ p.producer
    → q.scope ≡ p.scope
    → Owned p es
    → Owned q es
Owned-same p q [] h k o = tt
Owned-same p q (e ∷ es) h k o = (o.0 ∙ sym h, o.1 ∙ sym k, Owned-same p q es h k o.2)

progress_position-producer :
    (producer scope : String) (n : ℕ) {p : ProgressPosition}
    → progress_position producer scope n ≡ some p
    → (p.producer ≡ producer) × (p.scope ≡ scope)
unfolding progress_position
progress_position-producer producer scope n h = (ground arith, ground arith)

progress_position-sequence :
    (producer scope : String) (n : ℕ) {p : ProgressPosition}
    → progress_position producer scope n ≡ some p
    → p.sequence ≡ n
unfolding progress_position
progress_position-sequence producer scope n h = ground arith

-- A new buffer is valid.
pub new_buffer-IsValid :
    (producer scope : String) (capacity : ℕ) {b : ProgressBuffer}
    → new_buffer producer scope capacity ≡ some b
    → IsValid b
unfolding new_buffer
new_buffer-IsValid producer scope capacity {b} h =
    elim (Bool-cases (not (leb 1 capacity && leb capacity 4096))) [
      | inl bad ↦ absurd (refused (rw bad at h))
      | inr good ↦ elim (Option-cases (progress_position producer scope 0)) [
        | inl e ↦ absurd (refused (rw (good, e) at h))
        | inr (q, e) ↦ subst IsValid (some-injective (rw (good, e) at h)) (record {
          lost = 0;
          follows = tt;
          owned = tt;
          complete = omega (arith, progress_position-sequence producer scope 0 e);
          bounded = omega arith;
          capacious = ground (arith, good);
          unused = λ _. progress_position-sequence producer scope 0 e;
        })
      ]
    ]
  where
    refused : none ≢ some b
    refused e = cc

Pushed : ℕ → ℕ → List ProgressEvent → Type 0
Pushed capacity last es =
    (lost : ℕ) × Follows lost es × (lost + length es ≡ last) × (length es ≤ capacity)

push-nonempty :
    (capacity : ℕ) (es : List ProgressEvent) (e : ProgressEvent)
    → is_empty (push capacity es e) ≡ false
unfolding push
push-nonempty capacity [] e = refl
push-nonempty capacity (x ∷ []) e = ground arith
push-nonempty capacity (x ∷ y ∷ es) e = ground arith

push-Follows :
    (capacity lost : ℕ) (es : List ProgressEvent) (e : ProgressEvent)
    → Follows lost es
    → length es ≤ capacity
    → 1 ≤ capacity
    → e.position.sequence ≡ lost + length es + 1
    → Pushed capacity (lost + length es + 1) (push capacity es e)
unfolding push Pushed
push-Follows capacity lost [] e f l c k = (lost, (omega (arith, k), tt), omega arith, omega arith)
push-Follows capacity lost (x ∷ es) e f l c k = elim (Bool-cases (ltb (length (x ∷ es)) capacity)) [
  | inl room ↦ rw room (
    lost,
    Follows-snoc lost (x ∷ es) e f k,
    omega (arith, length-append (x ∷ es) (e ∷ [])),
    ground (arith, room, length-append (x ∷ es) (e ∷ [])),
  )
  | inr full ↦ rw full (
    lost + 1,
    Follows-snoc (lost + 1) es e f.1 (omega (arith, k)),
    omega (arith, length-append es (e ∷ [])),
    omega (arith, l, length-append es (e ∷ [])),
  )
]

-- The events after an append: those before it and the new one, less a first one where they would be
-- too many.
abbrev pub Keeps : ℕ → List ProgressEvent → ProgressEvent → List ProgressEvent → Type 0
Keeps capacity before new after =
    (dropped : List ProgressEvent) × (dropped ++ after ≡ before ++ new ∷ [])
    × ((dropped ≡ []) ⊎ (length after ≡ capacity))

push-Keeps :
    (capacity : ℕ) (es : List ProgressEvent) (e : ProgressEvent)
    → length es ≤ capacity
    → Keeps capacity es e (push capacity es e)
unfolding push
push-Keeps capacity [] e l = ([], refl, inl refl)
push-Keeps capacity (x ∷ es) e l = elim (Bool-cases (ltb (length (x ∷ es)) capacity)) [
  | inl room ↦ rw room ([], refl, inl refl)
  | inr full ↦ rw full (x ∷ [], refl, inr (ground (arith, full, l, length-append es (e ∷ []))))
]

-- What an append does.
pub record Appended (b : ProgressBuffer) (e : ProgressEvent) (next : ProgressBuffer) : Type 0 where
  pub next_sequence : e.position.sequence ≡ b.position.sequence + 1
  pub new_position : next.position ≡ e.position
  pub events_kept : Keeps b.capacity b.events e next.events
  pub same_producer : next.position.producer ≡ b.position.producer
  pub same_scope : next.position.scope ≡ b.position.scope
  pub same_capacity : next.capacity ≡ b.capacity

progress_event-position :
    (position : ProgressPosition) (kind : String) (revision : ℕ) {e : ProgressEvent}
    → progress_event position kind revision ≡ some e
    → e.position ≡ position
unfolding progress_event
progress_event-position position kind revision h = ground arith

-- An event that is appended to a valid buffer has the next sequence, is at the buffer's new
-- position, and keeps the buffer valid: it holds the latest events of its own producer and scope
-- without a hole, within its capacity. The new event comes after the earlier ones, of which none is
-- dropped unless the buffer is full afterwards; producer, scope and capacity stay.
pub append-IsValid :
    (b : ProgressBuffer) (kind : String) (revision : ℕ) {e : ProgressEvent} {next : ProgressBuffer}
    → IsValid b
    → append b kind revision ≡ some (e, next)
    → IsValid next × Appended b e next
unfolding append Pushed
append-IsValid b kind revision {e} {next} v h =
    let place = progress_position b.position.producer b.position.scope (b.position.sequence + 1) in
    elim (Option-cases place) [
      | inl k ↦ absurd (cc (rw (k, append) at h))
      | inr (q, k) ↦ elim (Option-cases (progress_event q kind revision)) [
        | inl l ↦ absurd (cc (rw (k, append, l) at h))
        | inr (x, l) ↦
            let made = some-injective (rw (k, append, l) at h) in
            let seq = progress_position-sequence _ _ _ k in
            let who = progress_position-producer _ _ _ k in
            let at_q = progress_event-position q kind revision l in
            let n : x.position.sequence ≡ v.lost + length b.events + 1 =
              omega (arith, seq, ap (λ (y : ProgressPosition). y.sequence) at_q, v.complete) in
            let r = push-Follows b.capacity v.lost b.events x v.follows v.bounded v.capacious n in
            let mine =
              Owned-push b.capacity b.position b.events x v.owned
                (ap (λ (y : ProgressPosition). y.producer) at_q ∙ who.0)
                (ap (λ (y : ProgressPosition). y.scope) at_q ∙ who.1) in
            subst (λ (y : ProgressEvent × ProgressBuffer). IsValid y.1 × Appended b y.0 y.1) made
              (
                record {
                  lost = r.0;
                  follows = r.1;
                  owned = Owned-same b.position q _ who.0 who.1 mine;
                  complete = omega (arith, r.2, seq, v.complete);
                  bounded = r.3;
                  capacious = v.capacious;
                  unused = λ z. absurd (cc (z, push-nonempty b.capacity b.events x));
                },
                record {
                  next_sequence = omega (arith, n, v.complete);
                  new_position = sym at_q;
                  events_kept = push-Keeps b.capacity b.events x v.bounded;
                  same_producer = who.0;
                  same_scope = who.1;
                  same_capacity = refl;
                },
              )
      ]
    ]
