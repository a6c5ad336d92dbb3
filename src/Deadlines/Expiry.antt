-- ===== src/Deadlines/Expiry.antt =====
-- When a deadline has passed.
use creatidy_kernel.Base.{
  ℕ, ◌+◌, ◌-◌, ◌*◌, ◌/◌, ◌≤◌, ◌<◌, ◌≡◌, ◌↔◌, ◌⊎◌, inl, inr, true, false, none, some, arith,
  Bool-cases, leb,
}
use creatidy_kernel.Deadlines.{
  is_reading, is_projection, deadline_projection, bind, verifiable, verified_time, decision_time,
  BootClockReading, DeadlineProjection,
}

-- A whole number of seconds has gone by exactly when so many nanoseconds have.
seconds_lem :
    (n k : ℕ)
    → (k ≤ n / 1000000000 → k * 1000000000 ≤ n) × (k * 1000000000 ≤ n → k ≤ n / 1000000000)
seconds_lem n k = (λ h. omega arith, λ h. omega arith)

-- What it means that the deadline has passed: on the wall clock or on the boot clock.
abbrev pub HasPassed : DeadlineProjection → BootClockReading → Type 0
HasPassed p reading = (p.wall_deadline ≤ reading.wall) ⊎ (p.boot_deadline_ns ≤ reading.boot_ns)

is_projection-facts :
    (p : DeadlineProjection)
    → is_projection p ≡ true
    → (p.wall_anchor < p.wall_deadline)
      × (p.boot_deadline_ns ≡ p.boot_anchor_ns + (p.wall_deadline - p.wall_anchor) * 1000000000)
unfolding is_projection
is_projection-facts p v = (ground (arith, v), ground (arith, v))

verified_time-HasPassed :
    (p : DeadlineProjection) (reading : BootClockReading)
    → is_projection p ≡ true
    → p.boot_anchor_ns ≤ reading.boot_ns
    → (p.wall_deadline ≤ verified_time p reading) ↔ HasPassed p reading
unfolding verified_time
verified_time-HasPassed p reading v l =
    let f = is_projection-facts p v in
    let s = seconds_lem (reading.boot_ns - p.boot_anchor_ns) (p.wall_deadline - p.wall_anchor) in
    (
      λ h. omega (arith, f.0, f.1, s.0, l, h),
      λ h. elim h [ inl w ↦ omega (arith, w) | inr b ↦ omega (arith, f.0, f.1, s.1, l, b) ],
    )

verifiable-facts :
    (p : DeadlineProjection) (reading : BootClockReading)
    → verifiable p (some reading) ≡ true
    → (p.boot_anchor_ns ≤ reading.boot_ns) × (p.wall_anchor ≤ reading.wall)
unfolding verifiable
verifiable-facts p reading h = (ground (arith, h), ground (arith, h))

-- At a projection that was accepted, either the reading can be verified and the decision time has
-- reached the deadline exactly when the wall clock or the boot clock has reached its own, or the
-- reading cannot be verified and the decision time has reached the deadline.
pub decision_time-HasPassed :
    (p : DeadlineProjection) (reading : BootClockReading)
    → is_projection p ≡ true
    → ((verifiable p (some reading) ≡ true)
        × ((p.wall_deadline ≤ decision_time p (some reading)) ↔ HasPassed p reading))
      ⊎ ((verifiable p (some reading) ≡ false) × (p.wall_deadline ≤ decision_time p (some reading)))
unfolding decision_time
decision_time-HasPassed p reading v = elim (Bool-cases (verifiable p (some reading))) [
  | inl h ↦ inl (h, rw h (verified_time-HasPassed p reading v (verifiable-facts p reading h).0))
  | inr h ↦ inr (h, rw h (omega arith))
]

-- At a well-formed reading, either the deadline is not later and is refused, or it is later and is
-- bound to a projection that is accepted, whose decision time at that reading is the reading's wall
-- clock.
pub bind-decision_time :
    (deadline : ℕ) (reading : BootClockReading)
    → is_reading reading.boot_id reading.clock ≡ true
    → ((deadline ≤ reading.wall) × (bind deadline reading ≡ none))
      ⊎ ((reading.wall < deadline)
          × ((p : DeadlineProjection) × (bind deadline reading ≡ some p)
              × (is_projection p ≡ true)
              × (decision_time p (some reading) ≡ reading.wall)))
unfolding bind deadline_projection is_projection decision_time verifiable verified_time
bind-decision_time deadline reading h = elim (Bool-cases (leb deadline reading.wall)) [
  | inl early ↦ inl (ground (arith, early), ground (arith, h, early))
  | inr later ↦ inr (
    ground (arith, later),
    (
      record {
        wall_deadline = deadline;
        wall_anchor = reading.wall;
        boot_anchor_ns = reading.boot_ns;
        boot_deadline_ns = reading.boot_ns + (deadline - reading.wall) * 1000000000;
        boot_id = reading.boot_id;
        clock = reading.clock;
      },
      ground (arith, h, later),
      ground (arith, h, later),
      ground (arith, h, later),
    ),
  )
]
