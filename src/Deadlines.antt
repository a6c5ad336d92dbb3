-- ===== src/Deadlines.antt =====
-- Task deadlines on a clock that counts suspended time: `core/deadlines.py`. A `ValueError` is
-- `none`; integers that the constructors check to be natural are natural numbers.
pub mod Expiry
mod Examples
use creatidy_kernel.Base.{
  is_blank, ℕ, ◌+◌, ◌-◌, ◌*◌, ◌/◌, max, String, Bool, false, ◌&&◌, ◌||◌, not, Option, none, some,
  if◌then◌else◌, ltb, leb, ◌==◌, ◌!=◌, nat_eq, string_eq, names_eq, optional_eq, ne_of_eq,
}
use creatidy_kernel.Domain.Checks.{json_eq}
use creatidy_kernel.Domain.Values.{
  program_status_eq, work_unit_status_eq, attempt_status_eq, domain_action_eq, policy_reference_eq,
  bindings_eq, subjects_eq,
}
use creatidy_kernel.Domain.Spec.{program_spec_eq}
use creatidy_kernel.Domain.Facts.{states_eq}

pub record BootClockReading : Type 0 where
  pub wall : ℕ
  pub boot_ns : ℕ
  pub boot_id : String
  pub clock : String

-- `BootClockReading.__post_init__`
unfoldable pub is_reading : String → String → Bool
is_reading boot_id clock = not (is_blank boot_id) && clock == "linux:CLOCK_BOOTTIME"

pub record DeadlineProjection : Type 0 where
  pub wall_deadline : ℕ
  pub wall_anchor : ℕ
  pub boot_anchor_ns : ℕ
  pub boot_deadline_ns : ℕ
  pub boot_id : String
  pub clock : String

-- `DeadlineProjection.__post_init__`: the deadline comes after the anchor, so the difference is no
-- negative number where it is compared.
unfoldable pub is_projection : DeadlineProjection → Bool
is_projection p =
    is_reading p.boot_id p.clock
    && not (leb p.wall_deadline p.wall_anchor)
    && p.boot_deadline_ns == p.boot_anchor_ns + (p.wall_deadline - p.wall_anchor) * 1000000000

unfoldable pub deadline_projection : DeadlineProjection → Option DeadlineProjection
deadline_projection p = if is_projection p then some p else none

-- `DeadlineProjection.bind`
unfoldable pub bind : ℕ → BootClockReading → Option DeadlineProjection
bind deadline reading = deadline_projection (record {
  wall_deadline = deadline;
  wall_anchor = reading.wall;
  boot_anchor_ns = reading.boot_ns;
  boot_deadline_ns = reading.boot_ns + (deadline - reading.wall) * 1000000000;
  boot_id = reading.boot_id;
  clock = reading.clock;
})

unfoldable pub verifiable : DeadlineProjection → Option BootClockReading → Bool
verifiable p none = false
verifiable p (some reading) = not (
    reading.boot_id != p.boot_id
    || reading.clock != p.clock
    || ltb reading.boot_ns p.boot_anchor_ns
    || ltb reading.wall p.wall_anchor)

-- The time of a reading that has been verified: it is not before the anchor.
unfoldable pub verified_time : DeadlineProjection → BootClockReading → ℕ
verified_time p reading =
    max reading.wall (p.wall_anchor + (reading.boot_ns - p.boot_anchor_ns) / 1000000000)

unfoldable pub decision_time : DeadlineProjection → Option BootClockReading → ℕ
decision_time p none = p.wall_deadline
decision_time p (some reading) =
    if verifiable p (some reading) then verified_time p reading else p.wall_deadline
