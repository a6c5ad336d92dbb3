-- ===== src/Deadlines/Examples.antt =====
-- Deadlines at a concrete clock.
use creatidy_kernel.Base.{
  String_discrete, is_space, is_blank, ℕ, ◌≤◌, ◌<◌, ◌≡◌, refl, ◌↔◌, ◌⊎◌, true, false, none, some,
  ℕ_discrete,
}
use creatidy_kernel.Deadlines.{
  is_reading, is_projection, bind, verifiable, verified_time, decision_time, BootClockReading,
  DeadlineProjection,
}
use creatidy_kernel.Deadlines.Expiry.{HasPassed, decision_time-HasPassed, bind-decision_time}

abbrev at_time : ℕ → ℕ → BootClockReading
at_time wall boot_ns = record {
  wall = wall;
  boot_ns = boot_ns;
  boot_id = "boot";
  clock = "linux:CLOCK_BOOTTIME";
}

-- Ten seconds from the reading at 100.
abbrev ten_seconds : DeadlineProjection
ten_seconds = record {
  wall_deadline = 110;
  wall_anchor = 100;
  boot_anchor_ns = 5;
  boot_deadline_ns = 10000000005;
  boot_id = "boot";
  clock = "linux:CLOCK_BOOTTIME";
}

ten_seconds-accepted : is_projection ten_seconds ≡ true
unfolding is_projection is_reading is_blank is_space String_discrete ℕ_discrete
ten_seconds-accepted = refl

-- The wall clock was set back to 101, but the boot clock has gone on: the time is 112.
late_reading : decision_time ten_seconds (some (at_time 101 12000000005)) ≡ 112
unfolding decision_time verified_time verifiable String_discrete
late_reading = refl

decision_time-HasPassed_example :
    ((verifiable ten_seconds (some (at_time 101 12000000005)) ≡ true)
      × ((110 ≤ decision_time ten_seconds (some (at_time 101 12000000005)))
          ↔ HasPassed ten_seconds (at_time 101 12000000005)))
    ⊎ ((verifiable ten_seconds (some (at_time 101 12000000005)) ≡ false)
        × (110 ≤ decision_time ten_seconds (some (at_time 101 12000000005))))
decision_time-HasPassed_example =
    decision_time-HasPassed ten_seconds (at_time 101 12000000005) ten_seconds-accepted

is_reading_100 : is_reading "boot" "linux:CLOCK_BOOTTIME" ≡ true
unfolding is_reading is_blank is_space String_discrete ℕ_discrete
is_reading_100 = refl

bind-decision_time_example :
    ((110 ≤ 100) × (bind 110 (at_time 100 5) ≡ none))
    ⊎ ((100 < 110)
        × ((p : DeadlineProjection) × (bind 110 (at_time 100 5) ≡ some p)
            × (is_projection p ≡ true)
            × (decision_time p (some (at_time 100 5)) ≡ 100)))
bind-decision_time_example = bind-decision_time 110 (at_time 100 5) is_reading_100
