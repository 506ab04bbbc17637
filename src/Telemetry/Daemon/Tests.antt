-- ===== src/Telemetry/Daemon/Tests.antt =====
-- Runs of the daemon on concrete readings, and its theorems applied to them.
use sm_artmatch.Prelude.{ℕ, ◌≤◌, ◌≡◌, refl, true, false, Option, some, none, List, [], ◌∷◌, arith}
use sm_artmatch.Telemetry.Daemon.{
  startup, daily, Readings, launch, wait_retry, initial, rounds, max_transient_failures,
}
use sm_artmatch.Telemetry.Daemon.Budget.{startup_launches, startup_attempts_bounded}
use sm_artmatch.Telemetry.Daemon.Daily.{Follow, daily_days, daily_launches-Follow}

abbrev reading : ℕ → Option ℕ → ℕ → Readings
reading clock polled today = record {
  enabled = true;
  clock = clock;
  running_before = false;
  polled = polled;
  today = today;
  launched = true;
  launch_clock = clock;
}

-- A startup worker that succeeds, and a daily worker on each of two days.
abbrev two_days : List Readings
two_days =
    reading 0 none 10
    ∷ reading 500 (some 0) 10
    ∷ reading 1000 (some 1) 10
    ∷ reading 1500 none 11
    ∷ reading 2000 none 11
    ∷ []

abbrev broken : Readings
broken = record (reading 0 none 10) { launched = false }

runs_two_days :
    (rounds two_days initial).1 ≡ launch startup 10 ∷ launch daily 10 ∷ launch daily 11 ∷ []
unfolding rounds
runs_two_days = refl

gives_up :
    (rounds (broken ∷ broken ∷ broken ∷ broken ∷ broken ∷ []) initial).1
    ≡ launch startup 10
      ∷ wait_retry 30
      ∷ launch startup 10
      ∷ wait_retry 60
      ∷ launch startup 10
      ∷ wait_retry 120
      ∷ launch startup 10
      ∷ wait_retry 240
      ∷ launch startup 10
      ∷ []
unfolding rounds
gives_up = refl

startup_attempts_bounded_example :
    startup_launches (rounds two_days initial).1 ≤ max_transient_failures
startup_attempts_bounded_example = startup_attempts_bounded two_days

daily_launches-Follow_example : Follow none (daily_days (rounds two_days initial).1)
daily_launches-Follow_example =
    daily_launches-Follow two_days 10
      (omega arith, (omega arith, (omega arith, (omega arith, (omega arith, tt)))))
