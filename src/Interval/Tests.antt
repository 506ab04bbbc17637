-- ===== src/Interval/Tests.antt =====
-- Runs of the interval runner, and its theorems applied to them.
use sm_artmatch.Prelude.{◌≡◌, refl, true, false, [], ◌∷◌, ℕ}
use sm_artmatch.Pipeline.Cadence.{next_trigger_in_ticks}
use sm_artmatch.Interval.{Runner, Readings, start_job, rounds}
use sm_artmatch.Interval.Locks.{rounds-held, rounds_stuck}

abbrev initial : Runner
initial = record { active = false; held = false; next_run_at = 0; ended = false }

abbrev reading : ℕ → Readings
reading now = record {
  finished = false;
  now = now;
  running = true;
  locked_elsewhere = false;
  starts = true;
}

abbrev done : ℕ → Readings
done now = record (reading now) { finished = true; running = false }

-- The job runs on at the first trigger, and has finished by the second.
runs_twice :
    (rounds 10 (reading 0 ∷ reading 10 ∷ done 20 ∷ []) initial).1 ≡ start_job ∷ start_job ∷ []
unfolding rounds next_trigger_in_ticks
runs_twice = refl

rounds-held_example :
    (rounds 10 (reading 0 ∷ reading 10 ∷ done 20 ∷ []) initial).0.held
    ≡ (rounds 10 (reading 0 ∷ reading 10 ∷ done 20 ∷ []) initial).0.active
rounds-held_example =
    rounds-held 10 (reading 0 ∷ reading 10 ∷ done 20 ∷ []) initial (refl, (refl, (refl, tt))) refl

-- A job that finishes between the two polls.
abbrev between : Readings
between = record (reading 10) { running = false }

abbrev stuck : Runner
stuck = record { active = false; held = true; next_run_at = 20; ended = false }

leaks_lock : (rounds 10 (reading 0 ∷ between ∷ []) initial).0 ≡ stuck
unfolding rounds next_trigger_in_ticks
leaks_lock = refl

rounds_stuck_example : (rounds 10 (reading 20 ∷ done 30 ∷ reading 40 ∷ []) stuck).1 ≡ []
rounds_stuck_example = rounds_stuck 10 (reading 20 ∷ done 30 ∷ reading 40 ∷ []) stuck refl refl
