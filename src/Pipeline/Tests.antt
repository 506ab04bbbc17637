-- ===== src/Pipeline/Tests.antt =====
-- Cycles of the scheduler on concrete children, and its theorems applied to them.
use sm_artmatch.Prelude.{
  leb, none, ℕ, ◌+◌, ◌≡◌, ◌≢◌, ◌⊎◌, refl, true, false, some, none, [], ◌∷◌, ok,
}
use sm_artmatch.Prelude.Int.{ℤ, pos}
use sm_artmatch.Pipeline.{
  Stage, image_blocking, image_matching, metadata_extraction, metadata_matching, starting, running,
  unhealthy, healthy, Child, Surroundings, Cycle, run_step, run_cycle, Scheduler, scheduled_round,
}
use sm_artmatch.Pipeline.Stages.{run_cycle_complete, run_cycle-health, scheduled_round-health}
use sm_artmatch.Pipeline.Cadence.{
  Clock, ticks, Tested, next_trigger_after, next_trigger_in_ticks, next_trigger_after-Tested,
  next_trigger_after_stuck,
}

abbrev exits : ℤ → Child
exits code = record {
  starts = true;
  return_code = code;
  group_survives = false;
  descendants_survive = false;
}

abbrev child_of : Stage → Child
child_of image_blocking = record (exits (pos 0)) { starts = false }
child_of metadata_extraction = exits (pos 3)
child_of _ = exits (pos 0)

-- Image blocking does not start, and metadata extraction fails.
abbrev failing_blocking : Surroundings
failing_blocking = record { stopped = λ step. false; child = λ step skip. child_of step }

abbrev failed_cycle : Cycle
failed_cycle = record {
  failed_steps = image_blocking ∷ metadata_extraction ∷ [];
  blocking_succeeded = false;
  health = unhealthy;
  ran =
      (image_blocking, none)
      ∷ (image_matching, some true)
      ∷ (metadata_extraction, none)
      ∷ (metadata_matching, none)
      ∷ [];
}

runs_all : run_cycle failing_blocking starting ≡ ok failed_cycle
unfolding run_cycle
runs_all = refl

run_cycle_complete_example : run_cycle failing_blocking starting ≡ ok failed_cycle
unfolding run_step
run_cycle_complete_example =
    run_cycle_complete failing_blocking starting (pos 127) (pos 0) (pos 3) (pos 0) (λ step. refl)
      refl refl refl refl

run_cycle-health_example :
    ((failed_cycle.failed_steps ≢ []) ⊎ (starting ≡ unhealthy)) × (failed_cycle.health ≡ unhealthy)
    ⊎ ((failed_cycle.failed_steps ≡ []) × (starting ≢ unhealthy)) × (failed_cycle.health ≡ running)
run_cycle-health_example = run_cycle-health failing_blocking starting failed_cycle runs_all

abbrev before : Scheduler
before = record { cycle_number = 4; consecutive_failed_cycles = 1; health = healthy }

abbrev after : Scheduler
after = record { cycle_number = 5; consecutive_failed_cycles = 2; health = unhealthy }

runs_round : scheduled_round failing_blocking false before ≡ ok (after, false)
unfolding scheduled_round run_cycle
runs_round = refl

scheduled_round-health_example :
    (c : Cycle) × (run_cycle failing_blocking healthy ≡ ok c)
    × ((c.failed_steps ≡ []) × (after.health ≡ healthy) × (after.consecutive_failed_cycles ≡ 0)
        ⊎ ((c.failed_steps ≢ [])
            × (after.health ≡ unhealthy)
            × (after.consecutive_failed_cycles ≡ 1 + 1)))
scheduled_round-health_example =
    scheduled_round-health failing_blocking before after false runs_round

skips_missed : next_trigger_in_ticks 100 60 330 ≡ some 340
unfolding next_trigger_in_ticks
skips_missed = refl

-- A clock that cannot tell a small interval from none, as a float that is large enough.
abbrev coarse : Clock ℕ
coarse = record { add = λ a b. a; at_most = leb }

never_ends : next_trigger_after coarse 1000 330 1 330 ≡ none
never_ends = next_trigger_after_stuck coarse 1000 330 1 330 refl refl

next_trigger_after-Tested_example :
    Tested ticks 9 160 60 330 (next_trigger_after ticks 10 100 60 330)
next_trigger_after-Tested_example = next_trigger_after-Tested ticks 9 100 60 330
