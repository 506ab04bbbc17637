-- ===== src/Pipeline.antt =====
-- scripts/run_pipeline_scheduler.py: the scheduler that runs the four stages of the matching
-- pipeline one after the other, cycle after cycle. Log lines are left out; of the health documents
-- the state is kept, and of a child process how it ends.
pub mod Stages
pub mod Cadence
mod Tests
use sm_artmatch.Prelude.{
  ℕ, zero, suc, ◌+◌, ◌≡◌, Bool, true, false, not, Option, none, some, List, [], ◌∷◌, ◌++◌, ltb, leb,
  ◌==◌, if◌then◌else◌, Result, ok, err, ◌>>=◌,
}
use sm_artmatch.Prelude.Int.{ℤ, pos, negsuc}

pub data Stage : Type 0 where
  image_blocking image_matching metadata_extraction metadata_matching : Stage

abbrev pub pipeline_steps : List Stage
pipeline_steps = image_blocking ∷ image_matching ∷ metadata_extraction ∷ metadata_matching ∷ []

pub data Health : Type 0 where
  starting running healthy unhealthy stopping : Health

-- RuntimeError: a process survived SIGKILL.
pub data Error : Type 0 where
  group_survived descendants_survived : Error

-- A child process: whether it starts, the code that `wait` returns, and what of it survives being
-- killed.
pub record Child : Type 0 where
  pub starts : Bool
  pub return_code : ℤ
  pub group_survives : Bool
  pub descendants_survive : Bool

-- The descendants are stopped in a `finally`: their error comes in place of the group's.
unfoldable pub run_step : Child → Result Error ℤ
run_step child =
    if child.starts
    then (if child.descendants_survive
        then err descendants_survived
        else (if child.group_survives then err group_survived else ok child.return_code))
    else ok (pos 127)

-- What a cycle meets: whether the stop event is set before a step, and the child of a step by the
-- value of SMARTMATCH_SKIP_IMAGE_MATCHING that it is given, if one is.
pub record Surroundings : Type 0 where
  pub stopped : Stage → Bool
  pub child : Stage → Option Bool → Child

-- The variables of `_run_cycle`. `ran` lists the steps that ran, with the value they were given.
pub record Cycle : Type 0 where
  pub failed_steps : List Stage
  pub blocking_succeeded : Bool
  pub health : Health
  pub ran : List (Stage × Option Bool)

-- The value of SMARTMATCH_SKIP_IMAGE_MATCHING: true is "1".
abbrev pub skip_value : Stage → Bool → Option Bool
skip_value image_matching blocking_succeeded = some (not blocking_succeeded)
skip_value _ blocking_succeeded = none

abbrev pub is_zero : ℤ → Bool
is_zero (pos zero) = true
is_zero _ = false

abbrev pub state_before : Health → Health
state_before unhealthy = unhealthy
state_before _ = running

abbrev pub step_state : Health → List Stage → Health
step_state cycle_state [] = cycle_state
step_state cycle_state (s ∷ ss) = unhealthy

abbrev blocking_after : Stage → Bool → Bool → Bool
blocking_after image_blocking succeeded before = succeeded
blocking_after _ succeeded before = before

-- The body of the loop after `_run_step` has returned.
unfoldable pub after_step : Health → Stage → Cycle → ℤ → Cycle
after_step cycle_state step c code =
    let succeeded = is_zero code in
    record {
      failed_steps = if succeeded then c.failed_steps else c.failed_steps ++ step ∷ [];
      blocking_succeeded = blocking_after step succeeded c.blocking_succeeded;
      health = if succeeded then step_state cycle_state c.failed_steps else unhealthy;
      ran = c.ran ++ (step, skip_value step c.blocking_succeeded) ∷ [];
    }

module _ (env : Surroundings) (cycle_state : Health) where
  unfoldable pub run_one : Stage → Cycle → Result Error Cycle
  unfolding run_step after_step
  run_one step c = do
    code ← run_step (env.child step (skip_value step c.blocking_succeeded))
    ok (after_step cycle_state step c code)

  unfoldable pub run_steps : List Stage → Cycle → Result Error Cycle
  unfolding run_one
  run_steps [] c = ok c
  run_steps (step ∷ steps) c =
      let rest = run_one step c >>= run_steps steps in if env.stopped step then ok c else rest

unfoldable pub run_cycle : Surroundings → Health → Result Error Cycle
unfolding run_steps
run_cycle env health = run_steps env (state_before health) pipeline_steps (record {
  failed_steps = [];
  blocking_succeeded = true;
  health = state_before health;
  ran = [];
})

pub record Scheduler : Type 0 where
  pub cycle_number : ℕ
  pub consecutive_failed_cycles : ℕ
  pub health : Health

-- The health update after a cycle that no stop has interrupted.
unfoldable pub record_cycle : List Stage → Scheduler → Scheduler
record_cycle [] s = record s { consecutive_failed_cycles = 0; health = healthy }
record_cycle (_ ∷ _) s = record s {
  consecutive_failed_cycles = s.consecutive_failed_cycles + 1;
  health = unhealthy;
}

-- A round of `run_scheduler` whose time has come: the new state, and whether the loop is left.
unfoldable pub scheduled_round : Surroundings → Bool → Scheduler → Result Error (Scheduler × Bool)
unfolding record_cycle
scheduled_round env stopped_after s = do
  let numbered = record s { cycle_number = s.cycle_number + 1 }
  c ← run_cycle env s.health
  let seen = record numbered { health = c.health }
  ok (if stopped_after then (seen, true) else (record_cycle c.failed_steps seen, false))
