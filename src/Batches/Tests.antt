-- ===== src/Batches/Tests.antt =====
-- A run of the scheduler of the scrapers, and its theorem applied to it.
use sm_artmatch.Prelude.{ℕ, ◌≡◌, refl, true, some, none, Option, List, [], ◌∷◌, ◌==◌}
use sm_artmatch.Pipeline.Cadence.{next_trigger_in_ticks}
use sm_artmatch.Batches.{startup, scheduled, Readings, rounds, begun_at}
use sm_artmatch.Batches.Sources.{StartupFirst, submitted-StartupFirst}

abbrev reading : ℕ → Option ℕ → Readings
reading now process = record {
  finished = λ pid. pid == 1;
  now = now;
  finished_later = λ pid. pid == 1;
  process = process;
}

abbrev run : List Readings
run = reading 0 (some 1) ∷ reading 5 none ∷ reading 10 (some 2) ∷ reading 20 none ∷ []

submits_three : (rounds 10 run (begun_at 0)).1 ≡ startup ∷ scheduled ∷ scheduled ∷ []
unfolding rounds next_trigger_in_ticks
submits_three = refl

keeps_running : (rounds 10 run (begun_at 0)).0.manager.children ≡ (scheduled, 2) ∷ []
unfolding rounds next_trigger_in_ticks
keeps_running = refl

submitted-StartupFirst_example : StartupFirst true (rounds 10 run (begun_at 0)).1
submitted-StartupFirst_example = submitted-StartupFirst 10 0 run
