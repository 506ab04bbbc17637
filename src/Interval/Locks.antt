-- ===== src/Interval/Locks.antt =====
-- About the lock of the interval runner and its active job.
use sm_artmatch.Prelude.{ℕ, ◌≡◌, refl, Bool, true, false, not, List, [], ◌∷◌, ◌++◌, arith}
use sm_artmatch.Interval.{
  Runner, Event, unless_ended, Readings, reap_finished_job, start_job_with, trigger, round, rounds,
}

-- The second poll of a job finds it running unless the first has found it finished.
abbrev pub Agree : List Readings → Type 0
Agree [] = Unit
Agree (r ∷ rs) = (r.running ≡ not r.finished) × Agree rs

unless_ended-held :
    (b : Bool) (s : Runner) (later : Runner × List Event)
    → s.held ≡ s.active
    → later.0.held ≡ later.0.active
    → (unless_ended b s later).0.held ≡ (unless_ended b s later).0.active
unless_ended-held true s later h k = h
unless_ended-held false s later h k = k

unless_ended-quiet :
    (b : Bool) (s : Runner) (later : Runner × List Event)
    → later.1 ≡ []
    → (unless_ended b s later).1 ≡ []
unless_ended-quiet true s later k = refl
unless_ended-quiet false s later k = k

round-held :
    (interval : ℕ) (r : Readings) (s : Runner)
    → r.running ≡ not r.finished
    → s.held ≡ s.active
    → (round interval r s).0.held ≡ (round interval r s).0.active
unfolding round reap_finished_job trigger start_job_with
round-held interval r s agree h = ground arith

-- While no job finishes between the two polls of a round, the runner holds the lock exactly while it
-- has an active job.
pub rounds-held :
    (interval : ℕ) (rs : List Readings) (s : Runner)
    → Agree rs
    → s.held ≡ s.active
    → (rounds interval rs s).0.held ≡ (rounds interval rs s).0.active
unfolding rounds
rounds-held interval [] s agree h = h
rounds-held interval (r ∷ rs) s (agree, rest) h =
    let later =
      rounds-held interval rs (round interval r s).0 rest (round-held interval r s agree h) in
    unless_ended-held s.ended s _ h later

round-stuck :
    (interval : ℕ) (r : Readings) (s : Runner)
    → s.active ≡ false
    → s.held ≡ true
    → ((round interval r s).0.active ≡ false)
      × ((round interval r s).0.held ≡ true)
      × ((round interval r s).1 ≡ [])
unfolding round reap_finished_job trigger start_job_with
round-stuck interval r s idle held = ground arith

-- A runner that holds the lock without an active job never starts a job again.
pub rounds_stuck :
    (interval : ℕ) (rs : List Readings) (s : Runner)
    → s.active ≡ false
    → s.held ≡ true
    → (rounds interval rs s).1 ≡ []
unfolding rounds
rounds_stuck interval [] s idle held = refl
rounds_stuck interval (r ∷ rs) s idle held =
    let (idle', held', quiet) = round-stuck interval r s idle held in
    let later = rounds_stuck interval rs (round interval r s).0 idle' held' in
    unless_ended-quiet s.ended s (_, (round interval r s).1 ++ _) (rw (quiet, later))
