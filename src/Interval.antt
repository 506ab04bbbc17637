-- ===== src/Interval.antt =====
-- scripts/run_interval.py: the loop of `_run_scheduler`, which runs a shell command at every
-- interval, under a file lock. The lock is held by the runner itself (`held`, an open descriptor of
-- the locked file) or by another process, which is read; a lock taken twice by the runner is refused,
-- as flock refuses it to a second descriptor. Times are whole ticks; log lines are left out.
pub mod Locks
mod Tests
use sm_artmatch.Prelude.{
  ℕ, Bool, true, false, not, ◌&&◌, ◌||◌, Option, none, some, List, [], ◌∷◌, ◌++◌, leb,
  if◌then◌else◌,
}
use sm_artmatch.Pipeline.Cadence.{next_trigger_in_ticks}

-- `active` is that there is an active job, and `ended` that an exception has ended the run.
pub record Runner : Type 0 where
  pub active : Bool
  pub held : Bool
  pub next_run_at : ℕ
  pub ended : Bool

-- `finished` is that the first poll of the job gives a return code, and `running` that the second
-- gives none; `locked_elsewhere` that another process holds the lock, and `starts` that the process
-- of a job can be started.
pub record Readings : Type 0 where
  pub finished : Bool
  pub now : ℕ
  pub running : Bool
  pub locked_elsewhere : Bool
  pub starts : Bool

pub data Event : Type 0 where
  start_job : Event

unfoldable pub reap_finished_job : Readings → Runner → Runner
reap_finished_job r s =
    if s.active && r.finished then record s { active = false; held = false } else s

-- An exception of the start closes the descriptor and ends the run.
unfoldable pub start_job_with : Readings → Runner → Runner × List Event
start_job_with r s =
    if s.held || r.locked_elsewhere
    then (record s { active = false }, [])
    else if r.starts
    then (record s { active = true; held = true }, start_job ∷ [])
    else (record s { active = false; held = false; ended = true }, [])

abbrev or_else : Option ℕ → ℕ → ℕ
or_else none default = default
or_else (some n) default = n

-- The trigger of this round, once the clock has passed its time.
unfoldable pub trigger : ℕ → Readings → Runner → Runner × List Event
unfolding start_job_with
trigger interval r s =
    let (started, events) = if s.active && r.running then (s, []) else start_job_with r s in
    (
      record started {
        next_run_at = or_else (next_trigger_in_ticks s.next_run_at interval r.now) s.next_run_at;
      },
      events,
    )

-- The body of the loop.
unfoldable pub round : ℕ → Readings → Runner → Runner × List Event
unfolding reap_finished_job trigger
round interval r s =
    let reaped = reap_finished_job r s in
    if leb reaped.next_run_at r.now then trigger interval r reaped else (reaped, [])

abbrev pub unless_ended : Bool → Runner → Runner × List Event → Runner × List Event
unless_ended true s later = (s, [])
unless_ended false s later = later

-- The rounds until the stop event is set or an exception ends the run.
unfoldable pub rounds : ℕ → List Readings → Runner → Runner × List Event
unfolding round
rounds interval [] s = (s, [])
rounds interval (r ∷ rs) s =
    let next = round interval r s in
    let rest = rounds interval rs next.0 in unless_ended s.ended s (rest.0, next.1 ++ rest.1)

-- `_stop_active_job` ends the job and closes its lock.
unfoldable pub stop_active_job : Runner → Runner
stop_active_job s = if s.active then record s { active = false; held = false } else s
