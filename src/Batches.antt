-- ===== src/Batches.antt =====
-- scrapers/scheduler.py: the loop that submits a batch of scrapers at every interval. A child
-- process is its number; a time is whole ticks. The cleanup before a batch changes no state of the
-- scheduler, whatever its outcome; log lines are left out.
pub mod Sources
mod Tests
use sm_artmatch.Prelude.{
  ℕ, Bool, true, false, Option, none, some, List, [], ◌∷◌, ◌++◌, leb, if◌then◌else◌,
}
use sm_artmatch.Pipeline.Cadence.{next_trigger_in_ticks}

pub data Source : Type 0 where
  startup scheduled : Source

-- BatchProcessManager: its children.
pub record Manager : Type 0 where
  pub children : List (Source × ℕ)

pub record Scheduler : Type 0 where
  pub manager : Manager
  pub next_trigger : ℕ
  pub first_trigger : Bool

-- `finished` is that the poll of a process gives a return code; `process` the process that is
-- started, or none where starting one raises OSError.
pub record Readings : Type 0 where
  pub finished : ℕ → Bool
  pub now : ℕ
  pub finished_later : ℕ → Bool
  pub process : Option ℕ

unfoldable pub still_active : (ℕ → Bool) → List (Source × ℕ) → List (Source × ℕ)
still_active finished [] = []
still_active finished ((source, process) ∷ children) =
    let rest = still_active finished children in
    if finished process then rest else (source, process) ∷ rest

unfoldable pub reap_finished : (ℕ → Bool) → Manager → Manager
unfolding still_active
reap_finished finished m = record { children = still_active finished m.children }

-- `_submit_batch` of `launch`: an OSError is logged.
unfoldable pub submit_batch : Source → Readings → Manager → Manager
unfolding reap_finished
submit_batch source r m =
    let reaped = reap_finished r.finished_later m in
    elim r.process [
      | none ↦ reaped
      | some process ↦ record { children = reaped.children ++ (source, process) ∷ [] }
    ]

abbrev pub source_of : Bool → Source
source_of true = startup
source_of false = scheduled

abbrev or_else : Option ℕ → ℕ → ℕ
or_else none default = default
or_else (some n) default = n

-- The body of the loop, with the source of the batch that it submits.
unfoldable pub round : ℕ → Readings → Scheduler → Scheduler × List Source
unfolding reap_finished submit_batch
round interval r s =
    let reaped = reap_finished r.finished s.manager in
    if leb s.next_trigger r.now
    then (
      (record {
        manager = submit_batch (source_of s.first_trigger) r reaped;
        next_trigger = or_else (next_trigger_in_ticks s.next_trigger interval r.now) s.next_trigger;
        first_trigger = false;
      }),
      source_of s.first_trigger ∷ [],
    )
    else (record s { manager = reaped }, [])

-- The rounds until the stop event is set.
unfoldable pub rounds : ℕ → List Readings → Scheduler → Scheduler × List Source
unfolding round
rounds interval [] s = (s, [])
rounds interval (r ∷ rs) s =
    let next = round interval r s in
    let rest = rounds interval rs next.0 in (rest.0, next.1 ++ rest.1)

abbrev pub begun_at : ℕ → Scheduler
begun_at now = record {
  manager = record { children = [] };
  next_trigger = now;
  first_trigger = true;
}
