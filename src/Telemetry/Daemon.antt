-- ===== src/Telemetry/Daemon.antt =====
-- telemetry/daemon.py, `run_telemetry_daemon`: one round of the daemon's loop, from the readings
-- that it takes of its surroundings. A date is a day number and a time a number of milliseconds.
-- The variables `worker`, `worker_trigger` and `worker_started_at` are assigned together: they are
-- one optional record. A health reporter is present, and of its documents the state is kept. Log
-- lines and the cleanup of stale spools are left out.
pub mod Budget
pub mod Daily
pub mod Undisturbed
mod Tests
use Prim.Native.Nat.{min}
use sm_artmatch.Prelude.{
  ℕ, zero, suc, ◌+◌, ◌-◌, ◌*◌, ◌^◌, Bool, true, false, not, ◌&&◌, ◌||◌, Option, none, some, List,
  [], ◌∷◌, ◌++◌, ltb, leb, ◌==◌, if◌then◌else◌,
}

pub data Trigger : Type 0 where
  startup daily : Trigger

pub data Health : Type 0 where
  starting running healthy degraded disabled unhealthy stopping : Health

pub record Worker : Type 0 where
  pub trigger : Trigger
  pub started_at : ℕ

pub record Daemon : Type 0 where
  pub startup_pending : Bool
  pub startup_transient_failures : ℕ
  pub last_daily_started : Option ℕ
  pub worker : Option Worker
  pub last_enabled : Option Bool
  pub health : Health

-- `polled` is what the worker's second poll gives (a return code, or none while it runs; a negative
-- code, of a signal, is one more number here: the code compares with 0, 78 and 79 only) and
-- `running_before` whether the first one gave None; `launched` whether a process could be started.
pub record Readings : Type 0 where
  pub enabled : Bool
  pub clock : ℕ
  pub running_before : Bool
  pub polled : Option ℕ
  pub today : ℕ
  pub launched : Bool
  pub launch_clock : ℕ

pub data Event : Type 0 where
  stop_worker : Event
  launch : Trigger → ℕ → Event
  wait_retry : ℕ → Event

abbrev pub max_transient_failures : ℕ
max_transient_failures = 5

abbrev pub exit_noop : ℕ
exit_noop = 79

abbrev pub exit_terminal : ℕ
exit_terminal = 78

abbrev pub exit_deadline : ℕ
exit_deadline = 124

-- DEFAULT_PROCESS_DEADLINE_SECONDS + WORKER_DEADLINE_CLEANUP_GRACE_SECONDS
abbrev pub deadline_ms : ℕ
deadline_ms = (2 * 60 * 60 + 30) * 1000

-- The state, what the round has done, and whether `continue` has ended it.
pub record Round : Type 0 where
  pub daemon : Daemon
  pub events : List Event
  pub ended : Bool

abbrev pub same_setting : Option Bool → Bool → Bool
same_setting none enabled = false
same_setting (some true) enabled = enabled
same_setting (some false) enabled = not enabled

unfoldable pub note_setting : Bool → Daemon → Daemon
note_setting enabled d =
    if same_setting d.last_enabled enabled
    then d
    else record d { last_enabled = some enabled; health = if enabled then running else disabled }

-- min(30 * 2 ** (failures - 1), 600)
unfoldable pub retry_seconds : ℕ → ℕ
retry_seconds failures = min (30 * 2 ^ (failures - 1)) 600

-- A transient startup failure, of a worker or of its launch. `again` is the round with a retry.
unfoldable pub count_failure : Daemon → List Event → Round
unfolding retry_seconds
count_failure d events =
    let failures = d.startup_transient_failures + 1 in
    if leb max_transient_failures failures
    then (record {
      daemon = record d {
        startup_pending = false;
        startup_transient_failures = failures;
        health = unhealthy;
      };
      events = events;
      ended = false;
    })
    else (record {
      daemon = record d { startup_transient_failures = failures; health = degraded };
      events = events ++ wait_retry (retry_seconds failures) ∷ [];
      ended = true;
    })

-- The branches on `completed_trigger`, for a worker that has gone.
unfoldable pub complete : Trigger → ℕ → Daemon → List Event → Round
unfolding count_failure
complete startup code d events =
    if code == 0
    then (record {
      daemon = record d {
        startup_pending = false;
        startup_transient_failures = 0;
        health = healthy;
      };
      events = events;
      ended = false;
    })
    else (if code == exit_terminal
        then (record {
          daemon = record d { startup_pending = false; health = unhealthy };
          events = events;
          ended = false;
        })
        else count_failure d events)
complete daily code d events = record {
  daemon =
      if code == 0
      then record d { health = healthy }
      else (if code == exit_noop then d else record d { health = unhealthy });
  events = events;
  ended = false;
}

abbrev pub past_deadline : Readings → Worker → Bool
past_deadline r w = r.running_before && ltb deadline_ms (r.clock - w.started_at)

abbrev pub gone : Daemon → Daemon
gone d = record d { worker = none }

abbrev pub polled_round : Option ℕ → Worker → Daemon → Round
polled_round none w d = record { daemon = d; events = []; ended = false }
polled_round (some code) w d = complete w.trigger code (gone d) []

-- The worker is stopped past its deadline, or collected if it has finished.
unfoldable pub collect : Option Worker → Readings → Daemon → Round
unfolding complete
collect none r d = record { daemon = d; events = []; ended = false }
collect (some w) r d =
    if past_deadline r w
    then complete w.trigger exit_deadline (gone d) (stop_worker ∷ [])
    else polled_round r.polled w d

abbrev pub same_date : Option ℕ → ℕ → Bool
same_date none today = false
same_date (some date) today = date == today

unfoldable pub due : Daemon → ℕ → Option Trigger
due d today =
    if d.startup_pending
    then some startup
    else (if same_date d.last_daily_started today then none else some daily)

abbrev pub running_health : Health → Health
running_health unhealthy = unhealthy
running_health _ = running

-- `launch_worker` has been called for a trigger, with or without success.
unfoldable pub launch_trigger : Trigger → Readings → Daemon → List Event → Round
unfolding count_failure
launch_trigger startup r d events =
    if r.launched
    then (record {
      daemon = record d {
        worker = some (record { trigger = startup; started_at = r.launch_clock });
        health = running_health d.health;
      };
      events = events;
      ended = false;
    })
    else count_failure d events
launch_trigger daily r d events =
    if r.launched
    then (record {
      daemon = record d {
        worker = some (record { trigger = daily; started_at = r.launch_clock });
        health = running_health d.health;
        last_daily_started = some r.today;
      };
      events = events;
      ended = false;
    })
    else (record {
      daemon = record d { last_daily_started = some r.today; health = unhealthy };
      events = events;
      ended = false;
    })

abbrev pub launch_due : Option Trigger → Readings → Daemon → List Event → Round
launch_due none r d events = record { daemon = d; events = events; ended = false }
launch_due (some trigger) r d events =
    launch_trigger trigger r d (events ++ launch trigger r.today ∷ [])

-- `if worker is None and enabled`
unfoldable pub launch_if_free : Option Worker → Readings → Daemon → List Event → Round
unfolding due launch_trigger
launch_if_free (some w) r d events = record { daemon = d; events = events; ended = false }
launch_if_free none r d events =
    if r.enabled
    then launch_due (due d r.today) r d events
    else (record { daemon = d; events = events; ended = false })

abbrev pub launch_phase : Readings → Round → Round
launch_phase r c = if c.ended then c else launch_if_free c.daemon.worker r c.daemon c.events

unfoldable pub round : Readings → Daemon → Round
unfolding note_setting collect launch_if_free
round r d = let noted = note_setting r.enabled d in launch_phase r (collect noted.worker r noted)

abbrev pub initial : Daemon
initial = record {
  startup_pending = true;
  startup_transient_failures = 0;
  last_daily_started = none;
  worker = none;
  last_enabled = none;
  health = starting;
}

-- The rounds until the stop event is set: the final state, and all events in order.
unfoldable pub rounds : List Readings → Daemon → Daemon × List Event
unfolding round
rounds [] d = (d, [])
rounds (r ∷ rs) d =
    let (d', events) = rounds rs (round r d).daemon in (d', (round r d).events ++ events)
