-- ===== src/Telemetry/Daemon/Undisturbed.antt =====
-- About a round of the daemon while a worker runs.
use mathlib.Core.Path.{subst, ap}
use sm_artmatch.Prelude.{◌≡◌, ◌∙◌, refl, sym, Bool, false, Option, none, some, [], arith}
use sm_artmatch.Telemetry.Daemon.{
  Worker, Daemon, Readings, Round, note_setting, past_deadline, collect, launch_if_free,
  launch_phase, round,
}

note_setting-worker : (enabled : Bool) (d : Daemon) → (note_setting enabled d).worker ≡ d.worker
unfolding note_setting
note_setting-worker enabled d = ground arith

launch_if_free-busy :
    (o : Option Worker) (w : Worker) (r : Readings) (d : Daemon)
    → o ≡ some w
    → launch_if_free o r d [] ≡ record { daemon = d; events = []; ended = false }
unfolding launch_if_free
launch_if_free-busy none w r d e = absurd (cc)
launch_if_free-busy (some w') w r d e = refl

collect-running :
    (w : Worker) (r : Readings) (d : Daemon)
    → past_deadline r w ≡ false
    → r.polled ≡ none
    → collect (some w) r d ≡ record { daemon = d; events = []; ended = false }
unfolding collect
collect-running w r d on_time running = simp (on_time, running)

-- While a worker runs within its deadline, a round neither stops it nor launches another.
pub round_undisturbed :
    (r : Readings) (d : Daemon) (w : Worker)
    → d.worker ≡ some w
    → past_deadline r w ≡ false
    → r.polled ≡ none
    → ((round r d).daemon.worker ≡ some w) × ((round r d).events ≡ [])
unfolding round
round_undisturbed r d w e on_time running =
    let noted = note_setting r.enabled d in
    let busy = note_setting-worker r.enabled d ∙ e in
    subst (λ (c : Round). (c.daemon.worker ≡ some w) × (c.events ≡ []))
      (sym (
        ap (λ o. launch_phase r (collect o r noted)) busy
        ∙ ap (launch_phase r) (collect-running w r noted on_time running)
        ∙ launch_if_free-busy noted.worker w r noted busy))
      (busy, refl)
