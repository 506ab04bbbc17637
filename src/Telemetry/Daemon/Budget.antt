-- ===== src/Telemetry/Daemon/Budget.antt =====
-- About the startup attempts of the daemon and their retry budget.
use native.Mathlib.Nat.{add-zero, add_assoc}
use sm_artmatch.Prelude.{
  ℕ, ◌+◌, ◌≤◌, ◌<◌, ◌≡◌, refl, Bool, true, false, Bool-cases, inl, inr, Option, none, some, List,
  [], ◌∷◌, ◌++◌, arith, ◌==◌, leb, if◌then◌else◌,
}
use sm_artmatch.Telemetry.Daemon.{
  startup, daily, Worker, Daemon, Readings, Event, stop_worker, launch, wait_retry,
  max_transient_failures, exit_terminal, exit_noop, same_date, Round, note_setting, count_failure,
  complete, past_deadline, gone, polled_round, collect, due, launch_trigger, launch_due,
  launch_if_free, launch_phase, round, initial, rounds,
}

abbrev startup_launch : Event → ℕ
startup_launch (launch startup today) = 1
startup_launch _ = 0

-- How often a startup worker has been launched, or its launch tried.
abbrev pub startup_launches : List Event → ℕ
startup_launches [] = 0
startup_launches (e ∷ es) = startup_launch e + startup_launches es

-- Each attempt so far has failed or is running while a startup attempt is pending.
abbrev pub Budget : Bool → ℕ → Option Worker → ℕ → Type 0
Budget true failures none attempts = (attempts ≡ failures) × (failures < max_transient_failures)
Budget true failures (some w) attempts =
    (w.trigger ≡ startup) × (attempts ≡ failures + 1) × (failures < max_transient_failures)
Budget false failures none attempts = attempts ≤ max_transient_failures
Budget false failures (some w) attempts = (w.trigger ≡ daily) × (attempts ≤ max_transient_failures)

abbrev pub IsBudgeted : ℕ → Daemon → Type 0
IsBudgeted attempts d = Budget d.startup_pending d.startup_transient_failures d.worker attempts

startup_launches-append :
    (xs ys : List Event) → startup_launches (xs ++ ys) ≡ startup_launches xs + startup_launches ys
startup_launches-append [] ys = omega arith
startup_launches-append (x ∷ xs) ys = omega (arith, startup_launches-append xs ys)

note_setting-IsBudgeted :
    (enabled : Bool) (d : Daemon) (a : ℕ) → IsBudgeted a d → IsBudgeted a (note_setting enabled d)
unfolding note_setting
note_setting-IsBudgeted enabled d a h = ground arith

-- A failure whose attempt is counted and over.
count_failure-IsBudgeted :
    (d : Daemon) (events : List Event) (a : ℕ)
    → d.startup_pending ≡ true
    → d.worker ≡ none
    → d.startup_transient_failures < max_transient_failures
    → a + startup_launches events ≡ d.startup_transient_failures + 1
    → IsBudgeted
        (a + startup_launches (count_failure d events).events)
        (count_failure d events).daemon
unfolding count_failure
count_failure-IsBudgeted d events a p w f h =
    elim (Bool-cases (leb max_transient_failures (d.startup_transient_failures + 1))) [
      | inl last ↦ rw last (rw w (omega arith))
      | inr more ↦ rw more (
          rw (p, w, startup_launches-append events (wait_retry _ ∷ [])) (omega arith, ground arith))
    ]

complete_startup :
    (code : ℕ) (d : Daemon) (events : List Event) (a : ℕ)
    → d.startup_pending ≡ true
    → d.worker ≡ none
    → d.startup_transient_failures < max_transient_failures
    → a + startup_launches events ≡ d.startup_transient_failures + 1
    → IsBudgeted
        (a + startup_launches (complete startup code d events).events)
        (complete startup code d events).daemon
unfolding complete
complete_startup code d events a p free f h = elim (Bool-cases (code == 0)) [
  | inl done ↦ rw done (rw free (omega arith))
  | inr failed ↦ elim (Bool-cases (code == exit_terminal)) [
    | inl terminal ↦ rw (failed, terminal) (rw free (omega arith))
    | inr transient ↦ rw (failed, transient) (count_failure-IsBudgeted d events a p free f h)
  ]
]

complete_daily :
    (code : ℕ) (d : Daemon) (events : List Event) (a : ℕ)
    → d.startup_pending ≡ false
    → d.worker ≡ none
    → a + startup_launches events ≤ max_transient_failures
    → IsBudgeted
        (a + startup_launches (complete daily code d events).events)
        (complete daily code d events).daemon
unfolding complete
complete_daily code d events a p free h = elim (Bool-cases (code == 0)) [
  | inl done ↦ rw done (rw (p, free) h)
  | inr failed ↦ elim (Bool-cases (code == exit_noop)) [
    | inl noop ↦ rw (failed, noop) (rw (p, free) h)
    | inr broken ↦ rw (failed, broken) (rw (p, free) h)
  ]
]

complete-IsBudgeted :
    (w : Worker) (code : ℕ) (d : Daemon) (events : List Event) (a : ℕ)
    → d.worker ≡ none
    → startup_launches events ≡ 0
    → Budget d.startup_pending d.startup_transient_failures (some w) a
    → IsBudgeted
        (a + startup_launches (complete w.trigger code d events).events)
        (complete w.trigger code d events).daemon
complete-IsBudgeted w code d events a free quiet h = elim (Bool-cases d.startup_pending) [
  | inl p ↦
      let (t, n, f) = rw p at h in
      rw t (complete_startup code d events a p free f (omega (arith, n, quiet)))
  | inr p ↦
      let (t, n) = rw p at h in
      rw t (complete_daily code d events a p free (omega (arith, n, quiet)))
]

collect-IsBudgeted :
    (o : Option Worker) (r : Readings) (d : Daemon) (a : ℕ)
    → d.worker ≡ o
    → Budget d.startup_pending d.startup_transient_failures o a
    → IsBudgeted (a + startup_launches (collect o r d).events) (collect o r d).daemon
unfolding collect
collect-IsBudgeted none r d a e h = rw (e, add-zero) h
collect-IsBudgeted (some w) r d a e h = elim (Bool-cases (past_deadline r w)) [
  | inl late ↦ rw late (complete-IsBudgeted w _ (gone d) (stop_worker ∷ []) a refl refl h)
  | inr on_time ↦ rw on_time (polled r.polled)
]
  where
    polled :
        (code : Option ℕ)
        → IsBudgeted
            (a + startup_launches (polled_round code w d).events)
            (polled_round code w d).daemon
    polled none = rw (e, add-zero) h
    polled (some code) = complete-IsBudgeted w code (gone d) [] a refl refl h

launch_startup :
    (r : Readings) (d : Daemon) (events : List Event) (a : ℕ)
    → d.worker ≡ none
    → d.startup_pending ≡ true
    → (a + startup_launches events ≡ d.startup_transient_failures)
      × (d.startup_transient_failures < max_transient_failures)
    → let c = launch_due (some startup) r d events in
      IsBudgeted (a + startup_launches c.events) c.daemon
unfolding launch_trigger
launch_startup r d events a e p (n, f) =
    let counted = startup_launches-append events (launch startup r.today ∷ []) in
    elim (Bool-cases r.launched) [
      | inl up ↦ rw up (rw p (refl, omega (arith, counted), f))
      | inr down ↦ rw down (count_failure-IsBudgeted d _ a p e f (omega (arith, counted)))
    ]

launch_daily :
    (r : Readings) (d : Daemon) (events : List Event) (a : ℕ)
    → d.worker ≡ none
    → d.startup_pending ≡ false
    → a + startup_launches events ≤ max_transient_failures
    → let c = launch_due (some daily) r d events in
      IsBudgeted (a + startup_launches c.events) c.daemon
unfolding launch_trigger
launch_daily r d events a e p n =
    let counted = startup_launches-append events (launch daily r.today ∷ []) in
    elim (Bool-cases r.launched) [
      | inl up ↦ rw up (rw p (refl, omega (arith, counted)))
      | inr down ↦ rw down (rw (p, e) (omega (arith, counted)))
    ]

pub due-startup : (d : Daemon) (today : ℕ) → d.startup_pending ≡ true → due d today ≡ some startup
unfolding due
due-startup d today p = rw p

pub due-later :
    (d : Daemon) (today : ℕ)
    → d.startup_pending ≡ false
    → due d today ≡ (if same_date d.last_daily_started today then none else some daily)
unfolding due
due-later d today p = rw p

launch_trigger-IsBudgeted :
    (r : Readings) (d : Daemon) (events : List Event) (a : ℕ)
    → d.worker ≡ none
    → IsBudgeted (a + startup_launches events) d
    → let c = launch_due (due d r.today) r d events in
      IsBudgeted (a + startup_launches c.events) c.daemon
launch_trigger-IsBudgeted r d events a e h = elim (Bool-cases d.startup_pending) [
  | inl p ↦ rw (due-startup d r.today p) (launch_startup r d events a e p (rw (p, e) at h))
  | inr p ↦ elim (Bool-cases (same_date d.last_daily_started r.today)) [
    | inl done ↦ rw (due-later d r.today p, done) h
    | inr open_day ↦
        rw (due-later d r.today p, open_day) (launch_daily r d events a e p (rw (p, e) at h))
  ]
]

launch_if_free-IsBudgeted :
    (o : Option Worker) (r : Readings) (d : Daemon) (events : List Event) (a : ℕ)
    → d.worker ≡ o
    → IsBudgeted (a + startup_launches events) d
    → let c = launch_if_free o r d events in IsBudgeted (a + startup_launches c.events) c.daemon
unfolding launch_if_free
launch_if_free-IsBudgeted (some w) r d events a e h = h
launch_if_free-IsBudgeted none r d events a e h = elim (Bool-cases r.enabled) [
  | inl on ↦ simp on (launch_trigger-IsBudgeted r d events a e h)
  | inr off ↦ simp off h
]

launch_phase-IsBudgeted :
    (r : Readings) (c : Round) (a : ℕ)
    → IsBudgeted (a + startup_launches c.events) c.daemon
    → IsBudgeted (a + startup_launches (launch_phase r c).events) (launch_phase r c).daemon
launch_phase-IsBudgeted r c a h = elim (Bool-cases c.ended) [
  | inl over ↦ rw over h
  | inr going ↦ rw going (launch_if_free-IsBudgeted c.daemon.worker r c.daemon c.events a refl h)
]

round-IsBudgeted :
    (r : Readings) (d : Daemon) (a : ℕ)
    → IsBudgeted a d
    → IsBudgeted (a + startup_launches (round r d).events) (round r d).daemon
unfolding round
round-IsBudgeted r d a h =
    let noted = note_setting r.enabled d in
    launch_phase-IsBudgeted r (collect noted.worker r noted) a
      (collect-IsBudgeted noted.worker r noted a refl (note_setting-IsBudgeted r.enabled d a h))

rounds-IsBudgeted :
    (rs : List Readings) (d : Daemon) (a : ℕ)
    → IsBudgeted a d
    → IsBudgeted (a + startup_launches (rounds rs d).1) (rounds rs d).0
unfolding rounds
rounds-IsBudgeted [] d a h = rw add-zero h
rounds-IsBudgeted (r ∷ rs) d a h =
    let rest =
      rounds-IsBudgeted rs (round r d).daemon (a + startup_launches (round r d).events)
        (round-IsBudgeted r d a h) in
    rw (startup_launches-append (round r d).events _, ← add_assoc) rest

attempts-le : (a : ℕ) (d : Daemon) → IsBudgeted a d → a ≤ max_transient_failures
attempts-le a d h = ground arith

-- Whatever the daemon reads, it launches a startup worker, or tries to, at most five times.
pub startup_attempts_bounded :
    (rs : List Readings) → startup_launches (rounds rs initial).1 ≤ max_transient_failures
startup_attempts_bounded rs = omega (
  arith,
  attempts-le (0 + startup_launches (rounds rs initial).1) (rounds rs initial).0
      (rounds-IsBudgeted rs initial 0 (omega arith)),
)
