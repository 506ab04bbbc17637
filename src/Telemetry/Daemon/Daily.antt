-- ===== src/Telemetry/Daemon/Daily.antt =====
-- About the daily worker of the daemon: the days of its launches.
use mathlib.Core.Path.{subst, ap}
use mathlib.Core.List.{append-nil}
use mathlib.Core.Option.{some-injective}
use sm_artmatch.Prelude.{
  ℕ, ◌+◌, ◌≤◌, ◌<◌, ◌≡◌, ◌≢◌, ◌∙◌, refl, Bool, false, Bool-cases, inl, inr, Option, none, some,
  List, [], ◌∷◌, ◌++◌, arith, leb,
}
use sm_artmatch.Telemetry.Daemon.{
  Trigger, startup, daily, Worker, Daemon, Readings, Event, stop_worker, launch, wait_retry,
  same_date, note_setting, count_failure, complete, past_deadline, gone, polled_round, collect, due,
  launch_trigger, launch_due, launch_if_free, round, initial, rounds,
}
use sm_artmatch.Telemetry.Daemon.Budget.{due-startup, due-later}

-- The days of the daily launches among the events.
abbrev pub daily_days : List Event → List ℕ
daily_days [] = []
daily_days (launch daily today ∷ es) = today ∷ daily_days es
daily_days (launch startup today ∷ es) = daily_days es
daily_days (stop_worker ∷ es) = daily_days es
daily_days (wait_retry s ∷ es) = daily_days es

daily_days-append : (xs ys : List Event) → daily_days (xs ++ ys) ≡ daily_days xs ++ daily_days ys
daily_days-append [] ys = refl
daily_days-append (launch daily today ∷ es) ys = rw (daily_days-append es ys)
daily_days-append (launch startup today ∷ es) ys = daily_days-append es ys
daily_days-append (stop_worker ∷ es) ys = daily_days-append es ys
daily_days-append (wait_retry s ∷ es) ys = daily_days-append es ys

-- A round launches no daily worker and keeps the day of the last one, or launches today's first.
data Days (last last' : Option ℕ) (today : ℕ) (days : List ℕ) : Type 0 where
  quiet : days ≡ [] → last' ≡ last → Days last last' today days
  started : days ≡ today ∷ [] → last' ≡ some today → last ≢ some today → Days last last' today days

note_setting-last :
    (enabled : Bool) (d : Daemon)
    → (note_setting enabled d).last_daily_started ≡ d.last_daily_started
unfolding note_setting
note_setting-last enabled d = ground arith

count_failure-quiet :
    (d : Daemon) (events : List Event)
    → (daily_days (count_failure d events).events ≡ daily_days events)
      × ((count_failure d events).daemon.last_daily_started ≡ d.last_daily_started)
unfolding count_failure
count_failure-quiet d events = elim (Bool-cases (leb 5 (d.startup_transient_failures + 1))) [
  | inl last ↦ rw last (refl, refl)
  | inr more ↦ rw more (daily_days-append events (wait_retry _ ∷ []) ∙ append-nil _, refl)
]

complete-quiet :
    (t : Trigger) (code : ℕ) (d : Daemon) (events : List Event)
    → (daily_days (complete t code d events).events ≡ daily_days events)
      × ((complete t code d events).daemon.last_daily_started ≡ d.last_daily_started)
unfolding complete
complete-quiet startup code d events = ground (arith, count_failure-quiet d events)
complete-quiet daily code d events = ground arith

collect-quiet :
    (o : Option Worker) (r : Readings) (d : Daemon)
    → (daily_days (collect o r d).events ≡ [])
      × ((collect o r d).daemon.last_daily_started ≡ d.last_daily_started)
unfolding collect
collect-quiet none r d = (refl, refl)
collect-quiet (some w) r d = elim (Bool-cases (past_deadline r w)) [
  | inl late ↦ rw late (complete-quiet w.trigger 124 (gone d) (stop_worker ∷ []))
  | inr on_time ↦ rw on_time (polled r.polled)
]
  where
    polled :
        (code : Option ℕ)
        → (daily_days (polled_round code w d).events ≡ [])
          × ((polled_round code w d).daemon.last_daily_started ≡ d.last_daily_started)
    polled none = (refl, refl)
    polled (some code) = complete-quiet w.trigger code (gone d) []

launch_startup-Days :
    (r : Readings) (d : Daemon) (events : List Event)
    → daily_days events ≡ []
    → let c = launch_due (some startup) r d events in
      Days d.last_daily_started c.daemon.last_daily_started r.today (daily_days c.events)
unfolding launch_trigger
launch_startup-Days r d events h =
    let listed = daily_days-append events (launch startup r.today ∷ []) ∙ append-nil _ ∙ h in
    elim (Bool-cases r.launched) [
      | inl up ↦ rw up (quiet listed refl)
      | inr down ↦
          let (same, kept) = count_failure-quiet d (events ++ launch startup r.today ∷ []) in
          rw down (quiet (same ∙ listed) kept)
    ]

launch_daily-Days :
    (r : Readings) (d : Daemon) (events : List Event)
    → daily_days events ≡ []
    → same_date d.last_daily_started r.today ≡ false
    → let c = launch_due (some daily) r d events in
      Days d.last_daily_started c.daemon.last_daily_started r.today (daily_days c.events)
unfolding launch_trigger
launch_daily-Days r d events h other =
    let listed =
      daily_days-append events (launch daily r.today ∷ []) ∙ ap (λ l. l ++ r.today ∷ []) h in
    elim (Bool-cases r.launched) [
      | inl up ↦ rw up (started listed refl (not_same d.last_daily_started other))
      | inr down ↦ rw down (started listed refl (not_same d.last_daily_started other))
    ]
  where
    not_same : (o : Option ℕ) → same_date o r.today ≡ false → o ≢ some r.today
    not_same none e p = cc
    not_same (some x) e p = ground (arith, some-injective x r.today p)

launch_due-Days :
    (r : Readings) (d : Daemon) (events : List Event)
    → daily_days events ≡ []
    → let c = launch_due (due d r.today) r d events in
      Days d.last_daily_started c.daemon.last_daily_started r.today (daily_days c.events)
launch_due-Days r d events h = elim (Bool-cases d.startup_pending) [
  | inl p ↦ rw (due-startup d r.today p) (launch_startup-Days r d events h)
  | inr p ↦ elim (Bool-cases (same_date d.last_daily_started r.today)) [
    | inl done ↦ rw (due-later d r.today p, done) (quiet h refl)
    | inr open_day ↦ rw (due-later d r.today p, open_day) (launch_daily-Days r d events h open_day)
  ]
]

launch_if_free-Days :
    (o : Option Worker) (r : Readings) (d : Daemon) (events : List Event)
    → daily_days events ≡ []
    → let c = launch_if_free o r d events in
      Days d.last_daily_started c.daemon.last_daily_started r.today (daily_days c.events)
unfolding launch_if_free
launch_if_free-Days (some w) r d events h = quiet h refl
launch_if_free-Days none r d events h = elim (Bool-cases r.enabled) [
  | inl on ↦ simp on (launch_due-Days r d events h)
  | inr off ↦ simp off (quiet h refl)
]

round-Days :
    (r : Readings) (d : Daemon)
    → Days d.last_daily_started
        (round r d).daemon.last_daily_started
        r.today
        (daily_days (round r d).events)
unfolding round
round-Days r d =
    let noted = note_setting r.enabled d in
    let c = collect noted.worker r noted in
    let (h, kept) = collect-quiet noted.worker r noted in
    let last = kept ∙ note_setting-last r.enabled d in
    elim (Bool-cases c.ended) [
      | inl over ↦ rw over (quiet h last)
      | inr going ↦ rw going (
          subst
            (λ o.
              Days o (launch_if_free c.daemon.worker r c.daemon c.events).daemon.last_daily_started
                r.today (daily_days (launch_if_free c.daemon.worker r c.daemon c.events).events))
            last (launch_if_free-Days c.daemon.worker r c.daemon c.events h))
    ]

-- The clock's days do not go back, from a first day on.
abbrev pub InSequence : ℕ → List Readings → Type 0
InSequence day [] = Unit
InSequence day (r ∷ rs) = (day ≤ r.today) × InSequence r.today rs

-- The days come one after the other, after the last one if there is one.
abbrev pub Follow : Option ℕ → List ℕ → Type 0
Follow last [] = Unit
Follow none (x ∷ xs) = Follow (some x) xs
Follow (some last) (x ∷ xs) = (last < x) × Follow (some x) xs

abbrev UpTo : Option ℕ → ℕ → Type 0
UpTo none day = Unit
UpTo (some last) day = last ≤ day

UpTo-mono : (o : Option ℕ) (a b : ℕ) → UpTo o a → a ≤ b → UpTo o b
UpTo-mono none a b h k = tt
UpTo-mono (some x) a b h k = omega arith

round-UpTo :
    {last last' : Option ℕ} {today : ℕ} {days : List ℕ} (day : ℕ)
    → Days last last' today days
    → UpTo last day
    → day ≤ today
    → UpTo last' today
round-UpTo {last} {today} day (quiet e k) h later = rw k (UpTo-mono last day today h later)
round-UpTo day (started e k other) h later = rw k (omega arith)

some_ne : (x today : ℕ) → some x ≢ some today → x ≢ today
some_ne x today other e = other (ap some e)

first-Follow :
    (last : Option ℕ) (today day : ℕ) (rest : List ℕ)
    → last ≢ some today
    → UpTo last day
    → day ≤ today
    → Follow (some today) rest
    → Follow last (today ∷ rest)
first-Follow none today day rest other h later f = f
first-Follow (some x) today day rest other h later f = (omega (arith, some_ne x today other), f)

round-Follow :
    {last last' : Option ℕ} {today : ℕ} {days : List ℕ} (day : ℕ) (rest : List ℕ)
    → Days last last' today days
    → UpTo last day
    → day ≤ today
    → Follow last' rest
    → Follow last (days ++ rest)
round-Follow day rest (quiet e k) h later f = rw e (rw k at f)
round-Follow {last} {today} day rest (started e k other) h later f =
    rw e (first-Follow last today day rest other h later (rw k at f))

rounds-Follow :
    (rs : List Readings) (d : Daemon) (day : ℕ)
    → UpTo d.last_daily_started day
    → InSequence day rs
    → Follow d.last_daily_started (daily_days (rounds rs d).1)
unfolding rounds
rounds-Follow [] d day h s = tt
rounds-Follow (r ∷ rs) d day h (later, s) =
    let days = round-Days r d in
    rw (daily_days-append (round r d).events _) (
      round-Follow day _ days h later
        (rounds-Follow rs (round r d).daemon r.today (round-UpTo day days h later) s))

-- While the clock does not go back a day, the daily worker is launched, or its launch tried, at
-- most once a day: the days of its launches increase.
pub daily_launches-Follow :
    (rs : List Readings) (day : ℕ)
    → InSequence day rs
    → Follow none (daily_days (rounds rs initial).1)
daily_launches-Follow rs day s = rounds-Follow rs initial day tt s
