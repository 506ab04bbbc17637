-- ===== src/Pipeline/Cadence.antt =====
-- `_next_trigger_after` of scripts/run_pipeline_scheduler.py; scrapers/scheduler.py and
-- scripts/run_interval.py hold the same function. A time is a float there, of which only the sum and
-- the comparison are used; in whole ticks the sum is exact.
use sm_artmatch.Prelude.{
  ℕ, zero, suc, ◌+◌, ◌*◌, ◌≤◌, ◌<◌, ◌≡◌, refl, ◌∙◌, Bool, true, false, Bool-cases, inl, inr, ◌⊎◌,
  Option, none, some, arith, leb, leb→le, if◌then◌else◌,
}

-- `at_most a b` is a <= b.
pub record Clock (T : Type 0) : Type 0 where
  pub add : T → T → T
  pub at_most : T → T → Bool

module _ {T : Type 0} (clock : Clock T) where
  -- `while next_run <= now: next_run += interval`; none is out of fuel.
  unfoldable pub advance : ℕ → T → T → T → Option T
  advance zero next_run interval now = none
  advance (suc fuel) next_run interval now =
      let later = advance fuel (clock.add next_run interval) interval now in
      if clock.at_most next_run now then later else some next_run

  unfoldable pub next_trigger_after : ℕ → T → T → T → Option T
  unfolding advance
  next_trigger_after fuel previous interval now =
      advance fuel (clock.add previous interval) interval now

  -- The time after n more intervals, each added to the sum before.
  abbrev pub added : ℕ → T → T → T
  added zero time interval = time
  added (suc n) time interval = added n (clock.add time interval) interval

  -- `trigger` is the first of the times from `start` on that is after `now`.
  pub record IsFirst (start interval now trigger : T) (n : ℕ) : Type 0 where
    pub skipped : ℕ
    pub within : skipped ≤ n
    pub on_cadence : trigger ≡ added skipped start interval
    pub after_now : clock.at_most trigger now ≡ false
    pub earliest : (k : ℕ) → k < skipped → clock.at_most (added k start interval) now ≡ true

  start-IsFirst :
      (n : ℕ) (start interval now : T)
      → clock.at_most start now ≡ false
      → (trigger : T) × (advance (suc n) start interval now ≡ some trigger)
        × IsFirst start interval now trigger n
  unfolding advance
  start-IsFirst n start interval now future = (
    start,
    rw future refl,
    record {
      skipped = 0;
      within = omega arith;
      on_cadence = refl;
      after_now = future;
      earliest = λ k less. absurd (omega (arith, less));
    },
  )

  -- No time from `start` on, up to the n-th, is after `now`.
  abbrev pub AllPast : T → T → T → ℕ → Type 0
  AllPast start interval now n = (k : ℕ) → k ≤ n → clock.at_most (added k start interval) now ≡ true

  -- The outcome of as many tests as n and one more.
  abbrev pub Tested : ℕ → T → T → T → Option T → Type 0
  Tested n start interval now result =
      ((trigger : T) × (result ≡ some trigger) × IsFirst start interval now trigger n)
      ⊎ ((result ≡ none) × AllPast start interval now n)

  AllPast-suc :
      (n : ℕ) (start interval now : T)
      → clock.at_most start now ≡ true
      → AllPast (clock.add start interval) interval now n
      → AllPast start interval now (suc n)
  AllPast-suc n start interval now due past zero less = due
  AllPast-suc n start interval now due past (suc k) less = past k (omega (arith, less))

  IsFirst-suc :
      (n : ℕ) (start interval now trigger : T)
      → clock.at_most start now ≡ true
      → IsFirst (clock.add start interval) interval now trigger n
      → IsFirst start interval now trigger (suc n)
  IsFirst-suc n start interval now trigger due first = record {
    skipped = suc first.skipped;
    within = omega (arith, first.within);
    on_cadence = first.on_cadence;
    after_now = first.after_now;
    earliest = earlier;
  }
    where
      earlier : (k : ℕ) → k < suc first.skipped → clock.at_most (added k start interval) now ≡ true
      earlier zero less = due
      earlier (suc k) less = first.earliest k (omega (arith, less))

  AllPast-zero :
      (start interval now : T) → clock.at_most start now ≡ true → AllPast start interval now 0
  AllPast-zero start interval now due zero less = due
  AllPast-zero start interval now due (suc k) less = absurd (omega (arith, less))

  advance-Tested :
      (n : ℕ) (start interval now : T)
      → Tested n start interval now (advance (suc n) start interval now)
  unfolding advance
  advance-Tested zero start interval now = elim (Bool-cases (clock.at_most start now)) [
    | inr later ↦ inl (start-IsFirst 0 start interval now later)
    | inl due ↦ rw due (inr (refl, AllPast-zero start interval now due))
  ]
  advance-Tested (suc n) start interval now = elim (Bool-cases (clock.at_most start now)) [
    | inr later ↦ inl (start-IsFirst (suc n) start interval now later)
    | inl due ↦
        let rest = advance-Tested n (clock.add start interval) interval now in
        rw due (elim rest [
          | inl (trigger, e, first) ↦
              inl (trigger, e, IsFirst-suc n start interval now trigger due first)
          | inr (e, past) ↦ inr (e, AllPast-suc n start interval now due past)
        ])
  ]

  -- The times on the cadence of the previous trigger are the sums that the clock's own addition
  -- gives, one interval after the other. Within n tests and one more, the loop ends if one of the
  -- first of them, up to the n-th, is after now, and then gives the earliest such: missed triggers are
  -- skipped, not queued. Otherwise it has not ended: where no sum comes after now, it never does.
  pub next_trigger_after-Tested :
      (n : ℕ) (previous interval now : T)
      → Tested n
          (clock.add previous interval)
          interval
          now
          (next_trigger_after (suc n) previous interval now)
  unfolding next_trigger_after
  next_trigger_after-Tested n previous interval now =
      advance-Tested n (clock.add previous interval) interval now

  -- Where adding the interval changes nothing, as for a float much larger than it, no fuel is enough.
  pub next_trigger_after_stuck :
      (fuel : ℕ) (previous interval now : T)
      → clock.add (clock.add previous interval) interval ≡ clock.add previous interval
      → clock.at_most (clock.add previous interval) now ≡ true
      → next_trigger_after fuel previous interval now ≡ none
  unfolding next_trigger_after advance
  next_trigger_after_stuck zero previous interval now same due = refl
  next_trigger_after_stuck (suc fuel) previous interval now same due =
      rw (due, same) (next_trigger_after_stuck fuel previous interval now same due)

abbrev pub ticks : Clock ℕ
ticks = record { add = λ a b. a + b; at_most = leb }

-- In whole ticks: with a positive interval, one test more than `now` has ticks is enough.
unfoldable pub next_trigger_in_ticks : ℕ → ℕ → ℕ → Option ℕ
unfolding next_trigger_after
next_trigger_in_ticks previous interval now =
    next_trigger_after ticks (suc now) previous interval now

-- `trigger` is the first of previous + interval, previous + 2 * interval, … that is after `now`.
pub record IsNext (previous interval now trigger : ℕ) : Type 0 where
  pub skipped : ℕ
  pub on_cadence : trigger ≡ previous + interval + skipped * interval
  pub after_now : now < trigger
  pub earliest : (k : ℕ) → k < skipped → previous + interval + k * interval ≤ now

IsNext-later :
    {previous interval now trigger : ℕ}
    → previous + interval ≤ now
    → IsNext (previous + interval) interval now trigger
    → IsNext previous interval now trigger
IsNext-later {previous} {interval} {now} h n = record {
  skipped = n.skipped + 1;
  on_cadence = omega (arith, n.on_cadence);
  after_now = n.after_now;
  earliest = earliest;
}
  where
    earliest : (k : ℕ) → k < n.skipped + 1 → previous + interval + k * interval ≤ now
    earliest zero less = omega arith
    earliest (suc k) less = omega (arith, n.earliest k (omega arith))

stop_here :
    (fuel previous interval now : ℕ)
    → leb (previous + interval) now ≡ false
    → (trigger : ℕ) × (advance ticks (suc fuel) (previous + interval) interval now ≡ some trigger)
      × IsNext previous interval now trigger
unfolding advance
stop_here fuel previous interval now future = (
  previous + interval,
  rw future,
  record {
    skipped = 0;
    on_cadence = omega arith;
    after_now = ground arith;
    earliest = λ k less. absurd (omega arith);
  },
)

advance_again :
    (fuel next_run interval now : ℕ)
    → leb next_run now ≡ true
    → advance ticks (suc fuel) next_run interval now
      ≡ advance ticks fuel (next_run + interval) interval now
unfolding advance
advance_again fuel next_run interval now due = rw due

advance-IsNext :
    (fuel previous interval now : ℕ)
    → 0 < interval
    → now < fuel + (previous + interval)
    → (trigger : ℕ) × (advance ticks (suc fuel) (previous + interval) interval now ≡ some trigger)
      × IsNext previous interval now trigger
advance-IsNext zero previous interval now pos h =
    stop_here zero previous interval now (ground arith)
advance-IsNext (suc fuel) previous interval now pos h =
    elim (Bool-cases (leb (previous + interval) now)) [
      | inl due ↦
          let (trigger, e, n) =
            advance-IsNext fuel (previous + interval) interval now pos (omega arith) in
          (
            trigger,
            advance_again (suc fuel) (previous + interval) interval now due ∙ e,
            IsNext-later (leb→le _ _ due) n,
          )
      | inr future ↦ stop_here (suc fuel) previous interval now future
    ]

-- With a positive interval the loop ends, and gives the first time on the cadence of the previous
-- trigger that lies after now.
pub next_trigger_in_ticks-IsNext :
    (previous interval now : ℕ)
    → 0 < interval
    → (trigger : ℕ) × (next_trigger_in_ticks previous interval now ≡ some trigger)
      × IsNext previous interval now trigger
unfolding next_trigger_in_ticks next_trigger_after
next_trigger_in_ticks-IsNext previous interval now pos =
    advance-IsNext now previous interval now pos (omega arith)
