-- ===== src/Batches/Sources.antt =====
-- About the sources of the batches that the scheduler submits, and its children.
use sm_artmatch.Prelude.{
  ℕ, ◌≡◌, refl, Bool, true, false, leb, Bool-cases, inl, inr, ◌⊎◌, List, [], ◌∷◌, ◌++◌,
}
use sm_artmatch.Batches.{
  Source, startup, scheduled, Scheduler, Readings, source_of, round, rounds, begun_at,
}

abbrev pub AllScheduled : List Source → Type 0
AllScheduled [] = Unit
AllScheduled (source ∷ sources) = (source ≡ scheduled) × AllScheduled sources

-- If no batch has been submitted before, the first is the startup batch; all others are scheduled.
abbrev pub StartupFirst : Bool → List Source → Type 0
StartupFirst first [] = Unit
StartupFirst true (source ∷ sources) = (source ≡ startup) × AllScheduled sources
StartupFirst false (source ∷ sources) = (source ≡ scheduled) × AllScheduled sources

-- One batch, of the source whose turn it is.
Submits : Bool → List Source → Type 0
Submits true sources = sources ≡ startup ∷ []
Submits false sources = sources ≡ scheduled ∷ []

later_scheduled : (sources : List Source) → StartupFirst false sources → AllScheduled sources
later_scheduled [] h = tt
later_scheduled (source ∷ sources) h = h

-- A round submits the batch whose turn it is, or none.
Turn : Bool → Bool → List Source → Type 0
Turn first next sources =
    (Submits first sources × (next ≡ false)) ⊎ ((sources ≡ []) × (next ≡ first))

source_of-Submits : (first : Bool) → Submits first (source_of first ∷ [])
unfolding Submits
source_of-Submits true = refl
source_of-Submits false = refl

round-Turn :
    (interval : ℕ) (r : Readings) (s : Scheduler)
    → Turn s.first_trigger (round interval r s).0.first_trigger (round interval r s).1
unfolding round Turn
round-Turn interval r s = elim (Bool-cases (leb s.next_trigger r.now)) [
  | inl due ↦ rw due (inl (source_of-Submits s.first_trigger, refl))
  | inr early ↦ rw early (inr (refl, refl))
]

Submits-StartupFirst :
    (first : Bool) (sources later : List Source)
    → Submits first sources
    → AllScheduled later
    → StartupFirst first (sources ++ later)
unfolding Submits
Submits-StartupFirst true sources later e h = rw e (refl, h)
Submits-StartupFirst false sources later e h = rw e (refl, h)

Turn-StartupFirst :
    (first next : Bool) (sources later : List Source)
    → Turn first next sources
    → StartupFirst next later
    → StartupFirst first (sources ++ later)
unfolding Turn
Turn-StartupFirst first next sources later (inl (e, k)) h =
    Submits-StartupFirst first sources later e (later_scheduled later (rw k at h))
Turn-StartupFirst first next sources later (inr (e, k)) h = rw e (rw k at h)

rounds-StartupFirst :
    (interval : ℕ) (rs : List Readings) (s : Scheduler)
    → StartupFirst s.first_trigger (rounds interval rs s).1
unfolding rounds
rounds-StartupFirst interval [] s = tt
rounds-StartupFirst interval (r ∷ rs) s =
    Turn-StartupFirst s.first_trigger (round interval r s).0.first_trigger (round interval r s).1 _
      (round-Turn interval r s) (rounds-StartupFirst interval rs (round interval r s).0)

-- From its start on, the scheduler submits the startup batch first and only scheduled batches after.
pub submitted-StartupFirst :
    (interval now : ℕ) (rs : List Readings)
    → StartupFirst true (rounds interval rs (begun_at now)).1
submitted-StartupFirst interval now rs = rounds-StartupFirst interval rs (begun_at now)
