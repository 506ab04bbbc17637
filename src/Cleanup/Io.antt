-- ===== src/Cleanup/Io.antt =====
-- Actions on the disk: what they give, and what has become of the disk and the schedule.
use sm_artmatch.Prelude.{List, [], ◌∷◌, Result, ok, err}
use sm_artmatch.Cleanup.{Disk, Event, proceed, fail, fail_after, Error, killed, os_error}

pub record Outcome (A : Type 0) : Type 0 where
  pub result : Result Error A
  pub disk : Disk
  pub events : List Event

abbrev pub Io : Type 0 → Type 0
Io A = Disk → List Event → Outcome A

module _ {A : Type 0} where
  unfoldable pub pure : A → Io A
  pure a d es = record { result = ok a; disk = d; events = es }

  unfoldable pub raise : Error → Io A
  raise e d es = record { result = err e; disk = d; events = es }

  -- What a call that is done gives: an error leaves the disk.
  abbrev pub settle : Result Error (A × Disk) → Disk → List Event → Outcome A
  settle (ok (a, d')) d es = record { result = ok a; disk = d'; events = es }
  settle (err e) d es = record { result = err e; disk = d; events = es }

  -- One system call.
  unfoldable pub call : (Disk → Result Error (A × Disk)) → Io A
  call f d [] = record { result = err killed; disk = d; events = [] }
  call f d (proceed ∷ es) = settle (f d) d es
  call f d (fail ∷ es) = record { result = err os_error; disk = d; events = es }
  call f d (fail_after ∷ es) = record { result = err os_error; disk = d; events = es }

  abbrev pub handle : Result Error A → (Error → Io A) → Io A
  handle (ok a) handler d es = record { result = ok a; disk = d; events = es }
  handle (err e) handler d es = handler e d es

  -- `try m except Exception`; after the end of the schedule the handler has no effect.
  unfoldable pub catch : Io A → (Error → Io A) → Io A
  catch m handler d es = let o = m d es in handle o.result handler o.disk o.events

module _ {A B : Type 0} where
  abbrev pub continue : Result Error A → (A → Io B) → Io B
  continue (ok a) next d es = next a d es
  continue (err e) next d es = record { result = err e; disk = d; events = es }

  infixl 10 ◌>>=◌
  unfoldable pub ◌>>=◌ : Io A → (A → Io B) → Io B
  (m >>= next) d es = let o = m d es in continue o.result next o.disk o.events

-- `try m finally last`
unfoldable pub finally : {A B : Type 0} → Io A → Io B → Io A
finally m last = catch m (λ e. last >>= λ _. raise e) >>= λ a. last >>= λ _. pure a

-- A call without a result that changes the disk.
unfoldable pub change : (Disk → Disk) → Io (Unit {0})
change f = call (λ d. ok (tt, f d))

-- A call that only looks.
unfoldable pub look : {A : Type 0} → (Disk → A) → Io A
look f = call (λ d. ok (f d, d))

-- A call without effect, such as fsync.
unfoldable pub nothing : Io (Unit {0})
nothing = call (λ d. ok (tt, d))
