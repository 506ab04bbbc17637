-- ===== src/Cleanup/Recovery.antt =====
-- cleanup.py: the recovery of a quarantine that an earlier run has left, and the ways in which a run
-- empties its own. The rows are read as committed: nothing is marked before the recovery.
use Prim.Native.String.{compare}
use Prim.Native.Nat.{Ordering}
use sm_artmatch.Prelude.{
  ℕ, Bool, true, false, not, ◌&&◌, Option, none, some, String, List, [], ◌∷◌, if◌then◌else◌, Result,
  ok, err,
}
use sm_artmatch.Prelude.Dicts.{Dict}
use sm_artmatch.Cleanup.{
  QuarantinedFile, Payload, ImageRow, Disk, Error, runtime_error, find, all_committed,
}
use sm_artmatch.Cleanup.Io.{Io, pure, raise, call, catch, ◌>>=◌, finally, look, nothing}
use sm_artmatch.Cleanup.Quarantine.{
  all_live, all_found, unlink_temporary, load_quarantine_journal, restore_quarantined_file,
  purge_quarantined_file,
}

abbrev pub insert_name : String → List String → List String
insert_name name [] = name ∷ []
insert_name name (other ∷ others) =
    let rest = insert_name name others in
    elim (compare name other) [ Ordering.gt ↦ other ∷ rest | _ ↦ name ∷ other ∷ others ]

-- The names of a directory's entries, sorted.
abbrev pub names : {A : Type 0} → Dict A → List String
names [] = []
names ((name, value) ∷ entries) = insert_name name (names entries)

abbrev pub is_empty : {A : Type 0} → List A → Bool
is_empty [] = true
is_empty (x ∷ xs) = false

unfoldable pub no_leftovers : Disk → Bool
no_leftovers d =
    is_empty d.temporaries && is_empty d.journals && is_empty d.staged && is_empty d.others

unfoldable pub remove_temporaries : List String → Io (Unit {0})
remove_temporaries [] = pure tt
remove_temporaries (name ∷ rest) =
    let later = remove_temporaries rest in unlink_temporary name >>= λ _. nothing >>= λ _. later

abbrev pub with_disk : {A : Type 0} → Result Error A → Disk → Result Error (A × Disk)
with_disk (ok a) d = ok (a, d)
with_disk (err e) d = err e

-- Whether the action has raised nothing.
abbrev pub succeeds : Io (Unit {0}) → Io Bool
succeeds m = catch (m >>= λ _. pure true) (λ e. pure false)

-- One journal after the other; the errors are collected.
unfoldable pub each_journal : (String → Io (Unit {0})) → List String → Io Bool
each_journal m [] = pure true
each_journal m (name ∷ rest) =
    let later = each_journal m rest in
    succeeds (m name) >>= λ good. later >>= λ all. pure (good && all)

abbrev pub require_empty : Bool → Bool → Io (Unit {0})
require_empty good empty = if good && empty then pure tt else raise runtime_error

-- The loop over the journals, with what is done to each, and the test for leftovers.
unfoldable pub empty_quarantine : (String → Io (Unit {0})) → Io (Unit {0})
empty_quarantine m = do
  temporaries ← look (λ d. names d.temporaries)
  journals ← look (λ d. names d.journals)
  _ ← remove_temporaries temporaries
  good ← each_journal m journals
  empty ← look no_leftovers
  require_empty good empty

-- The image root and the quarantine are opened before, and closed and removed after.
unfoldable pub with_quarantine : Io (Unit {0}) → Io (Unit {0})
with_quarantine operation = nothing >>= λ _. finally (nothing >>= λ _. operation) nothing

unfoldable pub purge_all : List QuarantinedFile → Io (Unit {0})
purge_all [] = pure tt
purge_all (q ∷ qs) = let later = purge_all qs in purge_quarantined_file q >>= λ _. later

unfoldable pub purge_quarantined_files : List QuarantinedFile → Io (Unit {0})
purge_quarantined_files [] = pure tt
purge_quarantined_files (q ∷ qs) = with_quarantine (purge_all (q ∷ qs))

module _ (parts : String → List String) (payload_bytes : Payload → ℕ)
    (resolves : String → String → Bool) where
  abbrev pub row_resolves : String → Option ImageRow → Bool
  row_resolves target none = false
  row_resolves target (some row) = path_resolves row.file_path
    where
      path_resolves : Option String → Bool
      path_resolves none = false
      path_resolves (some path) = resolves path target

  abbrev pub all_resolve : String → List ℕ → List (ℕ × ImageRow) → Bool
  all_resolve target [] rows = true
  all_resolve target (id ∷ ids) rows =
      let rest = all_resolve target ids rows in row_resolves target (find id rows) && rest

  -- True: the rows are cleaned up. False: they all have their path to the file. Else it raises.
  unfoldable pub committed_state : QuarantinedFile → List (ℕ × ImageRow) → Result Error Bool
  committed_state q rows =
      if not (all_found q.image_file_ids rows)
      then err runtime_error
      else if all_committed q.image_file_ids rows
      then ok true
      else if all_live q.image_file_ids rows && all_resolve q.relative_path q.image_file_ids rows
      then ok false
      else err runtime_error

  unfoldable pub quarantine_transaction_committed : QuarantinedFile → Io Bool
  quarantine_transaction_committed q = call (λ d. with_disk (committed_state q d.rows) d)

  abbrev pub purge_or_restore : QuarantinedFile → Bool → Io (Unit {0})
  purge_or_restore q true = purge_quarantined_file q
  purge_or_restore q false = restore_quarantined_file parts payload_bytes q

  unfoldable pub reconcile : String → Io (Unit {0})
  reconcile name = do
    q ← load_quarantine_journal parts payload_bytes name
    committed ← quarantine_transaction_committed q
    purge_or_restore q committed

  unfoldable pub recover_quarantine : Io (Unit {0})
  recover_quarantine = with_quarantine (empty_quarantine reconcile)

  unfoldable pub restore_journal : String → Io (Unit {0})
  restore_journal name =
      load_quarantine_journal parts payload_bytes name
      >>= restore_quarantined_file parts payload_bytes

  unfoldable pub restore_uncommitted_quarantine : Io (Unit {0})
  restore_uncommitted_quarantine = with_quarantine (empty_quarantine restore_journal)
