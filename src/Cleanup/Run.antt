-- ===== src/Cleanup/Run.antt =====
-- cleanup.py: the operations of an inventory, and a run as a whole, with --apply or without. `uuid4`
-- gives the operation id that is drawn for a target, `relative` its path below the image root.
use sm_artmatch.Prelude.{
  ℕ, ◌+◌, Bool, true, false, not, Option, none, some, String, List, [], ◌∷◌, ◌++◌, map, length, leb,
  ◌==◌, if◌then◌else◌, Result, ok, err,
}
use sm_artmatch.Prelude.Dicts.{lookup}
use sm_artmatch.Cleanup.{
  File, QuarantinedFile, Payload, ImageRow, Disk, proceed, fail, fail_after, Error, killed,
  os_error, not_found, runtime_error, already_running, active_scraper, purge_pending, find,
  live_row,
}
use sm_artmatch.Cleanup.Io.{Io, pure, raise, call, catch, ◌>>=◌, finally, change, nothing}
use sm_artmatch.Cleanup.Inventory.{ResolvedUsage, TargetGroup, Plan}
use sm_artmatch.Cleanup.Quarantine.{
  FileOperation, regular, deleted, missing, unsafe, failed, or_not_found, valid_parts, stage_target,
}
use sm_artmatch.Cleanup.Recovery.{
  succeeds, recover_quarantine, restore_uncommitted_quarantine, purge_quarantined_files,
}

pub record Counts : Type 0 where
  pub would_delete : ℕ
  pub deleted_count : ℕ
  pub missing_count : ℕ
  pub unsafe_count : ℕ
  pub failed_count : ℕ
  pub byte_count : ℕ
  pub cleaned_image_file_ids : List ℕ
  pub quarantined_files : List QuarantinedFile

abbrev pub contains_id : ℕ → List ℕ → Bool
contains_id id [] = false
contains_id id (x ∷ xs) = let rest = contains_id id xs in if id == x then true else rest

-- `ids.update(more)` of a set.
abbrev pub add_ids : List ℕ → List ℕ → List ℕ
add_ids [] ids = ids
add_ids (id ∷ more) ids =
    let rest = add_ids more ids in if contains_id id rest then rest else id ∷ rest

abbrev pub no_counts : Counts
no_counts = record {
  would_delete = 0;
  deleted_count = 0;
  missing_count = 0;
  unsafe_count = 0;
  failed_count = 0;
  byte_count = 0;
  cleaned_image_file_ids = [];
  quarantined_files = [];
}

unfoldable pub count_operation : Bool → List ℕ → FileOperation → Counts → Counts
count_operation apply ids (regular size) c = record c {
  would_delete = c.would_delete + 1;
  byte_count = c.byte_count + size;
}
count_operation apply ids (deleted q) c = record c {
  deleted_count = c.deleted_count + 1;
  byte_count = c.byte_count + q.size;
  cleaned_image_file_ids = add_ids ids c.cleaned_image_file_ids;
  quarantined_files = c.quarantined_files ++ q ∷ [];
}
count_operation apply ids missing c = record c {
  missing_count = c.missing_count + 1;
  cleaned_image_file_ids =
      if apply then add_ids ids c.cleaned_image_file_ids else c.cleaned_image_file_ids;
}
count_operation apply ids unsafe c = record c { unsafe_count = c.unsafe_count + 1 }
count_operation apply ids failed c = record c { failed_count = c.failed_count + 1 }

abbrev pub insert_id : ℕ → List ℕ → List ℕ
insert_id id [] = id ∷ []
insert_id id (x ∷ xs) = let rest = insert_id id xs in if leb id x then id ∷ x ∷ xs else x ∷ rest

abbrev pub sorted_ids : List ℕ → List ℕ
sorted_ids [] = []
sorted_ids (id ∷ ids) = insert_id id (sorted_ids ids)

abbrev pub ids_of : List ResolvedUsage → List ℕ
ids_of rows = sorted_ids (map (λ (row : ResolvedUsage). row.usage.image_file_id) rows)

pub data Opened : Type 0 where
  opened : File → Opened
  not_opened : FileOperation → Opened

abbrev pub open_failed : Error → Io Opened
open_failed not_found = pure (not_opened missing)
open_failed os_error = pure (not_opened failed)
open_failed e = raise e

-- One row of image_file, if it is live.
abbrev pub mark_row : ℕ → List (ℕ × ImageRow) → List (ℕ × ImageRow)
mark_row id [] = []
mark_row id ((key, row) ∷ rows) =
    let rest = mark_row id rows in
    if key == id
    then (key, record { file_path = none; cleaned_up = true }) ∷ rows
    else (key, row) ∷ rest

-- The update, with the test that it returns each of the ids.
unfoldable pub mark_ids : List ℕ → List (ℕ × ImageRow) → Option (List (ℕ × ImageRow))
mark_ids [] rows = some rows
mark_ids (id ∷ ids) rows =
    let rest = mark_ids ids (mark_row id rows) in if live_row (find id rows) then rest else none

abbrev pub marked : Option (List (ℕ × ImageRow)) → Disk → Result Error (Unit {0} × Disk)
marked none d = err runtime_error
marked (some rows) d = ok (tt, record d { pending = rows })

unfoldable pub mark_image_files_cleaned_up : List ℕ → Io (Unit {0})
mark_image_files_cleaned_up ids = call (λ d. marked (mark_ids ids d.pending) d)

unfoldable pub commit : Io (Unit {0})
commit d [] = record { result = err killed; disk = d; events = [] }
commit d (proceed ∷ es) = record {
  result = ok tt;
  disk = record d { rows = d.pending };
  events = es;
}
commit d (fail ∷ es) = record { result = err os_error; disk = d; events = es }
commit d (fail_after ∷ es) = record {
  result = err os_error;
  disk = record d { rows = d.pending };
  events = es;
}

unfoldable pub rollback : Io (Unit {0})
rollback = change (λ d. record d { pending = d.rows })

-- The advisory lock, the test for a running scraper, and the table locks, in a new transaction.
unfoldable pub lock_cleanup_snapshot : Bool → Bool → Io (Unit {0})
lock_cleanup_snapshot lock_free scraper_running = call (λ d.
    if not lock_free
    then err already_running
    else if scraper_running
    then err active_scraper
    else ok (tt, record d { pending = d.rows }))

abbrev pub mark_or_rollback : Counts → List ℕ → Io Counts
mark_or_rollback c [] = rollback >>= λ _. pure c
mark_or_rollback c (id ∷ ids) = mark_image_files_cleaned_up (id ∷ ids) >>= λ _. pure c

abbrev pub give_up : {A : Type 0} → Error → Io A
give_up e = succeeds rollback >>= λ _. raise e

module _ (parts : String → List String) (payload_bytes : Payload → ℕ)
    (resolves : String → String → Bool) (uuid4 : String → String) (relative : String → String) where
  abbrev pub staging : String → List ℕ → File → QuarantinedFile
  staging target ids file = record {
    operation_id = uuid4 target;
    relative_path = relative target;
    image_file_ids = ids;
    size = file.size;
  }

  abbrev pub operate_on_opened : Bool → String → List ℕ → Opened → Io FileOperation
  operate_on_opened apply target ids (not_opened operation) = pure operation
  operate_on_opened apply target ids (opened file) =
      if not file.is_regular
      then pure unsafe
      else if apply
      then stage_target parts payload_bytes (staging target ids file) file
      else pure (regular file.size)

  -- A parent that is missing or a symbolic link is left out: targets are resolved.
  unfoldable pub operate_on_target : Bool → String → List ℕ → Io FileOperation
  operate_on_target apply target ids =
      if valid_parts (parts (relative target))
      then (catch
            (nothing >>= λ _.
              call (λ d. or_not_found (lookup (relative target) d.files) d) >>= λ file.
              pure (opened file))
            open_failed
          >>= operate_on_opened apply target ids)
      else pure unsafe

  unfoldable pub operate_all : Bool → List TargetGroup → Counts → Io Counts
  operate_all apply [] c = pure c
  operate_all apply ((target, rows) ∷ groups) c =
      operate_on_target apply target (ids_of rows) >>= λ operation.
      operate_all apply groups (count_operation apply (ids_of rows) operation c)

  abbrev pub operate_in_root : Bool → List TargetGroup → Counts → Bool → Io Counts
  operate_in_root apply groups c true =
      finally (nothing >>= λ _. operate_all apply groups c) nothing
  operate_in_root apply groups c false = pure (record c { failed_count = length groups })

  -- A root that cannot be opened fails all operations.
  unfoldable pub run_operations : Bool → List TargetGroup → Counts → Io Counts
  run_operations apply [] c = pure c
  run_operations apply (g ∷ gs) c = succeeds nothing >>= operate_in_root apply (g ∷ gs) c

  unfoldable pub cleanup_inventory : Bool → Plan → Io Counts
  cleanup_inventory apply plan =
      run_operations apply plan.operations
        (record no_counts { unsafe_count = plan.unsafe_target_count })

  -- The part between the recovery and the commit.
  abbrev pub inventory_phase : Bool → Plan → Io Counts
  inventory_phase has_candidate plan = nothing >>= λ _.
      (if has_candidate
        then (cleanup_inventory true plan >>= λ c. mark_or_rollback c c.cleaned_image_file_ids)
        else (rollback >>= λ _. pure no_counts))

  abbrev pub restore_and_give_up : {A : Type 0} → Error → Io A
  restore_and_give_up e = succeeds rollback >>= λ _.
      succeeds (restore_uncommitted_quarantine parts payload_bytes resolves) >>= λ _. raise e

  abbrev pub commit_phase : Counts → List ℕ → Io Counts
  commit_phase c [] = pure c
  commit_phase c (id ∷ ids) = catch commit give_up >>= λ _.
      catch (purge_quarantined_files c.quarantined_files) (λ e. raise purge_pending) >>= λ _. pure c

  -- A run with --apply.
  unfoldable pub cleanup : Bool → Bool → Bool → Plan → Io Counts
  cleanup lock_free scraper_running has_candidate plan = do
    _ ←
        catch
          (lock_cleanup_snapshot lock_free scraper_running >>= λ _.
            recover_quarantine parts payload_bytes resolves)
          give_up
    c ← catch (inventory_phase has_candidate plan) restore_and_give_up
    commit_phase c c.cleaned_image_file_ids
