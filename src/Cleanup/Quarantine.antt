-- ===== src/Cleanup/Quarantine.antt =====
-- cleanup.py: one file's way into the quarantine, back, and out of it, and the recovery.
-- `parts` is pathlib's, `payload_bytes` the number of bytes of a journal, and `resolves path target`
-- says whether a path of the database can resolve to the file of the image root: the source has
-- `row_path_resolves` of Inventory there, and all that is shown holds whatever it says.
use Prim.Native.Char.{code}
use sm_artmatch.Prelude.{
  ℕ, zero, suc, ◌*◌, Bool, true, false, not, ◌&&◌, ◌||◌, Option, none, some, String, List, [], ◌∷◌,
  leb, ltb, ◌==◌, if◌then◌else◌, str_eq, Result, ok, err,
}
use sm_artmatch.Prelude.Dicts.{lookup, put, remove}
use sm_artmatch.Artists.{starts_with}
use sm_artmatch.Cleanup.{
  File, QuarantinedFile, Fields, Payload, broken, written, ImageRow, Disk, Error, os_error,
  not_found, runtime_error, find, live_row,
}
use sm_artmatch.Cleanup.Io.{Io, pure, raise, call, catch, ◌>>=◌, change, look, nothing}

pub data FileOperation : Type 0 where
  regular : ℕ → FileOperation
  deleted : QuarantinedFile → FileOperation
  missing unsafe failed : FileOperation

abbrev pub max_journal_bytes : ℕ
max_journal_bytes = 64 * 1024

abbrev is_hex_digit : ℕ → Bool
is_hex_digit n = leb 48 n && leb n 57 || leb 97 n && leb n 102

-- Whether a text has n characters, each of 0123456789abcdef.
unfoldable pub is_hex : ℕ → String → Bool
is_hex n String.[] = n == 0
is_hex zero (String.◌∷◌ c s) = false
is_hex (suc n) (String.◌∷◌ c s) = let rest = is_hex n s in is_hex_digit (code c) && rest

abbrev pub is_some : {A : Type 0} → Option A → Bool
is_some none = false
is_some (some a) = true

abbrev pub same_file : File → File → Bool
same_file a b = (a.identity == b.identity) && (a.size == b.size)

abbrev pub all_positive : List ℕ → Bool
all_positive [] = true
all_positive (id ∷ ids) = let rest = all_positive ids in ltb 0 id && rest

abbrev pub is_filled : List ℕ → Bool
is_filled [] = false
is_filled (id ∷ ids) = true

unfoldable pub all_live : List ℕ → List (ℕ × ImageRow) → Bool
all_live [] rows = true
all_live (id ∷ ids) rows = let rest = all_live ids rows in live_row (find id rows) && rest

unfoldable pub all_found : List ℕ → List (ℕ × ImageRow) → Bool
all_found [] rows = true
all_found (id ∷ ids) rows = let rest = all_found ids rows in is_some (find id rows) && rest

-- System calls on the entries of one operation.
abbrev pub unlink_temporary : String → Io (Unit {0})
unlink_temporary id = change (λ d. record d { temporaries = remove id d.temporaries })

abbrev pub unlink_journal : String → Io (Unit {0})
unlink_journal id = change (λ d. record d { journals = remove id d.journals })

abbrev pub unlink_staged : String → Io (Unit {0})
unlink_staged id = change (λ d. record d { staged = remove id d.staged })

abbrev pub open_temporary : String → Disk → Result Error (Unit {0} × Disk)
open_temporary id d =
    if is_some (lookup id d.temporaries)
    then err os_error
    else ok (tt, record d { temporaries = put id broken d.temporaries })

-- `os.rename` of the temporary journal.
abbrev pub rename_from : String → Option Payload → Disk → Result Error (Unit {0} × Disk)
rename_from id none d = err not_found
rename_from id (some payload) d =
    ok
      (tt, record d { temporaries = remove id d.temporaries; journals = put id payload d.journals })

-- `os.rename` of a file into the quarantine, and back.
abbrev pub move_in : String → String → Option File → Disk → Result Error (Unit {0} × Disk)
move_in path id none d = err not_found
move_in path id (some file) d =
    ok (tt, record d { files = remove path d.files; staged = put id file d.staged })

abbrev pub move_back : String → String → Option File → Disk → Result Error (Unit {0} × Disk)
move_back path id none d = err not_found
move_back path id (some file) d =
    ok (tt, record d { files = put path file d.files; staged = remove id d.staged })

abbrev pub regular_entry : Option File → Disk → Result Error (Bool × Disk)
regular_entry none d = ok (false, d)
regular_entry (some file) d = if file.is_regular then ok (true, d) else err runtime_error

unfoldable pub regular_entry_exists : String → Io Bool
regular_entry_exists id = call (λ d. regular_entry (lookup id d.staged) d)

abbrev pub or_not_found : {A : Type 0} → Option A → Disk → Result Error (A × Disk)
or_not_found none d = err not_found
or_not_found (some a) d = ok (a, d)

unfoldable pub fields_of : QuarantinedFile → Fields
fields_of q = record {
  version = 1;
  operation_id = q.operation_id;
  journal_name = q.operation_id;
  staged_name = q.operation_id;
  relative_path = q.relative_path;
  image_file_ids = q.image_file_ids;
  size = q.size;
}

abbrev pub quarantine_dir_name : String
quarantine_dir_name = ".smartmatch-cleanup-quarantine"

abbrev pub is_special : String → Bool
is_special part = str_eq part "" || str_eq part "." || str_eq part ".."

abbrev pub any_special : List String → Bool
any_special [] = false
any_special (part ∷ rest) = let later = any_special rest in is_special part || later

-- No parts, a special part, or a first part that is the quarantine, makes a path invalid.
unfoldable pub valid_parts : List String → Bool
valid_parts [] = false
valid_parts (part ∷ rest) = not (any_special (part ∷ rest)) && not (str_eq part quarantine_dir_name)

abbrev pub lift : {A : Type 0} → Result Error A → Io A
lift (ok a) = pure a
lift (err e) = raise e

abbrev pub rename_temporary : String → Io (Unit {0})
rename_temporary id = call (λ d. rename_from id (lookup id d.temporaries) d)

abbrev pub fill_temporary : QuarantinedFile → Io (Unit {0})
fill_temporary q =
    change
      (λ d. record d { temporaries = put q.operation_id (written (fields_of q)) d.temporaries })

abbrev pub publish_journal : String → Io (Unit {0})
publish_journal id = rename_temporary id >>= λ _. nothing

abbrev pub withdraw_journal : String → Error → Io (Unit {0})
withdraw_journal id e = unlink_temporary id >>= λ _. unlink_journal id >>= λ _. raise e

unfoldable pub write_journal : QuarantinedFile → Io QuarantinedFile
write_journal q = do
  _ ← call (open_temporary q.operation_id)
  _ ← fill_temporary q
  _ ← nothing
  _ ← catch (publish_journal q.operation_id) (withdraw_journal q.operation_id)
  pure q

-- After a failed move: the journal goes.
abbrev pub drop_journal : String → FileOperation → Io FileOperation
drop_journal id operation = unlink_journal id >>= λ _. nothing >>= λ _. pure operation

abbrev pub move_failed : String → Error → Io FileOperation
move_failed id not_found = drop_journal id missing
move_failed id os_error = drop_journal id failed
move_failed id e = raise e

abbrev pub back_or_raise : QuarantinedFile → Bool → Io FileOperation
back_or_raise q true = raise runtime_error
back_or_raise q false = do
  _ ← call (λ d. move_back q.relative_path q.operation_id (lookup q.operation_id d.staged) d)
  _ ← nothing
  _ ← nothing
  _ ← unlink_journal q.operation_id
  _ ← nothing
  pure unsafe

abbrev pub file_at : String → Disk → Bool
file_at path d = is_some (lookup path d.files)

-- The comparison of the staged file with what was opened, and the two syncs.
abbrev pub check_staged : QuarantinedFile → File → File → Io FileOperation
check_staged q opened staged =
    if staged.is_regular && same_file staged opened
    then (nothing >>= λ _. nothing >>= λ _. pure (deleted q))
    else (look (file_at q.relative_path) >>= back_or_raise q)

abbrev pub after_move : QuarantinedFile → File → Io FileOperation
after_move q opened =
    call (λ d. or_not_found (lookup q.operation_id d.staged) d) >>= check_staged q opened

abbrev pub moved_or_not : QuarantinedFile → File → Option FileOperation → Io FileOperation
moved_or_not q opened none = after_move q opened
moved_or_not q opened (some operation) = pure operation

abbrev pub try_move : QuarantinedFile → Io (Option FileOperation)
try_move q =
    catch
      (call (λ d. move_in q.relative_path q.operation_id (lookup q.relative_path d.files) d)
        >>= λ _. pure none)
      (λ e. move_failed q.operation_id e >>= λ operation. pure (some operation))

abbrev pub restore_move : QuarantinedFile → Bool → Bool → Io (Unit {0})
restore_move q true false =
    call (λ d. move_back q.relative_path q.operation_id (lookup q.operation_id d.staged) d) >>= λ _.
    nothing >>= λ _. nothing
restore_move q false true = pure tt
restore_move q true true = raise runtime_error
restore_move q false false = raise runtime_error

abbrev pub purge_staged : QuarantinedFile → Bool → Io (Unit {0})
purge_staged q false = pure tt
purge_staged q true = unlink_staged q.operation_id >>= λ _. nothing

unfoldable pub purge_quarantined_file : QuarantinedFile → Io (Unit {0})
purge_quarantined_file q = do
  staged_exists ← regular_entry_exists q.operation_id
  _ ← purge_staged q staged_exists
  _ ← unlink_journal q.operation_id
  nothing

module _ (parts : String → List String) (payload_bytes : Payload → ℕ) where
  -- The tests of the values' types are part of `Payload`; the ids are a set.
  abbrev pub valid_fields : String → Fields → Bool
  valid_fields name f =
      (f.version == 1)
      && is_hex 32 f.operation_id
      && str_eq name f.operation_id
      && str_eq f.journal_name f.operation_id
      && str_eq f.staged_name f.operation_id
      && not (starts_with 47 f.relative_path)
      && valid_parts (parts f.relative_path)
      && is_filled f.image_file_ids
      && all_positive f.image_file_ids

  abbrev pub load_fields : String → Payload → Result Error QuarantinedFile
  load_fields name broken = err runtime_error
  load_fields name (written f) =
      if valid_fields name f
      then ok (record {
        operation_id = f.operation_id;
        relative_path = f.relative_path;
        image_file_ids = f.image_file_ids;
        size = f.size;
      })
      else err runtime_error

  unfoldable pub load_payload : String → Payload → Result Error QuarantinedFile
  load_payload name payload =
      if ltb max_journal_bytes (payload_bytes payload)
      then err runtime_error
      else load_fields name payload

  unfoldable pub load_quarantine_journal : String → Io QuarantinedFile
  load_quarantine_journal name = do
    payload ← call (λ d. or_not_found (lookup name d.journals) d)
    lift (load_payload name payload)

  unfoldable pub create_quarantine_journal : QuarantinedFile → Io QuarantinedFile
  create_quarantine_journal q = do
    exists ← regular_entry_exists q.operation_id
    (if exists || ltb max_journal_bytes (payload_bytes (written (fields_of q)))
        then raise runtime_error
        else write_journal q)

  unfoldable pub stage_target : QuarantinedFile → File → Io FileOperation
  stage_target q opened = do
    _ ← create_quarantine_journal q
    operation ← try_move q
    moved_or_not q opened operation

  unfoldable pub open_target_parent : String → Io (Unit {0})
  open_target_parent relative_path =
      call (λ d. if valid_parts (parts relative_path) then ok (tt, d) else err runtime_error)

  unfoldable pub restore_quarantined_file : QuarantinedFile → Io (Unit {0})
  restore_quarantined_file q = do
    _ ← open_target_parent q.relative_path
    staged_exists ← regular_entry_exists q.operation_id
    original_exists ← look (file_at q.relative_path)
    _ ← restore_move q staged_exists original_exists
    _ ← unlink_journal q.operation_id
    nothing
