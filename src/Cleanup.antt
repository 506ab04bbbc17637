-- ===== src/Cleanup.antt =====
-- scrapers/image_cleanup/cleanup.py: the removal of image files that belong to no match. This file has
-- the disk and the database, and actions on them. An action is a sequence of system calls, and each
-- call takes one event off a schedule: it is done, or it raises an OSError, and where the schedule
-- ends the process is killed, so that no later call has an effect. The lock on the image storage
-- keeps other writers away. What a call has done is on the disk: fsync is a call that may fail.
pub mod Io
pub mod Rules
pub mod Steps
pub mod Moves
pub mod Quarantine
pub mod Recovery
pub mod Inventory
pub mod Run
pub mod Recovering
pub mod Restored
pub mod Journaling
pub mod Staging
pub mod Marking
pub mod Groups
pub mod Plans
pub mod RoundTrip
pub mod Crash
pub mod Runs
pub mod Safety
pub mod Sessions
mod Tests
mod InventoryTests
use Prim.Native.Char.{Char, code}
use Prim.Native.String
use sm_artmatch.Prelude.{
  ℕ, suc, ◌+◌, Bool, true, false, not, ◌&&◌, ◌||◌, Option, none, some, String, List, [], ◌∷◌, leb,
  ltb, ◌==◌, if◌then◌else◌, str_eq, Result, ok, err,
}
use sm_artmatch.Prelude.Dicts.{Dict, lookup, put, remove}

-- `identity` stands for device, inode, size and time of modification.
pub record File : Type 0 where
  pub identity : ℕ
  pub size : ℕ
  pub is_regular : Bool

pub record QuarantinedFile : Type 0 where
  pub operation_id : String
  pub relative_path : String
  pub image_file_ids : List ℕ
  pub size : ℕ

-- The fields of a journal; names are given by their operation id, without the ending.
pub record Fields : Type 0 where
  pub version : ℕ
  pub operation_id : String
  pub journal_name : String
  pub staged_name : String
  pub relative_path : String
  pub image_file_ids : List ℕ
  pub size : ℕ

-- The content of a journal: fields of the right types, or anything else.
pub data Payload : Type 0 where
  broken : Payload
  written : Fields → Payload

-- A row of image_file.
pub record ImageRow : Type 0 where
  pub file_path : Option String
  pub cleaned_up : Bool

-- The files of the image root under their relative paths; the quarantine's entries `.<id>.json.tmp`,
-- `<id>.json`, `<id>.data` and others; the rows as committed, and as the transaction has them.
pub record Disk : Type 0 where
  pub files : Dict File
  pub temporaries : Dict Payload
  pub journals : Dict Payload
  pub staged : Dict File
  pub others : List String
  pub rows : List (ℕ × ImageRow)
  pub pending : List (ℕ × ImageRow)

pub data Event : Type 0 where
  -- `fail_after` is a commit that succeeds without a reply.
  proceed fail fail_after : Event

pub data Error : Type 0 where
  killed os_error not_found runtime_error already_running active_scraper purge_pending : Error

abbrev pub find : ℕ → List (ℕ × ImageRow) → Option ImageRow
find id [] = none
find id ((key, row) ∷ rows) = let rest = find id rows in if key == id then some row else rest

abbrev pub committed_row : Option ImageRow → Bool
committed_row none = false
committed_row (some row) = is_null row.file_path && row.cleaned_up
  where
    is_null : Option String → Bool
    is_null none = true
    is_null (some path) = false

abbrev pub live_row : Option ImageRow → Bool
live_row none = false
live_row (some row) = has_path row.file_path && not row.cleaned_up
  where
    has_path : Option String → Bool
    has_path none = false
    has_path (some path) = true

unfoldable pub all_committed : List ℕ → List (ℕ × ImageRow) → Bool
all_committed [] rows = true
all_committed (id ∷ ids) rows =
    let rest = all_committed ids rows in committed_row (find id rows) && rest
