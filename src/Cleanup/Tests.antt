-- ===== src/Cleanup/Tests.antt =====
-- Tests and examples for the cleanup: one file with one image row.
use mathlib.Core.List.{Memᴰ}
use mathlib.Core.List.Memᴰ
use mathlib.Core.Path.{subst}
use sm_artmatch.Prelude.{
  ℕ, zero, suc, ◌≡◌, refl, sym, Bool, true, false, ◌⊎◌, none, some, String, List, [], ◌∷◌, ok,
}
use sm_artmatch.Prelude.Dicts.{lookup, put, remove}
use sm_artmatch.Cleanup.{QuarantinedFile, File, Payload, Disk, Event, proceed, all_committed}
use sm_artmatch.Cleanup.Io.{
  Outcome, pure, raise, call, catch, ◌>>=◌, finally, change, look, nothing,
}
use sm_artmatch.Cleanup.Rules.{After}
use sm_artmatch.Cleanup.Inventory.{ResolvedUsage, TargetGroup, Plan}
use sm_artmatch.Cleanup.Quarantine.{
  all_found, all_live, create_quarantine_journal, write_journal, stage_target, fields_of, is_hex,
  load_payload, load_quarantine_journal, open_target_parent, purge_quarantined_file,
  regular_entry_exists, restore_quarantined_file, valid_parts,
}
use sm_artmatch.Cleanup.Recovery.{
  with_quarantine, empty_quarantine, no_leftovers, remove_temporaries, each_journal,
  recover_quarantine, committed_state, purge_all, purge_quarantined_files,
  quarantine_transaction_committed, reconcile,
}
use sm_artmatch.Cleanup.Run.{
  Counts, cleanup, lock_cleanup_snapshot, cleanup_inventory, run_operations, operate_all,
  operate_on_target, count_operation, commit, mark_ids, mark_image_files_cleaned_up, rollback,
}
use sm_artmatch.Cleanup.Steps.{Staged, IsCleaned, Kept}
use sm_artmatch.Cleanup.RoundTrip
use sm_artmatch.Cleanup.RoundTrip.{Same, stage-restore_quarantined_file}
use sm_artmatch.Cleanup.Crash.{decided, stage_target-recover_quarantine}
use sm_artmatch.Cleanup.Runs.{IsStageable}
use sm_artmatch.Cleanup.Sessions.{
  Session, idle, run, Settled, session_kept, recover_quarantine_settles,
}

abbrev parts : String → List String
parts text = text ∷ []

abbrev payload_bytes : Payload → ℕ
payload_bytes payload = 300

abbrev resolves : String → String → Bool
resolves a b = true

abbrev uuid4 : String → String
uuid4 target = "0123456789abcdef0123456789abcdef"

abbrev relative : String → String
relative target = "a.jpg"

abbrev Owns : String → List ℕ → Type 0
Owns path ids = ids ≡ 7 ∷ []

abbrev picture : File
picture = record { identity = 3; size = 500; is_regular = true }

abbrev before : Disk
before = record {
  files = ("a.jpg", picture) ∷ [];
  temporaries = [];
  journals = [];
  staged = [];
  others = [];
  rows = (7, record { file_path = some "a.jpg"; cleaned_up = false }) ∷ [];
  pending = (7, record { file_path = some "a.jpg"; cleaned_up = false }) ∷ [];
}

abbrev usage : ResolvedUsage
usage = record {
  usage = record {
    image_file_id = 7;
    file_path = "a.jpg";
    has_candidate_auction = true;
    has_lost_reference = false;
    has_protected_auction_reference = false;
    has_direct_score_reference = false;
  };
  target = some "/images/a.jpg";
  deletion_authorized = true;
}

abbrev plan : Plan
plan = record {
  operations = ("/images/a.jpg", usage ∷ []) ∷ [];
  protected_target_count = 0;
  unsafe_target_count = 0;
}

abbrev calls : ℕ → List Event
calls zero = []
calls (suc n) = proceed ∷ calls n

abbrev after : List Event → Outcome Counts
after es = cleanup parts payload_bytes resolves uuid4 relative true false true plan before es

stageable : (g : TargetGroup) → Memᴰ g plan.operations → IsStageable uuid4 relative Owns g
unfolding is_hex
stageable g m = subst (IsStageable uuid4 relative Owns) (sym (Memᴰ.eq_of_singleton m)) (record {
  hexadecimal = refl;
  relative_path = refl;
  filled = refl;
  positive = refl;
  owned = refl;
})

-- A run that is killed after 24 calls.
abbrev interrupted : Disk
interrupted = (after (calls 24)).disk

interrupted_session : Session parts payload_bytes resolves uuid4 relative Owns before interrupted
interrupted_session = run idle true false true plan (calls 24) stageable

-- The recovery restores the file: its row has not been committed.
recovered :
    (recover_quarantine parts payload_bytes resolves interrupted (calls 40)).disk.files
    ≡ before.files
unfolding ◌>>=◌ pure raise call finally catch change look nothing lookup put remove with_quarantine
    empty_quarantine no_leftovers remove_temporaries each_journal recover_quarantine committed_state
    purge_all purge_quarantined_files quarantine_transaction_committed reconcile cleanup
    lock_cleanup_snapshot cleanup_inventory run_operations operate_all operate_on_target
    count_operation commit mark_ids mark_image_files_cleaned_up all_committed all_found all_live
    create_quarantine_journal write_journal stage_target fields_of is_hex load_payload
    load_quarantine_journal open_target_parent purge_quarantined_file regular_entry_exists
    restore_quarantined_file valid_parts rollback
recovered = refl

-- A run that is not killed marks the row and removes the file.
completed : (after (calls 40)).disk ≡ record before {
  files = [];
  rows = (7, record { file_path = none; cleaned_up = true }) ∷ [];
  pending = (7, record { file_path = none; cleaned_up = true }) ∷ [];
}
unfolding ◌>>=◌ pure raise call finally catch change look nothing lookup put remove with_quarantine
    empty_quarantine no_leftovers remove_temporaries each_journal recover_quarantine committed_state
    purge_all purge_quarantined_files quarantine_transaction_committed reconcile cleanup
    lock_cleanup_snapshot cleanup_inventory run_operations operate_all operate_on_target
    count_operation commit mark_ids mark_image_files_cleaned_up all_committed all_found all_live
    create_quarantine_journal write_journal stage_target fields_of is_hex load_payload
    load_quarantine_journal open_target_parent purge_quarantined_file regular_entry_exists
    restore_quarantined_file valid_parts rollback
completed = refl

session_kept_example :
    (lookup "a.jpg" interrupted.files ≡ some picture)
    ⊎ (Staged parts payload_bytes "a.jpg" picture interrupted
        ⊎ IsCleaned parts payload_bytes Owns "a.jpg" picture interrupted)
unfolding no_leftovers lookup
session_kept_example =
    session_kept parts payload_bytes resolves uuid4 relative Owns "a.jpg" picture before interrupted
      refl refl refl interrupted_session

recover_quarantine_settles_example :
    After
      (λ _. Settled parts payload_bytes resolves uuid4 relative Owns "a.jpg" picture)
      (Kept parts payload_bytes Owns "a.jpg" picture)
      (recover_quarantine parts payload_bytes resolves interrupted (calls 40)).result
      (recover_quarantine parts payload_bytes resolves interrupted (calls 40)).disk
unfolding no_leftovers lookup
recover_quarantine_settles_example =
    recover_quarantine_settles parts payload_bytes resolves uuid4 relative Owns "a.jpg" picture
      before interrupted (calls 40) refl refl refl interrupted_session

abbrev entry : QuarantinedFile
entry = record {
  operation_id = "0123456789abcdef0123456789abcdef";
  relative_path = "a.jpg";
  image_file_ids = 7 ∷ [];
  size = 500;
}

stage-restore_quarantined_file_example :
    let o =
      (stage_target parts payload_bytes entry picture >>= λ operation.
      restore_quarantined_file parts payload_bytes entry)
        before
        (RoundTrip.calls 18 []) in
    (o.result ≡ ok tt)
    × (o.events ≡ [])
    × Same parts payload_bytes o.disk.files before.files
    × Same parts payload_bytes o.disk.staged before.staged
    × Same parts payload_bytes o.disk.journals before.journals
    × (o.disk.rows ≡ before.rows)
unfolding lookup valid_parts
stage-restore_quarantined_file_example =
    stage-restore_quarantined_file parts payload_bytes entry picture before [] refl refl refl refl
      refl refl refl

stage_target-recover_quarantine_example :
    let staged =
      (stage_target parts payload_bytes entry picture before (RoundTrip.calls 10 [])).disk in
    let o =
      recover_quarantine parts payload_bytes resolves
        (record staged { rows = before.rows; pending = before.rows })
        (RoundTrip.calls 16 []) in
    (o.result ≡ ok tt)
    × (no_leftovers o.disk ≡ true)
    × ((name : String)
        → lookup name o.disk.files
          ≡ decided parts payload_bytes resolves false "a.jpg" before.files name)
unfolding lookup valid_parts is_hex fields_of committed_state all_found all_committed all_live
stage_target-recover_quarantine_example =
    stage_target-recover_quarantine parts payload_bytes resolves entry picture before.files
      before.rows before.rows false [] refl refl refl refl refl
