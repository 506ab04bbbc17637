-- ===== src/Cleanup/Crash.antt =====
-- About a process that is killed after it has staged a file, and the recovery of the next run where no
-- call fails.
use sm_artmatch.Prelude.{
  ℕ, suc, ◌≡◌, refl, ◌∙◌, Bool, true, false, ◌&&◌, ltb, Option, none, some, String, List, [], ◌∷◌,
  arith, str_eq, if◌then◌else◌, ok,
}
use sm_artmatch.Prelude.Dicts.{Dict, lookup, put, remove, lookup-remove}
use sm_artmatch.Cleanup.{File, QuarantinedFile, Payload, written, ImageRow, Disk, Event}
use sm_artmatch.Cleanup.Io.{pure, raise, call, catch, ◌>>=◌, finally, change, look, nothing}
use sm_artmatch.Cleanup.Quarantine.{
  max_journal_bytes, valid_parts, valid_fields, load_payload, load_quarantine_journal, fields_of,
  regular_entry_exists, stage_target, open_target_parent, restore_quarantined_file,
  purge_quarantined_file,
}
use sm_artmatch.Cleanup.Recovery.{
  no_leftovers, remove_temporaries, each_journal, empty_quarantine, with_quarantine,
  committed_state, quarantine_transaction_committed, reconcile, recover_quarantine,
}
use sm_artmatch.Cleanup.RoundTrip.{calls, same_self, stage_target_ok, put_removed}

module _ (parts : String → List String) (payload_bytes : Payload → ℕ)
    (resolves : String → String → Bool) where
  -- A disk whose quarantine is empty, and one with the file staged.
  abbrev pub with_files : Dict File → List (ℕ × ImageRow) → Disk
  with_files files rows = record {
    files = files;
    temporaries = [];
    journals = [];
    staged = [];
    others = [];
    rows = rows;
    pending = rows;
  }

  abbrev left_behind : QuarantinedFile → File → Dict File → List (ℕ × ImageRow) → Disk
  left_behind q f files rows = record (with_files (remove q.relative_path files) rows) {
    journals = (q.operation_id, written (fields_of q)) ∷ [];
    staged = (q.operation_id, f) ∷ [];
  }

  stage_target_left :
      (q : QuarantinedFile) (f : File) (files : Dict File) (rows : List (ℕ × ImageRow))
      → ltb max_journal_bytes (payload_bytes (written (fields_of q))) ≡ false
      → lookup q.relative_path files ≡ some f
      → f.is_regular ≡ true
      → (stage_target parts payload_bytes q f (with_files files rows) (calls 10 [])).disk
        ≡ left_behind q f files rows
  unfolding lookup put remove
  stage_target_left q f files rows small there one =
      (rw
        (stage_target_ok parts payload_bytes q f (with_files files rows) [] small refl refl there
          one)
        (rw (same_self parts payload_bytes q.operation_id)
          (rw (same_self parts payload_bytes q.operation_id) refl)))

  fields_load :
      (q : QuarantinedFile)
      → valid_fields parts payload_bytes q.operation_id (fields_of q) ≡ true
      → ltb max_journal_bytes (payload_bytes (written (fields_of q))) ≡ false
      → (load_payload parts payload_bytes q.operation_id (written (fields_of q)) ≡ ok q)
        × (valid_parts (parts q.relative_path) ≡ true)
  unfolding load_payload fields_of
  fields_load q valid small = (ground arith, ground arith)

  only_entry : {V : Type 0} (key : String) (value : V) → lookup key ((key, value) ∷ []) ≡ some value
  unfolding lookup
  only_entry key value = (rw (same_self parts payload_bytes key) refl)

  only_removed : {V : Type 0} (key : String) (value : V) → remove key ((key, value) ∷ []) ≡ []
  unfolding remove
  only_removed key value = (rw (same_self parts payload_bytes key) refl)

  restored :
      (q : QuarantinedFile) (f : File) (files : Dict File) (rows : List (ℕ × ImageRow))
      (es : List Event)
      → load_payload parts payload_bytes q.operation_id (written (fields_of q)) ≡ ok q
      → valid_parts (parts q.relative_path) ≡ true
      → committed_state parts payload_bytes resolves q rows ≡ ok false
      → f.is_regular ≡ true
      → reconcile parts payload_bytes resolves q.operation_id
          (left_behind q f files rows)
          (calls 10 es)
        ≡ record {
          result = ok tt;
          disk = with_files (put q.relative_path f (remove q.relative_path files)) rows;
          events = es;
        }
  unfolding reconcile load_quarantine_journal quarantine_transaction_committed
      restore_quarantined_file open_target_parent regular_entry_exists ◌>>=◌ call look change
      nothing pure
  restored q f files rows es loads valid state one =
      let id = q.operation_id in
      let gone : lookup q.relative_path (remove q.relative_path files) ≡ none =
        lookup-remove q.relative_path q.relative_path files
        ∙ (rw (same_self parts payload_bytes q.relative_path) refl) in
      let journal = only_entry id (written (fields_of q)) in
      let inside = only_entry id f in
      let again = only_entry id (record f { is_regular = true }) in
      (rw (journal, loads, state, valid, inside, one, gone)
        (rw again (
          rw
            (
              only_removed id (written (fields_of q)),
              only_removed id (record f { is_regular = true }),
            )
            (refl
              {a = record {
                result = ok tt;
                disk =
                    with_files
                      (put q.relative_path (record f { is_regular = true })
                        (remove q.relative_path files))
                      rows;
                events = es;
              }}))))

  purged :
      (q : QuarantinedFile) (f : File) (files : Dict File) (rows : List (ℕ × ImageRow))
      (es : List Event)
      → load_payload parts payload_bytes q.operation_id (written (fields_of q)) ≡ ok q
      → committed_state parts payload_bytes resolves q rows ≡ ok true
      → f.is_regular ≡ true
      → reconcile parts payload_bytes resolves q.operation_id
          (left_behind q f files rows)
          (calls 7 es)
        ≡ record {
          result = ok tt;
          disk = with_files (remove q.relative_path files) rows;
          events = es;
        }
  unfolding reconcile load_quarantine_journal quarantine_transaction_committed
      purge_quarantined_file regular_entry_exists ◌>>=◌ call look change nothing pure
  purged q f files rows es loads state one =
      let id = q.operation_id in
      let journal = only_entry id (written (fields_of q)) in
      let inside = only_entry id f in
      (rw (journal, loads, state, inside, one)
        (rw
          (
            only_removed id (written (fields_of q)),
            only_removed id (record f { is_regular = true }),
          )
          (refl
            {a = record {
              result = ok tt;
              disk = with_files (remove q.relative_path files) rows;
              events = es;
            }})))

  -- The rest of the recovery, after the one journal.
  recovered :
      (q : QuarantinedFile) (f : File) (files after : Dict File) (rows : List (ℕ × ImageRow))
      (n : ℕ) (es : List Event)
      → reconcile parts payload_bytes resolves q.operation_id
          (left_behind q f files rows)
          (calls 12 es)
        ≡ record { result = ok tt; disk = with_files after rows; events = calls (suc (suc n)) es }
      → recover_quarantine parts payload_bytes resolves (left_behind q f files rows) (calls 16 es)
        ≡ record { result = ok tt; disk = with_files after rows; events = calls n es }
  unfolding recover_quarantine with_quarantine empty_quarantine no_leftovers remove_temporaries
      each_journal ◌>>=◌ call catch finally look change nothing pure raise
  recovered q f files after rows n es one =
      (rw one
        (refl {a = record { result = ok tt; disk = with_files after rows; events = calls n es }}))

  -- The files after the recovery.
  abbrev pub decided : Bool → String → Dict File → String → Option File
  decided committed path files name =
      if committed && str_eq path name then none else lookup name files

  removed :
      (path name : String) (files : Dict File)
      → lookup name (remove path files) ≡ decided true path files name
  removed path name files = lookup-remove name path files

  -- A process is killed after it has staged a file in an empty quarantine, whose journal has valid
  -- fields and a permitted size. Where no call of the next recovery fails, it returns, and the
  -- quarantine has no entry. The rows that the database then has decide of the file: if they are those
  -- of committed cleanup markers, it is gone; if they are live and resolve to the file, it is in place
  -- again. All other files are as before.
  pub stage_target-recover_quarantine :
      (q : QuarantinedFile) (f : File) (files : Dict File) (before rows : List (ℕ × ImageRow))
      (committed : Bool) (es : List Event)
      → valid_fields parts payload_bytes q.operation_id (fields_of q) ≡ true
      → ltb max_journal_bytes (payload_bytes (written (fields_of q))) ≡ false
      → committed_state parts payload_bytes resolves q rows ≡ ok committed
      → lookup q.relative_path files ≡ some f
      → f.is_regular ≡ true
      → let staged =
          (stage_target parts payload_bytes q f (with_files files before) (calls 10 [])).disk in
        let o =
          recover_quarantine parts payload_bytes resolves
            (record staged { rows = rows; pending = rows })
            (calls 16 es) in
        (o.result ≡ ok tt)
        × (no_leftovers o.disk ≡ true)
        × ((name : String)
            → lookup name o.disk.files ≡ decided committed q.relative_path files name)
  unfolding no_leftovers
  stage_target-recover_quarantine q f files before rows true es valid small state there one =
      let (loads, parts_valid) = fields_load q valid small in
      (rw (stage_target_left q f files before small there one) (
        rw
          (recovered q f files (remove q.relative_path files) rows 3 es
            (purged q f files rows (calls 5 es) loads state one))
          (refl, refl, λ name. removed q.relative_path name files)))
  stage_target-recover_quarantine q f files before rows false es valid small state there one =
      let (loads, parts_valid) = fields_load q valid small in
      (rw (stage_target_left q f files before small there one) (
        rw
          (recovered q f files (put q.relative_path f (remove q.relative_path files)) rows 0 es
            (restored q f files rows (calls 2 es) loads parts_valid state one))
          (refl, refl, λ name. put_removed parts payload_bytes name q.relative_path f files there)))
