-- ===== src/Cleanup/RoundTrip.antt =====
-- About a file that is staged and restored where no call fails.
use sm_artmatch.Prelude.{
  ℕ, zero, suc, ◌≡◌, refl, sym, ap, ◌∙◌, true, false, ltb, Bool-cases, inl, inr, none, some, String,
  List, ◌∷◌, arith, str_eq, eq_iff, ok,
}
use sm_artmatch.Prelude.Dicts.{
  Dict, lookup, put, remove, lookup-put_same, lookup-put_other, lookup-remove,
}
use sm_artmatch.Cleanup.{File, QuarantinedFile, Payload, written, Disk, Event, proceed}
use sm_artmatch.Cleanup.Io.{pure, raise, call, catch, ◌>>=◌, change, look, nothing}
use sm_artmatch.Cleanup.Quarantine.{
  deleted, same_file, max_journal_bytes, valid_parts, fields_of, regular_entry_exists,
  create_quarantine_journal, write_journal, stage_target, open_target_parent,
  restore_quarantined_file,
}

-- Calls that are done, before the events that follow.
abbrev pub calls : ℕ → List Event → List Event
calls zero es = es
calls (suc n) es = proceed ∷ calls n es

module _ (parts : String → List String) (payload_bytes : Payload → ℕ) where
  -- The disk with the file staged.
  abbrev pub staged_disk : QuarantinedFile → File → Disk → Disk
  staged_disk q f d = record d {
    files = remove q.relative_path d.files;
    temporaries = remove q.operation_id (
        put q.operation_id (written (fields_of q))
          (put q.operation_id Payload.broken d.temporaries));
    journals = put q.operation_id (written (fields_of q)) d.journals;
    staged = put q.operation_id f d.staged;
  }

  pub same_self : (s : String) → str_eq s s ≡ true
  same_self s = (eq_iff s s).1 refl

  pub stage_target_ok :
      (q : QuarantinedFile) (f : File) (d : Disk) (es : List Event)
      → ltb max_journal_bytes (payload_bytes (written (fields_of q))) ≡ false
      → lookup q.operation_id d.staged ≡ none
      → lookup q.operation_id d.temporaries ≡ none
      → lookup q.relative_path d.files ≡ some f
      → f.is_regular ≡ true
      → stage_target parts payload_bytes q f d (calls 10 es)
        ≡ record { result = ok (deleted q); disk = staged_disk q f d; events = es }
  unfolding stage_target create_quarantine_journal write_journal regular_entry_exists ◌>>=◌ call
      catch change look nothing pure raise
  stage_target_ok q f d es small new fresh there one =
      let id = q.operation_id in
      let filled : lookup id (put id (written (fields_of q)) (put id Payload.broken d.temporaries))
          ≡ some (written (fields_of q)) =
        lookup-put_same id id (written (fields_of q)) (put id Payload.broken d.temporaries)
          (same_self id) in
      let inside : lookup id (put id f d.staged) ≡ some f =
        lookup-put_same id id f d.staged (same_self id) in
      let same : same_file f f ≡ true = ground arith in
      (rw (new, small, fresh, filled, there, inside, one)
        (rw same (
          refl
            {a = record {
              result = ok (deleted q);
              disk = staged_disk q (record f { is_regular = true }) d;
              events = es;
            }})))

  abbrev pub restored_disk : QuarantinedFile → File → Disk → Disk
  restored_disk q f d = record (staged_disk q f d) {
    files = put q.relative_path f (remove q.relative_path d.files);
    journals = remove q.operation_id (put q.operation_id (written (fields_of q)) d.journals);
    staged = remove q.operation_id (put q.operation_id f d.staged);
  }

  pub restore_quarantined_file_ok :
      (q : QuarantinedFile) (f : File) (d : Disk) (es : List Event)
      → valid_parts (parts q.relative_path) ≡ true
      → f.is_regular ≡ true
      → restore_quarantined_file parts payload_bytes q (staged_disk q f d) (calls 8 es)
        ≡ record { result = ok tt; disk = restored_disk q f d; events = es }
  unfolding restore_quarantined_file open_target_parent regular_entry_exists ◌>>=◌ call look change
      nothing pure
  restore_quarantined_file_ok q f d es valid one =
      let id = q.operation_id in
      let inside : lookup id (put id f d.staged) ≡ some f =
        lookup-put_same id id f d.staged (same_self id) in
      let gone : lookup q.relative_path (remove q.relative_path d.files) ≡ none =
        lookup-remove q.relative_path q.relative_path d.files
        ∙ (rw (same_self q.relative_path) refl) in
      let again : lookup id (put id (record f { is_regular = true }) d.staged)
          ≡ some (record f { is_regular = true }) =
        lookup-put_same id id (record f { is_regular = true }) d.staged (same_self id) in
      (rw (valid, inside, one, gone) (rw again refl))

  removed_put :
      {V : Type 0} (p key : String) (value : V) (d : Dict V)
      → lookup key d ≡ none
      → lookup p (remove key (put key value d)) ≡ lookup p d
  removed_put p key value d new = elim (Bool-cases (str_eq key p)) [
    | inl same ↦
        let e : key ≡ p = (eq_iff key p).0 same in
        lookup-remove p key (put key value d)
        ∙ (rw same (sym (ap (λ (x : String). lookup x d) (sym e) ∙ new)))
    | inr other ↦
        lookup-remove p key (put key value d) ∙ (rw other (lookup-put_other p key value d other))
  ]

  pub put_removed :
      {V : Type 0} (p key : String) (value : V) (d : Dict V)
      → lookup key d ≡ some value
      → lookup p (put key value (remove key d)) ≡ lookup p d
  put_removed p key value d there = elim (Bool-cases (str_eq key p)) [
    | inl same ↦
        let e : key ≡ p = (eq_iff key p).0 same in
        lookup-put_same p key value (remove key d) same
        ∙ sym (ap (λ (x : String). lookup x d) (sym e) ∙ there)
    | inr other ↦
        lookup-put_other p key value (remove key d) other ∙ lookup-remove p key d ∙ (rw other refl)
  ]

  -- The same entries, in whatever order.
  abbrev pub Same : {V : Type 0} → Dict V → Dict V → Type 0
  Same a b = (name : String) → lookup name a ≡ lookup name b

  -- Where no call fails, a regular file is staged and restored in eighteen calls, and nothing has
  -- changed: each path has its file as before, each operation its staged file and its journal, and the
  -- rows are those before. The path has to have valid parts, the journal to be of a permitted size, and
  -- the operation id to be new.
  pub stage-restore_quarantined_file :
      (q : QuarantinedFile) (f : File) (d : Disk) (es : List Event)
      → valid_parts (parts q.relative_path) ≡ true
      → ltb max_journal_bytes (payload_bytes (written (fields_of q))) ≡ false
      → lookup q.operation_id d.staged ≡ none
      → lookup q.operation_id d.temporaries ≡ none
      → lookup q.operation_id d.journals ≡ none
      → lookup q.relative_path d.files ≡ some f
      → f.is_regular ≡ true
      → let o =
          (stage_target parts payload_bytes q f >>= λ operation.
          restore_quarantined_file parts payload_bytes q)
            d
            (calls 18 es) in
        (o.result ≡ ok tt)
        × (o.events ≡ es)
        × Same o.disk.files d.files
        × Same o.disk.staged d.staged
        × Same o.disk.journals d.journals
        × (o.disk.rows ≡ d.rows)
  unfolding ◌>>=◌
  stage-restore_quarantined_file q f d es valid small new fresh unused there one =
      (rw (stage_target_ok q f d (calls 8 es) small new fresh there one) (
        rw (restore_quarantined_file_ok q f d es valid one) (
          refl,
          refl,
          λ name. put_removed name q.relative_path f d.files there,
          λ name. removed_put name q.operation_id f d.staged new,
          λ name. removed_put name q.operation_id (written (fields_of q)) d.journals unused,
          refl,
        )))
