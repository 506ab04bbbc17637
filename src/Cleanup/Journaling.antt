-- ===== src/Cleanup/Journaling.antt =====
-- About the journal of an operation: how it is written, and withdrawn where that fails.
use mathlib.Core.Path.{subst}
use sm_artmatch.Prelude.{
  ℕ, ◌≡◌, refl, Bool, true, false, ◌||◌, ltb, Bool-cases, inl, inr, Option, none, some, String,
  List, arith, eq_iff, if◌then◌else◌, ok,
}
use sm_artmatch.Prelude.Dicts.{lookup, put, remove, lookup-put_same}
use sm_artmatch.Cleanup.{File, QuarantinedFile, Payload, written, Disk, Error, runtime_error}
use sm_artmatch.Cleanup.Io.{raise}
use sm_artmatch.Cleanup.Rules.{
  Holds, Gives, Holds-pure, Holds-raise, Holds-call, Holds-catch, Holds-if, Holds-weaken,
  Holds-bind, Holds-nothing, Holds-change, Holds-after,
}
use sm_artmatch.Cleanup.Quarantine.{
  is_some, max_journal_bytes, valid_fields, load_payload, fields_of, open_temporary, rename_from,
  publish_journal, withdraw_journal, write_journal, create_quarantine_journal,
}
use sm_artmatch.Cleanup.Steps.{Journaled, IsSafe, Unstaged, temporaries-IsSafe, put_journal-IsSafe}
use sm_artmatch.Cleanup.Recovering.{Holds-regular_entry_exists, Holds-unlink_journal}

module _ (parts : String → List String) (payload_bytes : Payload → ℕ)
    (Owns : String → List ℕ → Type 0) (path : String) (file : File) where
  abbrev Safe : List QuarantinedFile → Disk → Type 0
  Safe = IsSafe parts payload_bytes Owns path file

  abbrev Gone : String → Disk → Type 0
  Gone = Unstaged parts payload_bytes Owns path file

  abbrev Read : QuarantinedFile → String → Disk → Type 0
  Read = Journaled parts payload_bytes

  -- What a journal of the operation gives when it is read.
  abbrev Sound : QuarantinedFile → Type 0
  Sound q =
      (load_payload parts payload_bytes q.operation_id (written (fields_of q)) ≡ ok q)
      × Owns q.relative_path q.image_file_ids

  absent : {A : Type 0} (o : Option A) → is_some o ≡ false → o ≡ none
  absent none h = refl
  absent (some a) h = absurd cc

  fields_load :
      (q : QuarantinedFile)
      → valid_fields parts payload_bytes q.operation_id (fields_of q) ≡ true
      → ltb max_journal_bytes (payload_bytes (written (fields_of q))) ≡ false
      → load_payload parts payload_bytes q.operation_id (written (fields_of q)) ≡ ok q
  unfolding load_payload fields_of
  fields_load q valid small = ground arith

  module _ (qs : List QuarantinedFile) (q : QuarantinedFile) where
    -- The steps of an operation: no file is staged; the temporary is complete; the journal is.
    abbrev Begun : Disk → Type 0
    Begun d = Safe qs d × Gone q.operation_id d

    abbrev Filled : Disk → Type 0
    Filled d = Begun d × (lookup q.operation_id d.temporaries ≡ some (written (fields_of q)))

    abbrev Ready : Disk → Type 0
    Ready d = Begun d × Read q q.operation_id d

    withdrawn :
        (e : Error)
        → Holds (withdraw_journal q.operation_id e) Begun (λ (u : Unit {0}). Ready) (Safe qs)
    withdrawn e =
        Holds-bind _ _
          (Holds-change (λ d h. h.0) _
            (λ d h. (
              temporaries-IsSafe parts payload_bytes Owns path file
                  (remove q.operation_id d.temporaries) qs d h.0,
              h.1,
            )))
          (λ _.
            Holds-bind _ _
              (Holds-unlink_journal parts payload_bytes Owns path file qs q.operation_id)
              (λ _. Holds-raise e (λ d h. h.0)))

    opened : (d : Disk) → Begun d → Gives (λ _. Begun) (Safe qs) (open_temporary q.operation_id d) d
    opened d h = elim (Bool-cases (is_some (lookup q.operation_id d.temporaries))) [
      | inl taken ↦ (rw taken h.0)
      | inr free ↦ (rw free (temporaries-IsSafe parts payload_bytes Owns path file _ qs d h.0, h.1))
    ]

    renamed :
        Sound q
        → (d : Disk) → Filled d
        → Gives
            (λ _. Ready)
            Begun
            (rename_from q.operation_id (lookup q.operation_id d.temporaries) d)
            d
    renamed sound d (begun, filled) =
        (rw filled (
          (
            temporaries-IsSafe parts payload_bytes Owns path file
                (remove q.operation_id d.temporaries) qs
                (record d { journals = put q.operation_id (written (fields_of q)) d.journals })
                (put_journal-IsSafe parts payload_bytes Owns path file q.operation_id
                  (written (fields_of q)) qs d begun.1
                  (λ q' loads.
                    let e : q ≡ q' = cc (sound.0, loads) in
                    subst (λ (x : QuarantinedFile). Owns x.relative_path x.image_file_ids) e
                      sound.1)
                  begun.0),
            begun.1,
          ),
          (
            written (fields_of q),
            lookup-put_same q.operation_id q.operation_id _ d.journals
                ((eq_iff q.operation_id q.operation_id).1 refl),
            sound.0,
          ),
        ))

    published : Sound q → Holds (publish_journal q.operation_id) Filled (λ _. Ready) Begun
    published sound =
        Holds-bind _ _ (Holds-call _ (λ d h. h.0) (renamed sound)) (λ _. Holds-nothing (λ d h. h.0))

    pub Holds-write_journal : Sound q → Holds (write_journal q) Begun (λ _. Ready) (Safe qs)
    unfolding write_journal
    Holds-write_journal sound = Holds-bind _ _ (Holds-call _ (λ d h. h.0) opened) (λ _.
        Holds-bind {Q₁ = λ _. Filled} _ _
          (Holds-change (λ d h. h.0) _
            (λ d h. (
              (temporaries-IsSafe parts payload_bytes Owns path file _ qs d h.0, h.1),
              lookup-put_same q.operation_id q.operation_id _ d.temporaries
                  ((eq_iff q.operation_id q.operation_id).1 refl),
            )))
          (λ _.
            Holds-after (λ d h. h.0.0) _
              (Holds-bind _ _ (Holds-catch _ _ (published sound) withdrawn)
                (λ _. Holds-pure q (λ d h. h)))))

    pub Holds-create_quarantine_journal :
        valid_fields parts payload_bytes q.operation_id (fields_of q) ≡ true
        → Owns q.relative_path q.image_file_ids
        → Holds (create_quarantine_journal parts payload_bytes q) (Safe qs) (λ _. Ready) (Safe qs)
    unfolding create_quarantine_journal
    Holds-create_quarantine_journal valid owns =
        Holds-bind _ _
          (Holds-regular_entry_exists parts payload_bytes Owns path file (Safe qs) (Safe qs)
            q.operation_id (λ d s. s))
          (λ exists. after exists)
      where
        after :
            (exists : Bool)
            → Holds
                (if exists || ltb max_journal_bytes (payload_bytes (written (fields_of q)))
                  then raise runtime_error
                  else write_journal q)
                (λ d. Safe qs d × (is_some (lookup q.operation_id d.staged) ≡ exists))
                (λ _. Ready)
                (Safe qs)
        after true = Holds-raise runtime_error (λ d h. h.0)
        after false =
            Holds-if _ _ _ (λ large. Holds-raise runtime_error (λ d h. h.0))
              (λ small.
                Holds-weaken _ (λ d h. (h.0, absent _ h.1)) (λ a d h. h) (λ d h. h)
                  (Holds-write_journal (fields_load q valid small, owns)))
