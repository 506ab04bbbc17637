-- ===== src/Cleanup/Recovering.antt =====
-- About the way out of the quarantine: a journal that is read, a file that is restored or purged, and
-- the loops over a quarantine.
use mathlib.Core.Path.{subst}
use sm_artmatch.Prelude.{
  ℕ, ◌≡◌, refl, ap, ◌∙◌, Bool, true, false, Bool-cases, inl, inr, Option, none, some, String, List,
  [], arith, eq_iff, Result, ok, err,
}
use sm_artmatch.Prelude.Dicts.{lookup, remove, lookup-remove, lookup-remove_found}
use sm_artmatch.Cleanup.{
  File, QuarantinedFile, Payload, broken, written, Disk, Error, runtime_error, all_committed,
}
use sm_artmatch.Cleanup.Io.{nothing}
use sm_artmatch.Cleanup.Rules.{
  Holds, Gives, Holds-pure, Holds-raise, Holds-call, Holds-weaken, Holds-bind, Holds-nothing,
  Holds-change, Holds-look, Holds-after, Keeps,
}
use sm_artmatch.Cleanup.Quarantine.{
  is_some, valid_parts, regular_entry, regular_entry_exists, or_not_found, lift, file_at,
  restore_move, purge_staged, purge_quarantined_file, move_back, unlink_journal, load_payload,
  load_quarantine_journal, open_target_parent, restore_quarantined_file,
}
use sm_artmatch.Cleanup.Steps.{Journaled, IsSafe, Unstaged, unlink_journal-IsSafe}
use sm_artmatch.Cleanup.Moves.{move_back-IsSafe, unlink_staged-IsSafe}

module _ (parts : String → List String) (payload_bytes : Payload → ℕ)
    (Owns : String → List ℕ → Type 0) (path : String) (file : File) where
  abbrev Safe : List QuarantinedFile → Disk → Type 0
  Safe = IsSafe parts payload_bytes Owns path file

  abbrev Gone : String → Disk → Type 0
  Gone = Unstaged parts payload_bytes Owns path file

  abbrev Read : QuarantinedFile → String → Disk → Type 0
  Read = Journaled parts payload_bytes

  pub load_payload_name :
      (name : String) (payload : Payload) (q : QuarantinedFile)
      → load_payload parts payload_bytes name payload ≡ ok q
      → q.operation_id ≡ name
  unfolding load_payload
  load_payload_name name broken q h = ground arith
  load_payload_name name (written f) q h = ground (arith, eq_iff name f.operation_id)

  -- Of the entries of one operation, whether the staged one is there.
  pub Holds-regular_entry_exists :
      (P R : Disk → Type 0) (id : String)
      → ((d : Disk) → P d → R d)
      → Holds (regular_entry_exists id) P (λ b d. P d × (is_some (lookup id d.staged) ≡ b)) R
  unfolding regular_entry_exists
  Holds-regular_entry_exists P R id weak =
      Holds-call _ weak (λ d p. entry d p (lookup id d.staged) refl)
    where
      entry :
          (d : Disk)
          → P d
          → (o : Option File) → lookup id d.staged ≡ o
          → Gives (λ b d. P d × (is_some (lookup id d.staged) ≡ b)) R (regular_entry o d) d
      entry d p none e = (p, ap is_some e)
      entry d p (some f) e = elim (Bool-cases f.is_regular) [
        | inl one ↦ (rw one (p, ap is_some e))
        | inr other ↦ (rw other (weak d p))
      ]

  pub Holds-unlink_journal :
      (qs : List QuarantinedFile) (id : String)
      → Holds
          (unlink_journal id)
          (λ d. Safe qs d × Gone id d)
          (λ _ d. Safe qs d × Gone id d)
          (Safe qs)
  Holds-unlink_journal qs id =
      Holds-change (λ d h. h.0) _
        (λ d h. (unlink_journal-IsSafe parts payload_bytes Owns path file id qs d h.1 h.0, h.1))

  absent : {A : Type 0} (o : Option A) → is_some o ≡ false → o ≡ none
  absent none h = refl
  absent (some a) h = absurd cc

  present : {A : Type 0} (o : Option A) → is_some o ≡ true → (a : A) × (o ≡ some a)
  present none h = absurd cc
  present (some a) h = (a, refl)

  -- The rows of the operations are committed as cleaned up, as far as their journals can be read.
  abbrev pub Doomed : (String → Type 0) → Disk → Type 0
  Doomed N d =
      (id : String)
      → N id
      → (q : QuarantinedFile) → Read q id d
      → all_committed q.image_file_ids d.rows ≡ true

  abbrev Purging : (String → Type 0) → Disk → Type 0
  Purging N d = Safe [] d × Doomed N d

  module _ (N : String → Type 0) where
    staged_purged :
        (id : String) (d : Disk)
        → N id
        → Purging N d
        → Purging N (record d { staged = remove id d.staged })
          × Gone id (record d { staged = remove id d.staged })
    staged_purged id d n (s, doomed) = (
      (
        unlink_staged-IsSafe parts payload_bytes Owns path file id [] d
            (λ q journaled same. (
              q.image_file_ids,
              subst (λ (x : String). Owns x q.image_file_ids) same (s.owned id q journaled),
              doomed id n q journaled,
            ))
            (λ q m. elim m [ ]) s,
        doomed,
      ),
      lookup-remove id id d.staged ∙ (rw ((eq_iff id id).1 refl) refl),
    )

    journal_purged :
        (id : String) (d : Disk)
        → Purging N d × Gone id d
        → Purging N (record d { journals = remove id d.journals })
    journal_purged id d ((s, doomed), gone) = (
      unlink_journal-IsSafe parts payload_bytes Owns path file id [] d gone s,
      λ other n q (payload, found, loads).
          doomed other n q (payload, lookup-remove_found other id payload d.journals found, loads),
    )

    Holds-purge_staged :
        (q : QuarantinedFile) (b : Bool)
        → N q.operation_id
        → Holds
            (purge_staged q b)
            (λ d. Purging N d × (is_some (lookup q.operation_id d.staged) ≡ b))
            (λ _ d. Purging N d × Gone q.operation_id d)
            (Purging N)
    Holds-purge_staged q false n = Holds-pure tt (λ d h. (h.0, absent _ h.1))
    Holds-purge_staged q true n =
        Holds-bind _ _ (Holds-change (λ d h. h.0) _ (λ d h. staged_purged q.operation_id d n h.0))
          (λ _. Holds-nothing (λ d h. h.0))

    pub Keeps-purge_quarantined_file :
        (q : QuarantinedFile) → N q.operation_id → Keeps (Purging N) (purge_quarantined_file q)
    unfolding purge_quarantined_file
    Keeps-purge_quarantined_file q n =
        Holds-bind _ _
          (Holds-regular_entry_exists (Purging N) (Purging N) q.operation_id (λ d h. h))
          (λ b. Holds-bind _ _ (Holds-purge_staged q b n) (λ _.
            Holds-bind _ _ (Holds-change (λ d h. h.0) _ (λ d h. journal_purged q.operation_id d h))
              (λ _. Holds-nothing (λ d h. h))))

  -- A file of the operation q is to be restored.
  abbrev Restoring : QuarantinedFile → Disk → Type 0
  Restoring q d = Safe [] d × Read q q.operation_id d

  pub Holds-open_target_parent :
      (P R : Disk → Type 0) (target : String)
      → ((d : Disk) → P d → R d)
      → Holds (open_target_parent parts payload_bytes target) P (λ _ d. P d) R
  unfolding open_target_parent
  Holds-open_target_parent P R target weak = Holds-call _ weak (λ d p.
      elim (Bool-cases (valid_parts (parts target))) [
        | inl valid ↦ (rw valid p)
        | inr invalid ↦ (rw invalid (weak d p))
      ])

  moved_back :
      (q : QuarantinedFile) (d : Disk) (o : Option File)
      → lookup q.operation_id d.staged ≡ o
      → Restoring q d
      → lookup q.relative_path d.files ≡ none
      → Gives
          (λ _ d. Safe [] d × Gone q.operation_id d)
          (Safe [])
          (move_back q.relative_path q.operation_id o d)
          d
  moved_back q d none e (s, journaled) free = s
  moved_back q d (some f) e (s, journaled) free = (
    move_back-IsSafe parts payload_bytes Owns path file q.relative_path q.operation_id f q [] d
        journaled refl e free (λ q m. elim m [ ]) s,
    lookup-remove q.operation_id q.operation_id d.staged
        ∙ (rw ((eq_iff q.operation_id q.operation_id).1 refl) refl),
  )

  Holds-restore_move :
      (q : QuarantinedFile) (staged original : Bool)
      → Holds
          (restore_move q staged original)
          (λ d.
            (Restoring q d × (is_some (lookup q.operation_id d.staged) ≡ staged))
            × (file_at q.relative_path d ≡ original))
          (λ _ d. Safe [] d × Gone q.operation_id d)
          (Safe [])
  Holds-restore_move q true false =
      Holds-bind _ _
        (Holds-call _ (λ d h. h.0.0.0)
          (λ d h. moved_back q d (lookup q.operation_id d.staged) refl h.0.0 (absent _ h.1)))
        (λ _. Holds-after (λ d h. h.0) _ (Holds-nothing (λ d h. h.0)))
  Holds-restore_move q false true = Holds-pure tt (λ d h. (h.0.0.0, absent _ h.0.1))
  Holds-restore_move q true true = Holds-raise runtime_error (λ d h. h.0.0.0)
  Holds-restore_move q false false = Holds-raise runtime_error (λ d h. h.0.0.0)

  pub Holds-restore_quarantined_file :
      (q : QuarantinedFile)
      → Holds
          (restore_quarantined_file parts payload_bytes q)
          (Restoring q)
          (λ _. Safe [])
          (Safe [])
  unfolding restore_quarantined_file
  Holds-restore_quarantined_file q =
      Holds-bind _ _ (Holds-open_target_parent (Restoring q) (Safe []) q.relative_path (λ d h. h.0))
        (λ _.
          Holds-bind _ _
            (Holds-regular_entry_exists (Restoring q) (Safe []) q.operation_id (λ d h. h.0))
            (λ staged.
              Holds-bind _ _ (Holds-look (λ d h. h.0.0) (file_at q.relative_path)) (λ original.
                Holds-bind _ _ (Holds-restore_move q staged original) (λ _.
                  Holds-bind _ _ (Holds-unlink_journal [] q.operation_id) (λ _.
                    Holds-weaken nothing (λ d h. h.0) (λ a d h. h) (λ d h. h)
                      (Holds-nothing (λ d h. h)))))))

  loaded :
      (name : String) (payload : Payload) (r : Result Error QuarantinedFile)
      → load_payload parts payload_bytes name payload ≡ r
      → Holds
          (lift r)
          (λ d. Safe [] d × (lookup name d.journals ≡ some payload))
          (λ q d. (Safe [] d × Read q name d) × (q.operation_id ≡ name))
          (Safe [])
  loaded name payload (ok q) e =
      Holds-pure q (λ d h. ((h.0, (payload, h.1, e)), load_payload_name name payload q e))
  loaded name payload (err x) e = Holds-raise x (λ d h. h.0)

  pub Holds-load_quarantine_journal :
      (name : String)
      → Holds
          (load_quarantine_journal parts payload_bytes name)
          (Safe [])
          (λ q d. (Safe [] d × Read q name d) × (q.operation_id ≡ name))
          (Safe [])
  unfolding load_quarantine_journal
  Holds-load_quarantine_journal name =
      Holds-bind _ _ (Holds-call _ (λ d s. s) (λ d s. there d s (lookup name d.journals) refl))
        (λ payload. loaded name payload (load_payload parts payload_bytes name payload) refl)
    where
      there :
          (d : Disk)
          → Safe [] d
          → (o : Option Payload) → lookup name d.journals ≡ o
          → Gives
              (λ p d. Safe [] d × (lookup name d.journals ≡ some p))
              (Safe [])
              (or_not_found o d)
              d
      there d s none e = s
      there d s (some payload) e = (s, e)
