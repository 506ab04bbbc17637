-- ===== src/Cleanup/Staging.antt =====
-- About the way into the quarantine: the move, and the way back where the staged file is not the one that
-- was opened.
use mathlib.Core.List.Memᴰ
use mathlib.Core.Path.{subst}
use sm_artmatch.Prelude.{
  ℕ, ◌≡◌, refl, sym, ◌∙◌, Bool, true, false, inl, inr, Option, none, some, String, List, [], ◌∷◌,
  ◌++◌, eq_iff,
}
use sm_artmatch.Prelude.Dicts.{lookup, lookup-put_same, lookup-remove}
use sm_artmatch.Cleanup.{
  File, QuarantinedFile, Payload, Disk, Error, killed, os_error, not_found, runtime_error,
  already_running, active_scraper, purge_pending,
}
use sm_artmatch.Cleanup.Rules.{
  Holds, Gives, Holds-pure, Holds-raise, Holds-call, Holds-catch, Holds-if, Holds-weaken,
  Holds-bind, Holds-look, Holds-after,
}
use sm_artmatch.Cleanup.Quarantine.{
  FileOperation, regular, deleted, missing, unsafe, failed, is_some, valid_fields, fields_of,
  or_not_found, move_in, move_back, move_failed, drop_journal, back_or_raise, file_at, check_staged,
  after_move, moved_or_not, try_move, stage_target,
}
use sm_artmatch.Cleanup.Steps.{Journaled, IsSafe, Unstaged}
use sm_artmatch.Cleanup.Moves.{IsFresh, move_in-IsSafe, move_back-IsSafe, Unstaged-IsFresh}
use sm_artmatch.Cleanup.Recovering.{Holds-unlink_journal}
use sm_artmatch.Cleanup.Journaling.{Holds-create_quarantine_journal}

module _ (parts : String → List String) (payload_bytes : Payload → ℕ)
    (Owns : String → List ℕ → Type 0) (path : String) (file : File) where
  abbrev Safe : List QuarantinedFile → Disk → Type 0
  Safe = IsSafe parts payload_bytes Owns path file

  abbrev Gone : String → Disk → Type 0
  Gone = Unstaged parts payload_bytes Owns path file

  abbrev Read : QuarantinedFile → String → Disk → Type 0
  Read = Journaled parts payload_bytes

  absent : {A : Type 0} (o : Option A) → is_some o ≡ false → o ≡ none
  absent none h = refl
  absent (some a) h = absurd cc

  module _ (qs : List QuarantinedFile) (q : QuarantinedFile) where
    abbrev Begun : Disk → Type 0
    Begun d = Safe qs d × Gone q.operation_id d

    abbrev Ready : Disk → Type 0
    Ready d = Begun d × Read q q.operation_id d

    -- The file is in the quarantine, with its journal, as none of those before it.
    abbrev Moved : Disk → Type 0
    Moved d =
        (Safe qs d × IsFresh parts payload_bytes Owns path file q.operation_id qs)
        × (Read q q.operation_id d × ((f : File) × (lookup q.operation_id d.staged ≡ some f)))

    -- What an operation comes to.
    abbrev pub Came : FileOperation → Disk → Type 0
    Came (deleted q') d = (q' ≡ q) × Safe (qs ++ q ∷ []) d
    Came (regular size) d = Safe qs d
    Came missing d = Safe qs d
    Came unsafe d = Safe qs d
    Came failed d = Safe qs d

    abbrev Tried : Option FileOperation → Disk → Type 0
    Tried none d = Moved d
    Tried (some operation) d = Came operation d

    dropped :
        (operation : FileOperation)
        → ((d : Disk) → Safe qs d → Came operation d)
        → Holds (drop_journal q.operation_id operation) Ready Came (Safe qs)
    dropped operation came =
        Holds-bind _ _
          (Holds-weaken _ (λ d h. h.0) (λ a d h. h) (λ d h. h)
            (Holds-unlink_journal parts payload_bytes Owns path file qs q.operation_id))
          (λ _. Holds-after (λ d h. h.0) _ (Holds-pure operation (λ d h. came d h.0)))

    Holds-move_failed : (e : Error) → Holds (move_failed q.operation_id e) Ready Came (Safe qs)
    Holds-move_failed not_found = dropped missing (λ d s. s)
    Holds-move_failed os_error = dropped failed (λ d s. s)
    Holds-move_failed killed = Holds-raise _ (λ d h. h.0.0)
    Holds-move_failed runtime_error = Holds-raise _ (λ d h. h.0.0)
    Holds-move_failed already_running = Holds-raise _ (λ d h. h.0.0)
    Holds-move_failed active_scraper = Holds-raise _ (λ d h. h.0.0)
    Holds-move_failed purge_pending = Holds-raise _ (λ d h. h.0.0)

    move_in-Moved :
        (d : Disk)
        → Ready d
        → (o : Option File) → lookup q.relative_path d.files ≡ o
        → Gives (λ _. Moved) Ready (move_in q.relative_path q.operation_id o d) d
    move_in-Moved d h none e = h
    move_in-Moved d ((s, gone), journaled) (some f) e = (
      (
        move_in-IsSafe parts payload_bytes Owns path file q.relative_path q.operation_id f q qs d
            journaled refl gone e s,
        Unstaged-IsFresh parts payload_bytes Owns path file q.operation_id qs d gone s,
      ),
      (
        journaled,
        (
          f,
          lookup-put_same q.operation_id q.operation_id f d.staged
              ((eq_iff q.operation_id q.operation_id).1 refl),
        ),
      ),
    )

    Holds-try_move : Holds (try_move q) Ready Tried (Safe qs)
    Holds-try_move =
        Holds-catch {R₁ = Ready} _ _
          (Holds-bind _ _
            (Holds-call _ (λ d h. h)
              (λ d h. move_in-Moved d h (lookup q.relative_path d.files) refl))
            (λ _. Holds-pure none (λ d h. h)))
          (λ e.
            Holds-bind _ _ (Holds-move_failed e)
              (λ operation. Holds-pure (some operation) (λ d h. h)))

    tracked : (d : Disk) → Moved d → Came (deleted q) d
    tracked d ((s, fresh), (journaled, staged)) = (
      refl,
      record {
        kept = s.kept;
        owned = s.owned;
        grows = s.grows;
        tracks = λ q' m. elim (Memᴰ.append_cases qs m) [
          | inl before ↦ s.tracks q' before
          | inr last ↦
              subst
                (λ (x : QuarantinedFile).
                  Read x x.operation_id d
                  × ((f : File) × (lookup x.operation_id d.staged ≡ some f)))
                (sym (Memᴰ.eq_of_singleton last)) (journaled, staged)
        ];
      },
    )

    returned :
        (d : Disk)
        → Moved d
        → lookup q.relative_path d.files ≡ none
        → (o : Option File) → lookup q.operation_id d.staged ≡ o
        → Gives (λ _. Begun) (Safe qs) (move_back q.relative_path q.operation_id o d) d
    returned d ((s, fresh), (journaled, staged)) free none e = s
    returned d ((s, fresh), (journaled, staged)) free (some f) e = (
      move_back-IsSafe parts payload_bytes Owns path file q.relative_path q.operation_id f q qs d
          journaled refl e free fresh s,
      lookup-remove q.operation_id q.operation_id d.staged
          ∙ (rw ((eq_iff q.operation_id q.operation_id).1 refl) refl),
    )

    Holds-back_or_raise :
        (b : Bool)
        → Holds (back_or_raise q b) (λ d. Moved d × (file_at q.relative_path d ≡ b)) Came (Safe qs)
    Holds-back_or_raise true = Holds-raise runtime_error (λ d h. h.0.0.0)
    Holds-back_or_raise false =
        Holds-bind _ _
          (Holds-call _ (λ d h. h.0.0.0)
            (λ d h. returned d h.0 (absent _ h.1) (lookup q.operation_id d.staged) refl))
          (λ _.
            Holds-after (λ d h. h.0) _
              (Holds-after (λ d h. h.0) _
                (Holds-bind _ _
                  (Holds-unlink_journal parts payload_bytes Owns path file qs q.operation_id)
                  (λ _. Holds-after (λ d h. h.0) _ (Holds-pure unsafe (λ d h. h.0))))))

    Holds-check_staged :
        (opened_file staged : File) → Holds (check_staged q opened_file staged) Moved Came (Safe qs)
    Holds-check_staged opened_file staged =
        Holds-if _ _ _
          (λ same.
            Holds-after (λ d h. h.0.0) _
              (Holds-after (λ d h. h.0.0) _ (Holds-pure (deleted q) tracked)))
          (λ different.
            Holds-bind _ _ (Holds-look (λ d h. h.0.0) (file_at q.relative_path))
              Holds-back_or_raise)

    Holds-after_move : (opened_file : File) → Holds (after_move q opened_file) Moved Came (Safe qs)
    Holds-after_move opened_file =
        Holds-bind {Q₁ = λ _. Moved} _ _
          (Holds-call _ (λ d h. h.0.0) (λ d h. there d h (lookup q.operation_id d.staged)))
          (λ staged. Holds-check_staged opened_file staged)
      where
        there :
            (d : Disk)
            → Moved d
            → (o : Option File) → Gives (λ f. Moved) (Safe qs) (or_not_found o d) d
        there d h none = h.0.0
        there d h (some f) = h

    Holds-moved_or_not :
        (opened_file : File) (o : Option FileOperation)
        → Holds (moved_or_not q opened_file o) (Tried o) Came (Safe qs)
    Holds-moved_or_not opened_file none = Holds-after_move opened_file
    Holds-moved_or_not opened_file (some operation) = Holds-pure operation (λ d h. h)

    pub Holds-stage_target :
        valid_fields parts payload_bytes q.operation_id (fields_of q) ≡ true
        → Owns q.relative_path q.image_file_ids
        → (opened_file : File)
        → Holds (stage_target parts payload_bytes q opened_file) (Safe qs) Came (Safe qs)
    unfolding stage_target
    Holds-stage_target valid owns opened_file =
        Holds-bind _ _
          (Holds-create_quarantine_journal parts payload_bytes Owns path file qs q valid owns)
          (λ _. Holds-bind _ _ Holds-try_move (Holds-moved_or_not opened_file))
