-- ===== src/Cleanup/Steps.antt =====
-- About one file and its path: where the file may be while a cleanup runs, is killed or recovers, and
-- that no single system call loses it.
use mathlib.Core.List.{Memᴰ}
use sm_artmatch.Prelude.{
  ℕ, ◌≡◌, sym, ap, ◌∙◌, true, false, Bool-cases, inl, inr, ◌⊎◌, none, some, String, List, [],
  str_eq, eq_iff, ok,
}
use sm_artmatch.Prelude.Dicts.{
  Dict, lookup, put, remove, lookup-put_same, lookup-put_other, lookup-remove, lookup-remove_found,
  lookup-differ,
}
use sm_artmatch.Cleanup.{File, QuarantinedFile, Payload, ImageRow, Disk, all_committed}
use sm_artmatch.Cleanup.Quarantine.{load_payload}

module _ (parts : String → List String) (payload_bytes : Payload → ℕ) where
  -- The journal of the operation can be read, and is q.
  abbrev pub Journaled : QuarantinedFile → String → Disk → Type 0
  Journaled q id d =
      (payload : Payload) × (lookup id d.journals ≡ some payload)
      × (load_payload parts payload_bytes id payload ≡ ok q)

  abbrev pub InPlace : String → File → Disk → Type 0
  InPlace path file d = lookup path d.files ≡ some file

  -- In the quarantine, with a journal that names the path.
  abbrev pub Staged : String → File → Disk → Type 0
  Staged path file d =
      (id : String) × (q : QuarantinedFile) × Journaled q id d
      × (q.relative_path ≡ path)
      × (lookup id d.staged ≡ some file)

  module _ (Owns : String → List ℕ → Type 0) (path : String) (file : File) where
    -- Rows that the path belongs to are committed as cleaned up.
    abbrev pub IsCleaned : Disk → Type 0
    IsCleaned d = (ids : List ℕ) × Owns path ids × (all_committed ids d.rows ≡ true)

    abbrev pub Kept : Disk → Type 0
    Kept d = InPlace path file d ⊎ (Staged path file d ⊎ IsCleaned d)

    -- A file that this run has staged, and will purge after its commit.
    abbrev pub Tracked : QuarantinedFile → Disk → Type 0
    Tracked q d =
        Journaled q q.operation_id d × ((f : File) × (lookup q.operation_id d.staged ≡ some f))

    pub record IsSafe (qs : List QuarantinedFile) (d : Disk) : Type 0 where
      pub kept : Kept d
      pub owned :
          (id : String) (q : QuarantinedFile)
          → Journaled q id d
          → Owns q.relative_path q.image_file_ids
      pub grows :
          (ids : List ℕ) → all_committed ids d.rows ≡ true → all_committed ids d.pending ≡ true
      pub tracks : (q : QuarantinedFile) → Memᴰ q qs → Tracked q d

    -- No file is staged for the operation.
    abbrev pub Unstaged : String → Disk → Type 0
    Unstaged id d = lookup id d.staged ≡ none

    pub untracked : (qs : List QuarantinedFile) (d : Disk) → IsSafe qs d → IsSafe [] d
    untracked qs d s = record {
      kept = s.kept;
      owned = s.owned;
      grows = s.grows;
      tracks = λ q m. elim m [ ];
    }

    pub temporaries-IsSafe :
        (t : Dict Payload) (qs : List QuarantinedFile) (d : Disk)
        → IsSafe qs d
        → IsSafe qs (record d { temporaries = t })
    temporaries-IsSafe t qs d s = record {
      kept = s.kept;
      owned = s.owned;
      grows = s.grows;
      tracks = s.tracks;
    }

    pub pending-IsSafe :
        (rows : List (ℕ × ImageRow)) (qs : List QuarantinedFile) (d : Disk)
        → ((ids : List ℕ) → all_committed ids d.rows ≡ true → all_committed ids rows ≡ true)
        → IsSafe qs d
        → IsSafe qs (record d { pending = rows })
    pending-IsSafe rows qs d grows s = record {
      kept = s.kept;
      owned = s.owned;
      grows = grows;
      tracks = s.tracks;
    }

    pub commit-IsSafe :
        (qs : List QuarantinedFile) (d : Disk)
        → IsSafe qs d
        → IsSafe qs (record d { rows = d.pending })
    commit-IsSafe qs d s = record {
      kept = elim s.kept [
        | inl in_place ↦ inl in_place
        | inr (inl staged) ↦ inr (inl staged)
        | inr (inr (ids, owns, committed)) ↦ inr (inr (ids, owns, s.grows ids committed))
      ];
      owned = s.owned;
      grows = λ ids h. h;
      tracks = s.tracks;
    }

    journal_kept :
        (id other : String) (q : QuarantinedFile) (d : Disk)
        → str_eq id other ≡ false
        → Journaled q other d
        → Journaled q other (record d { journals = remove id d.journals })
    journal_kept id other q d different (payload, found, loads) =
        (payload, lookup-remove other id d.journals ∙ (rw different found), loads)

    pub unlink_journal-IsSafe :
        (id : String) (qs : List QuarantinedFile) (d : Disk)
        → Unstaged id d
        → IsSafe qs d
        → IsSafe qs (record d { journals = remove id d.journals })
    unlink_journal-IsSafe id qs d unstaged s = record {
      kept = elim s.kept [
        | inl in_place ↦ inl in_place
        | inr (inl (other, q, journaled, same, staged)) ↦ inr (
            inl (
              other,
              q,
              journal_kept id other q d (lookup-differ id other file d.staged unstaged staged)
                  journaled,
              same,
              staged,
            ))
        | inr (inr cleaned) ↦ inr (inr cleaned)
      ];
      owned = λ other q (payload, found, loads).
          s.owned other q (payload, lookup-remove_found other id payload d.journals found, loads);
      grows = s.grows;
      tracks = λ q m.
          let (journaled, (f, staged)) = s.tracks q m in
          (
            journal_kept id q.operation_id q d
                (lookup-differ id q.operation_id f d.staged unstaged staged) journaled,
            (f, staged),
          );
    }

    journal_put :
        (id other : String) (new : Payload) (q : QuarantinedFile) (d : Disk)
        → str_eq id other ≡ false
        → Journaled q other d
        → Journaled q other (record d { journals = put id new d.journals })
    journal_put id other new q d different (payload, found, loads) =
        (payload, lookup-put_other other id new d.journals different ∙ found, loads)

    pub put_journal-IsSafe :
        (id : String) (new : Payload) (qs : List QuarantinedFile) (d : Disk)
        → Unstaged id d
        → ((q : QuarantinedFile)
            → load_payload parts payload_bytes id new ≡ ok q
            → Owns q.relative_path q.image_file_ids)
        → IsSafe qs d
        → IsSafe qs (record d { journals = put id new d.journals })
    put_journal-IsSafe id new qs d unstaged owns s = record {
      kept = elim s.kept [
        | inl in_place ↦ inl in_place
        | inr (inl (other, q, journaled, same, staged)) ↦ inr (
            inl (
              other,
              q,
              journal_put id other new q d (lookup-differ id other file d.staged unstaged staged)
                  journaled,
              same,
              staged,
            ))
        | inr (inr cleaned) ↦ inr (inr cleaned)
      ];
      owned = λ other q (payload, found, loads). elim (Bool-cases (str_eq id other)) [
        | inl same ↦
            let e : id ≡ other = (eq_iff id other).0 same in
            let p : new ≡ payload = cc (lookup-put_same other id new d.journals same, found) in
            owns q (
              ap (λ (x : String). load_payload parts payload_bytes x new) e
              ∙ ap (load_payload parts payload_bytes other) p
              ∙ loads)
        | inr different ↦
            s.owned other q
              (payload, sym (lookup-put_other other id new d.journals different) ∙ found, loads)
      ];
      grows = s.grows;
      tracks = λ q m.
          let (journaled, (f, staged)) = s.tracks q m in
          (
            journal_put id q.operation_id new q d
                (lookup-differ id q.operation_id f d.staged unstaged staged) journaled,
            (f, staged),
          );
    }
