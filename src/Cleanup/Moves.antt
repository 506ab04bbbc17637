-- ===== src/Cleanup/Moves.antt =====
-- About one file and its path, continued: the calls that move or remove a staged file.
use mathlib.Core.List.{Memᴰ}
use mathlib.Core.Path.{subst}
use sm_artmatch.Prelude.{
  ℕ, ◌≡◌, refl, sym, ap, ◌∙◌, false, Bool-cases, inl, inr, none, some, String, List, str_eq, eq_iff,
}
use sm_artmatch.Prelude.Dicts.{
  lookup, put, remove, lookup-put_same, lookup-put_other, lookup-remove, lookup-differ,
}
use sm_artmatch.Cleanup.{File, QuarantinedFile, Payload, Disk}
use sm_artmatch.Cleanup.Steps.{Journaled, IsCleaned, IsSafe, Unstaged}

module _ (parts : String → List String) (payload_bytes : Payload → ℕ)
    (Owns : String → List ℕ → Type 0) (path : String) (file : File) where
  pub move_in-IsSafe :
      (at_path id : String) (f : File) (q : QuarantinedFile) (qs : List QuarantinedFile) (d : Disk)
      → Journaled parts payload_bytes q id d
      → q.relative_path ≡ at_path
      → Unstaged parts payload_bytes Owns path file id d
      → lookup at_path d.files ≡ some f
      → IsSafe parts payload_bytes Owns path file qs d
      → IsSafe parts payload_bytes Owns path file qs
          (record d { files = remove at_path d.files; staged = put id f d.staged })
  move_in-IsSafe at_path id f q qs d journaled named unstaged there s = record {
    kept = elim s.kept [
      | inl in_place ↦ elim (Bool-cases (str_eq at_path path)) [
        | inl same ↦
            let e : at_path ≡ path = (eq_iff at_path path).0 same in
            let g : f ≡ file = cc in
            inr (
              inl (
                id,
                q,
                journaled,
                named ∙ e,
                lookup-put_same id id f d.staged ((eq_iff id id).1 refl) ∙ ap some g,
              ))
        | inr different ↦ inl (lookup-remove path at_path d.files ∙ (rw different in_place))
      ]
      | inr (inl (other, q', journaled', same, staged)) ↦ inr (
          inl (
            other,
            q',
            journaled',
            same,
            lookup-put_other other id f d.staged
                  (lookup-differ id other file d.staged unstaged staged)
                ∙ staged,
          ))
      | inr (inr cleaned) ↦ inr (inr cleaned)
    ];
    owned = s.owned;
    grows = s.grows;
    tracks = λ q' m.
        let (journaled', (g, staged)) = s.tracks q' m in
        (
          journaled',
          (
            g,
            lookup-put_other q'.operation_id id f d.staged
                  (lookup-differ id q'.operation_id g d.staged unstaged staged)
                ∙ staged,
          ),
        );
  }

  -- The operation is none of those that the run has completed.
  abbrev pub IsFresh : String → List QuarantinedFile → Type 0
  IsFresh id qs = (q : QuarantinedFile) → Memᴰ q qs → str_eq id q.operation_id ≡ false

  pub Unstaged-IsFresh :
      (id : String) (qs : List QuarantinedFile) (d : Disk)
      → Unstaged parts payload_bytes Owns path file id d
      → IsSafe parts payload_bytes Owns path file qs d
      → IsFresh id qs
  Unstaged-IsFresh id qs d unstaged s q m =
      let (journaled, (f, staged)) = s.tracks q m in
      lookup-differ id q.operation_id f d.staged unstaged staged

  pub move_back-IsSafe :
      (at_path id : String) (f : File) (q : QuarantinedFile) (qs : List QuarantinedFile) (d : Disk)
      → Journaled parts payload_bytes q id d
      → q.relative_path ≡ at_path
      → lookup id d.staged ≡ some f
      → lookup at_path d.files ≡ none
      → IsFresh id qs
      → IsSafe parts payload_bytes Owns path file qs d
      → IsSafe parts payload_bytes Owns path file qs
          (record d { files = put at_path f d.files; staged = remove id d.staged })
  move_back-IsSafe at_path id f q qs d (payload, found, loads) named there absent fresh s = record {
    kept = elim s.kept [
      | inl in_place ↦ inl (
          lookup-put_other path at_path f d.files
            (lookup-differ at_path path file d.files absent in_place)
          ∙ in_place)
      | inr (inl (other, q', (payload', found', loads'), same, staged)) ↦
          elim (Bool-cases (str_eq id other)) [
            | inl equal ↦
                let e : id ≡ other = (eq_iff id other).0 equal in
                let p : payload ≡ payload' = cc in
                let r : q ≡ q' = cc in
                let g : f ≡ file = cc in
                let n : at_path ≡ path =
                  sym named ∙ ap (λ (x : QuarantinedFile). x.relative_path) r ∙ same in
                inl (lookup-put_same path at_path f d.files ((eq_iff at_path path).1 n) ∙ ap some g)
            | inr different ↦ inr (
                inl (
                  other,
                  q',
                  (payload', found', loads'),
                  same,
                  lookup-remove other id d.staged ∙ (rw different staged),
                ))
          ]
      | inr (inr cleaned) ↦ inr (inr cleaned)
    ];
    owned = s.owned;
    grows = s.grows;
    tracks = λ q' m.
        let (journaled', (g, staged)) = s.tracks q' m in
        let different = fresh q' m in
        (journaled', (g, lookup-remove q'.operation_id id d.staged ∙ (rw different staged)));
  }

  pub unlink_staged-IsSafe :
      (id : String) (qs : List QuarantinedFile) (d : Disk)
      → ((q : QuarantinedFile)
          → Journaled parts payload_bytes q id d
          → q.relative_path ≡ path
          → IsCleaned parts payload_bytes Owns path file d)
      → IsFresh id qs
      → IsSafe parts payload_bytes Owns path file qs d
      → IsSafe parts payload_bytes Owns path file qs (record d { staged = remove id d.staged })
  unlink_staged-IsSafe id qs d cleaned fresh s = record {
    kept = elim s.kept [
      | inl in_place ↦ inl in_place
      | inr (inl (other, q, journaled, same, staged)) ↦ elim (Bool-cases (str_eq id other)) [
        | inl equal ↦
            let e : id ≡ other = (eq_iff id other).0 equal in
            inr (
              inr (
                cleaned q
                  (subst (λ (x : String). Journaled parts payload_bytes q x d) (sym e) journaled)
                  same))
        | inr different ↦ inr (
            inl
              (other, q, journaled, same, lookup-remove other id d.staged ∙ (rw different staged)))
      ]
      | inr (inr done) ↦ inr (inr done)
    ];
    owned = s.owned;
    grows = s.grows;
    tracks = λ q m.
        let (journaled, (g, staged)) = s.tracks q m in
        let different = fresh q m in
        (journaled, (g, lookup-remove q.operation_id id d.staged ∙ (rw different staged)));
  }
