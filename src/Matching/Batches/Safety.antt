-- ===== src/Matching/Batches/Safety.antt =====
-- About the order of the commits of `match_metadata`.
use mathlib.Core.List.{Memᴰ, append-nil, append_assoc}
use mathlib.Core.List.Memᴰ as Mem
use mathlib.Core.Path.{subst}
use sm_artmatch.Prelude.{
  ℕ, ◌≡◌, refl, sym, ap, ◌∙◌, Bool-cases, inl, inr, List, [], ◌∷◌, ◌++◌, map, leb, length,
}
use sm_artmatch.Prelude.Members.{append-mem_left, append-mem_right}
use sm_artmatch.Matching.{Floats, Measures, LostRow, Lost, prepare_lost_row}
use sm_artmatch.Matching.Batches.{
  Row, Outcome, Commit, insert, mark, Batch, batch_size, insert_rows, mark_processed, collect,
  outcomes, batch_commits, all_commits, match_metadata,
}

module _ {F : Type 0} where
  -- The rows that commits have inserted, in order, and the rows of outcomes.
  abbrev pub inserted : List (Commit F) → List (Row F)
  inserted [] = []
  inserted (insert rows ∷ cs) = rows ++ inserted cs
  inserted (mark ids ∷ cs) = inserted cs

  abbrev pub outcome_rows : List (Outcome F) → List (Row F)
  outcome_rows [] = []
  outcome_rows (o ∷ os) = o.rows_to_insert ++ outcome_rows os

  inserted-append : (xs ys : List (Commit F)) → inserted (xs ++ ys) ≡ inserted xs ++ inserted ys
  inserted-append [] ys = refl
  inserted-append (insert rows ∷ xs) ys =
      rw (inserted-append xs ys) (sym (append_assoc rows (inserted xs) (inserted ys)))
  inserted-append (mark ids ∷ xs) ys = inserted-append xs ys

  inserted-insert_rows : (rows : List (Row F)) → inserted (insert_rows rows) ≡ rows
  inserted-insert_rows [] = refl
  inserted-insert_rows (row ∷ rows) = append-nil (row ∷ rows)

  inserted-mark_processed : (ids : List ℕ) → inserted (mark_processed ids) ≡ []
  inserted-mark_processed [] = refl
  inserted-mark_processed (id ∷ ids) = refl

  inserted-collect :
      (buffer : List (Row F)) (os : List (Outcome F))
      → inserted (collect buffer os) ≡ buffer ++ outcome_rows os
  unfolding collect
  inserted-collect buffer [] = inserted-insert_rows buffer ∙ sym (append-nil buffer)
  inserted-collect buffer (o ∷ os) =
      elim (Bool-cases (leb batch_size (length (buffer ++ o.rows_to_insert)))) [
        | inl full ↦ simp full (
            inserted-append (insert_rows (buffer ++ o.rows_to_insert)) (collect [] os)
            ∙ ap (λ rows. rows ++ inserted (collect [] os))
                (inserted-insert_rows (buffer ++ o.rows_to_insert))
            ∙ ap (λ rows. (buffer ++ o.rows_to_insert) ++ rows) (inserted-collect [] os)
            ∙ append_assoc buffer o.rows_to_insert (outcome_rows os))
        | inr room ↦ simp room (
            inserted-collect (buffer ++ o.rows_to_insert) os
            ∙ append_assoc buffer o.rows_to_insert (outcome_rows os))
      ]

  -- Each mark comes only after what `Done` says of the rows inserted before it.
  module _ (Done : List (Row F) → ℕ → Type 0) where
    abbrev Guarded : List (Row F) → List (Commit F) → Type 0
    Guarded so_far [] = Unit
    Guarded so_far (insert rows ∷ cs) = Guarded (so_far ++ rows) cs
    Guarded so_far (mark ids ∷ cs) = ((id : ℕ) → Memᴰ id ids → Done so_far id) × Guarded so_far cs

    Guarded-append :
        (so_far : List (Row F)) (xs ys : List (Commit F))
        → Guarded so_far xs
        → Guarded (so_far ++ inserted xs) ys
        → Guarded so_far (xs ++ ys)
    Guarded-append so_far [] ys g h = subst (λ rows. Guarded rows ys) (append-nil so_far) h
    Guarded-append so_far (insert rows ∷ xs) ys g h =
        Guarded-append (so_far ++ rows) xs ys g
          (subst (λ all. Guarded all ys) (sym (append_assoc so_far rows (inserted xs))) h)
    Guarded-append so_far (mark ids ∷ xs) ys (m, g) h = (m, Guarded-append so_far xs ys g h)

    Guarded-split :
        (so_far : List (Row F)) (before after : List (Commit F)) (ids : List ℕ)
        → Guarded so_far (before ++ mark ids ∷ after)
        → (id : ℕ) → Memᴰ id ids
        → Done (so_far ++ inserted before) id
    Guarded-split so_far [] after ids g id m =
        subst (λ rows. Done rows id) (sym (append-nil so_far)) (g.0 id m)
    Guarded-split so_far (insert rows ∷ before) after ids g id m =
        subst (λ all. Done all id) (append_assoc so_far rows (inserted before))
          (Guarded-split (so_far ++ rows) before after ids g id m)
    Guarded-split so_far (mark others ∷ before) after ids g id m =
        Guarded-split so_far before after ids g.1 id m

    Guarded-insert_rows : (so_far rows : List (Row F)) → Guarded so_far (insert_rows rows)
    Guarded-insert_rows so_far [] = tt
    Guarded-insert_rows so_far (row ∷ rows) = tt

    Guarded-mark_processed :
        (so_far : List (Row F)) (ids : List ℕ)
        → ((id : ℕ) → Memᴰ id ids → Done so_far id)
        → Guarded so_far (mark_processed ids)
    Guarded-mark_processed so_far [] h = tt
    Guarded-mark_processed so_far (id ∷ ids) h = (h, tt)

    Guarded-collect :
        (os : List (Outcome F)) (so_far buffer : List (Row F)) → Guarded so_far (collect buffer os)
    unfolding collect
    Guarded-collect [] so_far buffer = Guarded-insert_rows so_far buffer
    Guarded-collect (o ∷ os) so_far buffer =
        elim (Bool-cases (leb batch_size (length (buffer ++ o.rows_to_insert)))) [
          | inl full ↦ simp full (
              Guarded-append so_far (insert_rows (buffer ++ o.rows_to_insert)) (collect [] os)
                (Guarded-insert_rows so_far _) (Guarded-collect os _ []))
          | inr room ↦ simp room (Guarded-collect os so_far (buffer ++ o.rows_to_insert))
        ]

  outcome_rows-mem :
      (os : List (Outcome F)) {o : Outcome F} {row : Row F}
      → Memᴰ o os
      → Memᴰ row o.rows_to_insert
      → Memᴰ row (outcome_rows os)
  outcome_rows-mem [] m k = elim m [ ]
  outcome_rows-mem (first ∷ os) {o} {row} (Memᴰ.head e) k =
      append-mem_left first.rows_to_insert (outcome_rows os)
        (subst (λ (x : Outcome F). Memᴰ row x.rows_to_insert) e k)
  outcome_rows-mem (first ∷ os) (Memᴰ.tail m) k =
      append-mem_right first.rows_to_insert (outcome_rows os) (outcome_rows-mem os m k)

module _ {F : Type 0} (fl : Floats F) (ms : Measures F) (max_len : ℕ) where
  abbrev pub batch_rows : List (Lost F) → List (Batch F) → List (Row F)
  batch_rows losts [] = []
  batch_rows losts (b ∷ bs) = outcome_rows (outcomes fl ms max_len losts b) ++ batch_rows losts bs

  inserted-batch_commits :
      (losts : List (Lost F)) (b : Batch F)
      → inserted (batch_commits fl ms max_len losts b)
        ≡ outcome_rows (outcomes fl ms max_len losts b)
  unfolding batch_commits
  inserted-batch_commits losts b =
      let os = outcomes fl ms max_len losts b in
      inserted-append (collect [] os) _
      ∙ ap (λ rows. rows ++ inserted (mark_processed (map (λ (o : Outcome F). o.auction_id) os)))
          (inserted-collect [] os)
      ∙ ap (λ rows. outcome_rows os ++ rows) (inserted-mark_processed _)
      ∙ append-nil (outcome_rows os)

  inserted-all_commits :
      (losts : List (Lost F)) (bs : List (Batch F))
      → inserted (all_commits fl ms max_len losts bs) ≡ batch_rows losts bs
  unfolding all_commits
  inserted-all_commits losts [] = refl
  inserted-all_commits losts (b ∷ bs) =
      inserted-append (batch_commits fl ms max_len losts b) _
      ∙ ap (λ rows. rows ++ inserted (all_commits fl ms max_len losts bs))
          (inserted-batch_commits losts b)
      ∙ ap (λ rows. outcome_rows (outcomes fl ms max_len losts b) ++ rows)
          (inserted-all_commits losts bs)

  -- A run inserts the rows of all processed auction rows, each once and in the order of completion:
  -- no row stays in the buffer.
  pub match_metadata-inserted :
      (lost_rows : List (LostRow F)) (batches : List (Batch F))
      → inserted (match_metadata fl ms max_len lost_rows batches)
        ≡ batch_rows (map (prepare_lost_row fl ms) lost_rows) batches
  unfolding match_metadata
  match_metadata-inserted lost_rows batches = inserted-all_commits _ batches

  -- Some outcome of the batches is that of the auction row, and its rows have been inserted.
  abbrev pub IsStored : List (Lost F) → List (Batch F) → List (Row F) → ℕ → Type 0
  IsStored losts batches rows id =
      (b : Batch F) × (o : Outcome F) × Memᴰ b batches
      × Memᴰ o (outcomes fl ms max_len losts b)
      × (o.auction_id ≡ id)
      × ((row : Row F) → Memᴰ row o.rows_to_insert → Memᴰ row rows)

  module _ (losts : List (Lost F)) (batches : List (Batch F)) where
    batch_commits-Guarded :
        (so_far : List (Row F)) (b : Batch F)
        → Memᴰ b batches
        → Guarded (IsStored losts batches) so_far (batch_commits fl ms max_len losts b)
    unfolding batch_commits
    batch_commits-Guarded so_far b listed =
        Guarded-append (IsStored losts batches) so_far (collect [] os) _
          (Guarded-collect (IsStored losts batches) os so_far [])
          (Guarded-mark_processed (IsStored losts batches) _ _ stored)
      where
        os : List (Outcome F)
        os = outcomes fl ms max_len losts b

        stored :
            (id : ℕ)
            → Memᴰ id (map (λ (o : Outcome F). o.auction_id) os)
            → IsStored losts batches (so_far ++ inserted (collect [] os)) id
        stored id m =
            let (o, k, e) = Mem.of_map (λ (o : Outcome F). o.auction_id) os m in
            (
              b,
              o,
              listed,
              k,
              e,
              λ row r.
                  append-mem_right so_far (inserted (collect [] os))
                    (subst (Memᴰ row) (sym (inserted-collect [] os)) (outcome_rows-mem os k r)),
            )

    all_commits-Guarded :
        (bs : List (Batch F)) (so_far : List (Row F))
        → ((b : Batch F) → Memᴰ b bs → Memᴰ b batches)
        → Guarded (IsStored losts batches) so_far (all_commits fl ms max_len losts bs)
    unfolding all_commits
    all_commits-Guarded [] so_far sub = tt
    all_commits-Guarded (b ∷ bs) so_far sub =
        Guarded-append (IsStored losts batches) so_far (batch_commits fl ms max_len losts b) _
          (batch_commits-Guarded so_far b (sub b (Memᴰ.head refl)))
          (all_commits-Guarded bs _ (λ b' m. sub b' (Memᴰ.tail m)))

  -- Wherever a run is cut off, an auction row that is marked as processed has all its rows inserted
  -- before.
  pub match_metadata-IsStored :
      (lost_rows : List (LostRow F)) (batches : List (Batch F)) (before after : List (Commit F))
      (ids : List ℕ)
      → match_metadata fl ms max_len lost_rows batches ≡ before ++ mark ids ∷ after
      → (id : ℕ) → Memᴰ id ids
      → IsStored (map (prepare_lost_row fl ms) lost_rows) batches (inserted before) id
  unfolding match_metadata
  match_metadata-IsStored lost_rows batches before after ids e =
      let losts = map (prepare_lost_row fl ms) lost_rows in
      Guarded-split (IsStored losts batches) [] before after ids (
        subst (Guarded (IsStored losts batches) []) e
          (all_commits-Guarded losts batches batches [] (λ b m. m)))
