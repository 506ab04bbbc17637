-- ===== src/Rankings/Groups.antt =====
-- The rankings against their specification: the runs of rows with one auction id, in order.
use mathlib.Core.List.{append_assoc}
use mathlib.Core.Path.{subst}
use sm_artmatch.Prelude.{
  ◌≡◌, refl, true, false, Bool-cases, inl, inr, Option, none, some, String, List, [], ◌∷◌, ◌++◌,
  arith, if◌then◌else◌, Result, ok, err, ◌>>=◌, str_eq, eq_iff, >>=-eq-ok, ok-injective,
}
use sm_artmatch.Rankings.{Error, Row}
use sm_artmatch.Rankings.Items.{AreItems, make_item-IsItem}
use sm_artmatch.Rankings.Stream.{
  Generator, Item, Group, State, initial, same_operation, candidate_of, group_of, append_candidate,
  make_item, begin, on_current, flushed, flush, extend, step, last_item, after_step, final, loop,
  iter_rankings,
}

-- The rows arrived without an exception.
abbrev pub arrived : {A : Type 0} → List A → Generator A
arrived xs = record { yielded = xs; raised = none }

module _ {S : Type 0} where
  -- A group in front of the groups that follow it: a run of one auction id is one group.
  unfoldable pub join : Group S → List (Group S) → List (Group S)
  join g [] = g ∷ []
  join g (h ∷ hs) =
      if str_eq g.auction_id h.auction_id
      then (record g { candidates = g.candidates ++ h.candidates }) ∷ hs
      else g ∷ h ∷ hs

  -- A row as a group of its own.
  abbrev pub single : Row S → Group S
  single row = record {
    auction_id = row.auction_id;
    auction_version = row.auction_version;
    lost_revision = row.lost_revision;
    candidates =
        (record { rank = row.rank; lost_id = row.lost_id; blocking_score = row.blocking_score })
        ∷ [];
  }

  -- The maximal runs of rows with one auction id; versions and revisions are the first row's.
  unfoldable pub groups : List (Row S) → List (Group S)
  unfolding join
  groups [] = []
  groups (row ∷ rows) = join (single row) (groups rows)

  abbrev pub join_current : Option (Group S) → List (Group S) → List (Group S)
  join_current none gs = gs
  join_current (some g) gs = join g gs

  join-same :
      (g : Group S) (row : Row S) (gs : List (Group S))
      → str_eq row.auction_id g.auction_id ≡ true
      → join g (join (group_of row) gs) ≡ join (append_candidate g row) gs
  unfolding join
  join-same g row [] h =
      ground (arith, eq_iff row.auction_id g.auction_id, eq_iff g.auction_id row.auction_id)
  join-same g row (h ∷ hs) e = ground (
    arith,
    eq_iff row.auction_id g.auction_id,
    eq_iff g.auction_id row.auction_id,
    eq_iff row.auction_id h.auction_id,
    eq_iff g.auction_id h.auction_id,
    append_assoc g.candidates (candidate_of row ∷ []) h.candidates,
  )

  join-other :
      (g : Group S) (row : Row S) (gs : List (Group S))
      → str_eq row.auction_id g.auction_id ≡ false
      → join g (join (group_of row) gs) ≡ g ∷ join (group_of row) gs
  unfolding join
  join-other g row [] h =
      ground (arith, eq_iff row.auction_id g.auction_id, eq_iff g.auction_id row.auction_id)
  join-other g row (k ∷ ks) h = ground (
    arith,
    eq_iff row.auction_id k.auction_id,
    eq_iff row.auction_id g.auction_id,
    eq_iff g.auction_id row.auction_id,
  )

module _ {S : Type 0} (auction_paths lost_paths : String → Option String) where
  -- An item for each group, unless one of their files is unknown.
  unfoldable pub make_items : List (Group S) → Result Error (List (Item S))
  make_items [] = ok []
  make_items (g ∷ gs) = do
    item ← make_item auction_paths lost_paths g
    items ← make_items gs
    ok (item ∷ items)

  begin-current :
      (st : State S) (seen : List String) (items : List (Item S)) (row : Row S) {st' : State S}
      → (begin auction_paths lost_paths st seen items row).next ≡ ok st'
      → st'.current ≡ some (group_of row)
  unfolding begin
  begin-current st seen items row h = ground arith

  begin-yielded :
      (st : State S) (seen : List String) (items : List (Item S)) (row : Row S)
      → (begin auction_paths lost_paths st seen items row).yielded ≡ items
  unfolding begin
  begin-yielded st seen items row = refl

  extend-current :
      (st : State S) (g : Group S) (row : Row S) {st' : State S}
      → (extend auction_paths lost_paths st g row).next ≡ ok st'
      → st'.current ≡ some (append_candidate g row)
  unfolding extend
  extend-current st g row h = ground arith

  flushed_lem :
      (st : State S) (g : Group S) (row : Row S) (r : Result Error (Item S)) {st' : State S}
      → (flushed auction_paths lost_paths st g row r).next ≡ ok st'
      → (item : Item S) × (r ≡ ok item)
        × ((flushed auction_paths lost_paths st g row r).yielded ≡ item ∷ [])
        × (st'.current ≡ some (group_of row))
  flushed_lem st g row (ok item) h =
      (item, refl, begin-yielded st _ (item ∷ []) row, begin-current st _ (item ∷ []) row h)
  flushed_lem st g row (err e) h = absurd (cc)

  -- A step over a row, seen from the groups of the rows that follow.
  on_current-groups :
      (o : Option (Group S)) (st : State S) (row : Row S) {st' : State S}
      → (on_current auction_paths lost_paths o st row).next ≡ ok st'
      → (gs : List (Group S)) (items : List (Item S))
      → make_items (join_current st'.current gs) ≡ ok items
      → make_items (join_current o (join (group_of row) gs))
        ≡ ok ((on_current auction_paths lost_paths o st row).yielded ++ items)
  unfolding extend flush make_items begin
  on_current-groups none st row h gs items made = rw (begin-current st st.seen [] row h) at made
  on_current-groups (some g) st row {st'} h gs items made =
      elim (Bool-cases (str_eq row.auction_id g.auction_id)) [
        | inl same ↦
            let current = extend-current st g row {st' = st'} (rw same at h) in
            rw same (rw (join-same g row gs same) (rw current at made))
        | inr other ↦
            let (item, e, yielded, current) =
              flushed_lem st g row (make_item auction_paths lost_paths g) {st' = st'}
                (rw other at h) in
            let made' = rw current at made in
            rw other (rw (join-other g row gs other) (rw (e, made')))
      ]

  step-groups :
      (st : State S) (row : Row S) {st' : State S}
      → (step auction_paths lost_paths st row).next ≡ ok st'
      → (gs : List (Group S)) (items : List (Item S))
      → make_items (join_current st'.current gs) ≡ ok items
      → make_items (join_current st.current (join (group_of row) gs))
        ≡ ok ((step auction_paths lost_paths st row).yielded ++ items)
  unfolding step
  step-groups st row {st'} h gs items made =
      elim (Bool-cases (same_operation st.operation_revision row.lost_revision)) [
        | inl same ↦
            rw same (on_current-groups st.current st row {st' = st'} (rw same at h) gs items made)
        | inr other ↦ absurd (cc (rw other at h))
      ]

  last_item-groups :
      (r : Result Error (Item S))
      → (last_item auction_paths lost_paths r).raised ≡ none
      → (r >>= λ item. ok (item ∷ [])) ≡ ok (last_item auction_paths lost_paths r).yielded
  last_item-groups (ok item) h = refl
  last_item-groups (err e) h = absurd (cc)

  final-groups :
      (o : Option (Group S))
      → (final auction_paths lost_paths o).raised ≡ none
      → make_items (join_current o []) ≡ ok (final auction_paths lost_paths o).yielded
  unfolding final make_items join
  final-groups none h = refl
  final-groups (some g) h = last_item-groups (make_item auction_paths lost_paths g) h

  after_step-groups :
      (st : State S) (row : Row S) (rows : List (Row S)) (r : Result Error (State S))
      → (step auction_paths lost_paths st row).next ≡ r
      → ((st' : State S)
          → (loop auction_paths lost_paths st' rows none).raised ≡ none
          → make_items (join_current st'.current (groups rows))
            ≡ ok (loop auction_paths lost_paths st' rows none).yielded)
      → (after_step auction_paths lost_paths
          (step auction_paths lost_paths st row).yielded
          r
          (λ st'. loop auction_paths lost_paths st' rows none)).raised
        ≡ none
      → make_items (join_current st.current (join (group_of row) (groups rows)))
        ≡ ok
            (after_step auction_paths lost_paths
              (step auction_paths lost_paths st row).yielded
              r
              (λ st'. loop auction_paths lost_paths st' rows none)).yielded
  after_step-groups st row rows (ok st') e ih h =
      step-groups st row e (groups rows) (loop auction_paths lost_paths st' rows none).yielded
        (ih st' h)
  after_step-groups st row rows (err x) e ih h = absurd (cc)

  loop-groups :
      (st : State S) (rows : List (Row S))
      → (loop auction_paths lost_paths st rows none).raised ≡ none
      → make_items (join_current st.current (groups rows))
        ≡ ok (loop auction_paths lost_paths st rows none).yielded
  unfolding loop groups
  loop-groups st [] h = final-groups st.current h
  loop-groups st (row ∷ rows) h =
      after_step-groups st row rows (step auction_paths lost_paths st row).next refl
        (λ st'. loop-groups st' rows) h

  make_items-AreItems :
      (gs : List (Group S)) (items : List (Item S))
      → make_items gs ≡ ok items
      → AreItems auction_paths lost_paths gs items
  unfolding make_items
  make_items-AreItems [] items h = subst (AreItems auction_paths lost_paths []) (ok-injective h) tt
  make_items-AreItems (g ∷ gs) items h =
      let (item, made, h₁) = >>=-eq-ok (make_item auction_paths lost_paths g) _ h in
      let (rest, more, h₂) = >>=-eq-ok (make_items gs) _ h₁ in
      subst (AreItems auction_paths lost_paths (g ∷ gs)) (ok-injective h₂)
        (make_item-IsItem auction_paths lost_paths g item made, make_items-AreItems gs rest more)

  -- Where the rows arrive and nothing is raised, the items are those of the maximal runs of rows with
  -- one auction id: as many, in the same order. Each has the auction id, version and revision of its
  -- run's first row and the path of the auction file, and its matches are the candidates of all rows
  -- of the run, sorted by rank with equal ranks in the order of the rows, each with its score and the
  -- path of its file.
  pub iter_rankings-groups :
      (rows : List (Row S))
      → (iter_rankings auction_paths lost_paths (arrived rows)).raised ≡ none
      → AreItems auction_paths lost_paths
          (groups rows)
          (iter_rankings auction_paths lost_paths (arrived rows)).yielded
  unfolding iter_rankings
  iter_rankings-groups rows h = make_items-AreItems (groups rows) _ (loop-groups initial rows h)
