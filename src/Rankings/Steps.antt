-- ===== src/Rankings/Steps.antt =====
-- One row of `_iter_rankings`, and a whole run of rows, as relations on the state.
use sm_artmatch.Prelude.{
  ℕ, ◌≡◌, refl, sym, true, false, Bool-cases, inl, inr, Option, none, some, String, List, [], ◌∷◌,
  ◌++◌, arith, Result, ok, err, str_eq, eq_iff,
}
use sm_artmatch.Rankings.{Error, Row}
use sm_artmatch.Prelude.Dicts.{contains}
use sm_artmatch.Rankings.Stream.{
  Item, Group, State, same_operation, same_number, group_of, append_candidate, make_item, begin,
  on_current, flushed, flush, extend, step, last_item, final, after_step, loop,
}

pub same_number→eq : (a b : Option ℕ) → same_number a b ≡ true → a ≡ b
same_number→eq a b h = ground arith

module _ {S : Type 0} where
  -- What an item of a group shows of it.
  abbrev pub Shows : Item S → Group S → Type 0
  Shows item g =
      (item.auction_file_id ≡ g.auction_id)
      × (item.auction_content_version ≡ g.auction_version)
      × (item.lost_content_revision ≡ g.lost_revision)

module _ {S : Type 0} (auction_paths lost_paths : String → Option String) where
  make_item-Shows :
      (g : Group S) (item : Item S) → make_item auction_paths lost_paths g ≡ ok item → Shows item g
  unfolding make_item
  make_item-Shows g item h = ground arith

  -- The three ways in which a step goes on.
  pub data Stepped (st : State S) (row : Row S) (items : List (Item S)) (st' : State S)
      : Type 0 where
    begun :
        st.current ≡ none
        → contains row.auction_id st.seen ≡ false
        → items ≡ []
        → st'.seen ≡ st.seen
        → st'.current ≡ some (group_of row)
        → Stepped st row items st'
    extended :
        (g : Group S)
        → st.current ≡ some g
        → row.auction_id ≡ g.auction_id
        → row.auction_version ≡ g.auction_version
        → items ≡ []
        → st'.seen ≡ st.seen
        → st'.current ≡ some (append_candidate g row)
        → Stepped st row items st'
    flushed_current :
        (g : Group S) (item : Item S)
        → st.current ≡ some g
        → Shows item g
        → contains row.auction_id (g.auction_id ∷ st.seen) ≡ false
        → items ≡ item ∷ []
        → st'.seen ≡ g.auction_id ∷ st.seen
        → st'.current ≡ some (group_of row)
        → Stepped st row items st'

  begin_lem :
      (st : State S) (seen : List String) (items : List (Item S)) (row : Row S) {st' : State S}
      → (begin auction_paths lost_paths st seen items row).next ≡ ok st'
      → (contains row.auction_id seen ≡ false)
        × (st'.seen ≡ seen)
        × (st'.current ≡ some (group_of row))
        × (st'.operation_revision ≡ some row.lost_revision)
  unfolding begin
  begin_lem st seen items row h = ground arith

  extend_lem :
      (st : State S) (g : Group S) (row : Row S) {st' : State S}
      → (extend auction_paths lost_paths st g row).next ≡ ok st'
      → (same_number row.auction_version g.auction_version ≡ true)
        × (st'.seen ≡ st.seen)
        × (st'.current ≡ some (append_candidate g row))
        × (st'.operation_revision ≡ some row.lost_revision)
  unfolding extend
  extend_lem st g row h = ground arith

  flushed_lem :
      (st : State S) (g : Group S) (row : Row S) (r : Result Error (Item S)) {st' : State S}
      → r ≡ make_item auction_paths lost_paths g
      → (flushed auction_paths lost_paths st g row r).next ≡ ok st'
      → (item : Item S) × Shows item g
        × (contains row.auction_id (g.auction_id ∷ st.seen) ≡ false)
        × ((flushed auction_paths lost_paths st g row r).yielded ≡ item ∷ [])
        × (st'.seen ≡ g.auction_id ∷ st.seen)
        × (st'.current ≡ some (group_of row))
        × (st'.operation_revision ≡ some row.lost_revision)
  unfolding begin
  flushed_lem st g row (ok item) {st'} e h =
      let (new, seen, current, operation) =
        begin_lem st (g.auction_id ∷ st.seen) (item ∷ []) row {st' = st'} h in
      (item, make_item-Shows g item (sym e), new, refl, seen, current, operation)
  flushed_lem st g row (err x) e h = absurd (cc)

  on_current-Stepped :
      (o : Option (Group S)) (st : State S) (row : Row S) {st' : State S}
      → st.current ≡ o
      → (on_current auction_paths lost_paths o st row).next ≡ ok st'
      → Stepped st row (on_current auction_paths lost_paths o st row).yielded st'
        × (st'.operation_revision ≡ some row.lost_revision)
  unfolding begin extend flush
  on_current-Stepped none st row {st'} e h =
      let (new, seen, current, operation) = begin_lem st st.seen [] row {st' = st'} h in
      (begun e new refl seen current, operation)
  on_current-Stepped (some g) st row {st'} e h =
      elim (Bool-cases (str_eq row.auction_id g.auction_id)) [
        | inl same ↦
            let (version, seen, current, operation) =
              extend_lem st g row {st' = st'} (rw same at h) in
            rw same (
              extended g e ((eq_iff _ _).0 same) (same_number→eq _ _ version) refl seen current,
              operation,
            )
        | inr other ↦
            let (item, shows, new, yielded, seen, current, operation) =
              flushed_lem st g row (make_item auction_paths lost_paths g) {st' = st'} refl
                (rw other at h) in
            rw other (flushed_current g item e shows new yielded seen current, operation)
      ]

  step-Stepped :
      (st : State S) (row : Row S) {st' : State S}
      → (step auction_paths lost_paths st row).next ≡ ok st'
      → Stepped st row (step auction_paths lost_paths st row).yielded st'
        × (st'.operation_revision ≡ some row.lost_revision)
        × (same_operation st.operation_revision row.lost_revision ≡ true)
  unfolding step
  step-Stepped st row {st'} h =
      elim (Bool-cases (same_operation st.operation_revision row.lost_revision)) [
        | inl same ↦
            let (stepped, operation) =
              on_current-Stepped st.current st row {st' = st'} refl (rw same at h) in
            rw same (stepped, operation, refl)
        | inr other ↦ absurd (cc (rw other at h))
      ]

  -- A run that ends without an exception, and the items that it yields.
  pub data Run : State S → List (Row S) → List (Item S) → Type 0 where
    ended_before : (st : State S) → st.current ≡ none → Run st [] []
    ended :
        (st : State S) (g : Group S) (item : Item S)
        → st.current ≡ some g
        → Shows item g
        → Run st [] (item ∷ [])
    stepped :
        (st st' : State S) (row : Row S) (rows : List (Row S)) (now later all : List (Item S))
        → Stepped st row now st'
        → st'.operation_revision ≡ some row.lost_revision
        → same_operation st.operation_revision row.lost_revision ≡ true
        → Run st' rows later
        → all ≡ now ++ later
        → Run st (row ∷ rows) all

  last_item-Run :
      (st : State S) (g : Group S) (r : Result Error (Item S))
      → st.current ≡ some g
      → r ≡ make_item auction_paths lost_paths g
      → (last_item auction_paths lost_paths r).raised ≡ none
      → Run st [] (last_item auction_paths lost_paths r).yielded
  last_item-Run st g (ok item) c e h = ended st g item c (make_item-Shows g item (sym e))
  last_item-Run st g (err x) c e h = absurd (cc)

  final-Run :
      (st : State S) (o : Option (Group S))
      → st.current ≡ o
      → (final auction_paths lost_paths o).raised ≡ none
      → Run st [] (final auction_paths lost_paths o).yielded
  unfolding final
  final-Run st none c h = ended_before st c
  final-Run st (some g) c h = last_item-Run st g (make_item auction_paths lost_paths g) c refl h

  after_step-Run :
      (st : State S) (row : Row S) (rows : List (Row S)) (r : Result Error (State S))
      → (step auction_paths lost_paths st row).next ≡ r
      → ((st' : State S)
          → (loop auction_paths lost_paths st' rows none).raised ≡ none
          → Run st' rows (loop auction_paths lost_paths st' rows none).yielded)
      → (after_step auction_paths lost_paths
          (step auction_paths lost_paths st row).yielded
          r
          (λ st'. loop auction_paths lost_paths st' rows none)).raised
        ≡ none
      → Run st
          (row ∷ rows)
          (after_step auction_paths lost_paths
            (step auction_paths lost_paths st row).yielded
            r
            (λ st'. loop auction_paths lost_paths st' rows none)).yielded
  after_step-Run st row rows (ok st') e ih h =
      let (s, operation, same) = step-Stepped st row {st' = st'} e in
      stepped st st' row rows _ _ _ s operation same (ih st' h) refl
  after_step-Run st row rows (err x) e ih h = absurd (cc)

  pub loop-Run :
      (st : State S) (rows : List (Row S))
      → (loop auction_paths lost_paths st rows none).raised ≡ none
      → Run st rows (loop auction_paths lost_paths st rows none).yielded
  unfolding loop
  loop-Run st [] h = final-Run st st.current refl h
  loop-Run st (row ∷ rows) h =
      after_step-Run st row rows (step auction_paths lost_paths st row).next refl
        (λ st'. loop-Run st' rows) h
