-- ===== src/Cleanup/Marking.antt =====
-- About the update of the image rows and the sets of ids that it takes.
use sm_artmatch.Prelude.{
  ℕ, ◌≡◌, refl, true, false, Bool-cases, inl, inr, some, List, [], ◌∷◌, arith, ◌==◌,
}
use sm_artmatch.Cleanup.{ImageRow, find, committed_row, live_row, all_committed}
use sm_artmatch.Cleanup.Run.{contains_id, add_ids, mark_row, mark_ids}

find-mark_row :
    (id key : ℕ) (rows : List (ℕ × ImageRow))
    → (id == key) ≡ false
    → find id (mark_row key rows) ≡ find id rows
find-mark_row id key [] h = refl
find-mark_row id key ((k, row) ∷ rows) h = ground (arith, find-mark_row id key rows h)

mark_row_marks :
    (id : ℕ) (rows : List (ℕ × ImageRow))
    → live_row (find id rows) ≡ true
    → committed_row (find id (mark_row id rows)) ≡ true
mark_row_marks id [] h = ground arith
mark_row_marks id ((k, row) ∷ rows) h = ground (arith, mark_row_marks id rows)

mark_row_kept :
    (id key : ℕ) (rows : List (ℕ × ImageRow))
    → committed_row (find id rows) ≡ true
    → committed_row (find id (mark_row key rows)) ≡ true
mark_row_kept id key [] h = h
mark_row_kept id key ((k, row) ∷ rows) h = ground (arith, mark_row_kept id key rows)

pub mark_ids_kept :
    (ids : List ℕ) (rows rows' : List (ℕ × ImageRow)) (id : ℕ)
    → mark_ids ids rows ≡ some rows'
    → committed_row (find id rows) ≡ true
    → committed_row (find id rows') ≡ true
unfolding mark_ids
mark_ids_kept [] rows rows' id h k = ground arith
mark_ids_kept (x ∷ ids) rows rows' id h k =
    ground (arith, mark_row_kept id x rows k, mark_ids_kept ids (mark_row x rows) rows' id)

pub mark_ids_marks :
    (ids : List ℕ) (rows rows' : List (ℕ × ImageRow)) (id : ℕ)
    → mark_ids ids rows ≡ some rows'
    → contains_id id ids ≡ true
    → committed_row (find id rows') ≡ true
unfolding mark_ids
mark_ids_marks [] rows rows' id h k = ground arith
mark_ids_marks (x ∷ ids) rows rows' id h k = elim (Bool-cases (id == x)) [
  | inl same ↦ ground (arith, mark_row_marks x rows, mark_ids_kept ids (mark_row x rows) rows' x)
  | inr other ↦ ground (arith, mark_ids_marks ids (mark_row x rows) rows' id)
]

-- An id that is not asked for has its row as before.
pub mark_ids_others :
    (ids : List ℕ) (rows rows' : List (ℕ × ImageRow)) (id : ℕ)
    → mark_ids ids rows ≡ some rows'
    → contains_id id ids ≡ false
    → find id rows' ≡ find id rows
unfolding mark_ids
mark_ids_others [] rows rows' id h k = ground arith
mark_ids_others (x ∷ ids) rows rows' id h k =
    ground (arith, find-mark_row id x rows, mark_ids_others ids (mark_row x rows) rows' id)

pub all_committed_of :
    (ids : List ℕ) (rows : List (ℕ × ImageRow))
    → ((id : ℕ) → contains_id id ids ≡ true → committed_row (find id rows) ≡ true)
    → all_committed ids rows ≡ true
unfolding all_committed
all_committed_of [] rows h = refl
all_committed_of (x ∷ ids) rows h =
    ground (arith, h x, all_committed_of ids rows (λ id m. h id (ground (arith, m))))

pub all_committed_in :
    (ids : List ℕ) (rows : List (ℕ × ImageRow)) (id : ℕ)
    → all_committed ids rows ≡ true
    → contains_id id ids ≡ true
    → committed_row (find id rows) ≡ true
unfolding all_committed
all_committed_in [] rows id h k = ground arith
all_committed_in (x ∷ ids) rows id h k = ground (arith, all_committed_in ids rows id)

pub all_committed-mark_ids :
    (wanted : List ℕ) (rows rows' : List (ℕ × ImageRow))
    → mark_ids wanted rows ≡ some rows'
    → (ids : List ℕ) → all_committed ids rows ≡ true
    → all_committed ids rows' ≡ true
all_committed-mark_ids wanted rows rows' h ids k =
    all_committed_of ids rows'
      (λ id m. mark_ids_kept wanted rows rows' id h (all_committed_in ids rows id k m))

pub add_ids_left :
    (more ids : List ℕ) (id : ℕ)
    → contains_id id more ≡ true
    → contains_id id (add_ids more ids) ≡ true
add_ids_left [] ids id h = ground arith
add_ids_left (x ∷ more) ids id h = ground (arith, add_ids_left more ids id)

pub add_ids_right :
    (more ids : List ℕ) (id : ℕ)
    → contains_id id ids ≡ true
    → contains_id id (add_ids more ids) ≡ true
add_ids_right [] ids id h = h
add_ids_right (x ∷ more) ids id h = ground (arith, add_ids_right more ids id)
