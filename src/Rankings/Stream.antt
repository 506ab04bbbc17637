-- ===== src/Rankings/Stream.antt =====
-- The generators of rankings.py: the rows of all parts, and the rankings grouped by auction image.
-- A generator is the list of what it yields and the exception that ends it, if one does.
use sm_artmatch.Prelude.{
  ℕ, Bool, true, false, Option, none, some, String, List, [], ◌∷◌, ◌++◌, leb, if◌then◌else◌, Result,
  ok, err, ◌>>=◌, str_eq, ◌==◌,
}
use sm_artmatch.Rankings.{
  Error, inconsistent_revisions, version_disagrees, not_contiguous, unknown_file_id, RawRow, Part,
  Row, check_columns, coerce_row,
}
use sm_artmatch.Prelude.Dicts.{contains}

pub record Generator (A : Type 0) : Type 0 where
  pub yielded : List A
  pub raised : Option Error

abbrev pub stop : {A : Type 0} → Option Error → Generator A
stop e = record { yielded = []; raised = e }

abbrev pub yield_all : {A : Type 0} → List A → Generator A → Generator A
yield_all xs g = record { yielded = xs ++ g.yielded; raised = g.raised }

pub record Candidate (S : Type 0) : Type 0 where
  pub rank : ℕ
  pub lost_id : String
  pub blocking_score : S

-- LostMatchCandidate
pub record Match (S : Type 0) : Type 0 where
  pub lost_file_id : String
  pub lost_file_path : String
  pub blocking_score : S

-- AuctionMatchCandidates
pub record Item (S : Type 0) : Type 0 where
  pub auction_file_id : String
  pub auction_file_path : String
  pub auction_content_version : Option ℕ
  pub lost_content_revision : Option ℕ
  pub match_candidates : List (Match S)

-- The `current_…` variables of `_iter_rankings`, once an auction image is current.
pub record Group (S : Type 0) : Type 0 where
  pub auction_id : String
  pub auction_version : Option ℕ
  pub lost_revision : Option ℕ
  pub candidates : List (Candidate S)

-- `operation_revision` is none while it is _UNSET_REVISION.
pub record State (S : Type 0) : Type 0 where
  pub current : Option (Group S)
  pub operation_revision : Option (Option ℕ)
  pub seen : List String

pub record Step (S : Type 0) : Type 0 where
  pub yielded : List (Item S)
  pub next : Result Error (State S)

-- `!=` on two optional numbers.
abbrev pub same_number : Option ℕ → Option ℕ → Bool
same_number none none = true
same_number (some a) (some b) = a == b
same_number _ _ = false

abbrev pub same_operation : Option (Option ℕ) → Option ℕ → Bool
same_operation none revision = true
same_operation (some operation) revision = same_number operation revision

-- A dict from file ids to paths.
unfoldable pub lookup_path : (String → Option String) → String → Result Error String
lookup_path paths file_id = elim (paths file_id) [
  | none ↦ err unknown_file_id
  | some path ↦ ok path
]

module _ {S : Type 0} where
  -- `sorted` by rank: candidates of equal rank keep their order.
  unfoldable pub insert_by_rank : Candidate S → List (Candidate S) → List (Candidate S)
  insert_by_rank c [] = c ∷ []
  insert_by_rank c (d ∷ ds) =
      let rest = insert_by_rank c ds in if leb c.rank d.rank then c ∷ d ∷ ds else d ∷ rest

  unfoldable pub sort_by_rank : List (Candidate S) → List (Candidate S)
  unfolding insert_by_rank
  sort_by_rank [] = []
  sort_by_rank (c ∷ cs) = insert_by_rank c (sort_by_rank cs)

  abbrev pub candidate_of : Row S → Candidate S
  candidate_of row = record {
    rank = row.rank;
    lost_id = row.lost_id;
    blocking_score = row.blocking_score;
  }

  abbrev pub group_of : Row S → Group S
  group_of row = record {
    auction_id = row.auction_id;
    auction_version = row.auction_version;
    lost_revision = row.lost_revision;
    candidates = candidate_of row ∷ [];
  }

  abbrev pub append_candidate : Group S → Row S → Group S
  append_candidate g row = record g { candidates = g.candidates ++ candidate_of row ∷ [] }

  abbrev pub initial : State S
  initial = record { current = none; operation_revision = none; seen = [] }

module _ {S : Type 0} (strip : String → String) where
  -- `_iter_ranking_rows` over the rows of one part, and what follows it.
  unfoldable pub part_rows : List String → List (RawRow S) → Generator (Row S) → Generator (Row S)
  part_rows names [] after = after
  part_rows names (raw ∷ raws) after =
      let rest = part_rows names raws after in
      elim (coerce_row strip names raw) [
        | ok row ↦ yield_all (row ∷ []) rest
        | err e ↦ stop (some e)
      ]

  unfoldable pub iter_ranking_rows : List (Part S) → Generator (Row S)
  unfolding part_rows
  iter_ranking_rows [] = stop none
  iter_ranking_rows (part ∷ parts) =
      let rest = iter_ranking_rows parts in
      elim (check_columns part.names) [
        | ok _ ↦ part_rows part.names part.rows rest
        | err e ↦ stop (some e)
      ]

module _ {S : Type 0} (auction_paths lost_paths : String → Option String) where
  unfoldable pub make_matches : List (Candidate S) → Result Error (List (Match S))
  make_matches [] = ok []
  make_matches (c ∷ cs) = do
    path ← lookup_path lost_paths c.lost_id
    rest ← make_matches cs
    ok (
        (record {
          lost_file_id = c.lost_id;
          lost_file_path = path;
          blocking_score = c.blocking_score;
        })
        ∷ rest)

  unfoldable pub make_item : Group S → Result Error (Item S)
  unfolding make_matches
  make_item g = do
    path ← lookup_path auction_paths g.auction_id
    matches ← make_matches (sort_by_rank g.candidates)
    ok (record {
      auction_file_id = g.auction_id;
      auction_file_path = path;
      auction_content_version = g.auction_version;
      lost_content_revision = g.lost_revision;
      match_candidates = matches;
    })

  -- A row of another auction image than the current one: the current one, if any, is yielded.
  unfoldable pub begin : State S → List String → List (Item S) → Row S → Step S
  begin st seen yielded row = record {
    yielded = yielded;
    next =
        if contains row.auction_id seen
        then err not_contiguous
        else ok (record {
          current = some (group_of row);
          operation_revision = some row.lost_revision;
          seen = seen;
        });
  }

  abbrev pub flushed : State S → Group S → Row S → Result Error (Item S) → Step S
  flushed st g row (ok item) = begin st (g.auction_id ∷ st.seen) (item ∷ []) row
  flushed st g row (err e) = record { yielded = []; next = err e }

  unfoldable pub flush : State S → Group S → Row S → Step S
  unfolding begin
  flush st g row = flushed st g row (make_item g)

  unfoldable pub extend : State S → Group S → Row S → Step S
  extend st g row = record {
    yielded = [];
    next =
        if same_number row.auction_version g.auction_version
        then ok (record st {
          current = some (append_candidate g row);
          operation_revision = some row.lost_revision;
        })
        else err version_disagrees;
  }

  abbrev pub on_current : Option (Group S) → State S → Row S → Step S
  on_current none st row = begin st st.seen [] row
  on_current (some g) st row =
      if str_eq row.auction_id g.auction_id then extend st g row else flush st g row

  -- The body of the loop. Past the first test the operation's revision is the row's.
  unfoldable pub step : State S → Row S → Step S
  unfolding begin flush extend
  step st row =
      if same_operation st.operation_revision row.lost_revision
      then on_current st.current st row
      else record { yielded = []; next = err inconsistent_revisions }

  -- What follows the loop.
  abbrev pub last_item : Result Error (Item S) → Generator (Item S)
  last_item (ok item) = record { yielded = item ∷ []; raised = none }
  last_item (err e) = stop (some e)

  unfoldable pub final : Option (Group S) → Generator (Item S)
  final none = stop none
  final (some g) = last_item (make_item g)

  -- Goes on from the state that a step leaves, unless it raises.
  abbrev pub after_step :
      List (Item S) → Result Error (State S) → (State S → Generator (Item S)) → Generator (Item S)
  after_step items (ok st) rest = yield_all items (rest st)
  after_step items (err e) rest = record { yielded = items; raised = some e }

  -- The loop over the rows; `failure` is the exception that ends the rows, if one does.
  unfoldable pub loop : State S → List (Row S) → Option Error → Generator (Item S)
  unfolding step final
  loop st [] (some e) = stop (some e)
  loop st [] none = final st.current
  loop st (row ∷ rows) failure =
      after_step (step st row).yielded (step st row).next (λ st'. loop st' rows failure)

  unfoldable pub iter_rankings : Generator (Row S) → Generator (Item S)
  unfolding loop
  iter_rankings rows = loop initial rows.yielded rows.raised
