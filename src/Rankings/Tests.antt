-- ===== src/Rankings/Tests.antt =====
-- Two small ranking artifacts, and the theorems applied to them.
use mathlib.Core.List.{Memᴰ}
use sm_artmatch.Prelude.{
  ℕ, ◌≡◌, refl, Option, some, none, String, List, [], ◌∷◌, str_eq, if◌then◌else◌,
}
use sm_artmatch.Prelude.Int.{pos}
use sm_artmatch.Rankings.{
  RawRow, Part, Row, unknown_file_id, not_contiguous, coerce_row, check_columns,
}
use sm_artmatch.Rankings.Stream.{
  Generator, Item, make_item, lookup_path, sort_by_rank, iter_ranking_rows, iter_rankings,
}
use sm_artmatch.Rankings.Items.{AreItems}
use sm_artmatch.Rankings.Groups.{arrived, groups, iter_rankings-groups}
use sm_artmatch.Rankings.Agreement.{ids, Distinct, RowOf, iter_rankings-agree}
use sm_artmatch.Rankings.Load.{load_rankings, Cut, rankings, load_rankings_all, load_rankings-Cut}

-- Ids without spaces at their ends: stripping one changes nothing.
abbrev strip : String → String
strip text = text

abbrev auction_paths : String → Option String
auction_paths file_id = some "auction.jpg"

abbrev lost_paths : String → Option String
lost_paths file_id = if str_eq file_id "gone" then none else some "lost.jpg"

abbrev row : String → String → ℕ → Row ℕ
row auction_id lost_id rank = record {
  auction_id = auction_id;
  auction_version = some 1;
  lost_revision = some 7;
  lost_id = lost_id;
  rank = rank;
  blocking_score = 90;
}

abbrev rows : List (Row ℕ)
rows = row "a" "x" 2 ∷ row "a" "y" 1 ∷ row "b" "x" 1 ∷ []

abbrev run : Generator (Item ℕ)
run = iter_rankings auction_paths lost_paths (arrived rows)

complete : run.raised ≡ none
unfolding iter_rankings make_item lookup_path sort_by_rank
complete = refl

names_two_images : ids run.yielded ≡ "a" ∷ "b" ∷ []
unfolding iter_rankings make_item lookup_path sort_by_rank
names_two_images = refl

refuses_split_image :
    (iter_rankings auction_paths lost_paths
      (arrived (row "a" "x" 1 ∷ row "b" "x" 1 ∷ row "a" "y" 2 ∷ []))).raised
    ≡ some not_contiguous
unfolding iter_rankings make_item lookup_path sort_by_rank
refuses_split_image = refl

iter_rankings-groups_example : AreItems auction_paths lost_paths (groups rows) run.yielded
iter_rankings-groups_example = iter_rankings-groups auction_paths lost_paths rows complete

iter_rankings-agree_example :
    Distinct (ids run.yielded)
    × ((r : Row ℕ)
        → Memᴰ r rows
        → (item : Item ℕ) × Memᴰ item run.yielded × RowOf auction_paths lost_paths r item)
iter_rankings-agree_example = iter_rankings-agree auction_paths lost_paths rows complete

abbrev raw : String → String → ℕ → RawRow ℕ
raw auction_id lost_id rank = record {
  auction_file_id = some auction_id;
  auction_content_version = some (pos 1);
  lost_content_revision = none;
  lost_file_id = some lost_id;
  rank = some (pos rank);
  blocking_score = some 90;
}

abbrev part : List (RawRow ℕ) → Part ℕ
part raws = record {
  names = "auction_file_id" ∷ "lost_file_id" ∷ "rank" ∷ "blocking_score" ∷ [];
  rows = raws;
}

abbrev parts : List (Part ℕ)
parts = part (raw "a" "x" 1 ∷ []) ∷ part (raw "a" "y" 2 ∷ raw "b" "x" 1 ∷ []) ∷ []

-- The last lost image has no file.
abbrev broken_parts : List (Part ℕ)
broken_parts = part (raw "a" "x" 1 ∷ raw "b" "x" 1 ∷ raw "c" "x" 1 ∷ raw "d" "gone" 1 ∷ []) ∷ []

parts_complete : (rankings strip auction_paths lost_paths 1 parts).raised ≡ none
unfolding iter_rankings iter_ranking_rows coerce_row check_columns make_item lookup_path
    sort_by_rank
parts_complete = refl

broken_parts_raise :
    (rankings strip auction_paths lost_paths 1 broken_parts).raised ≡ some unknown_file_id
unfolding iter_rankings iter_ranking_rows coerce_row check_columns make_item lookup_path
    sort_by_rank
broken_parts_raise = refl

-- Batches of two: the third item is lost with the exception.
hands_on_two :
    ids (load_rankings strip auction_paths lost_paths (pos 2) (some broken_parts)).yielded
    ≡ "a" ∷ "b" ∷ []
unfolding load_rankings iter_rankings iter_ranking_rows coerce_row check_columns make_item
    lookup_path sort_by_rank
hands_on_two = refl

load_rankings_all_example :
    load_rankings strip auction_paths lost_paths (pos 2) (some parts)
    ≡ rankings strip auction_paths lost_paths 1 parts
load_rankings_all_example = load_rankings_all strip auction_paths lost_paths 1 parts parts_complete

load_rankings-Cut_example :
    Cut 2
      (rankings strip auction_paths lost_paths 1 broken_parts).yielded
      unknown_file_id
      (load_rankings strip auction_paths lost_paths (pos 2) (some broken_parts))
load_rankings-Cut_example =
    load_rankings-Cut strip auction_paths lost_paths 1 broken_parts unknown_file_id
      broken_parts_raise
