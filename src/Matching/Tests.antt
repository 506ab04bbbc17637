-- ===== src/Matching/Tests.antt =====
-- Runs of the main matcher, with floats as whole hundredths.
use mathlib.Core.List.{Memᴰ}
use sm_artmatch.Prelude.{
  ℕ, ◌≡◌, refl, Option, none, some, String, List, [], ◌∷◌, ◌++◌, map, arith, length, if◌then◌else◌,
  str_eq,
}
use sm_artmatch.Matching.{
  Measures, LostRow, AuctionRow, Lost, Auction, prepare_lost_row, prepare_auction_row, safe_text,
  calculate_pair_score,
}
use sm_artmatch.Matching.Percent.{percent, percent-IsMonotone}
use sm_artmatch.Matching.Laws.{IsMeasured, MaybeInUnit}
use sm_artmatch.Matching.Range.{Ranged, calculate_pair_score-range}
use sm_artmatch.Matching.Batches.{
  Commit, insert, mark, Batch, pair_row, process_one_auction, match_metadata,
}
use sm_artmatch.Matching.Batches.Pairs.{Selects, process_one_auction-rows}
use sm_artmatch.Matching.Batches.Safety.{
  inserted, batch_rows, IsStored, match_metadata-inserted, match_metadata-IsStored,
}

abbrev compare_titles : Option String → Option String → Option ℕ
compare_titles (some a) (some b) = some (if str_eq a b then 100 else 20)
compare_titles _ _ = none

abbrev measures : Measures ℕ
measures = record {
  artist_sim = λ name artist. compare_titles (some name) artist;
  artist_conf = λ names artist. 90;
  title_sim = compare_titles;
  title_conf = λ lost auction. 80;
  dict_sim = λ a b c d. (none, some 50);
  dict_conf = λ a b c d. (0, 40);
  dating_sim = λ a b c d. none;
  dating_conf = λ a b c d. 0;
  dimensions_sim = λ a b c d. some 100;
  dimensions_conf = λ a b. 60;
  score_dimensions = λ width height. 60;
}

compare_titles-InUnit : (a b : Option String) → MaybeInUnit percent (compare_titles a b)
compare_titles-InUnit (some a) (some b) = ground arith
compare_titles-InUnit (some a) none = tt
compare_titles-InUnit none b = tt

measures-IsMeasured : IsMeasured percent measures
measures-IsMeasured = record {
  artist_sim = λ a b. compare_titles-InUnit (some a) b;
  artist_conf = λ a b. (refl, refl);
  title_sim = compare_titles-InUnit;
  title_conf = λ a b. (refl, refl);
  dict_sim = λ a b c d. (tt, (refl, refl));
  dict_conf = λ a b c d. ((refl, refl), (refl, refl));
  dating_sim = λ a b c d. tt;
  dating_conf = λ a b c d. (refl, refl);
  dimensions_sim = λ a b c d. (refl, refl);
  dimensions_conf = λ a b h k. (refl, refl);
  score_dimensions = λ width height. (refl, refl);
}

abbrev lost_row : ℕ → String → LostRow ℕ
lost_row id title = record {
  lost_id = id;
  title = some title;
  dict_material_name = none;
  dict_technique_name = none;
  width = some 40;
  height = some 30;
  dating_start = none;
  dating_end = none;
  artist_complete_names = some ("Klee" ∷ "Marc" ∷ []);
}

abbrev auction_row : ℕ → String → AuctionRow ℕ
auction_row id title = record {
  auction_id = id;
  artist = some "Marc";
  title = some title;
  dict_material_name = none;
  dict_technique_name = none;
  width = some 40;
  height = some 30;
  dating_start = none;
  dating_end = none;
}

abbrev lost : Lost ℕ
lost = prepare_lost_row percent measures (lost_row 1 "Horses")

abbrev auction : Auction ℕ
auction = prepare_auction_row percent measures (auction_row 7 "Horses")

matches_titles : (calculate_pair_score percent measures 100 lost auction).final_score ≡ 96
unfolding calculate_pair_score prepare_lost_row prepare_auction_row safe_text
matches_titles = refl

calculate_pair_score-range_example :
    Ranged percent measures percent-IsMonotone measures-IsMeasured
      (calculate_pair_score percent measures 100 lost auction)
calculate_pair_score-range_example =
    calculate_pair_score-range percent measures percent-IsMonotone measures-IsMeasured 100
      (lost_row 1 "Horses") (auction_row 7 "Horses")

process_one_auction-rows_example :
    let o = process_one_auction percent measures 100 (auction_row 7 "Horses") (lost ∷ []) [] in
    Selects percent measures 100 [] auction (lost ∷ []) o.rows_to_insert o.skipped_rows
    × (o.processed_pairs ≡ length (lost ∷ []))
process_one_auction-rows_example =
    process_one_auction-rows percent measures 100 [] (auction_row 7 "Horses") (lost ∷ [])

abbrev batches : List (Batch ℕ)
batches = record { existing_pairs = []; completed = auction_row 7 "Horses" ∷ [] } ∷ []

abbrev run : List (Commit ℕ)
run = match_metadata percent measures 100 (lost_row 1 "Horses" ∷ lost_row 2 "Dogs" ∷ []) batches

abbrev first_insert : Commit ℕ
first_insert = insert (pair_row percent measures 100 auction lost ∷ [])

runs_batch : run ≡ first_insert ∷ [] ++ mark (7 ∷ []) ∷ []
unfolding match_metadata process_one_auction calculate_pair_score prepare_lost_row
    prepare_auction_row safe_text
runs_batch = refl

match_metadata-inserted_example :
    inserted run
    ≡ batch_rows percent measures 100
        (map (prepare_lost_row percent measures) (lost_row 1 "Horses" ∷ lost_row 2 "Dogs" ∷ []))
        batches
match_metadata-inserted_example =
    match_metadata-inserted percent measures 100 (lost_row 1 "Horses" ∷ lost_row 2 "Dogs" ∷ [])
      batches

match_metadata-IsStored_example :
    IsStored percent measures 100
      (map (prepare_lost_row percent measures) (lost_row 1 "Horses" ∷ lost_row 2 "Dogs" ∷ []))
      batches
      (inserted (first_insert ∷ []))
      7
match_metadata-IsStored_example =
    match_metadata-IsStored percent measures 100 (lost_row 1 "Horses" ∷ lost_row 2 "Dogs" ∷ [])
      batches (first_insert ∷ []) [] (7 ∷ []) runs_batch 7 (Memᴰ.head refl)
