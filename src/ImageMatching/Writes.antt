-- ===== src/ImageMatching/Writes.antt =====
-- `prepare_match_score_image_writes`: the loop over the matches, and the rows in the order of their
-- keys; and `coerce_image_file_ids`.
use sm_artmatch.Prelude.{
  ℕ, Bool, true, false, ◌||◌, ◌&&◌, Option, String, List, [], ◌∷◌, ◌++◌, map, ltb, if◌then◌else◌,
  Result, ok, ◌>>=◌, ◌==◌,
}
use sm_artmatch.Prelude.Int.{ℤ}
use sm_artmatch.ImageMatching.{
  Error, AcceptedMatch, Source, Entry, Pair, Grouped, coerce_image_file_id, coerce_match,
  linked_pairs, offer_all,
}

-- ImageMatchScoreWrite; its visualization holds the id of the program and the source.
pub record Write (K : Type 0) : Type 0 where
  pub lost_artwork_id : ℕ
  pub auction_artwork_id : ℕ
  pub image_matching_confidence : ℤ
  pub image_final_score : ℤ
  pub image_blocking_similarity : Option ℤ
  pub best_image_file_id : ℕ
  pub matching_program_id : ℕ
  pub best_match : Source K

abbrev member : ℕ → List ℕ → Bool
member x [] = false
member x (y ∷ ys) = let rest = member x ys in if x == y then true else rest

-- The loop of `coerce_image_file_ids`; `seen` holds the ids of the result.
unfoldable pub coerce_image_file_ids :
    (String → String) → (String → Option ℤ) → List String → List ℕ → Result Error (List ℕ)
coerce_image_file_ids strip int [] result = ok result
coerce_image_file_ids strip int (value ∷ values) result = do
  image_file_id ← coerce_image_file_id strip int value
  coerce_image_file_ids strip int values
      (if member image_file_id result then result else result ++ image_file_id ∷ [])

unfoldable pub make_write : {K : Type 0} → ℕ → Pair × Entry K → Write K
make_write program_id ((lost, auction), e) = record {
  lost_artwork_id = lost;
  auction_artwork_id = auction;
  image_matching_confidence = e.confidence;
  image_final_score = e.final_score;
  image_blocking_similarity = e.blocking_score;
  best_image_file_id = e.best_image_file_id;
  matching_program_id = program_id;
  best_match = e.source;
}

-- The order of the texts of two keys.
abbrev pub pair_less : Pair → Pair → Bool
pair_less (lost, auction) (lost', auction') =
    ltb lost lost' || ((lost == lost') && ltb auction auction')

module _ {K : Type 0} where
  unfoldable pub insert_by_pair : Pair × Entry K → Grouped K → Grouped K
  insert_by_pair row [] = row ∷ []
  insert_by_pair row (first ∷ rows) =
      let rest = insert_by_pair row rows in
      if pair_less first.0 row.0 then first ∷ rest else row ∷ first ∷ rows

  unfoldable pub sort_by_pair : Grouped K → Grouped K
  unfolding insert_by_pair
  sort_by_pair [] = []
  sort_by_pair (row ∷ rows) = insert_by_pair row (sort_by_pair rows)

module _ {K : Type 0} (strip : String → String) (int : String → Option ℤ) (times : ℤ → ℤ → ℤ)
    (auction_links lost_links : ℕ → List ℕ) where
  unfoldable pub group_matches : List (AcceptedMatch K) → Grouped K → Result Error (Grouped K)
  unfolding coerce_match linked_pairs offer_all
  group_matches [] grouped = ok grouped
  group_matches (match ∷ matches) grouped = do
    c ← coerce_match strip int times match
    pairs ← linked_pairs auction_links lost_links c
    group_matches matches (offer_all c.entry pairs grouped)

  unfoldable pub prepare_match_score_image_writes :
      ℕ → List (AcceptedMatch K) → Result Error (List (Write K))
  unfolding group_matches make_write sort_by_pair
  prepare_match_score_image_writes program_id accepted_matches = do
    grouped ← group_matches accepted_matches []
    ok (map (make_write program_id) (sort_by_pair grouped))
