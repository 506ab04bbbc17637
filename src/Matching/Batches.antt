-- ===== src/Matching/Batches.antt =====
-- metadata_matcher.py, `process_one_auction` and the batches of `match_metadata`: what is committed to
-- the database, in order. Each `bulk_insert` and each `bulk_mark_auction_processed` is one commit.
-- A batch is its auction rows in the order in which the workers complete them, and the pairs that
-- `fetch_existing_pairs` has read for it; the lost rows are read once. Timing and the counters of the
-- log lines are left out.
pub mod Safety
pub mod Pairs
use sm_artmatch.Prelude.{
  ℕ, ◌+◌, Bool, true, false, ◌&&◌, ◌||◌, Option, List, [], ◌∷◌, ◌++◌, map, leb, length, ◌==◌,
  if◌then◌else◌,
}
use sm_artmatch.Matching.{
  Floats, Measures, LostRow, AuctionRow, Lost, Auction, PairScore, prepare_lost_row,
  prepare_auction_row, calculate_pair_score,
}

-- A row of match_score, less the id of the matching program, which is the same in all.
pub record Row (F : Type 0) : Type 0 where
  pub lost_id : ℕ
  pub auction_id : ℕ
  pub title_sim : Option F
  pub artist_sim : Option F
  pub dating_sim : Option F
  pub dimensions_sim : Option F
  pub material_sim : Option F
  pub technique_sim : Option F
  pub metadata_final_score : F
  pub metadata_confidence_score : F

pub record Outcome (F : Type 0) : Type 0 where
  pub auction_id : ℕ
  pub rows_to_insert : List (Row F)
  pub skipped_rows : ℕ
  pub processed_pairs : ℕ

pub data Commit (F : Type 0) : Type 0 where
  insert : List (Row F) → Commit F
  mark : List ℕ → Commit F

pub record Batch (F : Type 0) : Type 0 where
  pub existing_pairs : List (ℕ × ℕ)
  pub completed : List (AuctionRow F)

abbrev pub pair_exists : ℕ → ℕ → List (ℕ × ℕ) → Bool
pair_exists lost_id auction_id [] = false
pair_exists lost_id auction_id ((l, a) ∷ pairs) =
    let rest = pair_exists lost_id auction_id pairs in
    if (l == lost_id) && (a == auction_id) then true else rest

abbrev pub batch_size : ℕ
batch_size = 16

unfoldable pub row_of : {F : Type 0} → ℕ → ℕ → PairScore F → Row F
row_of lost_id auction_id p = record {
  lost_id = lost_id;
  auction_id = auction_id;
  title_sim = p.scores.title.sim;
  artist_sim = p.scores.artist.sim;
  dating_sim = p.scores.dating.sim;
  dimensions_sim = p.scores.dimensions.sim;
  material_sim = p.scores.material.sim;
  technique_sim = p.scores.technique.sim;
  metadata_final_score = p.final_score;
  metadata_confidence_score = p.confidence_score;
}

module _ {F : Type 0} (fl : Floats F) (ms : Measures F) (max_len : ℕ) where
  -- Whether a pair's row is inserted, and the row.
  abbrev pub is_inserted : List (ℕ × ℕ) → Auction F → Lost F → Bool
  is_inserted existing_pairs auc lost =
      (calculate_pair_score fl ms max_len lost auc).valid_match
      || pair_exists lost.lost_id auc.auction_id existing_pairs

  abbrev pub pair_row : Auction F → Lost F → Row F
  pair_row auc lost =
      row_of lost.lost_id auc.auction_id (calculate_pair_score fl ms max_len lost auc)

  unfoldable pub process_pairs : List (ℕ × ℕ) → Auction F → List (Lost F) → Outcome F
  process_pairs existing_pairs auc [] = record {
    auction_id = auc.auction_id;
    rows_to_insert = [];
    skipped_rows = 0;
    processed_pairs = 0;
  }
  process_pairs existing_pairs auc (lost ∷ losts) =
      let rest = process_pairs existing_pairs auc losts in
      if is_inserted existing_pairs auc lost
      then (record rest {
        rows_to_insert = pair_row auc lost ∷ rest.rows_to_insert;
        processed_pairs = rest.processed_pairs + 1;
      })
      else (record rest {
        skipped_rows = rest.skipped_rows + 1;
        processed_pairs = rest.processed_pairs + 1;
      })

  unfoldable pub process_one_auction : AuctionRow F → List (Lost F) → List (ℕ × ℕ) → Outcome F
  unfolding process_pairs
  process_one_auction auc_row prepared_lost_rows existing_pairs =
      process_pairs existing_pairs (prepare_auction_row fl ms auc_row) prepared_lost_rows

abbrev pub insert_rows : {F : Type 0} → List (Row F) → List (Commit F)
insert_rows [] = []
insert_rows (row ∷ rows) = insert (row ∷ rows) ∷ []

abbrev pub mark_processed : {F : Type 0} → List ℕ → List (Commit F)
mark_processed [] = []
mark_processed (id ∷ ids) = mark (id ∷ ids) ∷ []

-- The loop over the completed futures, with the buffer that it fills.
unfoldable pub collect : {F : Type 0} → List (Row F) → List (Outcome F) → List (Commit F)
collect rows_buffer [] = insert_rows rows_buffer
collect rows_buffer (o ∷ os) =
    let rows = rows_buffer ++ o.rows_to_insert in
    let flushed = insert_rows rows ++ collect [] os in
    let kept = collect rows os in if leb batch_size (length rows) then flushed else kept

module _ {F : Type 0} (fl : Floats F) (ms : Measures F) (max_len : ℕ) where
  abbrev pub outcomes : List (Lost F) → Batch F → List (Outcome F)
  outcomes losts b =
      map (λ auc. process_one_auction fl ms max_len auc losts b.existing_pairs) b.completed

  unfoldable pub batch_commits : List (Lost F) → Batch F → List (Commit F)
  unfolding collect
  batch_commits losts b =
      collect [] (outcomes losts b)
      ++ mark_processed (map (λ (o : Outcome F). o.auction_id) (outcomes losts b))

  unfoldable pub all_commits : List (Lost F) → List (Batch F) → List (Commit F)
  unfolding batch_commits
  all_commits losts [] = []
  all_commits losts (b ∷ bs) = batch_commits losts b ++ all_commits losts bs

  -- The commits of a run, which ends when no auction row is left.
  unfoldable pub match_metadata : List (LostRow F) → List (Batch F) → List (Commit F)
  unfolding all_commits
  match_metadata lost_rows batches = all_commits (map (prepare_lost_row fl ms) lost_rows) batches
