-- ===== src/Matching/Batches/Pairs.antt =====
-- About `process_one_auction`: which pairs get a row, and what the row holds.
use mathlib.Core.List.{Memᴰ}
use sm_artmatch.Prelude.{
  ℕ, ◌+◌, ◌≡◌, refl, ap, true, Bool-cases, inl, inr, ◌⊎◌, List, [], ◌∷◌, arith, length, ◌==◌, ◌&&◌,
}
use sm_artmatch.Matching.{
  Floats, Measures, AuctionRow, Lost, Auction, calculate_pair_score, prepare_auction_row,
}
use sm_artmatch.Matching.Batches.{
  Row, pair_exists, row_of, is_inserted, process_pairs, process_one_auction,
}

pair_exists_sound :
    (lost_id auction_id : ℕ) (pairs : List (ℕ × ℕ))
    → pair_exists lost_id auction_id pairs ≡ true
    → Memᴰ (lost_id, auction_id) pairs
pair_exists_sound lost_id auction_id [] h = absurd cc
pair_exists_sound lost_id auction_id ((l, a) ∷ pairs) h =
    elim (Bool-cases ((l == lost_id) && (a == auction_id))) [
      | inl here ↦
          let e : lost_id ≡ l = ground arith in
          let k : auction_id ≡ a = ground arith in Memᴰ.head (cc (e, k))
      | inr other ↦ Memᴰ.tail (pair_exists_sound lost_id auction_id pairs (rw other at h))
    ]

pair_exists-Memᴰ :
    (lost_id auction_id : ℕ) (pairs : List (ℕ × ℕ))
    → Memᴰ (lost_id, auction_id) pairs
    → pair_exists lost_id auction_id pairs ≡ true
pair_exists-Memᴰ lost_id auction_id [] m = elim m [ ]
pair_exists-Memᴰ lost_id auction_id ((l, a) ∷ pairs) (Memᴰ.head e) =
    let h : lost_id ≡ l = ap (λ (p : ℕ × ℕ). p.0) e in
    let k : auction_id ≡ a = ap (λ (p : ℕ × ℕ). p.1) e in ground arith
pair_exists-Memᴰ lost_id auction_id ((l, a) ∷ pairs) (Memᴰ.tail m) =
    ground (arith, pair_exists-Memᴰ lost_id auction_id pairs m)

module _ {F : Type 0} (fl : Floats F) (ms : Measures F) (max_len : ℕ) (existing : List (ℕ × ℕ))
    (auc : Auction F) where
  -- The pair is a valid match, or has an image match already.
  abbrev pub Wanted : Lost F → Type 0
  Wanted lost =
      ((calculate_pair_score fl ms max_len lost auc).valid_match ≡ true)
      ⊎ Memᴰ (lost.lost_id, auc.auction_id) existing

  -- The row holds the ids of the pair, and its similarities and scores.
  abbrev pub expected : Lost F → Row F
  expected lost =
      let p = calculate_pair_score fl ms max_len lost auc in
      record {
        lost_id = lost.lost_id;
        auction_id = auc.auction_id;
        title_sim = p.scores.title.sim;
        artist_sim = p.scores.artist.sim;
        dating_sim = p.scores.dating.sim;
        dimensions_sim = p.scores.dimensions.sim;
        material_sim = p.scores.material.sim;
        technique_sim = p.scores.technique.sim;
        metadata_final_score = p.final_score;
        metadata_confidence_score = p.confidence_score;
      }

  -- The rows of the wanted pairs, in order, and the number of the others.
  pub data Selects : List (Lost F) → List (Row F) → ℕ → Type 0 where
    finished : Selects [] [] 0
    keep :
        {lost : Lost F} {losts : List (Lost F)} {rows : List (Row F)} {skipped : ℕ}
        → Wanted lost
        → Selects losts rows skipped
        → Selects (lost ∷ losts) (expected lost ∷ rows) skipped
    skip :
        {lost : Lost F} {losts : List (Lost F)} {rows : List (Row F)} {skipped : ℕ}
        → ¬ Wanted lost
        → Selects losts rows skipped
        → Selects (lost ∷ losts) rows (skipped + 1)

  is_inserted-Wanted :
      (lost : Lost F) → is_inserted fl ms max_len existing auc lost ≡ true → Wanted lost
  is_inserted-Wanted lost h =
      elim (Bool-cases (calculate_pair_score fl ms max_len lost auc).valid_match) [
        | inl valid ↦ inl valid
        | inr invalid ↦
            inr (pair_exists_sound lost.lost_id auc.auction_id existing (rw invalid at h))
      ]

  Wanted-is_inserted :
      (lost : Lost F) → Wanted lost → is_inserted fl ms max_len existing auc lost ≡ true
  Wanted-is_inserted lost (inl valid) = rw valid refl
  Wanted-is_inserted lost (inr listed) =
      let e = pair_exists-Memᴰ lost.lost_id auc.auction_id existing listed in
      elim (Bool-cases (calculate_pair_score fl ms max_len lost auc).valid_match) [
        | inl valid ↦ rw valid refl
        | inr invalid ↦ rw invalid e
      ]

  process_pairs-Selects :
      (losts : List (Lost F))
      → let o = process_pairs fl ms max_len existing auc losts in
        Selects losts o.rows_to_insert o.skipped_rows × (o.processed_pairs ≡ length losts)
  unfolding process_pairs row_of
  process_pairs-Selects [] = (finished, refl)
  process_pairs-Selects (lost ∷ losts) =
      let (rest, processed) = process_pairs-Selects losts in
      elim (Bool-cases (is_inserted fl ms max_len existing auc lost)) [
        | inl kept ↦ rw kept (keep (is_inserted-Wanted lost kept) rest, omega (arith, processed))
        | inr skipped ↦ rw skipped (
          skip (λ wanted. let k = Wanted-is_inserted lost wanted in absurd cc) rest,
          omega (arith, processed),
        )
      ]

-- An auction artwork gets one row for each lost artwork with which it is a valid match or has an
-- image match already, in the order of the lost artworks, and for no other; the row has the ids, the
-- similarities and the scores of the pair. All lost artworks are processed, and those without a row
-- are counted as skipped.
pub process_one_auction-rows :
    {F : Type 0} (fl : Floats F) (ms : Measures F) (max_len : ℕ) (existing : List (ℕ × ℕ))
    (auc_row : AuctionRow F) (losts : List (Lost F))
    → let o = process_one_auction fl ms max_len auc_row losts existing in
      Selects fl ms max_len existing
        (prepare_auction_row fl ms auc_row)
        losts
        o.rows_to_insert
        o.skipped_rows
      × (o.processed_pairs ≡ length losts)
unfolding process_one_auction
process_one_auction-rows fl ms max_len existing auc_row losts =
    process_pairs-Selects fl ms max_len existing (prepare_auction_row fl ms auc_row) losts
