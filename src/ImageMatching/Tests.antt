-- ===== src/ImageMatching/Tests.antt =====
-- Two matches of one pair of artworks, and the theorems applied to them.
use mathlib.Core.List.{Memᴰ}
use sm_artmatch.Prelude.{
  ℕ, ◌≡◌, refl, false, Option, none, some, String, List, [], ◌∷◌, ok, err, ◌+◌, str_eq,
  if◌then◌else◌,
}
use sm_artmatch.Prelude.Int.{ℤ, pos}
use sm_artmatch.ImageMatching.{
  AcceptedMatch, Entry, Coerced, Pair, one, coerce_match, image_final_score, linked_pairs,
  is_better, no_link,
}
use sm_artmatch.ImageMatching.Writes.{Write, make_write, prepare_match_score_image_writes}
use sm_artmatch.ImageMatching.Origin.{Origin}
use sm_artmatch.ImageMatching.Best.{prepare_match_score_image_writes-best}

abbrev strip : String → String
strip text = text

-- The ids of the example are all 5 or 6.
abbrev int : String → Option ℤ
int text = if str_eq text "5" then some (pos 5) else some (pos 6)

-- A product with 1.0 is the other factor.
abbrev times : ℤ → ℤ → ℤ
times a b = a

abbrev links : ℕ → List ℕ
links image_file_id = (image_file_id + 100) ∷ []

abbrev match : ℕ → AcceptedMatch ℕ
match confidence = record {
  auction_file_id = "5";
  auction_file_path = "auction.jpg";
  lost_file_id = "6";
  lost_file_path = "lost.jpg";
  confidence = pos confidence;
  blocking_score = some one;
  keypoint_matches = none;
}

abbrev entry : ℕ → Entry ℕ
entry confidence = record {
  confidence = pos confidence;
  final_score = pos confidence;
  blocking_score = some one;
  best_image_file_id = 5;
  source = record {
    auction_image_file_id = 5;
    auction_file_path = "auction.jpg";
    lost_image_file_id = 6;
    lost_file_path = "lost.jpg";
    image_matching_confidence = pos confidence;
    image_blocking_similarity = some one;
    image_final_score = pos confidence;
    keypoint_matches = none;
  };
}

abbrev coerced : ℕ → Coerced ℕ
coerced confidence = record { auction_file_id = 5; lost_file_id = 6; entry = entry confidence }

abbrev matches : List (AcceptedMatch ℕ)
matches = match 40 ∷ match 70 ∷ match 50 ∷ []

abbrev pair : Pair
pair = (106, 105)

abbrev writes : List (Write ℕ)
writes = make_write 1 (pair, entry 70) ∷ []

keeps_best : prepare_match_score_image_writes strip int times links links 1 matches ≡ ok writes
unfolding prepare_match_score_image_writes coerce_match image_final_score linked_pairs
keeps_best = refl

misses_link :
    prepare_match_score_image_writes strip int times links (λ image_file_id. []) 1 matches
    ≡ err no_link
unfolding prepare_match_score_image_writes coerce_match image_final_score linked_pairs
misses_link = refl

prepare_match_score_image_writes-best_example :
    (e : Entry ℕ) × Memᴰ (make_write 1 (pair, e)) writes × (is_better (entry 40) e ≡ false)
unfolding coerce_match image_final_score linked_pairs
prepare_match_score_image_writes-best_example =
    prepare_match_score_image_writes-best strip int times links links 1 matches writes (match 40)
      (coerced 40) (pair ∷ []) pair keeps_best (Memᴰ.head refl) refl refl (Memᴰ.head refl)
