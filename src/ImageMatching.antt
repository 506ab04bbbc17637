-- ===== src/ImageMatching.antt =====
-- matching_pipeline/image_matching/result_rows.py: the accepted image matches become one row for
-- each pair of a lost and an auction artwork. A UUID is its 128-bit number, which orders as its text
-- does. A float other than NaN is the integer that has its sign and, as magnitude, its other bits:
-- it orders as the float does. Python's `str.strip`, `int` of a text and the product of two floats
-- are arguments, as is the type `K` of the keypoint matches, which are passed on.
pub mod Writes
pub mod Offers
pub mod Best
pub mod Origin
mod Tests
use sm_artmatch.Prelude.{
  ℕ, zero, suc, ◌+◌, Bool, true, false, not, ◌&&◌, ◌||◌, Option, none, some, String, List, [], ◌∷◌,
  ◌++◌, map, ltb, if◌then◌else◌, Result, ok, err, ◌>>=◌, str_eq, ◌==◌,
}
use sm_artmatch.Prelude.Int.{ℤ, pos, negsuc, ltb_ℤ}

pub data Error : Type 0 where
  missing_id id_not_integer id_not_positive : Error
  score_out_of_range blocking_out_of_range no_link : Error

pub record AcceptedMatch (K : Type 0) : Type 0 where
  pub auction_file_id : String
  pub auction_file_path : String
  pub lost_file_id : String
  pub lost_file_path : String
  pub confidence : ℤ
  pub blocking_score : Option ℤ
  pub keypoint_matches : Option K

-- What `_source_match` returns; without keypoint matches their key is missing.
pub record Source (K : Type 0) : Type 0 where
  pub auction_image_file_id : ℕ
  pub auction_file_path : String
  pub lost_image_file_id : ℕ
  pub lost_file_path : String
  pub image_matching_confidence : ℤ
  pub image_blocking_similarity : Option ℤ
  pub image_final_score : ℤ
  pub keypoint_matches : Option K

-- A value of `grouped`.
pub record Entry (K : Type 0) : Type 0 where
  pub confidence : ℤ
  pub final_score : ℤ
  pub blocking_score : Option ℤ
  pub best_image_file_id : ℕ
  pub source : Source K

-- A match with its ids and scores coerced: the entry that it offers.
pub record Coerced (K : Type 0) : Type 0 where
  pub auction_file_id : ℕ
  pub lost_file_id : ℕ
  pub entry : Entry K

-- The bits of 1.0.
abbrev pub one : ℤ
one = pos 4607182418800017408

abbrev pub minus_one : ℤ
minus_one = negsuc 4607182418800017407

-- A key (lost_artwork_id, auction_artwork_id) of `grouped`, and `grouped` itself.
abbrev pub Pair : Type 0
Pair = ℕ × ℕ

abbrev pub Grouped : Type 0 → Type 0
Grouped K = List (Pair × Entry K)

abbrev pub same_pair : Pair → Pair → Bool
same_pair (lost, auction) (lost', auction') = (lost == lost') && (auction == auction')

abbrev positive_id : Option ℤ → Result Error ℕ
positive_id none = err id_not_integer
positive_id (some (pos zero)) = err id_not_positive
positive_id (some (pos (suc n))) = ok (suc n)
positive_id (some (negsuc n)) = err id_not_positive

unfoldable pub coerce_image_file_id :
    (String → String) → (String → Option ℤ) → String → Result Error ℕ
coerce_image_file_id strip int value =
    let text = strip value in if str_eq text "" then err missing_id else positive_id (int text)

unfoldable pub coerce_score : ℤ → Result Error ℤ
coerce_score score =
    if ltb_ℤ score (pos 0) || ltb_ℤ one score then err score_out_of_range else ok score

unfoldable pub coerce_blocking_score : Option ℤ → Result Error (Option ℤ)
coerce_blocking_score none = ok none
coerce_blocking_score (some score) =
    if ltb_ℤ score minus_one || ltb_ℤ one score then err blocking_out_of_range else ok (some score)

unfoldable pub image_final_score : (ℤ → ℤ → ℤ) → ℤ → Option ℤ → ℤ
image_final_score times confidence none = confidence
image_final_score times confidence (some blocking_score) = times confidence blocking_score

-- The last test of `_is_better`, on the blocking scores: a missing one is the worst.
unfoldable pub blocking_better : Option ℤ → Option ℤ → Bool
blocking_better none none = false
blocking_better (some b) none = true
blocking_better none (some current) = false
blocking_better (some b) (some current) = ltb_ℤ current b

-- `a != b` is that one of them is less.
unfoldable pub is_better : {K : Type 0} → Entry K → Entry K → Bool
unfolding blocking_better
is_better e current =
    if ltb_ℤ current.final_score e.final_score
    then true
    else if ltb_ℤ e.final_score current.final_score
    then false
    else if ltb_ℤ current.confidence e.confidence
    then true
    else if ltb_ℤ e.confidence current.confidence
    then false
    else blocking_better e.blocking_score current.blocking_score

module _ {K : Type 0} where
  unfoldable pub entry_at : Pair → Grouped K → Option (Entry K)
  entry_at pair [] = none
  entry_at pair ((key, entry) ∷ grouped) =
      let rest = entry_at pair grouped in if same_pair key pair then some entry else rest

  unfoldable pub assign : Pair → Entry K → Grouped K → Grouped K
  assign pair entry [] = (pair, entry) ∷ []
  assign pair entry ((key, old) ∷ grouped) =
      let rest = assign pair entry grouped in
      if same_pair key pair then (key, entry) ∷ grouped else (key, old) ∷ rest

  -- `if current is None or _is_better(…)`
  abbrev pub challenge : Option (Entry K) → Entry K → Pair → Grouped K → Grouped K
  challenge none entry pair grouped = assign pair entry grouped
  challenge (some current) entry pair grouped =
      if is_better entry current then assign pair entry grouped else grouped

  unfoldable pub offer : Entry K → Pair → Grouped K → Grouped K
  unfolding entry_at assign is_better
  offer entry pair grouped = challenge (entry_at pair grouped) entry pair grouped

  unfoldable pub offer_all : Entry K → List Pair → Grouped K → Grouped K
  unfolding offer
  offer_all entry [] grouped = grouped
  offer_all entry (pair ∷ pairs) grouped = offer_all entry pairs (offer entry pair grouped)

-- The links of an image to artworks: a dict that gives an empty sequence for a missing key.
unfoldable pub required_links : (ℕ → List ℕ) → ℕ → Result Error (List ℕ)
required_links links image_file_id = elim (links image_file_id) [
  | [] ↦ err no_link
  | link ∷ rest ↦ ok (link ∷ rest)
]

-- The keys of the two nested loops, in their order.
unfoldable pub pairs_of : List ℕ → List ℕ → List Pair
pairs_of [] lost_ids = []
pairs_of (auction_id ∷ auction_ids) lost_ids =
    map (λ lost_id. (lost_id, auction_id)) lost_ids ++ pairs_of auction_ids lost_ids

module _ {K : Type 0} (strip : String → String) (int : String → Option ℤ) (times : ℤ → ℤ → ℤ) where
  unfoldable pub coerce_match : AcceptedMatch K → Result Error (Coerced K)
  unfolding coerce_image_file_id coerce_score coerce_blocking_score
  coerce_match match = do
    auction_file_id ← coerce_image_file_id strip int match.auction_file_id
    lost_file_id ← coerce_image_file_id strip int match.lost_file_id
    confidence ← coerce_score match.confidence
    blocking_score ← coerce_blocking_score match.blocking_score
    let final_score = image_final_score times confidence blocking_score
    ok (record {
      auction_file_id = auction_file_id;
      lost_file_id = lost_file_id;
      entry = record {
        confidence = confidence;
        final_score = final_score;
        blocking_score = blocking_score;
        best_image_file_id = auction_file_id;
        source = record {
          auction_image_file_id = auction_file_id;
          auction_file_path = match.auction_file_path;
          lost_image_file_id = lost_file_id;
          lost_file_path = match.lost_file_path;
          image_matching_confidence = confidence;
          image_blocking_similarity = blocking_score;
          image_final_score = final_score;
          keypoint_matches = match.keypoint_matches;
        };
      };
    })

module _ {K : Type 0} (auction_links lost_links : ℕ → List ℕ) where
  unfoldable pub linked_pairs : Coerced K → Result Error (List Pair)
  unfolding required_links pairs_of
  linked_pairs c = do
    auction_ids ← required_links auction_links c.auction_file_id
    lost_ids ← required_links lost_links c.lost_file_id
    ok (pairs_of auction_ids lost_ids)
