-- ===== src/Rankings.antt =====
-- matching_pipeline/shared/artifacts/rankings.py: reading the auction-to-lost ranking artifacts.
-- A part is the content of one Parquet file: its column names and its rows. Its scores are floats,
-- a type parameter `S`. `strip` is Python's str.strip.
pub mod Stream
pub mod Items
pub mod Groups
pub mod Steps
pub mod Agreement
pub mod Load
mod Tests
use sm_artmatch.Prelude.Dicts.{contains}
use sm_artmatch.Prelude.{
  ℕ, zero, suc, ◌≤◌, Bool, true, false, ◌&&◌, Option, none, some, String, List, [], ◌∷◌, ltb, leb,
  if◌then◌else◌, Result, ok, err, ◌>>=◌, str_eq, ◌≡◌,
}
use sm_artmatch.Prelude.Int.{ℤ, pos, negsuc}

pub data Error : Type 0 where
  missing_text empty_text version_not_positive invalid_rank rank_out_of_range : Error
  invalid_score missing_columns inconsistent_revisions version_disagrees : Error
  not_contiguous unknown_file_id bad_batch_size directory_not_found : Error

-- What `to_pylist` gives for one row; None is a null.
pub record RawRow (S : Type 0) : Type 0 where
  pub auction_file_id : Option String
  pub auction_content_version : Option ℤ
  pub lost_content_revision : Option ℤ
  pub lost_file_id : Option String
  pub rank : Option ℤ
  pub blocking_score : Option S

pub record Part (S : Type 0) : Type 0 where
  pub names : List String
  pub rows : List (RawRow S)

pub record Row (S : Type 0) : Type 0 where
  pub auction_id : String
  pub auction_version : Option ℕ
  pub lost_revision : Option ℕ
  pub lost_id : String
  pub rank : ℕ
  pub blocking_score : S

module _ (strip : String → String) where
  unfoldable pub required_text : Option String → Result Error String
  required_text none = err missing_text
  required_text (some value) =
      let text = strip value in if str_eq text "" then err empty_text else ok text

-- The columns hold 64-bit integers: `str(value).strip()` of one is not empty.
unfoldable pub coerce_content_version : Option ℤ → Result Error (Option ℕ)
coerce_content_version none = ok none
coerce_content_version (some (pos zero)) = err version_not_positive
coerce_content_version (some (pos (suc n))) = ok (some (suc n))
coerce_content_version (some (negsuc n)) = err version_not_positive

unfoldable pub coerce_rank : Option ℤ → Result Error ℕ
coerce_rank none = err invalid_rank
coerce_rank (some (negsuc n)) = err rank_out_of_range
coerce_rank (some (pos n)) = if leb 1 n && leb n 32767 then ok n else err rank_out_of_range

unfoldable pub coerce_score : {S : Type 0} → Option S → Result Error S
coerce_score none = err invalid_score
coerce_score (some score) = ok score

-- `_ranking_id_columns`, less the names that it returns: they are always the same two.
unfoldable pub check_columns : List String → Result Error (Unit {0})
check_columns names =
    if contains "auction_file_id" names
      && (contains "lost_file_id" names
          && (contains "rank" names && contains "blocking_score" names))
    then ok tt
    else err missing_columns

-- An optional column that the file does not have reads as None in every row.
unfoldable pub optional_column : List String → String → Option ℤ → Option ℤ
optional_column names name value = if contains name names then value else none

module _ {S : Type 0} (strip : String → String) where
  -- The tuple that `_iter_ranking_rows` yields, its parts in the order of evaluation.
  unfoldable pub coerce_row : List String → RawRow S → Result Error (Row S)
  unfolding required_text coerce_content_version coerce_rank coerce_score optional_column
  coerce_row names raw = do
    auction_id ← required_text strip raw.auction_file_id
    auction_version ←
        coerce_content_version
          (optional_column names "auction_content_version" raw.auction_content_version)
    lost_revision ←
        coerce_content_version
          (optional_column names "lost_content_revision" raw.lost_content_revision)
    lost_id ← required_text strip raw.lost_file_id
    rank ← coerce_rank raw.rank
    blocking_score ← coerce_score raw.blocking_score
    ok (record {
      auction_id = auction_id;
      auction_version = auction_version;
      lost_revision = lost_revision;
      lost_id = lost_id;
      rank = rank;
      blocking_score = blocking_score;
    })
