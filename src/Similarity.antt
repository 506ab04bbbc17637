-- ===== src/Similarity.antt =====
-- matching_pipeline/metadata_matching/similarity_functions: the similarity of artists
-- (artist/matching_function.py), of dimensions (dimensions/matching_function.py) and the confidence of
-- dimensions and of artists (count_confidence.py). What the code takes of float arithmetic beyond the
-- scores' is an interface, as is the rapidfuzz package.
pub mod Titles
pub mod Hierarchies
pub mod Shares
pub mod Symmetry
pub mod Units
pub mod Depths
pub mod Filled
pub mod Measured
mod Tests
use Prim.Native.Char.{Char}
use sm_artmatch.Prelude.{
  ℕ, Bool, true, false, not, ◌&&◌, ◌||◌, Option, none, some, String, List, [], ◌∷◌, leb, length,
  str_eq, if◌then◌else◌,
}
use sm_artmatch.Matching.{Floats}
use sm_artmatch.Artists.{Unicode, Value, is_blank, strip, normalize_name, is_name, extract_names}
use sm_artmatch.Artists.Index.{Index, get_artist_count}

pub record Arithmetic (F : Type 0) : Type 0 where
  pub distance : F → F → F
  pub log : F → F
  pub of_nat : ℕ → F
  pub sum : List F → F

-- The package rapidfuzz, and str.lower.
pub record Texts (F : Type 0) : Type 0 where
  pub jaro_winkler : String → String → F
  pub levenshtein : String → String → F
  pub lower : String → String

module _ {F : Type 0} (fl : Floats F) where
  abbrev pub one : F
  one = fl.hundredths 100

  abbrev pub zero_f : F
  zero_f = fl.hundredths 0

  abbrev pub at_most_one : F → F
  at_most_one x = if fl.lt x one then x else one

  -- `max(0.0, min(1.0, x))`
  unfoldable pub clamp : F → F
  clamp x = if fl.lt zero_f (at_most_one x) then at_most_one x else zero_f

  -- `(a + b) / 2.0`
  unfoldable pub mean : F → F → F
  mean a b = fl.div (fl.add a b) (fl.hundredths 200)

  abbrev pub truthy : F → Bool
  truthy x = fl.lt x zero_f || fl.lt zero_f x

  abbrev pub larger : F → F → F
  larger a b = if fl.lt a b then b else a

  module _ (ar : Arithmetic F) where
    unfoldable pub within_10_percent : F → F → Bool
    within_10_percent a b =
        truthy a
        && truthy b
        && not (fl.lt (fl.hundredths 10) (fl.div (ar.distance a b) (larger a b)))

    abbrev pub side_sim : F → F → F
    side_sim a b = if within_10_percent a b then one else zero_f

    unfoldable pub dimensions_similarity : Option F → Option F → Option F → Option F → Option F
    dimensions_similarity (some lost_width) (some lost_height) (some auc_width) (some auc_height) =
        some (mean (side_sim lost_width auc_width) (side_sim lost_height auc_height))
    dimensions_similarity _ _ _ _ = none

    -- `_artist_score`, and the same formula in `_title_confidence`.
    unfoldable pub rarity : ℕ → ℕ → F
    rarity total count =
        if leb total 1 || leb count 1
        then one
        else clamp (
            fl.div (ar.log (fl.div (ar.of_nat total) (ar.of_nat count))) (ar.log (ar.of_nat total)))

    module _ (u : Unicode) where
      abbrev pub count_score : ℕ → Option ℕ → F
      count_score total none = one
      count_score total (some count) = rarity total count

      -- The index has been loaded.
      unfoldable pub artist_confidence : Index → String → F
      artist_confidence index artist_name =
          if is_name u (normalize_name u artist_name)
          then count_score index.artist_index_total_docs
              (get_artist_count u (normalize_name u artist_name) index).0
          else zero_f

      abbrev pub confidences : Index → List String → List F
      confidences index [] = []
      confidences index (name ∷ names) = artist_confidence index name ∷ confidences index names

      abbrev pub mean_of : Index → List String → F
      mean_of index names = fl.div (ar.sum (confidences index names)) (ar.of_nat (length names))

      abbrev pub between : Index → List String → List String → F
      between index [] auction_names = zero_f
      between index (lost ∷ lost_names) [] = zero_f
      between index (lost ∷ lost_names) (auction ∷ auction_names) =
          clamp (mean (mean_of index (lost ∷ lost_names)) (mean_of index (auction ∷ auction_names)))

      unfoldable pub artist_confidence_score : Index → Value → Value → F
      artist_confidence_score index lost_artist_names auction_artist_names =
          between index (extract_names u lost_artist_names) (extract_names u auction_artist_names)

  module _ (u : Unicode) (texts : Texts F) where
    abbrev pub is_unknown : String → Bool
    is_unknown s = str_eq (strip u (texts.lower s)) "unbekannt"

    unfoldable pub artist_similarity : Option String → Option String → Option F
    artist_similarity (some a) (some b) =
        if is_blank a || is_blank b
        then none
        else if is_blank (strip u a) || is_blank (strip u b)
        then none
        else if is_unknown a || is_unknown b
        then none
        else some (texts.jaro_winkler (strip u (texts.lower a)) (strip u (texts.lower b)))
    artist_similarity _ _ = none
