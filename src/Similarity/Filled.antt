-- ===== src/Similarity/Filled.antt =====
-- The interface of metadata_matcher.py to the similarity and confidence functions, filled with those of
-- the modules that it imports; Others are the ones that are taken as given.
use mathlib.Core.List.{Memᴰ}
use sm_artmatch.Prelude.{ℕ, zero, suc, Option, none, some, String, List, [], map}
use sm_artmatch.Prelude.Int.{ℤ}
use sm_artmatch.Prelude.Dicts.{Dict}
use sm_artmatch.Matching.{Floats, Measures}
use sm_artmatch.Matching.Laws.{InUnit, MaybeInUnit}
use sm_artmatch.Dating.Overlap.{dating_similarity}
use sm_artmatch.Artists.{Unicode, Value, text, sequence, no_value}
use sm_artmatch.Artists.Index.{Index}
use sm_artmatch.Similarity.{
  Arithmetic, Texts, one, zero_f, mean, dimensions_similarity, artist_confidence_score,
  artist_similarity,
}
use sm_artmatch.Similarity.Hierarchies.{Tree, dict_similarity, dict_confidence}
use sm_artmatch.Similarity.Titles.{
  Patterns, TitleRow, load_common_titles, title_similarity, title_confidence_score,
}

-- The functions of the interface that are not modelled.
pub record Others (F : Type 0) : Type 0 where
  pub dating_conf : Option ℤ → Option ℤ → Option ℤ → Option ℤ → F
  pub score_dimensions : F → F → F

-- What the functions have loaded.
pub record Loaded (F : Type 0) : Type 0 where
  pub artist_index : Index
  pub common_titles : List (TitleRow F)
  pub title_index : Dict ℕ
  pub title_total : ℕ
  pub materials : Tree
  pub techniques : Tree

-- What the code relies on of the packages and of the CSV file.
pub record IsSound {F : Type 0} (fl : Floats F) (texts : Texts F) (loaded : Loaded F)
    (others : Others F) : Type 0 where
  pub jaro_winkler : (a b : String) → InUnit fl (texts.jaro_winkler a b)
  pub levenshtein : (a b : String) → InUnit fl (texts.levenshtein a b)
  pub common_titles : (row : TitleRow F) → Memᴰ row loaded.common_titles → MaybeInUnit fl row.score
  pub dating_conf : (a b c d : Option ℤ) → InUnit fl (others.dating_conf a b c d)
  pub score_dimensions : (width height : F) → InUnit fl (others.score_dimensions width height)

module _ {F : Type 0} (fl : Floats F) (ar : Arithmetic F) (u : Unicode) (texts : Texts F)
    (ps : Patterns) (loaded : Loaded F) (others : Others F) where
  abbrev pub as_float : Option ℕ → Option F
  as_float none = none
  as_float (some zero) = some (zero_f fl)
  as_float (some (suc n)) = some (one fl)

  abbrev pub as_value : Option String → Value
  as_value none = no_value
  as_value (some s) = text s

  abbrev pub common_scores : Dict F
  common_scores = load_common_titles loaded.common_titles []

  -- The interface of the main matcher, as the modules that it imports fill it.
  abbrev pub measures : Measures F
  measures = record {
    artist_sim = λ name artist. artist_similarity fl u texts (some name) artist;
    artist_conf = λ names artist.
        artist_confidence_score fl ar u loaded.artist_index (sequence (map some names))
          (as_value artist);
    title_sim = title_similarity fl ar u texts ps common_scores;
    title_conf = title_confidence_score fl ar u texts ps loaded.title_index loaded.title_total;
    dict_sim = dict_similarity fl ar u texts.lower loaded.materials loaded.techniques;
    dict_conf = dict_confidence fl ar u texts.lower loaded.materials loaded.techniques;
    dating_sim = λ a b c d. as_float (dating_similarity a b c d);
    dating_conf = others.dating_conf;
    dimensions_sim = dimensions_similarity fl ar;
    dimensions_conf = mean fl;
    score_dimensions = others.score_dimensions;
  }
