-- ===== src/Similarity/Measured.antt =====
-- About the interface of the main matcher, filled with the similarity functions.
use mathlib.Core.List.{Memᴰ}
use mathlib.Core.Path.{subst}
use sm_artmatch.Prelude.{
  ℕ, zero, suc, refl, sym, Bool, true, false, ◌||◌, Option, none, some, String, List, [], ◌∷◌, map,
  str_eq, if◌then◌else◌,
}
use sm_artmatch.Prelude.Dicts.{Dict, lookup, lookup-put}
use sm_artmatch.Matching.{Floats}
use sm_artmatch.Matching.Laws.{IsMonotone, InUnit, MaybeInUnit, IsMeasured}
use sm_artmatch.Dating.Overlap.{dating_similarity}
use sm_artmatch.Artists.{Unicode, is_blank, strip, Value, sequence, extract_names}
use sm_artmatch.Artists.Index.{Index}
use sm_artmatch.Similarity.{
  Arithmetic, Texts, within_10_percent, side_sim, dimensions_similarity, between,
  artist_confidence_score, artist_similarity, is_unknown,
}
use sm_artmatch.Similarity.Titles.{
  Patterns, TitleRow, put_score, load_common_titles, score_or_one, special_similarity,
  title_similarity, normalize_titles_pair, lower_strip, title_confidence, count_confidence,
  title_confidence_score,
}
use sm_artmatch.Similarity.Units.{
  IsArithmetic, zero-InUnit, one-InUnit, if-InUnit, clamp-InUnit, mean-InUnit, rarity-InUnit,
  if-MaybeInUnit,
}
use sm_artmatch.Similarity.Hierarchies.{dict_similarity, dict_confidence}
use sm_artmatch.Similarity.Depths.{tree_similarity-InUnit, tree_confidence-InUnit}
use sm_artmatch.Similarity.Filled.{
  Others, Loaded, IsSound, as_float, as_value, common_scores, measures,
}

module _ {F : Type 0} (fl : Floats F) (ar : Arithmetic F) (u : Unicode) (texts : Texts F)
    (ps : Patterns) (loaded : Loaded F) (others : Others F) where
  abbrev scores_of_titles : Dict F
  scores_of_titles = common_scores fl ar u texts ps loaded others

  module _ (law : IsMonotone fl) (laws : IsArithmetic fl ar)
      (sound : IsSound fl texts loaded others) where
    dimensions_similarity-InUnit :
        (a b c d : Option F) → MaybeInUnit fl (dimensions_similarity fl ar a b c d)
    unfolding dimensions_similarity
    dimensions_similarity-InUnit (some a) (some b) (some c) (some d) =
        mean-InUnit fl ar law laws (side_sim fl ar a c) (side_sim fl ar b d)
          (if-InUnit fl ar law laws (within_10_percent fl ar a c) _ _ (one-InUnit fl ar law laws)
            (zero-InUnit fl ar law laws))
          (if-InUnit fl ar law laws (within_10_percent fl ar b d) _ _ (one-InUnit fl ar law laws)
            (zero-InUnit fl ar law laws))
    dimensions_similarity-InUnit none b c d = tt
    dimensions_similarity-InUnit (some a) none c d = tt
    dimensions_similarity-InUnit (some a) (some b) none d = tt
    dimensions_similarity-InUnit (some a) (some b) (some c) none = tt

    as_float-InUnit : (o : Option ℕ) → MaybeInUnit fl (as_float fl ar u texts ps loaded others o)
    as_float-InUnit none = tt
    as_float-InUnit (some zero) = (zero-InUnit fl ar law laws)
    as_float-InUnit (some (suc n)) = (one-InUnit fl ar law laws)

    artist_similarity-InUnit :
        (a b : Option String) → MaybeInUnit fl (artist_similarity fl u texts a b)
    unfolding artist_similarity
    artist_similarity-InUnit none b = tt
    artist_similarity-InUnit (some a) none = tt
    artist_similarity-InUnit (some a) (some b) =
        let score = some (texts.jaro_winkler (strip u (texts.lower a)) (strip u (texts.lower b))) in
        let known = if is_unknown fl u texts a || is_unknown fl u texts b then none else score in
        let shown = if is_blank (strip u a) || is_blank (strip u b) then none else known in
        if-MaybeInUnit fl ar law laws (is_blank a || is_blank b) none shown tt (
          if-MaybeInUnit fl ar law laws (is_blank (strip u a) || is_blank (strip u b)) none known tt
            (if-MaybeInUnit fl ar law laws (is_unknown fl u texts a || is_unknown fl u texts b) none
              score tt (sound.jaro_winkler (strip u (texts.lower a)) (strip u (texts.lower b)))))

    between-InUnit :
        (index : Index) (lost_names auction_names : List String)
        → InUnit fl (between fl ar u index lost_names auction_names)
    between-InUnit index [] auction_names = (zero-InUnit fl ar law laws)
    between-InUnit index (lost ∷ lost_names) [] = (zero-InUnit fl ar law laws)
    between-InUnit index (lost ∷ lost_names) (auction ∷ auction_names) =
        clamp-InUnit fl ar law laws _

    artist_confidence_score-InUnit :
        (index : Index) (a b : Value) → InUnit fl (artist_confidence_score fl ar u index a b)
    unfolding artist_confidence_score
    artist_confidence_score-InUnit index a b =
        between-InUnit index (extract_names u a) (extract_names u b)

    -- The scores of the common titles that are loaded from rows.
    abbrev ScoresInUnit : Dict F → Type 0
    ScoresInUnit scores = (name : String) → MaybeInUnit fl (lookup name scores)

    put_score-ScoresInUnit :
        (name : Option String) (score : Option F) (scores : Dict F)
        → MaybeInUnit fl score
        → ScoresInUnit scores
        → ScoresInUnit (put_score name score scores)
    put_score-ScoresInUnit none score scores h all other = all other
    put_score-ScoresInUnit (some name) none scores h all other = all other
    put_score-ScoresInUnit (some name) (some score) scores h all other =
        subst (MaybeInUnit fl) (sym (lookup-put other name score scores)) (
          if-MaybeInUnit fl ar law laws (str_eq name other) (some score) (lookup other scores) h
            (all other))

    if-ScoresInUnit :
        (b : Bool) (xs ys : Dict F)
        → ScoresInUnit xs
        → ScoresInUnit ys
        → ScoresInUnit (if b then xs else ys)
    if-ScoresInUnit true xs ys h k = h
    if-ScoresInUnit false xs ys h k = k

    load_common_titles-ScoresInUnit :
        (rows : List (TitleRow F)) (scores : Dict F)
        → ((row : TitleRow F) → Memᴰ row rows → MaybeInUnit fl row.score)
        → ScoresInUnit scores
        → ScoresInUnit (load_common_titles rows scores)
    unfolding load_common_titles
    load_common_titles-ScoresInUnit [] scores valid all = all
    load_common_titles-ScoresInUnit (row ∷ rows) scores valid all =
        load_common_titles-ScoresInUnit rows _ (λ r m. valid r (Memᴰ.tail m))
          (if-ScoresInUnit _ (put_score row.title_name row.score scores) scores
            (put_score-ScoresInUnit row.title_name row.score scores (valid row (Memᴰ.head refl))
              all)
            all)

    score_or_one-InUnit :
        (o : Option F) → MaybeInUnit fl o → InUnit fl (score_or_one fl ar u texts ps o)
    score_or_one-InUnit none h = (one-InUnit fl ar law laws)
    score_or_one-InUnit (some score) h = h

    common_scores-ScoresInUnit : ScoresInUnit scores_of_titles
    common_scores-ScoresInUnit =
        load_common_titles-ScoresInUnit loaded.common_titles [] sound.common_titles
          (λ name. unfold lookup in tt)

    special_similarity-InUnit :
        (a b : String) → MaybeInUnit fl (special_similarity fl ar u texts ps a b)
    unfolding special_similarity
    special_similarity-InUnit a b =
        let pair = normalize_titles_pair fl ar u texts ps a b in
        if-MaybeInUnit fl ar law laws (is_blank (strip u a) || is_blank (strip u b)) none
          (some (texts.levenshtein pair.0 pair.1)) tt (sound.levenshtein pair.0 pair.1)

    title_similarity-InUnit :
        (a b : Option String)
        → MaybeInUnit fl (title_similarity fl ar u texts ps scores_of_titles a b)
    unfolding title_similarity
    title_similarity-InUnit none b = tt
    title_similarity-InUnit (some a) none = tt
    title_similarity-InUnit (some a) (some b) =
        let name = lower_strip fl ar u texts ps b in
        let found = lookup name scores_of_titles in
        if-MaybeInUnit fl ar law laws (str_eq name (lower_strip fl ar u texts ps a))
          (some (score_or_one fl ar u texts ps found)) (special_similarity fl ar u texts ps b a)
          (score_or_one-InUnit found (common_scores-ScoresInUnit name))
          (special_similarity-InUnit b a)

    count_confidence-InUnit :
        (total : ℕ) (o : Option ℕ) → InUnit fl (count_confidence fl ar u texts ps total o)
    count_confidence-InUnit total none = (one-InUnit fl ar law laws)
    count_confidence-InUnit total (some n) = rarity-InUnit fl ar law laws total n

    title_confidence-InUnit :
        (index : Dict ℕ) (total : ℕ) (title : String)
        → InUnit fl (title_confidence fl ar u texts ps index total title)
    unfolding title_confidence
    title_confidence-InUnit index total title =
        if-InUnit fl ar law laws _ _ _ (zero-InUnit fl ar law laws)
          (count_confidence-InUnit total _)

    title_confidence_score-InUnit :
        (index : Dict ℕ) (total : ℕ) (a b : Option String)
        → InUnit fl (title_confidence_score fl ar u texts ps index total a b)
    unfolding title_confidence_score
    title_confidence_score-InUnit index total none b = (zero-InUnit fl ar law laws)
    title_confidence_score-InUnit index total (some a) none = (zero-InUnit fl ar law laws)
    title_confidence_score-InUnit index total (some a) (some b) =
        if-InUnit fl ar law laws _ _ _ (zero-InUnit fl ar law laws) (
          mean-InUnit fl ar law laws _ _ (title_confidence-InUnit index total a)
            (title_confidence-InUnit index total b))

    -- The similarity functions fill the interface of the main matcher: each similarity is missing or
    -- between 0.0 and 1.0, and so is each confidence, provided that this holds of the results of the
    -- string metrics, of the scores in the CSV file of common titles, of the dating confidence and of
    -- the density score of dimensions.
    pub measures-IsMeasured : IsMeasured fl (measures fl ar u texts ps loaded others)
    measures-IsMeasured = record {
      artist_sim = λ a b. artist_similarity-InUnit (some a) b;
      artist_conf = λ a b.
          artist_confidence_score-InUnit loaded.artist_index (sequence (map some a))
            (as_value fl ar u texts ps loaded others b);
      title_sim = title_similarity-InUnit;
      title_conf = title_confidence_score-InUnit loaded.title_index loaded.title_total;
      dict_sim = λ a b c d.
          unfold dict_similarity in
          (
            tree_similarity-InUnit fl ar u texts.lower law laws loaded.materials a c,
            tree_similarity-InUnit fl ar u texts.lower law laws loaded.techniques b d,
          );
      dict_conf = λ a b c d.
          unfold dict_confidence in
          (
            tree_confidence-InUnit fl ar u texts.lower law laws loaded.materials a b,
            tree_confidence-InUnit fl ar u texts.lower law laws loaded.techniques c d,
          );
      dating_sim = λ a b c d. as_float-InUnit (dating_similarity a b c d);
      dating_conf = sound.dating_conf;
      dimensions_sim = dimensions_similarity-InUnit;
      dimensions_conf = mean-InUnit fl ar law laws;
      score_dimensions = sound.score_dimensions;
    }
