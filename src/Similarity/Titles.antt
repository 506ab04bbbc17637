-- ===== src/Similarity/Titles.antt =====
-- similarity_functions/title: levenshtein_matcher.py, matching_function.py and count_confidence.py.
-- The regular expressions of the words and of white space are an interface; the rows of the CSV file
-- and of the query are arguments, and the globals that they are loaded into are results.
use sm_artmatch.Prelude.{
  ℕ, Bool, false, not, ◌&&◌, ◌||◌, Option, none, some, String, List, [], ◌∷◌, str_eq, if◌then◌else◌,
}
use sm_artmatch.Prelude.Dicts.{Dict, lookup, put}
use sm_artmatch.Matching.{Floats}
use sm_artmatch.Artists.{Unicode, is_blank, strip, split_at, drop_blanks, join}
use sm_artmatch.Similarity.{Arithmetic, Texts, one, zero_f, mean, rarity}

-- `_WORD_PATTERNS[word].search(text)`, `.sub(" ", text)`, and `_SPACE_PATTERN.sub(" ", text)`.
pub record Patterns : Type 0 where
  pub search : String → String → Bool
  pub substitute : String → String → String
  pub one_space : String → String

abbrev pub words_to_remove : List String
words_to_remove =
    "portait" ∷ "portrait" ∷ "porträt" ∷ "portret" ∷ "bildnis" ∷ "brustbild" ∷ "landschaft"
    ∷ "landschaften" ∷ []

-- A row of the CSV file: the title's name, and its score's text with what `float` makes of it.
pub record TitleRow (F : Type 0) : Type 0 where
  pub title_name : Option String
  pub title_score : Option String
  pub score : Option F

abbrev is_filled : Option String → Bool
is_filled none = false
is_filled (some s) = not (is_blank s)

module _ {F : Type 0} where
  abbrev pub put_score : Option String → Option F → Dict F → Dict F
  put_score (some name) (some score) scores = put name score scores
  put_score _ _ scores = scores

  unfoldable pub load_common_titles : List (TitleRow F) → Dict F → Dict F
  load_common_titles [] loaded_scores = loaded_scores
  load_common_titles (row ∷ rows) loaded_scores = load_common_titles rows (
      if is_filled row.title_name && is_filled row.title_score
      then put_score row.title_name row.score loaded_scores
      else loaded_scores)

module _ {F : Type 0} (fl : Floats F) (ar : Arithmetic F) (u : Unicode) (texts : Texts F)
    (ps : Patterns) where
  abbrev pub lower_strip : String → String
  lower_strip s = strip u (texts.lower s)

  abbrev pub contains_word : String → String → Bool
  contains_word text word = ps.search word (texts.lower text)

  unfoldable pub common_words : String → String → List String → List String
  common_words a b [] = []
  common_words a b (word ∷ words) =
      let rest = common_words a b words in
      if contains_word a word && contains_word b word then word ∷ rest else rest

  unfoldable pub without : List String → String → String
  without [] text = text
  without (word ∷ words) text = without words (ps.substitute word text)

  unfoldable pub remove_words : String → List String → String
  remove_words text [] = lower_strip text
  remove_words text (word ∷ words) =
      strip u (ps.one_space (without (word ∷ words) (lower_strip text)))

  abbrev pub candidates : String → String → List String → String × String
  candidates a b common =
      if is_blank (remove_words a common) || is_blank (remove_words b common)
      then (a, b)
      else (remove_words a common, remove_words b common)

  unfoldable pub normalize_titles_pair : String → String → String × String
  normalize_titles_pair a b =
      candidates (lower_strip a) (lower_strip b)
        (common_words (lower_strip a) (lower_strip b) words_to_remove)

  unfoldable pub special_similarity : String → String → Option F
  special_similarity a b =
      if is_blank (strip u a) || is_blank (strip u b)
      then none
      else some (texts.levenshtein (normalize_titles_pair a b).0 (normalize_titles_pair a b).1)

  abbrev pub score_or_one : Option F → F
  score_or_one none = one fl
  score_or_one (some score) = score

  unfoldable pub title_similarity : Dict F → Option String → Option String → Option F
  title_similarity common (some lost_title) (some auction_title) =
      if str_eq (lower_strip auction_title) (lower_strip lost_title)
      then some (score_or_one (lookup (lower_strip auction_title) common))
      else special_similarity auction_title lost_title
  title_similarity common _ _ = none

  unfoldable pub normalize_title : String → String
  normalize_title title = strip u (join (drop_blanks (split_at u.is_space title)))

  -- The index of the repeated titles, from the query's rows.
  unfoldable pub load_title_index : List (String × ℕ) → Dict ℕ → Dict ℕ
  load_title_index [] title_counts = title_counts
  load_title_index ((title, title_count) ∷ rows) title_counts =
      load_title_index rows (put (normalize_title title) title_count title_counts)

  abbrev pub count_confidence : ℕ → Option ℕ → F
  count_confidence total none = one fl
  count_confidence total (some title_count) = rarity fl ar total title_count

  unfoldable pub title_confidence : Dict ℕ → ℕ → String → F
  title_confidence index total title =
      if is_blank (strip u title) || is_blank (normalize_title title)
      then zero_f fl
      else count_confidence total (lookup (normalize_title title) index)

  unfoldable pub title_confidence_score : Dict ℕ → ℕ → Option String → Option String → F
  title_confidence_score index total (some lost_title) (some auction_title) =
      if is_blank (strip u lost_title) || is_blank (strip u auction_title)
      then zero_f fl
      else mean fl (title_confidence index total lost_title)
          (title_confidence index total auction_title)
  title_confidence_score index total _ _ = zero_f fl
