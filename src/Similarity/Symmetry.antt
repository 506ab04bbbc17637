-- ===== src/Similarity/Symmetry.antt =====
-- About the similarity of two titles, in either order.
use sm_artmatch.Prelude.{
  ◌≡◌, refl, ◌∙◌, sym, ap, Bool, true, false, ◌||◌, Option, none, some, String, List, [], ◌∷◌,
  str_eq, eq_iff, if◌then◌else◌, arith,
}
use sm_artmatch.Prelude.Dicts.{Dict, lookup}
use sm_artmatch.Matching.{Floats}
use sm_artmatch.Artists.{Unicode, is_blank, strip}
use sm_artmatch.Similarity.{Arithmetic, Texts}
use sm_artmatch.Similarity.Titles.{
  Patterns, lower_strip, common_words, words_to_remove, candidates, normalize_titles_pair,
  special_similarity, title_similarity, score_or_one,
}

if_comm :
    {A : Type 0} (p q : Bool) (x y : A)
    → x ≡ y
    → (if p || q then none else some x) ≡ (if q || p then none else some y)
if_comm true true x y e = refl
if_comm true false x y e = refl
if_comm false true x y e = refl
if_comm false false x y e = ap some e

same_or :
    {A : Type 0} (p q : Bool) (x y z w : A)
    → p ≡ q
    → (p ≡ true → x ≡ z)
    → y ≡ w
    → (if p then x else y) ≡ (if q then z else w)
same_or true true x y z w e h k = h refl
same_or true false x y z w e h k = absurd cc
same_or false true x y z w e h k = absurd cc
same_or false false x y z w e h k = k

module _ {F : Type 0} (fl : Floats F) (ar : Arithmetic F) (u : Unicode) (texts : Texts F)
    (ps : Patterns) where
  abbrev swap : String × String → String × String
  swap (a, b) = (b, a)

  common_words_comm :
      (a b : String) (words : List String)
      → common_words fl ar u texts ps a b words ≡ common_words fl ar u texts ps b a words
  unfolding common_words
  common_words_comm a b [] = refl
  common_words_comm a b (word ∷ words) = ground (arith, common_words_comm a b words)

  candidates-swap :
      (a b : String) (common : List String)
      → candidates fl ar u texts ps b a common ≡ swap (candidates fl ar u texts ps a b common)
  candidates-swap a b common = ground arith

  normalize_titles_pair-swap :
      (a b : String)
      → normalize_titles_pair fl ar u texts ps b a
        ≡ swap (normalize_titles_pair fl ar u texts ps a b)
  unfolding normalize_titles_pair
  normalize_titles_pair-swap a b =
      let x = lower_strip fl ar u texts ps a in
      let y = lower_strip fl ar u texts ps b in
      ap (candidates fl ar u texts ps y x) (common_words_comm y x words_to_remove)
      ∙ candidates-swap x y (common_words fl ar u texts ps x y words_to_remove)

  module _ (metric : (a b : String) → texts.levenshtein a b ≡ texts.levenshtein b a) where
    special_similarity_comm :
        (a b : String)
        → special_similarity fl ar u texts ps a b ≡ special_similarity fl ar u texts ps b a
    unfolding special_similarity
    special_similarity_comm a b = if_comm (is_blank (strip u a)) (is_blank (strip u b)) _ _ (
        metric (normalize_titles_pair fl ar u texts ps a b).0
          (normalize_titles_pair fl ar u texts ps a b).1
        ∙ ap (λ p. texts.levenshtein p.0 p.1) (sym (normalize_titles_pair-swap a b)))

    -- The similarity of two titles does not depend on which is the lost and which the auctioned
    -- artwork's, given that the normalised Levenshtein similarity of two texts does not.
    pub title_similarity_comm :
        (common : Dict F) (a b : Option String)
        → title_similarity fl ar u texts ps common a b
          ≡ title_similarity fl ar u texts ps common b a
    unfolding title_similarity
    title_similarity_comm common none none = refl
    title_similarity_comm common none (some b) = refl
    title_similarity_comm common (some a) none = refl
    title_similarity_comm common (some a) (some b) =
        let x = lower_strip fl ar u texts ps a in
        let y = lower_strip fl ar u texts ps b in
        same_or (str_eq y x) (str_eq x y) _ _ _ _ (ground (arith, eq_iff x y, eq_iff y x))
          (λ e. ap (λ n. some (score_or_one fl ar u texts ps (lookup n common))) ((eq_iff y x).0 e))
          (special_similarity_comm b a)
