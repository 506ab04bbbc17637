-- ===== src/Similarity/Depths.antt =====
-- About the similarity and the confidence of the names in the hierarchies.
use mathlib.Core.Path.{subst}
use sm_artmatch.Prelude.{
  ◌-◌, ◌≡◌, refl, ◌||◌, Option, none, some, String, List, [], ◌∷◌, arith, leb, length,
  if◌then◌else◌,
}
use sm_artmatch.Matching.{Floats}
use sm_artmatch.Matching.Laws.{IsMonotone, InUnit, MaybeInUnit}
use sm_artmatch.Artists.{Unicode, is_blank}
use sm_artmatch.Hierarchy.{get_path_to_root}
use sm_artmatch.Hierarchy.Distance.{Quotient}
use sm_artmatch.Similarity.{Arithmetic, zero_f, clamp, mean}
use sm_artmatch.Similarity.Shares.{IsShare, calculate_dict_similarity-IsShare}
use sm_artmatch.Similarity.Units.{
  AllInUnit, IsArithmetic, zero-InUnit, if-InUnit, clamp-InUnit, mean-InUnit, quotient-InUnit,
  average-InUnit,
}
use sm_artmatch.Similarity.Hierarchies.{
  Tree, list_names, quotient, tree_similarity, is_root, hierarchy_height, node_depth_ratio, ratios,
  field_of, field_confidence, is_missing_or_root, tree_confidence,
}

module _ {F : Type 0} (fl : Floats F) (ar : Arithmetic F) (u : Unicode) (lower : String → String)
    (law : IsMonotone fl) (laws : IsArithmetic fl ar) where
  quotient-MaybeInUnit :
      (o : Option Quotient) → IsShare o → MaybeInUnit fl (quotient fl ar u lower o)
  quotient-MaybeInUnit none h = tt
  quotient-MaybeInUnit (some q) (share, positive) =
      quotient-InUnit fl ar law laws q.num q.den share positive

  pub tree_similarity-InUnit :
      (tree : Tree) (lost auc : List String)
      → MaybeInUnit fl (tree_similarity fl ar u lower tree lost auc)
  unfolding tree_similarity
  tree_similarity-InUnit tree lost auc = quotient-MaybeInUnit _ (
      calculate_dict_similarity-IsShare lower tree.paths_to_root tree.root_name
        (list_names u (list_names u lost)) (list_names u (list_names u auc)))

  node_depth_ratio-InUnit :
      (tree : Tree) (name : String) → InUnit fl (node_depth_ratio fl ar u lower tree name)
  unfolding node_depth_ratio
  node_depth_ratio-InUnit tree name =
      let zero = zero-InUnit fl ar law laws in
      let path = get_path_to_root tree.paths_to_root tree.root_name name in
      let height = hierarchy_height fl ar u lower tree in
      let share = fl.div (ar.of_nat (length path - 1)) (ar.of_nat height) in
      let bounded = clamp fl share in
      let high = if leb height 0 then zero_f fl else bounded in
      let known = if leb (length path) 1 then zero_f fl else high in
      if-InUnit fl ar law laws (is_blank name || is_root fl ar u lower tree name) (zero_f fl) known
        zero
        (if-InUnit fl ar law laws (leb (length path) 1) (zero_f fl) high zero (
          if-InUnit fl ar law laws (leb height 0) (zero_f fl) bounded zero
            (clamp-InUnit fl ar law laws share)))

  ratios-AllInUnit :
      (tree : Tree) (names : List String) → AllInUnit fl (ratios fl ar u lower tree names)
  ratios-AllInUnit tree [] = tt
  ratios-AllInUnit tree (name ∷ names) =
      (node_depth_ratio-InUnit tree name, ratios-AllInUnit tree names)

  length-ratios :
      (tree : Tree) (names : List String) → length (ratios fl ar u lower tree names) ≡ length names
  length-ratios tree [] = refl
  length-ratios tree (name ∷ names) = omega (arith, length-ratios tree names)

  field_of-InUnit :
      (tree : Tree) (names : List String) → InUnit fl (field_of fl ar u lower tree names)
  field_of-InUnit tree [] = zero-InUnit fl ar law laws
  field_of-InUnit tree (name ∷ names) =
      subst (λ n. InUnit fl (fl.div (ar.sum scores) (ar.of_nat n)))
        (length-ratios tree (name ∷ names))
        (average-InUnit fl ar law laws scores (omega arith) (ratios-AllInUnit tree (name ∷ names)))
    where
      scores : List F
      scores = ratios fl ar u lower tree (name ∷ names)

  pub tree_confidence-InUnit :
      (tree : Tree) (lost auc : List String)
      → InUnit fl (tree_confidence fl ar u lower tree lost auc)
  unfolding tree_confidence field_confidence
  tree_confidence-InUnit tree lost auc =
      if-InUnit fl ar law laws
        (is_missing_or_root fl ar u lower tree lost || is_missing_or_root fl ar u lower tree auc)
        (zero_f fl)
        (mean fl (field_of fl ar u lower tree (list_names u lost))
          (field_of fl ar u lower tree (list_names u auc)))
        (zero-InUnit fl ar law laws)
        (mean-InUnit fl ar law laws _ _ (field_of-InUnit tree (list_names u lost))
          (field_of-InUnit tree (list_names u auc)))
