-- ===== src/Similarity/Hierarchies.antt =====
-- similarity_functions/technique_and_material: matching_function.py for both hierarchies, and
-- count_confidence.py. The values are lists of texts, as the query gives them; a hierarchy is its
-- paths and its root's name.
use sm_artmatch.Prelude.{
  ℕ, ◌-◌, Bool, true, ◌&&◌, ◌||◌, Option, none, some, String, List, [], ◌∷◌, map, leb, length,
  str_eq, if◌then◌else◌, ltb,
}
use sm_artmatch.Prelude.Dicts.{Dict}
use sm_artmatch.Matching.{Floats}
use sm_artmatch.Artists.{Unicode, is_blank, strip, drop_blanks}
use sm_artmatch.Hierarchy.{get_path_to_root}
use sm_artmatch.Hierarchy.Distance.{Quotient, calculate_dict_similarity}
use sm_artmatch.Similarity.{Arithmetic, zero_f, clamp, mean}

pub record Tree : Type 0 where
  pub paths_to_root : Dict (List String)
  pub root_name : String

-- `_extract_names` of a list, in both modules.
abbrev pub list_names : Unicode → List String → List String
list_names u names = drop_blanks (map (strip u) names)

abbrev pub deeper : ℕ → ℕ → ℕ
deeper a b = if ltb a b then b else a

abbrev pub height_of : Dict (List String) → ℕ
height_of [] = 0
height_of ((name, path) ∷ paths) = deeper (length path - 1) (height_of paths)

module _ {F : Type 0} (fl : Floats F) (ar : Arithmetic F) (u : Unicode)
    (lower : String → String) where
  abbrev pub quotient : Option Quotient → Option F
  quotient none = none
  quotient (some q) = some (fl.div (ar.of_nat q.num) (ar.of_nat q.den))

  -- The names are extracted twice: in `similarity_function` and in `_calculate_dict_similarity`.
  unfoldable pub tree_similarity : Tree → List String → List String → Option F
  tree_similarity tree lost auc = quotient (
      calculate_dict_similarity lower tree.paths_to_root tree.root_name
        (list_names u (list_names u lost)) (list_names u (list_names u auc)))

  unfoldable pub dict_similarity :
      Tree → Tree → List String → List String → List String → List String → Option F × Option F
  dict_similarity materials techniques lost_material lost_technique auc_material auc_technique = (
    tree_similarity materials lost_material auc_material,
    tree_similarity techniques lost_technique auc_technique,
  )

  unfoldable pub hierarchy_height : Tree → ℕ
  hierarchy_height tree = height_of tree.paths_to_root

  abbrev pub is_root : Tree → String → Bool
  is_root tree name = str_eq (lower name) (lower tree.root_name)

  unfoldable pub node_depth_ratio : Tree → String → F
  node_depth_ratio tree name =
      if is_blank name || is_root tree name
      then zero_f fl
      else if leb (length (get_path_to_root tree.paths_to_root tree.root_name name)) 1
      then zero_f fl
      else if leb (hierarchy_height tree) 0
      then zero_f fl
      else clamp fl (
          fl.div (ar.of_nat (length (get_path_to_root tree.paths_to_root tree.root_name name) - 1))
            (ar.of_nat (hierarchy_height tree)))

  abbrev pub ratios : Tree → List String → List F
  ratios tree [] = []
  ratios tree (name ∷ names) = node_depth_ratio tree name ∷ ratios tree names

  abbrev pub field_of : Tree → List String → F
  field_of tree [] = zero_f fl
  field_of tree (name ∷ names) =
      fl.div (ar.sum (ratios tree (name ∷ names))) (ar.of_nat (length (name ∷ names)))

  unfoldable pub field_confidence : Tree → List String → F
  field_confidence tree value = field_of tree (list_names u value)

  -- True of no names, too.
  abbrev pub all_root : Tree → List String → Bool
  all_root tree [] = true
  all_root tree (name ∷ names) = let rest = all_root tree names in is_root tree name && rest

  abbrev pub is_missing_or_root : Tree → List String → Bool
  is_missing_or_root tree value = all_root tree (list_names u value)

  unfoldable pub tree_confidence : Tree → List String → List String → F
  tree_confidence tree lost auc =
      if is_missing_or_root tree lost || is_missing_or_root tree auc
      then zero_f fl
      else mean fl (field_confidence tree lost) (field_confidence tree auc)

  unfoldable pub dict_confidence :
      Tree → Tree → List String → List String → List String → List String → F × F
  dict_confidence materials techniques lost_material auc_material lost_technique auc_technique = (
    tree_confidence materials lost_material auc_material,
    tree_confidence techniques lost_technique auc_technique,
  )
