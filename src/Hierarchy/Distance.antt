-- ===== src/Hierarchy/Distance.antt =====
-- technique_and_material/matching_function.py: the similarity of two names is the share of the
-- edges of their paths to the root that the paths have in common. A quotient is its numerator and
-- denominator. `lower` is Python's str.lower.
use sm_artmatch.Prelude.{
  ℕ, ◌+◌, ◌-◌, ◌*◌, Bool, ◌||◌, Option, none, some, String, List, [], ◌∷◌, ◌++◌, length, ltb, ◌==◌,
  if◌then◌else◌, str_eq,
}
use sm_artmatch.Prelude.Dicts.{Dict}
use sm_artmatch.Hierarchy.{get_path_to_root}

pub record Quotient : Type 0 where
  pub num : ℕ
  pub den : ℕ

abbrev pub one : Quotient
one = record { num = 1; den = 1 }

abbrev pub reversed : List String → List String
reversed [] = []
reversed (x ∷ xs) = reversed xs ++ x ∷ []

unfoldable pub common_nodes : List String → List String → ℕ
common_nodes [] ys = 0
common_nodes (x ∷ xs) [] = 0
common_nodes (x ∷ xs) (y ∷ ys) = let rest = common_nodes xs ys in if str_eq x y then rest + 1 else 0

-- The quotient of two paths; `ℕ` has 0 for `max(0, n - 1)` of 0.
unfoldable pub path_similarity : List String → List String → Quotient
unfolding common_nodes
path_similarity path1 path2 =
    let common_edges = common_nodes (reversed path1) (reversed path2) - 1 in
    let total = length path1 - 1 + (length path2 - 1) - common_edges in
    if total == 0 then one else (record { num = common_edges; den = total })

module _ (lower : String → String) (paths : Dict (List String)) (root_name : String) where
  unfoldable pub get_parent_distance : String → String → Option Quotient
  unfolding path_similarity
  get_parent_distance name1 name2 =
      if str_eq name1 "" || str_eq name2 ""
      then none
      else if str_eq (lower name1) (lower root_name) || str_eq (lower name2) (lower root_name)
      then none
      else if str_eq name1 name2
      then some one
      else some (
          path_similarity (get_path_to_root paths root_name name1)
            (get_path_to_root paths root_name name2))

  -- `sim > best_similarity`, for quotients with positive denominators.
  abbrev pub greater : Quotient → Quotient → Bool
  greater a b = ltb (b.num * a.den) (a.num * b.den)

  abbrev pub better : Option Quotient → Option Quotient → Option Quotient
  better none best = best
  better (some sim) none = some sim
  better (some sim) (some best) = if greater sim best then some sim else some best

  -- The two loops of `_calculate_dict_similarity`, over names that have been extracted.
  unfoldable pub best_for : String → List String → Option Quotient → Option Quotient
  unfolding get_parent_distance
  best_for lost_name [] best = best
  best_for lost_name (auc_name ∷ auc_names) best =
      best_for lost_name auc_names (better (get_parent_distance lost_name auc_name) best)

  unfoldable pub best_of : List String → List String → Option Quotient → Option Quotient
  unfolding best_for
  best_of [] auc_names best = best
  best_of (lost_name ∷ lost_names) auc_names best =
      best_of lost_names auc_names (best_for lost_name auc_names best)

  -- With no names on a side no pair is compared, and the result is None as in the early return.
  unfoldable pub calculate_dict_similarity : List String → List String → Option Quotient
  unfolding best_of
  calculate_dict_similarity lost_names auc_names = best_of lost_names auc_names none
