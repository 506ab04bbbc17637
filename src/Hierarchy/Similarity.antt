-- ===== src/Hierarchy/Similarity.antt =====
-- About `_get_parent_distance` of matching_function.py: its range, and its two names.
use sm_artmatch.Prelude.{
  ℕ, ◌+◌, ◌-◌, ◌≤◌, ◌<◌, ◌≡◌, refl, ◌∙◌, some, String, List, [], ◌∷◌, arith, length, length-append,
  eq_iff,
}
use sm_artmatch.Prelude.Dicts.{Dict}
use sm_artmatch.Hierarchy.{get_path_to_root}
use sm_artmatch.Hierarchy.Distance.{
  Quotient, reversed, common_nodes, path_similarity, get_parent_distance,
}

common_nodes_comm : (xs ys : List String) → common_nodes xs ys ≡ common_nodes ys xs
unfolding common_nodes
common_nodes_comm [] [] = refl
common_nodes_comm [] (y ∷ ys) = refl
common_nodes_comm (x ∷ xs) [] = refl
common_nodes_comm (x ∷ xs) (y ∷ ys) =
    ground (arith, common_nodes_comm xs ys, eq_iff x y, eq_iff y x)

common_nodes-le : (xs ys : List String) → common_nodes xs ys ≤ length xs
unfolding common_nodes
common_nodes-le [] ys = omega arith
common_nodes-le (x ∷ xs) [] = omega arith
common_nodes-le (x ∷ xs) (y ∷ ys) = ground (arith, common_nodes-le xs ys)

length-reversed : (xs : List String) → length (reversed xs) ≡ length xs
length-reversed [] = refl
length-reversed (x ∷ xs) = length-append (reversed xs) (x ∷ []) ∙ omega (arith, length-reversed xs)

path_similarity_comm : (p q : List String) → path_similarity p q ≡ path_similarity q p
unfolding path_similarity
path_similarity_comm p q =
    rw (common_nodes_comm (reversed p) (reversed q), sum_comm (length p - 1) (length q - 1)) refl
  where
    sum_comm : (a b : ℕ) → a + b ≡ b + a
    sum_comm a b = omega arith

path_similarity-share :
    (p q : List String)
    → ((path_similarity p q).num ≤ (path_similarity p q).den) × (0 < (path_similarity p q).den)
unfolding path_similarity
path_similarity-share p q =
    let left = common_nodes-le (reversed p) (reversed q) in
    let right = common_nodes-le (reversed q) (reversed p) in
    ground (
      arith,
      left,
      right,
      common_nodes_comm (reversed p) (reversed q),
      length-reversed p,
      length-reversed q,
    )

-- The similarity of two names does not depend on which comes first, and where there is one it is a
-- share: its denominator is positive, and its numerator is no larger.
pub get_parent_distance-share :
    (lower : String → String) (paths : Dict (List String)) (root_name name1 name2 : String)
    → (get_parent_distance lower paths root_name name1 name2
        ≡ get_parent_distance lower paths root_name name2 name1)
      × ((sim : Quotient)
          → get_parent_distance lower paths root_name name1 name2 ≡ some sim
          → (sim.num ≤ sim.den) × (0 < sim.den))
unfolding get_parent_distance
get_parent_distance-share lower paths root_name name1 name2 = (
  ground (
    arith,
    eq_iff name1 name2,
    eq_iff name2 name1,
    path_similarity_comm (get_path_to_root paths root_name name1)
        (get_path_to_root paths root_name name2),
  ),
  λ sim h. ground (
    arith,
    path_similarity-share (get_path_to_root paths root_name name1)
        (get_path_to_root paths root_name name2),
  ),
)
