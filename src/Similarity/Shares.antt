-- ===== src/Similarity/Shares.antt =====
-- About the best share of all pairs of names of two lists.
use sm_artmatch.Prelude.{
  ◌≤◌, ◌<◌, ◌≡◌, refl, Bool, Option, none, some, String, List, [], ◌∷◌, if◌then◌else◌,
}
use sm_artmatch.Prelude.Dicts.{Dict}
use sm_artmatch.Hierarchy.Distance.{
  Quotient, get_parent_distance, greater, better, best_for, best_of, calculate_dict_similarity,
}
use sm_artmatch.Hierarchy.Similarity.{get_parent_distance-share}

abbrev pub IsShare : Option Quotient → Type 0
IsShare none = Unit
IsShare (some q) = (q.num ≤ q.den) × (0 < q.den)

module _ (lower : String → String) (paths : Dict (List String)) (root_name : String) where
  all_shares :
      (o : Option Quotient)
      → ((q : Quotient) → o ≡ some q → (q.num ≤ q.den) × (0 < q.den))
      → IsShare o
  all_shares none h = tt
  all_shares (some q) h = h q refl

  get_parent_distance-IsShare :
      (name1 name2 : String) → IsShare (get_parent_distance lower paths root_name name1 name2)
  get_parent_distance-IsShare name1 name2 =
      all_shares (get_parent_distance lower paths root_name name1 name2)
        (get_parent_distance-share lower paths root_name name1 name2).1

  if-IsShare :
      (b : Bool) (p q : Option Quotient) → IsShare p → IsShare q → IsShare (if b then p else q)
  if-IsShare Bool.true p q h k = h
  if-IsShare Bool.false p q h k = k

  better-IsShare :
      (sim best : Option Quotient)
      → IsShare sim
      → IsShare best
      → IsShare (better lower paths root_name sim best)
  better-IsShare none best h k = k
  better-IsShare (some sim) none h k = h
  better-IsShare (some sim) (some best) h k =
      if-IsShare (greater lower paths root_name sim best) (some sim) (some best) h k

  best_for-IsShare :
      (name : String) (names : List String) (best : Option Quotient)
      → IsShare best
      → IsShare (best_for lower paths root_name name names best)
  unfolding best_for
  best_for-IsShare name [] best h = h
  best_for-IsShare name (other ∷ names) best h =
      let sim = get_parent_distance lower paths root_name name other in
      best_for-IsShare name names (better lower paths root_name sim best)
        (better-IsShare sim best (get_parent_distance-IsShare name other) h)

  best_of-IsShare :
      (names others : List String) (best : Option Quotient)
      → IsShare best
      → IsShare (best_of lower paths root_name names others best)
  unfolding best_of
  best_of-IsShare [] others best h = h
  best_of-IsShare (name ∷ names) others best h =
      best_of-IsShare names others (best_for lower paths root_name name others best)
        (best_for-IsShare name others best h)

  pub calculate_dict_similarity-IsShare :
      (names others : List String)
      → IsShare (calculate_dict_similarity lower paths root_name names others)
  unfolding calculate_dict_similarity
  calculate_dict_similarity-IsShare names others = best_of-IsShare names others none tt
