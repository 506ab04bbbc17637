-- ===== src/Hierarchy/Tests.antt =====
-- A small hierarchy with a cycle in it.
use sm_artmatch.Prelude.{◌≡◌, refl, Option, some, none, String, List, [], ◌∷◌, ◌≤◌, ◌<◌}
use sm_artmatch.Prelude.Dicts.{lookup, Dict}
use sm_artmatch.Hierarchy.{get_path_to_root, load_csv, compute_path}
use sm_artmatch.Hierarchy.Distance.{Quotient, get_parent_distance, calculate_dict_similarity}
use sm_artmatch.Hierarchy.Similarity.{get_parent_distance-share}
use sm_artmatch.Hierarchy.Paths.{IsChain, compute_path-IsChain}

abbrev materials : Dict (Option String)
materials =
    ("Metall", some "Material")
    ∷ ("Kupfer", some "Metall")
    ∷ ("Material", none)
    ∷ ("a", some "b")
    ∷ ("b", some "a")
    ∷ []

loads_rows :
    load_csv (
      (some "Metall", some "Material")
      ∷ (some "Kupfer", some "Holz")
      ∷ (some "", some "Holz")
      ∷ (some "Kupfer", some "Metall")
      ∷ (some "Material", some "")
      ∷ (some "a", some "b")
      ∷ (some "b", some "a")
      ∷ [])
    ≡ materials
unfolding load_csv
loads_rows = refl

climbs_to_root :
    compute_path materials "unbekannt" "Kupfer" ≡ some ("Kupfer" ∷ "Metall" ∷ "Material" ∷ [])
unfolding compute_path
climbs_to_root = refl

leaves_cycle : compute_path materials "unbekannt" "a" ≡ some ("a" ∷ "b" ∷ "a" ∷ [])
unfolding compute_path
leaves_cycle = refl

compute_path-IsChain_example :
    (rest : List String) × (compute_path materials "unbekannt" "Kupfer" ≡ some ("Kupfer" ∷ rest))
    × IsChain materials "unbekannt" ("Kupfer" ∷ rest)
compute_path-IsChain_example = compute_path-IsChain materials "unbekannt" "Kupfer"

-- Names that are lower case already.
abbrev lower : String → String
lower text = text

abbrev paths : Dict (List String)
paths =
    ("Kupfer", "Kupfer" ∷ "Metall" ∷ "Material" ∷ [])
    ∷ ("Zink", "Zink" ∷ "Metall" ∷ "Material" ∷ [])
    ∷ []

abbrev third : Quotient
third = record { num = 1; den = 3 }

shares_one_edge : get_parent_distance lower paths "unbekannt" "Kupfer" "Zink" ≡ some third
unfolding get_parent_distance get_path_to_root lookup
shares_one_edge = refl

takes_best :
    calculate_dict_similarity lower paths "unbekannt" ("Kupfer" ∷ []) ("Holz" ∷ "Zink" ∷ [])
    ≡ some third
unfolding calculate_dict_similarity get_path_to_root lookup
takes_best = refl

get_parent_distance-share_example :
    (get_parent_distance lower paths "unbekannt" "Kupfer" "Zink"
      ≡ get_parent_distance lower paths "unbekannt" "Zink" "Kupfer")
    × ((sim : Quotient)
        → get_parent_distance lower paths "unbekannt" "Kupfer" "Zink" ≡ some sim
        → (sim.num ≤ sim.den) × (0 < sim.den))
get_parent_distance-share_example =
    get_parent_distance-share lower paths "unbekannt" "Kupfer" "Zink"
