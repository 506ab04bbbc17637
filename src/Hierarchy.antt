-- ===== src/Hierarchy.antt =====
-- matching_pipeline/metadata_matching/similarity_functions/technique_and_material: the material and
-- technique hierarchies (load_hierarchy.py). A hierarchy is a dict from a name to its parent, here
-- an association list with one entry for a name; a row of the CSV file is its two columns.
pub mod Paths
pub mod Distance
pub mod Similarity
mod Tests
use sm_artmatch.Prelude.Dicts.{contains, Dict, lookup, put}
use sm_artmatch.Prelude.{
  ℕ, zero, suc, ◌+◌, Bool, true, false, not, ◌||◌, Option, none, some, String, List, [], ◌∷◌, ◌++◌,
  map, length, if◌then◌else◌, str_eq,
}

-- `parent if parent else None`
abbrev or_none : Option String → Option String
or_none none = none
or_none (some text) = if str_eq text "" then none else some text

-- `if name: hierarchy[name] = …`
unfoldable pub add_row : Option String → Option String → Dict (Option String) → Dict (Option String)
unfolding put
add_row none parent hierarchy = hierarchy
add_row (some name) parent hierarchy =
    if str_eq name "" then hierarchy else put name (or_none parent) hierarchy

unfoldable pub load_rows :
    List (Option String × Option String) → Dict (Option String) → Dict (Option String)
unfolding add_row
load_rows [] hierarchy = hierarchy
load_rows ((name, parent) ∷ rows) hierarchy = load_rows rows (add_row name parent hierarchy)

unfoldable pub load_csv : List (Option String × Option String) → Dict (Option String)
unfolding load_rows
load_csv rows = load_rows rows []

module _ (hierarchy : Dict (Option String)) (root_name : String) where
  -- What the loop does at `current`: it ends with the path as it is, ends with one more node, or
  -- goes on to the parent.
  pub data Turn : Type 0 where
    leave : Turn
    leave_at : String → Turn
    climb : String → Turn

  abbrev pub at_parent : List String → Option (Option String) → Turn
  at_parent visited none = leave
  at_parent visited (some none) = leave
  at_parent visited (some (some parent)) =
      if str_eq parent ""
      then leave
      else (if contains parent visited || str_eq parent root_name
          then leave_at parent
          else climb parent)

  unfoldable pub turn : String → List String → Turn
  unfolding lookup
  turn current visited =
      if str_eq current "" then leave else at_parent visited (lookup current hierarchy)

  abbrev pub follow : List String → Turn → (String → Option (List String)) → Option (List String)
  follow path leave rest = some path
  follow path (leave_at parent) rest = some (path ++ parent ∷ [])
  follow path (climb parent) rest = rest parent

  -- The `while` loop of `compute_path`; none is out of fuel.
  unfoldable pub walk : ℕ → String → List String → List String → Option (List String)
  unfolding turn
  walk zero current visited path = none
  walk (suc fuel) current visited path =
      follow path (turn current visited)
        (λ parent. walk fuel parent (parent ∷ visited) (path ++ parent ∷ []))

  -- `compute_path(name)`, called with no visited nodes for a name without a path.
  unfoldable pub compute_path : String → Option (List String)
  unfolding walk
  compute_path name = walk (length hierarchy + 2) name (name ∷ []) (name ∷ [])

  abbrev pub keys : List String
  keys = map (λ (entry : String × Option String). entry.0) hierarchy

-- `_precompute_paths`: the path of every name of the hierarchy.
unfoldable pub paths_of : Dict (Option String) → String → List String → Option (Dict (List String))
unfolding compute_path
paths_of hierarchy root_name [] = some []
paths_of hierarchy root_name (name ∷ names) = elim (compute_path hierarchy root_name name) [
  | none ↦ none
  | some path ↦ elim (paths_of hierarchy root_name names) [
    | none ↦ none
    | some paths ↦ some ((name, path) ∷ paths)
  ]
]

unfoldable pub precompute_paths : Dict (Option String) → String → Option (Dict (List String))
unfolding paths_of
precompute_paths hierarchy root_name = paths_of hierarchy root_name (keys hierarchy root_name)

abbrev or_root : String → Option (List String) → List String
or_root root_name none = root_name ∷ []
or_root root_name (some []) = root_name ∷ []
or_root root_name (some (node ∷ nodes)) = node ∷ nodes

unfoldable pub get_path_to_root : Dict (List String) → String → String → List String
get_path_to_root paths root_name name =
    if str_eq name "" then root_name ∷ [] else or_root root_name (lookup name paths)
