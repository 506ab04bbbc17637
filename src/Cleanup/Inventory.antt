-- ===== src/Cleanup/Inventory.antt =====
-- cleanup.py: which files an inventory of image rows allows to be removed. Paths are texts; what
-- pathlib and the file system say of them is an interface.
use Prim.Native.String.{compare}
use Prim.Native.Nat.{Ordering}
use sm_artmatch.Prelude.{
  ℕ, ◌+◌, Bool, true, false, not, ◌&&◌, ◌||◌, Option, none, some, String, List, [], ◌∷◌, ◌++◌, map,
  if◌then◌else◌, str_eq,
}
use sm_artmatch.Prelude.Dicts.{Dict, contains, lookup, put}

pub record ImageUsage : Type 0 where
  pub image_file_id : ℕ
  pub file_path : String
  pub has_candidate_auction : Bool
  pub has_lost_reference : Bool
  pub has_protected_auction_reference : Bool
  pub has_direct_score_reference : Bool

pub record ResolvedUsage : Type 0 where
  pub usage : ImageUsage
  pub target : Option String
  pub deletion_authorized : Bool

-- pathlib and the file system: `join` is `/`, `parts` the parts of a path, and `relative_to` the parts of
-- a path below another, where it is below it.
pub record Paths : Type 0 where
  pub abspath : String → String
  pub resolve : String → String
  pub lexists : String → Bool
  pub is_absolute : String → Bool
  pub join : String → String → String
  pub parts : String → List String
  pub relative_to : String → String → Option (List String)
  pub has_nul : String → Bool
  pub image_root : String
  pub repo_root : String
  pub lock_path : String

abbrev pub protects_file : ImageUsage → Bool
protects_file u =
    u.has_lost_reference || u.has_protected_auction_reference || u.has_direct_score_reference

abbrev pub unresolved : ImageUsage → ResolvedUsage
unresolved u = record { usage = u; target = none; deletion_authorized = false }

abbrev pub resolved_to : ImageUsage → String → Bool → ResolvedUsage
resolved_to u target authorized = record {
  usage = u;
  target = some target;
  deletion_authorized = authorized;
}

abbrev pub is_prefix : List String → List String → Bool
is_prefix [] parts = true
is_prefix (part ∷ rest) [] = false
is_prefix (part ∷ rest) (other ∷ others) =
    let later = is_prefix rest others in str_eq part other && later

module _ (ps : Paths) where
  abbrev pub ordered : String → Option (List String) → List String
  ordered path none = ps.join ps.image_root path ∷ ps.join ps.repo_root path ∷ []
  ordered path (some root_parts) =
      if is_prefix root_parts (ps.parts path)
      then ps.join ps.repo_root path ∷ ps.join ps.image_root path ∷ []
      else ps.join ps.image_root path ∷ ps.join ps.repo_root path ∷ []

  -- The candidates with an absolute path of their own.
  abbrev pub without_repeats : List String → List String → List String
  without_repeats [] seen = []
  without_repeats (candidate ∷ rest) seen =
      let repeated = without_repeats rest seen in
      let new = without_repeats rest (ps.abspath candidate ∷ seen) in
      if contains (ps.abspath candidate) seen then repeated else candidate ∷ new

  unfoldable pub db_path_candidates : String → List String
  db_path_candidates path =
      if ps.is_absolute path
      then path ∷ []
      else without_repeats (ordered path (ps.relative_to ps.image_root ps.repo_root)) []

  -- The first candidate that exists, or else the first.
  abbrev pub select : String → List String → String
  select default [] = default
  select default (candidate ∷ rest) =
      let later = select default rest in if ps.lexists candidate then candidate else later

  -- There is always a candidate.
  abbrev pub selected : List String → String
  selected [] = ""
  selected (candidate ∷ rest) = select candidate (candidate ∷ rest)

  abbrev pub authorized_parts : Option (List String) → Bool
  authorized_parts none = false
  authorized_parts (some []) = true
  authorized_parts (some (part ∷ rest)) = not (str_eq part ".smartmatch-cleanup-quarantine")

  abbrev pub resolve_selected : ImageUsage → String → ResolvedUsage
  resolve_selected u lexical = resolved_to u (ps.resolve lexical) (
      authorized_parts (ps.relative_to (ps.resolve lexical) ps.image_root)
      && str_eq lexical (ps.resolve lexical)
      && not (str_eq (ps.resolve lexical) ps.lock_path))

  unfoldable pub resolve_usage : ImageUsage → ResolvedUsage
  resolve_usage u =
      if str_eq u.file_path "" || ps.has_nul u.file_path
      then unresolved u
      else resolve_selected u (ps.abspath (selected (db_path_candidates u.file_path)))

  abbrev pub any_resolves : String → List String → Bool
  any_resolves target [] = false
  any_resolves target (candidate ∷ rest) =
      let later = any_resolves target rest in
      str_eq (ps.resolve (ps.abspath candidate)) target || later

  unfoldable pub db_path_can_resolve_to_target : String → String → Bool
  db_path_can_resolve_to_target raw_path target =
      not (str_eq raw_path "" || ps.has_nul raw_path)
      && any_resolves target (db_path_candidates raw_path)

  -- Of a row's path and the path of an operation below the image root: what the recovery asks.
  abbrev pub row_path_resolves : String → String → Bool
  row_path_resolves raw_path relative_path =
      db_path_can_resolve_to_target raw_path (ps.resolve (ps.join ps.image_root relative_path))

abbrev pub TargetGroup : Type 0
TargetGroup = String × List ResolvedUsage

abbrev pub members : Option (List ResolvedUsage) → List ResolvedUsage
members none = []
members (some rows) = rows

-- `groups.setdefault(target, []).append(item)`
abbrev pub add_to :
    ResolvedUsage → Option String → Dict (List ResolvedUsage) → Dict (List ResolvedUsage)
add_to item none groups = groups
add_to item (some target) groups = put target (members (lookup target groups) ++ item ∷ []) groups

unfoldable pub group_usages :
    List ResolvedUsage → Dict (List ResolvedUsage) → Dict (List ResolvedUsage)
group_usages [] groups = groups
group_usages (item ∷ items) groups = group_usages items (add_to item item.target groups)

abbrev pub any_candidate : List ResolvedUsage → Bool
any_candidate [] = false
any_candidate (row ∷ rows) =
    let rest = any_candidate rows in row.usage.has_candidate_auction || rest

abbrev pub any_protects : List ResolvedUsage → Bool
any_protects [] = false
any_protects (row ∷ rows) = let rest = any_protects rows in protects_file row.usage || rest

-- Of the rows with a candidate auction.
abbrev pub any_authorized : List ResolvedUsage → Bool
any_authorized [] = false
any_authorized (row ∷ rows) =
    let rest = any_authorized rows in
    row.usage.has_candidate_auction && row.deletion_authorized || rest

abbrev pub comes_first : String → String → Bool
comes_first a b = elim (compare a b) [ Ordering.gt ↦ false | _ ↦ true ]

abbrev pub insert_group : TargetGroup → List TargetGroup → List TargetGroup
insert_group g [] = g ∷ []
insert_group g (h ∷ hs) =
    let rest = insert_group g hs in if comes_first g.0 h.0 then g ∷ h ∷ hs else h ∷ rest

-- The groups with a candidate, sorted by their targets.
unfoldable pub candidate_groups : List TargetGroup → List TargetGroup
candidate_groups [] = []
candidate_groups (g ∷ gs) =
    let rest = candidate_groups gs in if any_candidate g.1 then insert_group g rest else rest

unfoldable pub unresolved_candidates : List ResolvedUsage → ℕ
unresolved_candidates [] = 0
unresolved_candidates (item ∷ items) =
    unresolved_candidates items + is_unresolved item.target item.usage.has_candidate_auction
  where
    is_unresolved : Option String → Bool → ℕ
    is_unresolved none true = 1
    is_unresolved none false = 0
    is_unresolved (some target) candidate = 0

pub record Plan : Type 0 where
  pub operations : List TargetGroup
  pub protected_target_count : ℕ
  pub unsafe_target_count : ℕ

-- The loop over the candidate groups.
unfoldable pub plan_groups : List TargetGroup → Plan
plan_groups [] = record { operations = []; protected_target_count = 0; unsafe_target_count = 0 }
plan_groups (g ∷ gs) =
    let plan = plan_groups gs in
    if any_protects g.1
    then (record plan { protected_target_count = plan.protected_target_count + 1 })
    else if not (any_authorized g.1)
    then (record plan { unsafe_target_count = plan.unsafe_target_count + 1 })
    else (record plan { operations = g ∷ plan.operations })

-- What the inventory comes to before any file is looked at.
unfoldable pub plan_cleanup : Paths → List ImageUsage → Plan
plan_cleanup ps usages =
    let resolved = map (resolve_usage ps) usages in
    let plan = plan_groups (candidate_groups (group_usages resolved [])) in
    record plan { unsafe_target_count = plan.unsafe_target_count + unresolved_candidates resolved }
