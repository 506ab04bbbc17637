-- ===== src/Cleanup/InventoryTests.antt =====
-- Tests and examples for the plan of an inventory: three rows, two of them with the same target.
use mathlib.Core.List.{Memᴰ}
use sm_artmatch.Prelude.{ℕ, ◌≡◌, refl, Bool, true, false, some, String, List, [], ◌∷◌, map, ◌↔◌}
use sm_artmatch.Prelude.Dicts.{lookup, put}
use sm_artmatch.Cleanup.Inventory.{
  db_path_candidates, ImageUsage, ResolvedUsage, Paths, resolve_usage, group_usages, any_protects,
  any_authorized, candidate_groups, unresolved_candidates, plan_groups, plan_cleanup,
}
use sm_artmatch.Cleanup.Groups.{with_target}
use sm_artmatch.Cleanup.Plans.{plan_cleanup-operations, plan_cleanup_protected}

abbrev plain_paths : Paths
plain_paths = record {
  abspath = λ path. path;
  resolve = λ path. path;
  lexists = λ path. true;
  is_absolute = λ path. true;
  join = λ root path. path;
  parts = λ path. path ∷ [];
  relative_to = λ path root. some ("a.jpg" ∷ []);
  has_nul = λ path. false;
  image_root = "/images";
  repo_root = "/repo";
  lock_path = "/images/.lock";
}

abbrev row : ℕ → String → Bool → ImageUsage
row id path is_lost = record {
  image_file_id = id;
  file_path = path;
  has_candidate_auction = true;
  has_lost_reference = is_lost;
  has_protected_auction_reference = false;
  has_direct_score_reference = false;
}

abbrev usages : List ImageUsage
usages = row 7 "/images/a.jpg" false ∷ row 8 "/images/b.jpg" false ∷ row 9 "/images/b.jpg" true ∷ []

abbrev only : List ResolvedUsage
only = resolve_usage plain_paths (row 7 "/images/a.jpg" false) ∷ []

planned : (plan_cleanup plain_paths usages).operations ≡ ("/images/a.jpg", only) ∷ []
unfolding plan_cleanup resolve_usage db_path_candidates lookup put group_usages candidate_groups
    plan_groups unresolved_candidates
planned = refl

plan_cleanup-operations_example :
    Memᴰ ("/images/a.jpg", only) (plan_cleanup plain_paths usages).operations ↔ (
      (only ≡ with_target "/images/a.jpg" (map (resolve_usage plain_paths) usages))
      × ((any_protects only ≡ false) × (any_authorized only ≡ true)))
plan_cleanup-operations_example = plan_cleanup-operations plain_paths usages "/images/a.jpg" only

plan_cleanup_protected_example :
    ¬ Memᴰ ("/images/b.jpg", only) (plan_cleanup plain_paths usages).operations
unfolding resolve_usage db_path_candidates
plan_cleanup_protected_example =
    plan_cleanup_protected plain_paths usages (row 9 "/images/b.jpg" true) "/images/b.jpg" only
      (Memᴰ.tail (Memᴰ.tail (Memᴰ.head refl))) refl refl

-- A relative path is looked for below the image root and below the repository's root.
looked_for :
    db_path_candidates (record plain_paths { is_absolute = λ path. false }) "a.jpg" ≡ "a.jpg" ∷ []
unfolding db_path_candidates
looked_for = refl
