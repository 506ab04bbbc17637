-- ===== src/Telemetry/Workspace/Tests.antt =====
-- A small workspace budget, and the theorems applied to it.
use sm_artmatch.Prelude.{◌+◌, ◌≤◌, ◌≡◌, refl, [], ◌∷◌, arith, ok}
use sm_artmatch.Prelude.Int.{ℤ, pos, ◌≤ℤ◌, ◌+ℤ◌, ◌-ℤ◌}
use sm_artmatch.Telemetry.Workspace.{
  TransferBudget, debit, WorkspaceBudget, min_free_bytes, next_page_materialization_limit,
  reserve_page,
}
use sm_artmatch.Telemetry.Workspace.Limits.{
  transfers, next_page_materialization_limit-fits, reserve_page_within,
}

abbrev transfer : TransferBudget
transfer = record { max_bytes = 100; attempted_bytes = 0 }

refuses_third : (transfers (60 ∷ 30 ∷ 20 ∷ 10 ∷ []) transfer).attempted_bytes ≡ 100
unfolding debit
refuses_third = refl

abbrev workspace : WorkspaceBudget
workspace = record {
  max_bytes = pos 1000000;
  max_pages = 3;
  page_count = 2;
  used_bytes = pos 800000;
  tracked_file_sizes = [];
}

abbrev free : ℤ
free = pos 300000000

abbrev reserved : WorkspaceBudget
reserved = record workspace { page_count = 3; used_bytes = pos 900000 }

limits_page : next_page_materialization_limit (pos 500000) free free workspace ≡ ok (pos 200000)
unfolding next_page_materialization_limit ◌-ℤ◌
limits_page = refl

reserves_page : reserve_page 100000 free free workspace ≡ ok reserved
unfolding reserve_page ◌+ℤ◌ ◌-ℤ◌
reserves_page = refl

next_page_materialization_limit-fits_example :
    reserve_page 100000 free free workspace
    ≡ ok (record workspace {
      used_bytes = workspace.used_bytes +ℤ pos 100000;
      page_count = workspace.page_count + 1;
    })
next_page_materialization_limit-fits_example =
    next_page_materialization_limit-fits (pos 500000) free free 100000 workspace (pos 200000)
      limits_page (omega arith)

reserve_page_within_example :
    (reserved.used_bytes ≤ℤ reserved.max_bytes)
    × (reserved.page_count ≤ reserved.max_pages)
    × (min_free_bytes ≤ℤ free -ℤ pos 100000)
reserve_page_within_example = reserve_page_within 100000 free free workspace reserved reserves_page
