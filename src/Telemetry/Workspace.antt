-- ===== src/Telemetry/Workspace.antt =====
-- telemetry/sync_budget.py: the budgets for transfer, materialisation and disk of the telemetry
-- synchronisation, with the limits of sync_constants.py. The size of a page is a natural number, the
-- other numbers are integers. The free space of the disk is read anew in each test: an argument. The
-- size of a tracked file is what `_file_size` returns.
pub mod Limits
mod Tests
use sm_artmatch.Prelude.{
  ℕ, ◌+◌, ◌*◌, Bool, true, false, ◌||◌, Option, none, some, String, List, [], ◌∷◌, ltb, leb,
  if◌then◌else◌, Result, ok, err, ◌>>=◌, str_eq,
}
use sm_artmatch.Prelude.Int.{ℤ, pos, pos_part, ◌+ℤ◌, ◌-ℤ◌, ltb_ℤ, leb_ℤ, min_ℤ}

pub data Error : Type 0 where
  transfer_limit materialization_limit too_many_pages workspace_full free_space_reserve : Error
  no_capacity not_tracked invalid_release : Error

abbrev pub min_free_bytes : ℤ
min_free_bytes = pos (256 * 1024 * 1024)

abbrev pub fixed_overhead : ℤ
fixed_overhead = pos (64 * 1024)

abbrev pub row_overhead : ℕ
row_overhead = 256

pub record TransferBudget : Type 0 where
  pub max_bytes : ℕ
  pub attempted_bytes : ℕ

unfoldable pub debit : ℕ → TransferBudget → Result Error TransferBudget
debit size b =
    if ltb b.max_bytes (b.attempted_bytes + size)
    then err transfer_limit
    else ok (record b { attempted_bytes = b.attempted_bytes + size })

pub record MaterializationBudget : Type 0 where
  pub max_bytes : ℕ
  pub estimated_bytes : ℕ

unfoldable pub reserve : ℤ → ℤ → MaterializationBudget → Result Error MaterializationBudget
reserve payload_bytes row_count b =
    let attempted =
      b.estimated_bytes + (pos_part payload_bytes + pos_part row_count * row_overhead) in
    if ltb b.max_bytes attempted
    then err materialization_limit
    else ok (record b { estimated_bytes = attempted })

pub record WorkspaceBudget : Type 0 where
  pub max_bytes : ℤ
  pub max_pages : ℕ
  pub page_count : ℕ
  pub used_bytes : ℤ
  pub tracked_file_sizes : List (String × ℤ)

abbrev pub tracked_size : String → List (String × ℤ) → Option ℤ
tracked_size path [] = none
tracked_size path ((p, size) ∷ sizes) =
    let rest = tracked_size path sizes in if str_eq p path then some size else rest

abbrev pub set_size : String → ℤ → List (String × ℤ) → List (String × ℤ)
set_size path size [] = (path, size) ∷ []
set_size path size ((p, old) ∷ sizes) =
    let rest = set_size path size sizes in
    if str_eq p path then (p, size) ∷ sizes else (p, old) ∷ rest

unfoldable pub track_file : String → ℤ → WorkspaceBudget → WorkspaceBudget
track_file path size b = record b { tracked_file_sizes = set_size path size b.tracked_file_sizes }

abbrev refreshed : Option ℤ → String → ℤ → WorkspaceBudget → Result Error WorkspaceBudget
refreshed none path size b = err not_tracked
refreshed (some old) path size b = ok (record b {
  used_bytes = b.used_bytes +ℤ (size -ℤ old);
  tracked_file_sizes = set_size path size b.tracked_file_sizes;
})

unfoldable pub refresh_file : String → ℤ → WorkspaceBudget → Result Error WorkspaceBudget
refresh_file path size b = refreshed (tracked_size path b.tracked_file_sizes) path size b

unfoldable pub release : ℤ → WorkspaceBudget → Result Error WorkspaceBudget
release size b =
    if ltb_ℤ size (pos 0) || ltb_ℤ b.used_bytes size
    then err invalid_release
    else ok (record b { used_bytes = b.used_bytes -ℤ size })

unfoldable pub ensure_page_capacity : ℕ → ℤ → WorkspaceBudget → Result Error (Unit {0})
ensure_page_capacity reserved_pages free b =
    if ltb b.max_pages (b.page_count + 1 + reserved_pages)
    then err too_many_pages
    else if leb_ℤ b.max_bytes b.used_bytes
    then err workspace_full
    else if leb_ℤ free min_free_bytes
    then err free_space_reserve
    else ok tt

-- The part of `next_page_materialization_limit` that follows the first check.
abbrev pub page_limit : ℤ → ℤ → WorkspaceBudget → Result Error ℤ
page_limit requested_bytes free b =
    let available = min_ℤ (b.max_bytes -ℤ b.used_bytes) (free -ℤ min_free_bytes) in
    if leb_ℤ available fixed_overhead then err no_capacity else ok (min_ℤ requested_bytes available)

unfoldable pub next_page_materialization_limit : ℤ → ℤ → ℤ → WorkspaceBudget → Result Error ℤ
unfolding ensure_page_capacity
next_page_materialization_limit requested_bytes free free' b = do
  _ ← ensure_page_capacity 0 free b
  page_limit requested_bytes free' b

-- The part of `reserve_page` that follows the first check.
abbrev pub reserve_checked : ℕ → ℤ → WorkspaceBudget → Result Error WorkspaceBudget
reserve_checked size free b =
    if ltb_ℤ b.max_bytes (b.used_bytes +ℤ pos size)
    then err workspace_full
    else if ltb_ℤ (free -ℤ pos size) min_free_bytes
    then err free_space_reserve
    else ok (record b { used_bytes = b.used_bytes +ℤ pos size; page_count = b.page_count + 1 })

unfoldable pub reserve_page : ℕ → ℤ → ℤ → WorkspaceBudget → Result Error WorkspaceBudget
unfolding ensure_page_capacity
reserve_page size free free' b = do _ ← ensure_page_capacity 0 free b; reserve_checked size free' b

unfoldable pub ensure_within_limit : ℤ → WorkspaceBudget → Result Error (Unit {0})
ensure_within_limit free b =
    if ltb_ℤ b.max_bytes b.used_bytes
    then err workspace_full
    else if ltb_ℤ free min_free_bytes
    then err free_space_reserve
    else ok tt
