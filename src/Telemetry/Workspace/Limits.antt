-- ===== src/Telemetry/Workspace/Limits.antt =====
-- About the budgets of sync_budget.py: transfers, the limit for the next page, and its reservation.
use sm_artmatch.Prelude.{
  ℕ, ◌+◌, ◌≤◌, ◌≡◌, refl, false, Bool-cases, inl, inr, List, [], ◌∷◌, arith, ltb, Result, ok, err,
  >>=-eq-ok, ok-injective,
}
use mathlib.Core.Path.{subst}
use sm_artmatch.Prelude.Int.{+ℤ_parts, -ℤ_parts, ℤ, pos, ◌+ℤ◌, ◌-ℤ◌, ◌≤ℤ◌, ltb_ℤ}
use sm_artmatch.Telemetry.Workspace.{
  Error, TransferBudget, debit, WorkspaceBudget, min_free_bytes, ensure_page_capacity, page_limit,
  next_page_materialization_limit, reserve_checked, reserve_page,
}

-- A transfer that the budget refuses is not made.
abbrev debited : Result Error TransferBudget → TransferBudget → TransferBudget
debited (ok b') b = b'
debited (err e) b = b

abbrev pub transfers : List ℕ → TransferBudget → TransferBudget
transfers [] b = b
transfers (size ∷ sizes) b = transfers sizes (debited (debit size b) b)

debited-within :
    (size : ℕ) (b : TransferBudget)
    → b.attempted_bytes ≤ b.max_bytes
    → ((debited (debit size b) b).attempted_bytes ≤ b.max_bytes)
      × ((debited (debit size b) b).max_bytes ≡ b.max_bytes)
unfolding debit
debited-within size b h = elim (Bool-cases (ltb b.max_bytes (b.attempted_bytes + size))) [
  | inl much ↦ rw much (h, refl)
  | inr fits ↦ rw fits (ground arith, refl)
]

-- However many transfers of whatever size are attempted, the bytes of those that the budget allows
-- never exceed its maximum.
pub transfers_within :
    (sizes : List ℕ) (b : TransferBudget)
    → b.attempted_bytes ≤ b.max_bytes
    → (transfers sizes b).attempted_bytes ≤ b.max_bytes
transfers_within [] b h = h
transfers_within (size ∷ sizes) b h =
    let (within, same) = debited-within size b h in
    let rest = transfers_within sizes (debited (debit size b) b) (omega (arith, within, same)) in
    omega (arith, rest, same)

page_limit-le :
    (requested free : ℤ) (b : WorkspaceBudget) {limit : ℤ}
    → page_limit requested free b ≡ ok limit
    → (limit ≤ℤ b.max_bytes -ℤ b.used_bytes) × (limit ≤ℤ free -ℤ min_free_bytes)
page_limit-le requested free b h = ground arith

room_in_workspace :
    (size : ℕ) (maximum used limit : ℤ)
    → pos size ≤ℤ limit
    → limit ≤ℤ maximum -ℤ used
    → ltb_ℤ maximum (used +ℤ pos size) ≡ false
room_in_workspace size maximum used limit fits le =
    ground (arith, +ℤ_parts used (pos size), -ℤ_parts maximum used)

room_on_disk :
    (size : ℕ) (free limit : ℤ)
    → pos size ≤ℤ limit
    → limit ≤ℤ free -ℤ min_free_bytes
    → ltb_ℤ (free -ℤ pos size) min_free_bytes ≡ false
room_on_disk size free limit fits le =
    ground (arith, -ℤ_parts free (pos size), -ℤ_parts free min_free_bytes)

page_limit-fits :
    (requested free : ℤ) (size : ℕ) (b : WorkspaceBudget) {limit : ℤ}
    → page_limit requested free b ≡ ok limit
    → pos size ≤ℤ limit
    → reserve_checked size free b
      ≡ ok (record b { used_bytes = b.used_bytes +ℤ pos size; page_count = b.page_count + 1 })
page_limit-fits requested free size b {limit} h fits =
    let (le, le') = page_limit-le requested free b h in
    simp (
      room_in_workspace size b.max_bytes b.used_bytes limit fits le,
      room_on_disk size free limit fits le',
    )

-- A page no larger than the limit for the next page can be reserved, where the free space has not
-- changed since; it is added to the bytes used and to the pages.
pub next_page_materialization_limit-fits :
    (requested free free' : ℤ) (size : ℕ) (b : WorkspaceBudget) (limit : ℤ)
    → next_page_materialization_limit requested free free' b ≡ ok limit
    → pos size ≤ℤ limit
    → reserve_page size free free' b
      ≡ ok (record b { used_bytes = b.used_bytes +ℤ pos size; page_count = b.page_count + 1 })
unfolding next_page_materialization_limit reserve_page
next_page_materialization_limit-fits requested free free' size b limit h fits =
    let (_, capacity, bounded) =
      >>=-eq-ok (ensure_page_capacity 0 free b) (λ _. page_limit requested free' b) {b = limit} h in
    simp capacity (page_limit-fits requested free' size b bounded fits)

capacity-pages :
    (free : ℤ) (b : WorkspaceBudget) {u : Unit {0}}
    → ensure_page_capacity 0 free b ≡ ok u
    → b.page_count + 1 ≤ b.max_pages
unfolding ensure_page_capacity
capacity-pages free b h = ground arith

reserve_checked_within :
    (size : ℕ) (free : ℤ) (b b' : WorkspaceBudget)
    → b.page_count + 1 ≤ b.max_pages
    → reserve_checked size free b ≡ ok b'
    → (b'.used_bytes ≤ℤ b'.max_bytes)
      × (b'.page_count ≤ b'.max_pages)
      × (min_free_bytes ≤ℤ free -ℤ pos size)
reserve_checked_within size free b b' pages h =
    elim (Bool-cases (ltb_ℤ b.max_bytes (b.used_bytes +ℤ pos size))) [
      | inl much ↦ absurd (cc (rw much at h))
      | inr fits ↦ elim (Bool-cases (ltb_ℤ (free -ℤ pos size) min_free_bytes)) [
        | inl scarce ↦ absurd (cc (rw (fits, scarce) at h))
        | inr free_left ↦
            subst
              (λ (d : WorkspaceBudget).
                (d.used_bytes ≤ℤ d.max_bytes)
                × (d.page_count ≤ d.max_pages)
                × (min_free_bytes ≤ℤ free -ℤ pos size))
              (ok-injective (rw (fits, free_left) at h)) (ground arith, pages, ground arith)
      ]
    ]

-- A page is reserved only within all three limits: the bytes used, the number of pages, and the free
-- space that is left beside the page.
pub reserve_page_within :
    (size : ℕ) (free free' : ℤ) (b b' : WorkspaceBudget)
    → reserve_page size free free' b ≡ ok b'
    → (b'.used_bytes ≤ℤ b'.max_bytes)
      × (b'.page_count ≤ b'.max_pages)
      × (min_free_bytes ≤ℤ free' -ℤ pos size)
unfolding reserve_page
reserve_page_within size free free' b b' h =
    let (_, capacity, reserved) =
      >>=-eq-ok (ensure_page_capacity 0 free b) (λ _. reserve_checked size free' b) {b = b'} h in
    reserve_checked_within size free' b b' (capacity-pages free b capacity) reserved
