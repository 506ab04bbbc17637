-- ===== src/Cleanup/Safety.antt =====
-- About a run with --apply as a whole, and a recovery.
use mathlib.Core.List.{Memᴰ}
use mathlib.Core.Path.{subst}
use sm_artmatch.Prelude.{
  ℕ, ◌≡◌, refl, sym, ap, ◌∙◌, Bool, true, false, Option, none, some, String, List, [], ◌∷◌,
}
use sm_artmatch.Cleanup.{
  File, QuarantinedFile, Payload, ImageRow, Disk, Event, proceed, fail, fail_after, Error,
  purge_pending, all_committed,
}
use sm_artmatch.Cleanup.Rules.{
  After, Holds, Gives, Holds-pure, Holds-raise, Holds-call, Holds-catch, Holds-weaken, Holds-bind,
  Holds-change, Holds-after, Keeps,
}
use sm_artmatch.Cleanup.Inventory.{TargetGroup, Plan}
use sm_artmatch.Cleanup.Run.{
  Counts, contains_id, no_counts, mark_ids, marked, mark_image_files_cleaned_up, commit, rollback,
  lock_cleanup_snapshot, mark_or_rollback, inventory_phase, give_up, restore_and_give_up,
  commit_phase, cleanup,
}
use sm_artmatch.Cleanup.Steps.{IsSafe, untracked, pending-IsSafe, commit-IsSafe}
use sm_artmatch.Cleanup.Recovering.{Doomed}
use sm_artmatch.Cleanup.Restored.{
  Keeps-succeeds, Holds-recover_quarantine, Keeps-restore_uncommitted_quarantine,
  Keeps-purge_quarantined_files,
}
use sm_artmatch.Cleanup.Marking.{mark_ids_marks, all_committed_of, all_committed-mark_ids}
use sm_artmatch.Cleanup.Runs.{IsStageable, Counted, Holds-cleanup_inventory}

module _ (parts : String → List String) (payload_bytes : Payload → ℕ)
    (resolves : String → String → Bool) (uuid4 : String → String) (relative : String → String)
    (Owns : String → List ℕ → Type 0) (path : String) (file : File) where
  abbrev Safe : List QuarantinedFile → Disk → Type 0
  Safe = IsSafe parts payload_bytes Owns path file

  abbrev Weak : (qs : List QuarantinedFile) (d : Disk) → Safe qs d → Safe [] d
  Weak = untracked parts payload_bytes Owns path file

  abbrev Count : Counts → Disk → Type 0
  Count = Counted parts payload_bytes resolves uuid4 relative Owns path file

  -- The rows of what has been staged are in the transaction as cleaned up, if there are any.
  abbrev Marked : Counts → List ℕ → Disk → Type 0
  Marked c [] d = Safe [] d
  Marked c (id ∷ ids) d =
      Safe c.quarantined_files d
      × ((q : QuarantinedFile)
          → Memᴰ q c.quarantined_files
          → all_committed q.image_file_ids d.pending ≡ true)

  Keeps-rollback : Keeps (Safe []) rollback
  unfolding rollback
  Keeps-rollback =
      Holds-change (λ d s. s) _
        (λ d s. pending-IsSafe parts payload_bytes Owns path file d.rows [] d (λ ids h. h) s)

  marking :
      (c : Counts) (wanted : List ℕ) (d : Disk)
      → Safe c.quarantined_files d
      → ((q : QuarantinedFile)
          → Memᴰ q c.quarantined_files
          → (id : ℕ) → contains_id id q.image_file_ids ≡ true
          → contains_id id wanted ≡ true)
      → (o : Option (List (ℕ × ImageRow))) → mark_ids wanted d.pending ≡ o
      → Gives
          (λ _ d.
            Safe c.quarantined_files d
            × ((q : QuarantinedFile)
                → Memᴰ q c.quarantined_files
                → all_committed q.image_file_ids d.pending ≡ true))
          (Safe [])
          (marked o d)
          d
  marking c wanted d s covered none e = Weak c.quarantined_files d s
  marking c wanted d s covered (some rows) e = (
    pending-IsSafe parts payload_bytes Owns path file rows c.quarantined_files d
        (λ ids h. all_committed-mark_ids wanted d.pending rows e ids (s.grows ids h)) s,
    λ q m.
        all_committed_of q.image_file_ids rows
          (λ id h. mark_ids_marks wanted d.pending rows id e (covered q m id h)),
  )

  Holds-mark_or_rollback :
      (c : Counts) (ids : List ℕ)
      → c.cleaned_image_file_ids ≡ ids
      → Holds
          (mark_or_rollback c ids)
          (Count c)
          (λ c'. Marked c' c'.cleaned_image_file_ids)
          (Safe [])
  unfolding mark_image_files_cleaned_up
  Holds-mark_or_rollback c [] e =
      Holds-bind _ _
        (Holds-weaken _ (λ d h. Weak c.quarantined_files d h.0) (λ a d h. h) (λ d h. h)
          Keeps-rollback)
        (λ _. Holds-pure c (λ d s. subst (λ (ids : List ℕ). Marked c ids d) (sym e) s))
  Holds-mark_or_rollback c (id ∷ ids) e =
      Holds-bind {Q₁ = λ _. Marked c (id ∷ ids)} _ _
        (Holds-call _ (λ d h. Weak c.quarantined_files d h.0)
          (λ d h.
            marking c (id ∷ ids) d h.0 (λ q m x k. ap (contains_id x) (sym e) ∙ h.1 q m x k)
              (mark_ids (id ∷ ids) d.pending) refl))
        (λ _. Holds-pure c (λ d s. subst (λ (ids : List ℕ). Marked c ids d) (sym e) s))

  Holds-inventory_phase :
      (has_candidate : Bool) (plan : Plan)
      → ((g : TargetGroup) → Memᴰ g plan.operations → IsStageable uuid4 relative Owns g)
      → Holds
          (inventory_phase parts payload_bytes resolves uuid4 relative has_candidate plan)
          (Safe [])
          (λ c. Marked c c.cleaned_image_file_ids)
          (Safe [])
  Holds-inventory_phase true plan ready =
      Holds-after (λ d s. s) _
        (Holds-bind {Q₁ = Count} _ _
          (Holds-cleanup_inventory parts payload_bytes resolves uuid4 relative Owns path file true
            plan ready)
          (λ c. Holds-mark_or_rollback c c.cleaned_image_file_ids refl))
  Holds-inventory_phase false plan ready =
      Holds-after (λ d s. s) _
        (Holds-bind _ _ Keeps-rollback (λ _. Holds-pure no_counts (λ d s. s)))

  Holds-give_up :
      {A : Type 0} {Q : A → Disk → Type 0} (e : Error)
      → Holds (give_up {A = A} e) (Safe []) Q (Safe [])
  Holds-give_up e =
      Holds-bind _ _ (Keeps-succeeds rollback Keeps-rollback) (λ _. Holds-raise e (λ d s. s))

  Holds-restore_and_give_up :
      {A : Type 0} {Q : A → Disk → Type 0} (e : Error)
      → Holds
          (restore_and_give_up parts payload_bytes resolves uuid4 relative {A = A} e)
          (Safe [])
          Q
          (Safe [])
  Holds-restore_and_give_up e = Holds-bind _ _ (Keeps-succeeds rollback Keeps-rollback) (λ _.
      Holds-bind _ _
        (Keeps-succeeds _ (
          Holds-weaken _ (λ d s. s) (λ a d h. h.0) (λ d s. s)
            (Keeps-restore_uncommitted_quarantine parts payload_bytes Owns path file resolves)))
        (λ _. Holds-raise e (λ d s. s)))

  Holds-commit :
      (P R : Disk → Type 0) (Q : Disk → Type 0)
      → ((d : Disk) → P d → Q (record d { rows = d.pending }))
      → ((d : Disk) → Q d → R d)
      → ((d : Disk) → P d → R d)
      → Holds commit P (λ _. Q) R
  unfolding commit
  Holds-commit P R Q done q p = record { at = by_event }
    where
      by_event :
          (d : Disk) (es : List Event)
          → P d
          → After (λ (u : Unit {0}). Q) R (commit d es).result (commit d es).disk
      by_event d [] h = p d h
      by_event d (proceed ∷ es) h = done d h
      by_event d (fail ∷ es) h = p d h
      by_event d (fail_after ∷ es) h = q _ (done d h)

  abbrev Purging : List QuarantinedFile → Disk → Type 0
  Purging qs d =
      Safe [] d
      × Doomed parts payload_bytes Owns path file
          (λ id. (q : QuarantinedFile) × Memᴰ q qs × (q.operation_id ≡ id)) d

  purging :
      (qs : List QuarantinedFile) (d : Disk)
      → Safe qs d
      → ((q : QuarantinedFile) → Memᴰ q qs → all_committed q.image_file_ids d.rows ≡ true)
      → Purging qs d
  purging qs d s committed = (
    Weak qs d s,
    λ id (q, m, named) q' (payload', found', loads').
        let ((payload, found, loads), staged) = s.tracks q m in
        let p : payload ≡ payload' = cc (named, found, found') in
        let e : q ≡ q' = cc (named, loads, loads', p) in
        ap (λ (x : QuarantinedFile). all_committed x.image_file_ids d.rows) (sym e) ∙ committed q m,
  )

  Holds-commit_phase :
      (c : Counts) (ids : List ℕ)
      → Holds
          (commit_phase parts payload_bytes resolves uuid4 relative c ids)
          (Marked c ids)
          (λ _. Safe [])
          (Safe [])
  Holds-commit_phase c [] = Holds-pure c (λ d s. s)
  Holds-commit_phase c (id ∷ ids) =
      Holds-bind
        {Q₁ = λ u d.
          Safe c.quarantined_files d
          × ((q : QuarantinedFile)
              → Memᴰ q c.quarantined_files
              → all_committed q.image_file_ids d.rows ≡ true)}
        _ _
        (Holds-catch {R₁ = Safe []} _ _
          (Holds-commit _ _ _
            (λ d h.
              (commit-IsSafe parts payload_bytes Owns path file c.quarantined_files d h.0, h.1))
            (λ d h. Weak c.quarantined_files d h.0) (λ d h. Weak c.quarantined_files d h.0))
          Holds-give_up)
        (λ _.
          Holds-bind {Q₁ = λ _. Safe []} _ _
            (Holds-catch {R₁ = Safe []} _ _
              (Holds-weaken {Q₁ = λ _. Purging c.quarantined_files}
                {R₁ = Purging c.quarantined_files} _ (λ d h. purging c.quarantined_files d h.0 h.1)
                (λ a d h. h.0) (λ d h. h.0)
                (Keeps-purge_quarantined_files parts payload_bytes Owns path file
                  (λ id. (q : QuarantinedFile) × Memᴰ q c.quarantined_files × (q.operation_id ≡ id))
                  c.quarantined_files (λ q m. (q, m, refl))))
              (λ e. Holds-raise purge_pending (λ d s. s)))
            (λ _. Holds-pure c (λ d s. s)))

  Holds-lock_cleanup_snapshot :
      (lock_free scraper_running : Bool)
      → Keeps (Safe []) (lock_cleanup_snapshot lock_free scraper_running)
  unfolding lock_cleanup_snapshot
  Holds-lock_cleanup_snapshot true false =
      Holds-call _ (λ d s. s)
        (λ d s. pending-IsSafe parts payload_bytes Owns path file d.rows [] d (λ ids h. h) s)
  Holds-lock_cleanup_snapshot true true = Holds-call _ (λ d s. s) (λ d s. s)
  Holds-lock_cleanup_snapshot false scraper_running = Holds-call _ (λ d s. s) (λ d s. s)

  pub Keeps-cleanup :
      (lock_free scraper_running has_candidate : Bool) (plan : Plan)
      → ((g : TargetGroup) → Memᴰ g plan.operations → IsStageable uuid4 relative Owns g)
      → Keeps (Safe []) (
          cleanup parts payload_bytes resolves uuid4 relative lock_free scraper_running
            has_candidate plan)
  unfolding cleanup
  Keeps-cleanup lock_free scraper_running has_candidate plan ready =
      Holds-bind {Q₁ = λ _. Safe []} _ _
        (Holds-catch {R₁ = Safe []} _ _
          (Holds-bind _ _ (Holds-lock_cleanup_snapshot lock_free scraper_running) (λ _.
            Holds-weaken _ (λ d s. s) (λ a d h. h.0) (λ d s. s)
              (Holds-recover_quarantine parts payload_bytes Owns path file resolves)))
          Holds-give_up)
        (λ _.
          Holds-bind {Q₁ = λ c. Marked c c.cleaned_image_file_ids} _ _
            (Holds-catch {R₁ = Safe []} _ _ (Holds-inventory_phase has_candidate plan ready)
              Holds-restore_and_give_up)
            (λ c. Holds-commit_phase c c.cleaned_image_file_ids))
