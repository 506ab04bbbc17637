-- ===== src/Cleanup/Restored.antt =====
-- About the loops over a quarantine: the recovery, a restoration and a purge.
use mathlib.Core.List.{Memᴰ}
use mathlib.Core.Path.{subst}
use sm_artmatch.Prelude.{
  ℕ, ◌≡◌, refl, sym, ap, ◌∙◌, Bool, true, false, ◌&&◌, String, List, [], ◌∷◌, arith, Result, ok,
  err,
}
use sm_artmatch.Prelude.Dicts.{remove}
use sm_artmatch.Cleanup.{File, QuarantinedFile, Payload, ImageRow, Disk, Error, all_committed}
use sm_artmatch.Cleanup.Io.{Io}
use sm_artmatch.Cleanup.Rules.{
  Holds, Gives, Holds-pure, Holds-raise, Holds-call, Holds-catch, Holds-weaken, Holds-bind,
  Holds-nothing, Holds-change, Holds-look, Holds-after, Keeps, Holds-finally,
}
use sm_artmatch.Cleanup.Recovery.{
  names, no_leftovers, remove_temporaries, with_disk, succeeds, each_journal, require_empty,
  empty_quarantine, with_quarantine, purge_all, purge_quarantined_files, committed_state,
  quarantine_transaction_committed, purge_or_restore, reconcile, recover_quarantine,
  restore_journal, restore_uncommitted_quarantine,
}
use sm_artmatch.Cleanup.Steps.{Journaled, IsSafe, temporaries-IsSafe}
use sm_artmatch.Cleanup.Recovering.{
  Doomed, Keeps-purge_quarantined_file, Holds-restore_quarantined_file,
  Holds-load_quarantine_journal,
}

pub Keeps-succeeds : {P : Disk → Type 0} (m : Io (Unit {0})) → Keeps P m → Keeps P (succeeds m)
Keeps-succeeds m h =
    Holds-catch _ _ (Holds-bind m _ h (λ _. Holds-pure true (λ d p. p)))
      (λ e. Holds-pure false (λ d p. p))

pub Keeps-with_quarantine :
    {P R : Disk → Type 0} {Q : Unit {0} → Disk → Type 0} (m : Io (Unit {0}))
    → ((d : Disk) → P d → R d)
    → ((a : Unit {0}) (d : Disk) → Q a d → R d)
    → Holds m P Q R
    → Holds (with_quarantine m) P Q R
unfolding with_quarantine
Keeps-with_quarantine m p q h = Holds-after p _ (
    Holds-finally _ _ (Holds-after p m h) (λ a. Holds-nothing (λ d x. q a d x))
      (Holds-nothing (λ d x. x)))

Keeps-each_journal :
    {P : Disk → Type 0} (m : String → Io (Unit {0})) (ids : List String)
    → ((id : String) → Keeps P (m id))
    → Keeps P (each_journal m ids)
unfolding each_journal
Keeps-each_journal m [] h = Holds-pure true (λ d p. p)
Keeps-each_journal m (id ∷ ids) h = Holds-bind _ _ (Keeps-succeeds (m id) (h id)) (λ good.
    Holds-bind _ _ (Keeps-each_journal m ids h) (λ all. Holds-pure (good && all) (λ d p. p)))

module _ (parts : String → List String) (payload_bytes : Payload → ℕ)
    (Owns : String → List ℕ → Type 0) (path : String) (file : File) where
  abbrev Safe : List QuarantinedFile → Disk → Type 0
  Safe = IsSafe parts payload_bytes Owns path file

  Keeps-remove_temporaries : (ids : List String) → Keeps (Safe []) (remove_temporaries ids)
  unfolding remove_temporaries
  Keeps-remove_temporaries [] = Holds-pure tt (λ d s. s)
  Keeps-remove_temporaries (id ∷ ids) =
      Holds-bind _ _
        (Holds-change (λ d s. s) _
          (λ d s.
            temporaries-IsSafe parts payload_bytes Owns path file (remove id d.temporaries) [] d s))
        (λ _. Holds-after (λ d s. s) _ (Keeps-remove_temporaries ids))

  -- What a quarantine is left as.
  abbrev pub Emptied : Unit {0} → Disk → Type 0
  Emptied u d = Safe [] d × (no_leftovers d ≡ true)

  Holds-require_empty :
      (good empty : Bool)
      → Holds
          (require_empty good empty)
          (λ d. Safe [] d × (no_leftovers d ≡ empty))
          Emptied
          (Safe [])
  Holds-require_empty true true = Holds-pure tt (λ d h. h)
  Holds-require_empty true false = Holds-raise _ (λ d h. h.0)
  Holds-require_empty false empty = Holds-raise _ (λ d h. h.0)

  pub Holds-empty_quarantine :
      (m : String → Io (Unit {0}))
      → ((id : String) → Keeps (Safe []) (m id))
      → Holds (empty_quarantine m) (Safe []) Emptied (Safe [])
  unfolding empty_quarantine
  Holds-empty_quarantine m h =
      Holds-bind _ _ (Holds-look (λ d s. s) (λ d. names d.temporaries)) (λ temporaries.
        Holds-weaken {P₁ = Safe []} {Q₁ = Emptied} {R₁ = Safe []} _ (λ d s. s.0) (λ a d s. s)
          (λ d s. s)
          (Holds-bind _ _ (Holds-look (λ d s. s) (λ d. names d.journals)) (λ journals.
            Holds-weaken {P₁ = Safe []} {Q₁ = Emptied} {R₁ = Safe []} _ (λ d s. s.0) (λ a d s. s)
              (λ d s. s)
              (Holds-bind _ _ (Keeps-remove_temporaries temporaries) (λ _.
                Holds-bind _ _ (Keeps-each_journal m journals h) (λ good.
                  Holds-bind _ _ (Holds-look (λ d s. s) no_leftovers)
                    (λ empty. Holds-require_empty good empty)))))))

  pub Keeps-restore_journal :
      (resolves : String → String → Bool) (id : String)
      → Keeps (Safe []) (restore_journal parts payload_bytes resolves id)
  unfolding restore_journal
  Keeps-restore_journal resolves id =
      Holds-bind _ _ (Holds-load_quarantine_journal parts payload_bytes Owns path file id) (λ q.
        Holds-weaken _
          (λ d h.
            (h.0.0, subst (λ (x : String). Journaled parts payload_bytes q x d) (sym h.1) h.0.1))
          (λ a d s. s) (λ d s. s)
          (Holds-restore_quarantined_file parts payload_bytes Owns path file q))

  pub Keeps-restore_uncommitted_quarantine :
      (resolves : String → String → Bool)
      → Holds
          (restore_uncommitted_quarantine parts payload_bytes resolves)
          (Safe [])
          Emptied
          (Safe [])
  unfolding restore_uncommitted_quarantine
  Keeps-restore_uncommitted_quarantine resolves =
      Keeps-with_quarantine _ (λ d s. s) (λ a d s. s.0)
        (Holds-empty_quarantine _ (Keeps-restore_journal resolves))

  module _ (resolves : String → String → Bool) where
    -- The rows of a file that is found to be committed.
    pub committed_state_sound :
        (q : QuarantinedFile) (rows : List (ℕ × ImageRow))
        → committed_state parts payload_bytes resolves q rows ≡ ok true
        → all_committed q.image_file_ids rows ≡ true
    unfolding committed_state
    committed_state_sound q rows h = ground arith

    -- The operation has been read, and is judged by its rows.
    abbrev Judged : String → QuarantinedFile → Bool → Disk → Type 0
    Judged id q committed d =
        ((Safe [] d × Journaled parts payload_bytes q id d) × (q.operation_id ≡ id))
        × (committed_state parts payload_bytes resolves q d.rows ≡ ok committed)

    judged :
        (id : String) (q : QuarantinedFile) (d : Disk)
        → (Safe [] d × Journaled parts payload_bytes q id d) × (q.operation_id ≡ id)
        → (r : Result Error Bool) → committed_state parts payload_bytes resolves q d.rows ≡ r
        → Gives (Judged id q) (Safe []) (with_disk r d) d
    judged id q d h (ok b) e = (h, e)
    judged id q d h (err x) e = h.0.0

    doomed :
        (id : String) (q : QuarantinedFile) (d : Disk)
        → Judged id q true d
        → Safe [] d
          × Doomed parts payload_bytes Owns path file (λ (x : String). x ≡ q.operation_id) d
    doomed id q d (((s, (payload, found, loads)), named), committed) = (
      s,
      λ other same q' (payload', found', loads').
          let p : payload ≡ payload' = cc (same, named, found, found') in
          let e : q ≡ q' = cc (same, named, loads, loads', p) in
          ap (λ (x : QuarantinedFile). all_committed x.image_file_ids d.rows) (sym e)
          ∙ committed_state_sound q d.rows committed,
    )

    purged_or_restored :
        (id : String) (q : QuarantinedFile) (committed : Bool)
        → Holds
            (purge_or_restore parts payload_bytes resolves q committed)
            (Judged id q committed)
            (λ _. Safe [])
            (Safe [])
    purged_or_restored id q true =
        Holds-weaken
          {Q₁ = λ u d.
            Safe [] d
            × Doomed parts payload_bytes Owns path file (λ (x : String). x ≡ q.operation_id) d}
          {R₁ = λ d.
            Safe [] d
            × Doomed parts payload_bytes Owns path file (λ (x : String). x ≡ q.operation_id) d}
          _ (doomed id q) (λ a d h. h.0) (λ d h. h.0)
          (Keeps-purge_quarantined_file parts payload_bytes Owns path file
            (λ (x : String). x ≡ q.operation_id) q refl)
    purged_or_restored id q false =
        Holds-weaken _
          (λ d h. (
            h.0.0.0,
            subst (λ (x : String). Journaled parts payload_bytes q x d) (sym h.0.1) h.0.0.1,
          ))
          (λ a d s. s) (λ d s. s)
          (Holds-restore_quarantined_file parts payload_bytes Owns path file q)

    pub Keeps-reconcile :
        (id : String) → Keeps (Safe []) (reconcile parts payload_bytes resolves id)
    unfolding reconcile quarantine_transaction_committed
    Keeps-reconcile id =
        Holds-bind _ _ (Holds-load_quarantine_journal parts payload_bytes Owns path file id) (λ q.
          Holds-bind _ _
            (Holds-call _ (λ d h. h.0.0)
              (λ d h. judged id q d h (committed_state parts payload_bytes resolves q d.rows) refl))
            (λ committed. purged_or_restored id q committed))

    pub Holds-recover_quarantine :
        Holds (recover_quarantine parts payload_bytes resolves) (Safe []) Emptied (Safe [])
    unfolding recover_quarantine
    Holds-recover_quarantine =
        Keeps-with_quarantine _ (λ d s. s) (λ a d s. s.0) (Holds-empty_quarantine _ Keeps-reconcile)

  -- After a commit: the files that the run has staged.
  pub Keeps-purge_all :
      (N : String → Type 0) (qs : List QuarantinedFile)
      → ((q : QuarantinedFile) → Memᴰ q qs → N q.operation_id)
      → Keeps (λ d. Safe [] d × Doomed parts payload_bytes Owns path file N d) (purge_all qs)
  unfolding purge_all
  Keeps-purge_all N [] n = Holds-pure tt (λ d s. s)
  Keeps-purge_all N (q ∷ qs) n =
      Holds-bind _ _
        (Keeps-purge_quarantined_file parts payload_bytes Owns path file N q (n q (Memᴰ.head refl)))
        (λ _. Keeps-purge_all N qs (λ q' m. n q' (Memᴰ.tail m)))

  pub Keeps-purge_quarantined_files :
      (N : String → Type 0) (qs : List QuarantinedFile)
      → ((q : QuarantinedFile) → Memᴰ q qs → N q.operation_id)
      → Keeps
          (λ d. Safe [] d × Doomed parts payload_bytes Owns path file N d)
          (purge_quarantined_files qs)
  unfolding purge_quarantined_files
  Keeps-purge_quarantined_files N [] n = Holds-pure tt (λ d s. s)
  Keeps-purge_quarantined_files N (q ∷ qs) n =
      Keeps-with_quarantine _ (λ d s. s) (λ a d s. s) (Keeps-purge_all N (q ∷ qs) n)
