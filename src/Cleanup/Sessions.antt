-- ===== src/Cleanup/Sessions.antt =====
-- About runs of the cleanup one after the other, each with an inventory and a schedule of its own.
use mathlib.Core.List.{Memᴰ}
use sm_artmatch.Prelude.{
  ℕ, ◌≡◌, refl, ap, ◌∙◌, Bool, true, inl, inr, ◌⊎◌, none, some, String, List, [], ◌∷◌, arith,
  Result, ok, err,
}
use sm_artmatch.Prelude.Dicts.{Dict, lookup}
use sm_artmatch.Cleanup.{File, Payload, Disk, Event, Error, all_committed}
use sm_artmatch.Cleanup.Rules.{After}
use sm_artmatch.Cleanup.Inventory.{TargetGroup, Plan}
use sm_artmatch.Cleanup.Recovery.{is_empty, no_leftovers, recover_quarantine}
use sm_artmatch.Cleanup.Run.{cleanup}
use sm_artmatch.Cleanup.Steps.{InPlace, Staged, IsSafe, IsCleaned, Kept}
use sm_artmatch.Cleanup.Restored.{Emptied, Holds-recover_quarantine}
use sm_artmatch.Cleanup.Runs.{IsStageable}
use sm_artmatch.Cleanup.Safety.{Keeps-cleanup}

module _ (parts : String → List String) (payload_bytes : Payload → ℕ)
    (resolves : String → String → Bool) (uuid4 : String → String) (relative : String → String)
    (Owns : String → List ℕ → Type 0) where
  -- Runs one after the other: each may be killed at any call.
  pub data Session : Disk → Disk → Type 0 where
    idle : {d : Disk} → Session d d
    run :
        {d d' : Disk}
        → Session d d'
        → (lock_free scraper_running has_candidate : Bool) (plan : Plan) (es : List Event)
        → ((g : TargetGroup) → Memᴰ g plan.operations → IsStageable uuid4 relative Owns g)
        → Session d
            (cleanup parts payload_bytes resolves uuid4 relative lock_free scraper_running
              has_candidate plan d' es).disk

  module _ (path : String) (file : File) where
    throughout :
        {A : Type 0} (R : Disk → Type 0) (r : Result Error A) (d : Disk)
        → After (λ _. R) R r d
        → R d
    throughout R (ok a) d h = h
    throughout R (err e) d h = h

    session-IsSafe :
        {d d' : Disk}
        → Session d d'
        → IsSafe parts payload_bytes Owns path file [] d
        → IsSafe parts payload_bytes Owns path file [] d'
    session-IsSafe idle s = s
    session-IsSafe (run {d' = d'} before lock_free scraper_running has_candidate plan es ready) s =
        throughout (IsSafe parts payload_bytes Owns path file []) _ _ (
          (Keeps-cleanup parts payload_bytes resolves uuid4 relative Owns path file lock_free
              scraper_running has_candidate plan ready).at
            d' es (session-IsSafe before s))

    empty_journals :
        (js : Dict Payload) (name : String) → is_empty js ≡ true → lookup name js ≡ none
    unfolding lookup
    empty_journals [] name h = refl
    empty_journals (j ∷ js) name h = absurd cc

    begin :
        (d : Disk)
        → no_leftovers d ≡ true
        → d.pending ≡ d.rows
        → InPlace parts payload_bytes path file d
        → IsSafe parts payload_bytes Owns path file [] d
    unfolding no_leftovers
    begin d clean same there = record {
      kept = inl there;
      owned = λ id q (payload, found, loads).
          let e : is_empty d.journals ≡ true = ground arith in
          let n = empty_journals d.journals id e in absurd cc;
      grows = λ ids h. ap (all_committed ids) same ∙ h;
      tracks = λ q m. elim m [ ];
    }

    -- A file that is in place when there is no quarantine, and the transaction is as committed, is never
    -- lost. After any number of runs with --apply, each with its own inventory and its own failures, and
    -- each killed before any system call, it is in place under its path; or it is staged in the
    -- quarantine, with a journal that loads and names this path; or image rows that the path belongs to
    -- are committed as cleaned up, without a path. The groups of the inventories are asked to have an
    -- operation id of 32 hexadecimal digits, a relative path, positive ids, at least one of them, and
    -- the path's own ids.
    pub session_kept :
        (d d' : Disk)
        → no_leftovers d ≡ true
        → d.pending ≡ d.rows
        → lookup path d.files ≡ some file
        → Session d d'
        → (lookup path d'.files ≡ some file)
          ⊎ (Staged parts payload_bytes path file d'
              ⊎ IsCleaned parts payload_bytes Owns path file d')
    session_kept d d' clean same there s = (session-IsSafe s (begin d clean same there)).kept

    empty_staged : (fs : Dict File) (name : String) → is_empty fs ≡ true → lookup name fs ≡ none
    unfolding lookup
    empty_staged [] name h = refl
    empty_staged (f ∷ fs) name h = absurd cc

    -- Where a file is when its recovery has an end.
    abbrev pub Settled : Disk → Type 0
    Settled d =
        (no_leftovers d ≡ true)
        × ((lookup path d.files ≡ some file) ⊎ IsCleaned parts payload_bytes Owns path file d)

    settled : (d : Disk) → Emptied parts payload_bytes Owns path file tt d → Settled d
    unfolding no_leftovers
    settled d (s, clean) = (
      clean,
      elim s.kept [
        | inl in_place ↦ inl in_place
        | inr (inl (id, q, journaled, same, staged)) ↦
            let e : is_empty d.staged ≡ true = ground arith in
            let n = empty_staged d.staged id e in absurd cc
        | inr (inr cleaned) ↦ inr cleaned
      ],
    )

    recovered :
        (r : Result Error (Unit {0})) (d : Disk)
        → After
            (Emptied parts payload_bytes Owns path file)
            (IsSafe parts payload_bytes Owns path file [])
            r
            d
        → After (λ _. Settled) (Kept parts payload_bytes Owns path file) r d
    recovered (ok u) d h = settled d h
    recovered (err e) d h = h.kept

    -- Under the conditions of `session_kept`, a recovery of whatever the runs have left either returns:
    -- then the quarantine has no entry, and the file is in place or its rows are committed as cleaned
    -- up; or it raises or is killed: then the file is still in place, staged with its journal, or its
    -- rows are committed as cleaned up.
    pub recover_quarantine_settles :
        (d d' : Disk) (es : List Event)
        → no_leftovers d ≡ true
        → d.pending ≡ d.rows
        → lookup path d.files ≡ some file
        → Session d d'
        → After
            (λ _. Settled)
            (Kept parts payload_bytes Owns path file)
            (recover_quarantine parts payload_bytes resolves d' es).result
            (recover_quarantine parts payload_bytes resolves d' es).disk
    recover_quarantine_settles d d' es clean same there s = recovered _ _ (
        (Holds-recover_quarantine parts payload_bytes Owns path file resolves).at d' es
          (session-IsSafe s (begin d clean same there)))
