-- ===== src/Cleanup/Runs.antt =====
-- About a run with --apply: what holds of one file through the recovery, the operations, the update of
-- the rows, the commit and the purge.
use mathlib.Core.List.{Memᴰ}
use mathlib.Core.List.Memᴰ
use mathlib.Core.Path.{subst}
use sm_artmatch.Prelude.{
  ℕ, ◌≡◌, refl, sym, ap, ◌∙◌, Bool, true, false, not, inl, inr, Option, none, some, String, List,
  [], ◌∷◌, ◌++◌, arith, eq_iff, if◌then◌else◌,
}
use sm_artmatch.Prelude.Dicts.{lookup}
use sm_artmatch.Artists.{starts_with}
use sm_artmatch.Cleanup.{
  File, QuarantinedFile, Payload, Disk, Error, killed, os_error, not_found, runtime_error,
  already_running, active_scraper, purge_pending,
}
use sm_artmatch.Cleanup.Io.{pure, call, ◌>>=◌, nothing}
use sm_artmatch.Cleanup.Rules.{
  Holds, Gives, Holds-pure, Holds-raise, Holds-call, Holds-catch, Holds-if, Holds-weaken,
  Holds-bind, Holds-nothing, Holds-after, Holds-given, Holds-finally,
}
use sm_artmatch.Cleanup.Inventory.{TargetGroup, Plan}
use sm_artmatch.Cleanup.Quarantine.{
  FileOperation, regular, deleted, missing, unsafe, failed, is_hex, is_filled, all_positive,
  or_not_found, valid_parts, valid_fields, fields_of, stage_target,
}
use sm_artmatch.Cleanup.Run.{
  Counts, contains_id, count_operation, ids_of, Opened, opened, not_opened, open_failed, staging,
  operate_on_opened, operate_on_target, operate_all, operate_in_root, run_operations,
  cleanup_inventory,
}
use sm_artmatch.Cleanup.Steps.{IsSafe, untracked}
use sm_artmatch.Cleanup.Restored.{Keeps-succeeds}
use sm_artmatch.Cleanup.Staging.{Came, Holds-stage_target}
use sm_artmatch.Cleanup.Marking.{add_ids_left, add_ids_right}

-- What the inventory and uuid4 give for a target.
pub record IsStageable (uuid4 relative : String → String) (Owns : String → List ℕ → Type 0)
    (g : TargetGroup) : Type 0 where
  pub hexadecimal : is_hex 32 (uuid4 g.0) ≡ true
  pub relative_path : starts_with 47 (relative g.0) ≡ false
  pub filled : is_filled (ids_of g.1) ≡ true
  pub positive : all_positive (ids_of g.1) ≡ true
  pub owned : Owns (relative g.0) (ids_of g.1)

-- The ids of each staged file are among those to be marked.
abbrev pub Covered : Counts → Type 0
Covered c =
    (q : QuarantinedFile)
    → Memᴰ q c.quarantined_files
    → (id : ℕ) → contains_id id q.image_file_ids ≡ true
    → contains_id id c.cleaned_image_file_ids ≡ true

module _ (parts : String → List String) (payload_bytes : Payload → ℕ)
    (resolves : String → String → Bool) (uuid4 : String → String) (relative : String → String)
    (Owns : String → List ℕ → Type 0) (path : String) (file : File) where
  abbrev Safe : List QuarantinedFile → Disk → Type 0
  Safe = IsSafe parts payload_bytes Owns path file

  abbrev Weak : (qs : List QuarantinedFile) (d : Disk) → Safe qs d → Safe [] d
  Weak = untracked parts payload_bytes Owns path file

  abbrev HasFields : (g : TargetGroup) → IsStageable uuid4 relative Owns g → Type 0
  HasFields g s =
      (f : File)
      → valid_fields parts payload_bytes (uuid4 g.0)
          (fields_of (staging parts payload_bytes resolves uuid4 relative g.0 (ids_of g.1) f))
        ≡ true

  stageable_fields :
      (g : TargetGroup) (s : IsStageable uuid4 relative Owns g)
      → valid_parts (parts (relative g.0)) ≡ true
      → HasFields g s
  unfolding fields_of
  stageable_fields g s valid f =
      let h = s.hexadecimal in
      let r = s.relative_path in
      let k = s.filled in
      let p = s.positive in ground (arith, (eq_iff (uuid4 g.0) (uuid4 g.0)).1 refl)

  -- What an operation on a target comes to, whatever file it has found.
  abbrev Operated : List QuarantinedFile → List ℕ → FileOperation → Disk → Type 0
  Operated qs ids (deleted q) d = (q.image_file_ids ≡ ids) × Safe (qs ++ q ∷ []) d
  Operated qs ids (regular size) d = Safe qs d
  Operated qs ids missing d = Safe qs d
  Operated qs ids unsafe d = Safe qs d
  Operated qs ids failed d = Safe qs d

  operated :
      (qs : List QuarantinedFile) (q : QuarantinedFile) (operation : FileOperation) (d : Disk)
      → Came parts payload_bytes Owns path file qs q operation d
      → Operated qs q.image_file_ids operation d
  operated qs q (deleted q') d (same, s) = (
    ap (λ (x : QuarantinedFile). x.image_file_ids) same,
    subst (λ (x : QuarantinedFile). Safe (qs ++ x ∷ []) d) (sym same) s,
  )
  operated qs q (regular size) d s = s
  operated qs q missing d s = s
  operated qs q unsafe d s = s
  operated qs q failed d s = s

  abbrev IsReady : TargetGroup → Type 0
  IsReady = IsStageable uuid4 relative Owns

  abbrev entry : TargetGroup → File → QuarantinedFile
  entry g f = staging parts payload_bytes resolves uuid4 relative g.0 (ids_of g.1) f

  -- What opening a target comes to.
  abbrev Opening : List QuarantinedFile → List ℕ → Opened → Disk → Type 0
  Opening qs ids (opened f) d = Safe qs d
  Opening qs ids (not_opened operation) d = Operated qs ids operation d

  Holds-open_failed :
      (qs : List QuarantinedFile) (ids : List ℕ) (e : Error)
      → Holds (open_failed e) (Safe qs) (Opening qs ids) (Safe qs)
  Holds-open_failed qs ids not_found = Holds-pure _ (λ d s. s)
  Holds-open_failed qs ids os_error = Holds-pure _ (λ d s. s)
  Holds-open_failed qs ids killed = Holds-raise _ (λ d s. s)
  Holds-open_failed qs ids runtime_error = Holds-raise _ (λ d s. s)
  Holds-open_failed qs ids already_running = Holds-raise _ (λ d s. s)
  Holds-open_failed qs ids active_scraper = Holds-raise _ (λ d s. s)
  Holds-open_failed qs ids purge_pending = Holds-raise _ (λ d s. s)

  Holds-operate_on_opened :
      (qs : List QuarantinedFile) (g : TargetGroup) (apply : Bool) (o : Opened)
      → IsReady g
      → valid_parts (parts (relative g.0)) ≡ true
      → Holds
          (operate_on_opened parts payload_bytes resolves uuid4 relative apply g.0 (ids_of g.1) o)
          (Opening qs (ids_of g.1) o)
          (Operated qs (ids_of g.1))
          (Safe [])
  Holds-operate_on_opened qs g apply (not_opened operation) ready valid =
      Holds-pure operation (λ d h. h)
  Holds-operate_on_opened qs g apply (opened f) ready valid =
      Holds-if (not f.is_regular) (pure unsafe)
        (if apply then stage_target parts payload_bytes (entry g f) f else pure (regular f.size))
        (λ other. Holds-pure unsafe (λ d s. s))
        (λ one.
          Holds-if apply (stage_target parts payload_bytes (entry g f) f) (pure (regular f.size))
            (λ applied.
              Holds-weaken _ (λ d s. s) (operated qs (entry g f)) (Weak qs)
                (Holds-stage_target parts payload_bytes Owns path file qs (entry g f)
                  (stageable_fields g ready valid f) ready.owned f))
            (λ dry. Holds-pure (regular f.size) (λ d s. s)))

  Holds-open :
      (qs : List QuarantinedFile) (ids : List ℕ) (target : String)
      → Holds
          (nothing >>= λ _.
            call (λ d. or_not_found (lookup target d.files) d) >>= λ f. pure (opened f))
          (Safe qs)
          (Opening qs ids)
          (Safe qs)
  Holds-open qs ids target =
      Holds-after (λ d s. s) _
        (Holds-bind {Q₁ = λ _. Safe qs} _ _
          (Holds-call _ (λ d s. s) (λ d s. there d s (lookup target d.files)))
          (λ f. Holds-pure (opened f) (λ d s. s)))
    where
      there :
          (d : Disk)
          → Safe qs d
          → (o : Option File) → Gives (λ f. Safe qs) (Safe qs) (or_not_found o d) d
      there d s none = s
      there d s (some f) = s

  Holds-operate_on_target :
      (qs : List QuarantinedFile) (g : TargetGroup) (apply : Bool)
      → IsReady g
      → Holds
          (operate_on_target parts payload_bytes resolves uuid4 relative apply g.0 (ids_of g.1))
          (Safe qs)
          (Operated qs (ids_of g.1))
          (Safe [])
  unfolding operate_on_target
  Holds-operate_on_target qs g apply ready =
      Holds-if (valid_parts (parts (relative g.0))) _ (pure unsafe)
        (λ valid.
          Holds-bind {Q₁ = Opening qs (ids_of g.1)} _ _
            (Holds-weaken {Q₁ = Opening qs (ids_of g.1)} {R₁ = Safe qs} _ (λ d s. s) (λ o d h. h)
              (Weak qs)
              (Holds-catch _ _ (Holds-open qs (ids_of g.1) (relative g.0))
                (Holds-open_failed qs (ids_of g.1))))
            (λ o. Holds-operate_on_opened qs g apply o ready valid))
        (λ invalid. Holds-pure unsafe (λ d s. s))

  -- The operations so far.
  abbrev pub Counted : Counts → Disk → Type 0
  Counted c d = Safe c.quarantined_files d × Covered c

  counted :
      (apply : Bool) (ids : List ℕ) (c : Counts)
      → Covered c
      → (operation : FileOperation) (d : Disk) → Operated c.quarantined_files ids operation d
      → Counted (count_operation apply ids operation c) d
  unfolding count_operation
  counted apply ids c covered (deleted q) d (same, s) = (
    s,
    λ q' m id h. elim (Memᴰ.append_cases c.quarantined_files m) [
      | inl before ↦ add_ids_right ids c.cleaned_image_file_ids id (covered q' before id h)
      | inr last ↦
          let e : q' ≡ q = Memᴰ.eq_of_singleton last in
          add_ids_left ids c.cleaned_image_file_ids id (
            ap (contains_id id) (sym same ∙ sym (ap (λ (x : QuarantinedFile). x.image_file_ids) e))
            ∙ h)
    ],
  )
  counted apply ids c covered (regular size) d s = (s, covered)
  counted true ids c covered missing d s =
      (s, λ q m id h. add_ids_right ids c.cleaned_image_file_ids id (covered q m id h))
  counted false ids c covered missing d s = (s, covered)
  counted apply ids c covered unsafe d s = (s, covered)
  counted apply ids c covered failed d s = (s, covered)

  pub Holds-operate_all :
      (apply : Bool) (groups : List TargetGroup) (c : Counts)
      → ((g : TargetGroup) → Memᴰ g groups → IsStageable uuid4 relative Owns g)
      → Holds
          (operate_all parts payload_bytes resolves uuid4 relative apply groups c)
          (Counted c)
          Counted
          (Safe [])
  unfolding operate_all
  Holds-operate_all apply [] c ready = Holds-pure c (λ d h. h)
  Holds-operate_all apply ((target, rows) ∷ groups) c ready =
      Holds-given _ (λ d h. h.1)
        (λ covered.
          Holds-bind {Q₁ = Operated c.quarantined_files (ids_of rows)} _ _
            (Holds-weaken _ (λ d h. h.0) (λ o d h. h) (λ d h. h)
              (Holds-operate_on_target c.quarantined_files (target, rows) apply
                (ready (target, rows) (Memᴰ.head refl))))
            (λ operation.
              Holds-weaken _ (counted apply (ids_of rows) c covered operation) (λ c' d h. h)
                (λ d h. h)
                (Holds-operate_all apply groups (count_operation apply (ids_of rows) operation c)
                  (λ g m. ready g (Memᴰ.tail m)))))

  Holds-operate_in_root :
      (apply : Bool) (groups : List TargetGroup) (c : Counts) (is_open : Bool)
      → ((g : TargetGroup) → Memᴰ g groups → IsStageable uuid4 relative Owns g)
      → Holds
          (operate_in_root parts payload_bytes resolves uuid4 relative apply groups c is_open)
          (Counted c)
          Counted
          (Safe [])
  Holds-operate_in_root apply groups c true ready =
      Holds-finally _ _
        (Holds-after (λ d h. Weak c.quarantined_files d h.0) _
          (Holds-operate_all apply groups c ready))
        (λ c'. Holds-nothing (λ d h. Weak c'.quarantined_files d h.0)) (Holds-nothing (λ d s. s))
  Holds-operate_in_root apply groups c false ready = Holds-pure _ (λ d h. h)

  pub Holds-run_operations :
      (apply : Bool) (groups : List TargetGroup) (c : Counts)
      → ((g : TargetGroup) → Memᴰ g groups → IsStageable uuid4 relative Owns g)
      → Holds
          (run_operations parts payload_bytes resolves uuid4 relative apply groups c)
          (Counted c)
          Counted
          (Safe [])
  unfolding run_operations
  Holds-run_operations apply [] c ready = Holds-pure c (λ d h. h)
  Holds-run_operations apply (g ∷ gs) c ready =
      Holds-bind {Q₁ = λ b. Counted c} _ _
        (Holds-weaken {Q₁ = λ b. Counted c} {R₁ = Counted c} _ (λ d h. h) (λ b d h. h)
          (λ d h. Weak c.quarantined_files d h.0)
          (Keeps-succeeds nothing (Holds-nothing (λ d h. h))))
        (λ is_open. Holds-operate_in_root apply (g ∷ gs) c is_open ready)

  pub Holds-cleanup_inventory :
      (apply : Bool) (plan : Plan)
      → ((g : TargetGroup) → Memᴰ g plan.operations → IsStageable uuid4 relative Owns g)
      → Holds
          (cleanup_inventory parts payload_bytes resolves uuid4 relative apply plan)
          (Safe [])
          Counted
          (Safe [])
  unfolding cleanup_inventory
  Holds-cleanup_inventory apply plan ready =
      Holds-weaken _ (λ d s. (s, λ q m id h. elim m [ ])) (λ c d h. h) (λ d s. s)
        (Holds-run_operations apply plan.operations _ ready)
