-- ===== src/Pipeline/Stages.antt =====
-- What one cycle of the pipeline scheduler does.
use mathlib.Core.Path.{subst}
use mathlib.Core.List.{cons≢nil}
use sm_artmatch.Prelude.{
  zero, suc, ◌+◌, ◌≡◌, ◌≢◌, ◌∙◌, refl, sym, ap, Bool, true, false, Bool-cases, inl, inr, not, none,
  some, List, [], ◌∷◌, ◌++◌, arith, if◌then◌else◌, ok, >>=-eq-ok, ok-injective, ◌⊎◌,
}
use sm_artmatch.Prelude.Int.{ℤ, pos, negsuc}
use sm_artmatch.Pipeline.{
  Stage, image_blocking, image_matching, metadata_extraction, metadata_matching, pipeline_steps,
  Health, starting, running, unhealthy, healthy, stopping, Surroundings, Cycle, run_step,
  skip_value, is_zero, state_before, step_state, after_step, run_one, run_steps, run_cycle,
  Scheduler, record_cycle, scheduled_round,
}

-- An exit code of 0.
abbrev pub succeeded : ℤ → Bool
succeeded (pos zero) = true
succeeded (pos (suc n)) = false
succeeded (negsuc n) = false

abbrev pub failing : Stage → ℤ → List Stage
failing step code = if succeeded code then [] else step ∷ []

-- The health after a cycle in which these steps have failed.
abbrev pub health_after : Health → List Stage → Health
health_after before (step ∷ steps) = unhealthy
health_after unhealthy [] = unhealthy
health_after starting [] = running
health_after running [] = running
health_after healthy [] = running
health_after stopping [] = running

is_zero_lem : (code : ℤ) → is_zero code ≡ succeeded code
is_zero_lem (pos zero) = refl
is_zero_lem (pos (suc n)) = refl
is_zero_lem (negsuc n) = refl

step_state_lem :
    (before : Health) (failed : List Stage)
    → step_state (state_before before) failed ≡ health_after before failed
step_state_lem before (step ∷ steps) = refl
step_state_lem unhealthy [] = refl
step_state_lem starting [] = refl
step_state_lem running [] = refl
step_state_lem healthy [] = refl
step_state_lem stopping [] = refl

four_steps :
    (h : Health) (c₁ c₂ c₃ c₄ : ℤ)
    → let failed =
        failing image_blocking c₁
        ++ (failing image_matching c₂
            ++ (failing metadata_extraction c₃ ++ failing metadata_matching c₄)) in
      after_step h metadata_matching
        (after_step h metadata_extraction
          (after_step h image_matching
            (after_step h image_blocking
              (record { failed_steps = []; blocking_succeeded = true; health = h; ran = [] })
              c₁)
            c₂)
          c₃)
        c₄
      ≡ record {
        failed_steps = failed;
        blocking_succeeded = succeeded c₁;
        health = step_state h failed;
        ran =
            (image_blocking, none)
            ∷ (image_matching, some (not (succeeded c₁)))
            ∷ (metadata_extraction, none)
            ∷ (metadata_matching, none)
            ∷ [];
      }
unfolding after_step
four_steps h c₁ c₂ c₃ c₄ =
    ground (arith, is_zero_lem c₁, is_zero_lem c₂, is_zero_lem c₃, is_zero_lem c₄)

-- A cycle that nothing stops runs all four steps, whichever fail: the failed steps are those with
-- an exit code other than 0, image matching is told to skip exactly if image blocking failed, and
-- the health is unhealthy if a step failed or if it was before, and running otherwise.
pub run_cycle_complete :
    (env : Surroundings) (before : Health) (c₁ c₂ c₃ c₄ : ℤ)
    → ((step : Stage) → env.stopped step ≡ false)
    → run_step (env.child image_blocking none) ≡ ok c₁
    → run_step (env.child image_matching (some (not (succeeded c₁)))) ≡ ok c₂
    → run_step (env.child metadata_extraction none) ≡ ok c₃
    → run_step (env.child metadata_matching none) ≡ ok c₄
    → let failed =
        failing image_blocking c₁
        ++ (failing image_matching c₂
            ++ (failing metadata_extraction c₃ ++ failing metadata_matching c₄)) in
      run_cycle env before
      ≡ ok (record {
        failed_steps = failed;
        blocking_succeeded = succeeded c₁;
        health = health_after before failed;
        ran =
            (image_blocking, none)
            ∷ (image_matching, some (not (succeeded c₁)))
            ∷ (metadata_extraction, none)
            ∷ (metadata_matching, none)
            ∷ [];
      })
unfolding run_cycle run_steps run_one
run_cycle_complete env before c₁ c₂ c₃ c₄ go h₁ h₂ h₃ h₄ =
    let failed =
      failing image_blocking c₁
      ++ (failing image_matching c₂
          ++ (failing metadata_extraction c₃ ++ failing metadata_matching c₄)) in
    let h₂' : run_step (env.child image_matching (some (not (is_zero c₁)))) ≡ ok c₂ =
      rw (is_zero_lem c₁) h₂ in
    simp (go, h₁, h₂', h₃, h₄)
      (ap ok (
        four_steps (state_before before) c₁ c₂ c₃ c₄
        ∙ ap
            (λ (h : Health). record {
              failed_steps = failed;
              blocking_succeeded = succeeded c₁;
              health = h;
              ran =
                  (image_blocking, none)
                  ∷ (image_matching, some (not (succeeded c₁)))
                  ∷ (metadata_extraction, none)
                  ∷ (metadata_matching, none)
                  ∷ [];
            })
            (step_state_lem before failed)))

module _ (env : Surroundings) (cycle_state : Health) where
  HealthOf : Cycle → Type 0
  HealthOf c = c.health ≡ step_state cycle_state c.failed_steps

  step_state-snoc :
      (steps : List Stage) (step : Stage) → unhealthy ≡ step_state cycle_state (steps ++ step ∷ [])
  step_state-snoc [] step = refl
  step_state-snoc (s ∷ steps) step = refl

  after_step-HealthOf :
      (step : Stage) (c : Cycle) (code : ℤ) → HealthOf (after_step cycle_state step c code)
  unfolding after_step HealthOf
  after_step-HealthOf step c code = elim (Bool-cases (is_zero code)) [
    | inl done ↦ rw done
    | inr failed ↦ rw failed (step_state-snoc c.failed_steps step)
  ]

  run_one-HealthOf :
      (step : Stage) (c : Cycle) {c' : Cycle} → run_one env cycle_state step c ≡ ok c' → HealthOf c'
  unfolding run_one HealthOf
  run_one-HealthOf step c {c'} h =
      let (code, _, e) =
        >>=-eq-ok (run_step (env.child step (skip_value step c.blocking_succeeded)))
          (λ code. ok (after_step cycle_state step c code)) h in
      subst HealthOf (ok-injective e) (after_step-HealthOf step c code)

  run_steps-HealthOf :
      (steps : List Stage) (c : Cycle) {c' : Cycle}
      → HealthOf c
      → run_steps env cycle_state steps c ≡ ok c'
      → HealthOf c'
  unfolding run_steps
  run_steps-HealthOf [] c h e = subst HealthOf (ok-injective e) h
  run_steps-HealthOf (step ∷ steps) c {c'} h e = elim (Bool-cases (env.stopped step)) [
    | inl stop ↦ subst HealthOf (ok-injective (rw stop at e)) h
    | inr go ↦
        let (c₁, ran, rest) =
          >>=-eq-ok (run_one env cycle_state step c) (run_steps env cycle_state steps) {b = c'}
            (rw go at e) in
        run_steps-HealthOf steps c₁ (run_one-HealthOf step c ran) rest
  ]

step_state-cases :
    (before : Health) (failed : List Stage)
    → ((failed ≢ []) ⊎ (before ≡ unhealthy)) × (step_state (state_before before) failed ≡ unhealthy)
      ⊎ ((failed ≡ []) × (before ≢ unhealthy)) × (step_state (state_before before) failed ≡ running)
step_state-cases before (step ∷ steps) = inl (inl cons≢nil, refl)
step_state-cases unhealthy [] = inl (inr refl, refl)
step_state-cases starting [] = inr ((refl, λ e. absurd cc), refl)
step_state-cases running [] = inr ((refl, λ e. absurd cc), refl)
step_state-cases healthy [] = inr ((refl, λ e. absurd cc), refl)
step_state-cases stopping [] = inr ((refl, λ e. absurd cc), refl)

-- However far a cycle gets, its health afterwards is unhealthy if a step of it has failed or the
-- health was unhealthy before, and running otherwise.
pub run_cycle-health :
    (env : Surroundings) (before : Health) (c : Cycle)
    → run_cycle env before ≡ ok c
    → ((c.failed_steps ≢ []) ⊎ (before ≡ unhealthy)) × (c.health ≡ unhealthy)
      ⊎ ((c.failed_steps ≡ []) × (before ≢ unhealthy)) × (c.health ≡ running)
unfolding run_cycle HealthOf
run_cycle-health env before c e =
    let h : c.health ≡ step_state (state_before before) c.failed_steps =
      run_steps-HealthOf env (state_before before) pipeline_steps _ refl e in
    elim (step_state-cases before c.failed_steps) [
      | inl (cause, k) ↦ inl (cause, h ∙ k)
      | inr (none_failed, k) ↦ inr (none_failed, h ∙ k)
    ]

-- After a scheduled round that nothing stops, the health is healthy and no failed cycle is counted
-- exactly if no step of the cycle failed; otherwise it is unhealthy, and one more failed cycle is
-- counted.
pub scheduled_round-health :
    (env : Surroundings) (s s' : Scheduler) (leave : Bool)
    → scheduled_round env false s ≡ ok (s', leave)
    → (c : Cycle) × (run_cycle env s.health ≡ ok c)
      × ((c.failed_steps ≡ []) × (s'.health ≡ healthy) × (s'.consecutive_failed_cycles ≡ 0)
          ⊎ ((c.failed_steps ≢ [])
              × (s'.health ≡ unhealthy)
              × (s'.consecutive_failed_cycles ≡ s.consecutive_failed_cycles + 1)))
unfolding scheduled_round
scheduled_round-health env s s' leave h =
    let (c, ran, e) = >>=-eq-ok (run_cycle env s.health) _ h in
    let counted = ap (λ (p : Scheduler × Bool). p.0) (ok-injective e) in
    (c, ran, recorded c.failed_steps _ counted)
  where
    recorded :
        (failed : List Stage) (t : Scheduler)
        → record_cycle failed t ≡ s'
        → (failed ≡ []) × (s'.health ≡ healthy) × (s'.consecutive_failed_cycles ≡ 0)
          ⊎ ((failed ≢ [])
              × (s'.health ≡ unhealthy)
              × (s'.consecutive_failed_cycles ≡ t.consecutive_failed_cycles + 1))
    recorded [] t e = inl (
      refl,
      ap (λ (u : Scheduler). u.health) (sym e),
      ap (λ (u : Scheduler). u.consecutive_failed_cycles) (sym e),
    )
    recorded (x ∷ xs) t e = inr (
      cons≢nil,
      ap (λ (u : Scheduler). u.health) (sym e),
      ap (λ (u : Scheduler). u.consecutive_failed_cycles) (sym e),
    )
