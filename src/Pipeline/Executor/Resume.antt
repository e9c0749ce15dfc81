-- ===== src/Pipeline/Executor/Resume.antt =====
-- Dependencies and resumed runs of blunder_tutor/analysis/pipeline/executor.py.
use chess_blunder_trainer.Common.{
  ℕ, String, ◌≡◌, ◌≢◌, refl, Bool, true, false, Option, some, List, [], ◌∷◌, arith, ◌==◌, inl, inr,
  contains, keep, not, ◌&&◌, ◌||◌, is_some, string_eq, Bool-cases, All, All-map,
}
use chess_blunder_trainer.Common.Dict
use chess_blunder_trainer.Common.Dict.{Dict, get-put}
use chess_blunder_trainer.Pipeline.Steps.{
  StepResult, StepContext, Outcome, returned, raised, AnalysisStep, new_context,
}
use chess_blunder_trainer.Pipeline.Order.Sort.{DepsFirst}
use chess_blunder_trainer.Pipeline.Executor.{
  Loaded, loaded, load_raised, ReportError, missing_dependencies, World, Run, get_completed_steps,
  check_dependencies, skip_result, settle_step, run_single_step, run_steps, execute_pipeline,
  run_loaded, first_run, mark_executed,
}

-- the report's error is about missing dependencies
abbrev pub is_missing : Option ReportError → Bool
is_missing (some (missing_dependencies id ds)) = true
is_missing _ = false

keep-nil {ℓ} :
    {A : Type ℓ} (p : A → Bool) (xs : List A) → All (λ x. p x ≡ false) xs → keep p xs ≡ []
unfolding keep
keep-nil p [] h = refl
keep-nil p (x ∷ xs) h = ground (arith, keep-nil p xs h.1)

keep-all {ℓ} : {A : Type ℓ} (p : A → Bool) (xs : List A) → ((x : A) → p x ≡ true) → keep p xs ≡ xs
unfolding keep
keep-all p [] h = refl
keep-all p (x ∷ xs) h = ground (arith, keep-all p xs h, h x)

module _ {G D S : Type 0} where
  -- A step files its results under its own id.
  abbrev pub IsHonest : AnalysisStep G D S → Type 0
  IsHonest s =
      (ctx : StepContext G D) (store : S) (result : StepResult D)
      → (s.execute ctx store).0 ≡ returned result
      → result.step_id ≡ s.step_id

  abbrev HasResults : List String → Run G D S → Type 0
  HasResults seen r =
      (x : String) → contains seen x ≡ true → is_some (Dict.get r.ctx.step_results x) ≡ true

  module _ (completed : List String) (step : AnalysisStep G D S) (r : Run G D S) where
    single_not_missing :
        check_dependencies step r.ctx ≡ []
        → is_missing r.report.error ≡ false
        → is_missing (run_single_step completed step r).1.report.error ≡ false
    unfolding run_single_step
    single_not_missing no_missing h = ground arith

    abbrev skipped : Bool
    skipped = not r.ctx.force_rerun && contains completed step.step_id

    settle_results :
        (x : String) (outcome : Outcome D) (store : S)
        → ((result : StepResult D) → outcome ≡ returned result → result.step_id ≡ step.step_id)
        → (settle_step step outcome (record r { store = store })).0 ≡ true
        → is_some
            (Dict.get (settle_step step outcome (record r { store = store })).1.ctx.step_results x)
          ≡ step.step_id == x || is_some (Dict.get r.ctx.step_results x)
    unfolding settle_step
    settle_results x (raised message) store honest go = cc
    settle_results x (returned result) store honest go =
        ground (arith, get-put r.ctx.step_results result.step_id x result, honest result refl)

    results-after :
        IsHonest step
        → (x : String) → (run_single_step completed step r).0 ≡ true
        → is_some (Dict.get (run_single_step completed step r).1.ctx.step_results x)
          ≡ step.step_id == x || is_some (Dict.get r.ctx.step_results x)
    unfolding run_single_step
    results-after honest x go = elim (Bool-cases skipped) [
      | inl skip ↦
          rw (skip, run_single_step)
            (ground (arith, get-put r.ctx.step_results step.step_id x (skip_result step.step_id)))
      | inr run ↦ ground (
        arith,
        settle_results x (step.execute r.ctx r.store).0 (step.execute r.ctx r.store).1
            (λ result e. honest r.ctx r.store result e),
      )
    ]

  run_steps_not_missing :
      (completed : List String) (seen : List String) (steps : List (AnalysisStep G D S))
      (r : Run G D S)
      → All IsHonest steps
      → DepsFirst (λ d. true) seen steps
      → HasResults seen r
      → is_missing r.report.error ≡ false
      → is_missing (run_steps completed steps r).report.error ≡ false
  unfolding run_steps
  run_steps_not_missing completed seen [] r honest first has h = h
  run_steps_not_missing completed seen (s ∷ ss) r honest first has h =
      let nothing_missing : check_dependencies s r.ctx ≡ [] =
        unfold check_dependencies in
        keep-nil _ s.depends_on
          (All-map (λ d placed. ground (arith, has d (placed refl))) s.depends_on first.0) in
      let here = single_not_missing completed s r nothing_missing h in
      elim (Bool-cases (run_single_step completed s r).0) [
        | inl go ↦
            rw (go, run_steps)
              (run_steps_not_missing completed (s.step_id ∷ seen) ss
                (run_single_step completed s r).1 honest.1 first.1
                (unfold contains in
                  λ x m. ground (arith, results-after completed s r honest.0 x go, has x))
                here)
        | inr stop ↦ rw (stop, run_steps) here
      ]

  -- Steps that file their results under their own ids, in an order that has every dependency of a step
  -- before it, never fail for a missing dependency, whatever was completed before.
  pub execute_pipeline_not_missing :
      (load_game : String → Loaded G) (steps : List (AnalysisStep G D S)) (force : Bool)
      (game_id : String) (depth : Option ℕ) (w : World S)
      → All IsHonest steps
      → DepsFirst (λ d. true) [] steps
      → is_missing (execute_pipeline load_game steps force game_id depth w).0.error ≡ false
  unfolding execute_pipeline
  execute_pipeline_not_missing load_game steps force game_id depth w honest first =
      loaded_not_missing (load_game game_id)
    where
      loaded_not_missing :
          (game : Loaded G)
          → is_missing (run_loaded steps force game_id depth w game).0.error ≡ false
      loaded_not_missing (load_raised message) = unfold run_loaded in refl
      loaded_not_missing (loaded game) =
          unfold run_loaded first_run contains in
          run_steps_not_missing (get_completed_steps w.step_status game_id) [] steps
            (first_run force game_id depth w game) honest first (λ x m. cc) refl

  -- A first step that has dependencies and is not skipped stops the run before anything is executed:
  -- nothing is written or marked, and the error names the step and all its dependencies.
  pub missing_dependency_stops :
      (load_game : String → Loaded G) (step : AnalysisStep G D S)
      (steps : List (AnalysisStep G D S)) (force : Bool) (game_id : String) (depth : Option ℕ)
      (w : World S) (game : G)
      → load_game game_id ≡ loaded game
      → step.depends_on ≢ []
      → (not force && contains (get_completed_steps w.step_status game_id) step.step_id) ≡ false
      → let (report, w') = execute_pipeline load_game (step ∷ steps) force game_id depth w in
        (report.success ≡ false)
        × (report.error ≡ some (missing_dependencies step.step_id step.depends_on))
        × (report.steps_executed ≡ [])
        × (w' ≡ w)
  unfolding execute_pipeline
  missing_dependency_stops load_game step steps force game_id depth w game h some_deps fresh =
      let ctx = new_context game_id game depth force in
      let all_missing : check_dependencies step ctx ≡ step.depends_on =
        unfold check_dependencies new_context Dict.get in keep-all _ step.depends_on (λ d. refl) in
      rw h (
        unfold run_loaded run_steps run_single_step new_context mark_executed in
        ground (arith, all_missing))
