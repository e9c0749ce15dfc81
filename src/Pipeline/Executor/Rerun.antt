-- ===== src/Pipeline/Executor/Rerun.antt =====
-- Runs of blunder_tutor/analysis/pipeline/executor.py over steps that were completed earlier.
use chess_blunder_trainer.Common.{
  ℕ, String, ◌≡◌, refl, ap, sym, Bool, true, false, Option, some, List, [], ◌∷◌, ◌++◌, arith, inl,
  inr, contains, ◌||◌, if◌then◌else◌, string_eq, All, ◌∙◌, eq_refl, contains-append, append-nil,
  All-intro,
}
use chess_blunder_trainer.Common.Dict
use chess_blunder_trainer.Common.Dict.{Dict, get-put}
use chess_blunder_trainer.Pipeline.Steps.{AnalysisStep, new_context, add_step_result}
use chess_blunder_trainer.Pipeline.Order.Sort.{ids}
use chess_blunder_trainer.Pipeline.Executor.{
  Loaded, loaded, World, Run, get_completed_steps, skip_result, run_single_step, run_steps,
  execute_pipeline, run_loaded, first_run, mark_executed,
}
use chess_blunder_trainer.Pipeline.Executor.Outcomes.{
  execute_pipeline-Accounts, execute_pipeline_marks,
}

module _ {G D S : Type 0} where
  -- the state after skipping a step
  abbrev pub skip_one : AnalysisStep G D S → Run G D S → Run G D S
  skip_one s r = record r {
    report = record r.report { steps_skipped = r.report.steps_skipped ++ s.step_id ∷ [] };
    ctx = add_step_result r.ctx (skip_result s.step_id);
  }

  pub skip_all : List (AnalysisStep G D S) → Run G D S → Run G D S
  skip_all [] r = r
  skip_all (s ∷ ss) r = skip_all ss (skip_one s r)

  -- a first part of the steps whose members are all completed is skipped
  pub run_steps-skip :
      (completed : List String) (done rest : List (AnalysisStep G D S)) (r : Run G D S)
      → All (λ id. contains completed id ≡ true) (ids done)
      → r.ctx.force_rerun ≡ false
      → run_steps completed (done ++ rest) r ≡ run_steps completed rest (skip_all done r)
  unfolding skip_all run_steps
  run_steps-skip completed [] rest r all calm = refl
  run_steps-skip completed (s ∷ ss) rest r all calm =
      let skips : run_single_step completed s r ≡ (true, skip_one s r) =
        unfold run_single_step in ground (arith, all.0) in
      rw (run_steps, skips)
        (run_steps-skip completed ss rest (skip_one s r) all.1 (unfold add_step_result in calm))

  pub results-skip_all :
      (done : List (AnalysisStep G D S)) (r : Run G D S) (x : String)
      → Dict.get (skip_all done r).ctx.step_results x
        ≡ (if contains (ids done) x then some (skip_result x) else Dict.get r.ctx.step_results x)
  unfolding skip_all contains
  results-skip_all [] r x = refl
  results-skip_all (s ∷ ss) r x =
      results-skip_all ss (skip_one s r) x
      ∙ unfold add_step_result in
        ground (
          arith,
          get-put r.ctx.step_results s.step_id x (skip_result s.step_id),
          string_eq.beq_iff s.step_id x,
        )

  pub skip_all_keeps :
      (done : List (AnalysisStep G D S)) (r : Run G D S)
      → ((skip_all done r).report.success ≡ r.report.success)
        × ((skip_all done r).report.steps_executed ≡ r.report.steps_executed)
        × ((skip_all done r).store ≡ r.store)
  unfolding skip_all
  skip_all_keeps [] r = (refl, refl, refl)
  skip_all_keeps (s ∷ ss) r = skip_all_keeps ss (skip_one s r)

  pub game_id-skip_all :
      (done : List (AnalysisStep G D S)) (r : Run G D S)
      → (skip_all done r).ctx.game_id ≡ r.ctx.game_id
  unfolding skip_all add_step_result
  game_id-skip_all [] r = refl
  game_id-skip_all (s ∷ ss) r = game_id-skip_all ss (skip_one s r)

  skipped-single :
      (completed : List String) (s : AnalysisStep G D S) (r : Run G D S) (x : String)
      → contains (run_single_step completed s r).1.report.steps_skipped x ≡ true
      → (contains r.report.steps_skipped x || contains completed x) ≡ true
  unfolding run_single_step contains
  skipped-single completed s r x h = ground (
    arith,
    contains-append r.report.steps_skipped (s.step_id ∷ []) x,
    string_eq.beq_iff s.step_id x,
  )

  skipped_were_completed :
      (completed : List String) (steps : List (AnalysisStep G D S)) (r : Run G D S) (x : String)
      → contains (run_steps completed steps r).report.steps_skipped x ≡ true
      → (contains r.report.steps_skipped x || contains completed x) ≡ true
  unfolding run_steps
  skipped_were_completed completed [] r x h = ground arith
  skipped_were_completed completed (s ∷ ss) r x h = ground (
    arith,
    skipped_were_completed completed ss (run_single_step completed s r).1 x,
    skipped-single completed s r x,
  )

  pipeline_skipped_completed :
      (load_game : String → Loaded G) (steps : List (AnalysisStep G D S)) (force : Bool)
      (game_id : String) (depth : Option ℕ) (w : World S) (game : G) (x : String)
      → load_game game_id ≡ loaded game
      → contains (execute_pipeline load_game steps force game_id depth w).0.steps_skipped x ≡ true
      → contains (get_completed_steps w.step_status game_id) x ≡ true
  unfolding execute_pipeline run_loaded first_run contains
  pipeline_skipped_completed load_game steps force game_id depth w game x h m = ground (
    arith,
    skipped_were_completed (get_completed_steps w.step_status game_id) steps
        (first_run force game_id depth w game) x,
  )

  -- the report and the state of a run in which everything is skipped
  run_loaded_skips :
      (steps : List (AnalysisStep G D S)) (game_id : String) (depth : Option ℕ) (w : World S)
      (game : G)
      → All (λ id. contains (get_completed_steps w.step_status game_id) id ≡ true) (ids steps)
      → let (report, w') = run_loaded steps false game_id depth w (loaded game) in
        (report.success ≡ true) × (report.steps_executed ≡ []) × (w' ≡ w)
  unfolding run_loaded
  run_loaded_skips steps game_id depth w game all =
      let r : Run G D S = first_run false game_id depth w game in
      let c = get_completed_steps w.step_status game_id in
      let e : run_steps c steps r ≡ skip_all steps r =
        ap (λ l. run_steps c l r) (sym (append-nil steps))
        ∙ run_steps-skip c steps [] r all (unfold first_run new_context in refl)
        ∙ (unfold run_steps in refl) in
      let (success, executed, store) = skip_all_keeps steps r in
      rw e (
        unfold first_run in success,
        unfold first_run in executed,
        unfold first_run mark_executed in ground (arith, executed, store),
      )

  pipeline_skips :
      (load_game : String → Loaded G) (steps : List (AnalysisStep G D S)) (game_id : String)
      (depth : Option ℕ) (w : World S) (game : G)
      → load_game game_id ≡ loaded game
      → All (λ id. contains (get_completed_steps w.step_status game_id) id ≡ true) (ids steps)
      → let (report, w') = execute_pipeline load_game steps false game_id depth w in
        (report.success ≡ true) × (report.steps_executed ≡ []) × (w' ≡ w)
  unfolding execute_pipeline
  pipeline_skips load_game steps game_id depth w game h all =
      rw (h, execute_pipeline) (run_loaded_skips steps game_id depth w game all)

  pub steps_of_success :
      (load_game : String → Loaded G) (steps : List (AnalysisStep G D S)) (force : Bool)
      (game_id : String) (depth : Option ℕ) (w : World S) (game : G)
      → load_game game_id ≡ loaded game
      → (execute_pipeline load_game steps force game_id depth w).0.success ≡ true
      → let w' = (execute_pipeline load_game steps force game_id depth w).1 in
        All (λ id. contains (get_completed_steps w'.step_status game_id) id ≡ true) (ids steps)
  steps_of_success load_game steps force game_id depth w game h ok =
      let (done, rest, e, handles, end) =
        execute_pipeline-Accounts load_game steps force game_id depth w game h in
      let everything : steps ≡ done = elim end [
        | inl (nil, _, _) ↦ e ∙ ap (λ l. done ++ l) nil ∙ append-nil done
        | inr (f, more, _, _, fails) ↦ cc
      ] in
      All-intro (ids steps) λ id m. ground (
        arith,
        handles id,
        ap (λ (l : List (AnalysisStep G D S)). contains (ids l) id) everything,
        execute_pipeline_marks load_game steps force game_id game_id depth w id,
        eq_refl game_id,
        pipeline_skipped_completed load_game steps force game_id depth w game id h,
      )

  -- When a run succeeds, a run of the same steps after it that is not forced succeeds, executes no
  -- step and changes nothing.
  pub rerun_is_noop :
      (load_game : String → Loaded G) (steps : List (AnalysisStep G D S)) (force : Bool)
      (game_id : String) (depth : Option ℕ) (w : World S) (game : G)
      → load_game game_id ≡ loaded game
      → (execute_pipeline load_game steps force game_id depth w).0.success ≡ true
      → let w' = (execute_pipeline load_game steps force game_id depth w).1 in
        let (report, w'') = execute_pipeline load_game steps false game_id depth w' in
        (report.success ≡ true) × (report.steps_executed ≡ []) × (w'' ≡ w')
  rerun_is_noop load_game steps force game_id depth w game h ok =
      pipeline_skips load_game steps game_id depth
        (execute_pipeline load_game steps force game_id depth w).1 game h
        (steps_of_success load_game steps force game_id depth w game h ok)
