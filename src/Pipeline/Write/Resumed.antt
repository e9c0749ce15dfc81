-- ===== src/Pipeline/Write/Resumed.antt =====
-- A run of blunder_tutor/analysis/pipeline/executor.py that comes after one whose write step did not complete.
use chess_blunder_trainer.Common.{
  ℕ, String, ◌≡◌, refl, ap, true, false, Option, none, some, List, [], ◌∷◌, ◌++◌, arith, contains,
  keep, string_eq, All, ◌∙◌, eq_refl,
}
use chess_blunder_trainer.Common.Dict
use chess_blunder_trainer.Common.Dict.{Dict, get-put}
use chess_blunder_trainer.Pipeline.Steps.{StepContext, AnalysisStep, new_context, get_step_result}
use chess_blunder_trainer.Pipeline.Order.Sort.{ids}
use chess_blunder_trainer.Pipeline.Executor.{
  Loaded, loaded, World, Run, get_completed_steps, check_dependencies, skip_result, run_single_step,
  run_steps, execute_pipeline, run_loaded, first_run,
}
use chess_blunder_trainer.Pipeline.Executor.Rerun.{
  skip_all, run_steps-skip, results-skip_all, skip_all_keeps, game_id-skip_all,
}
use chess_blunder_trainer.Pipeline.Executor.Outcomes.{completed-mark_executed}
use chess_blunder_trainer.Pipeline.Write.{
  StepData, AnalysisStore, write_analysis, write_execute, write_step,
}

module _ {G M : Type 0} where
  -- With the results of skipped steps before it, the write step succeeds and stores no moves.
  write_after_skips :
      (ctx : StepContext G (StepData M)) (store : AnalysisStore M)
      → get_step_result ctx "move_quality" ≡ some (skip_result "move_quality")
      → get_step_result ctx "phase" ≡ some (skip_result "phase")
      → get_step_result ctx "eco" ≡ some (skip_result "eco")
      → ((write_execute ctx store).1 ≡ write_analysis store ctx.game_id [] (none, none))
  unfolding write_execute
  write_after_skips ctx store quality phase eco = ground (arith)

  -- what the run's state looks like before the write step
  record Ready (r : Run G (StepData M) (AnalysisStore M)) : Type 0 where
    quality : get_step_result r.ctx "move_quality" ≡ some (skip_result "move_quality")
    phase : get_step_result r.ctx "phase" ≡ some (skip_result "phase")
    eco : get_step_result r.ctx "eco" ≡ some (skip_result "eco")
    tactics : get_step_result r.ctx "tactics" ≡ some (skip_result "tactics")

  Ready-skip_all :
      (done : List (AnalysisStep G (StepData M) (AnalysisStore M)))
      (r : Run G (StepData M) (AnalysisStore M))
      → All
          (λ id. contains (ids done) id ≡ true)
          ("move_quality" ∷ "phase" ∷ "eco" ∷ "tactics" ∷ [])
      → Ready (skip_all done r)
  unfolding get_step_result
  Ready-skip_all done r h = record {
    quality = ground (arith, results-skip_all done r "move_quality");
    phase = ground (arith, results-skip_all done r "phase");
    eco = ground (arith, results-skip_all done r "eco");
    tactics = ground (arith, results-skip_all done r "tactics");
  }

  write_single :
      (completed : List String) (r : Run G (StepData M) (AnalysisStore M))
      → contains completed "write" ≡ false
      → Ready r
      → let (go_on, r') = run_single_step completed write_step r in
        (go_on ≡ true)
        × (r'.report.success ≡ r.report.success)
        × (r'.report.steps_executed ≡ r.report.steps_executed ++ "write" ∷ [])
        × (r'.store ≡ write_analysis r.store r.ctx.game_id [] (none, none))
  unfolding run_single_step write_step
  write_single completed r fresh h =
      let nothing_missing : check_dependencies write_step r.ctx ≡ [] =
        unfold check_dependencies keep get_step_result write_step in ground (arith, h) in
      ground (arith, nothing_missing, h)

  -- In a run that is not forced, when everything before the write step was completed by an earlier run
  -- and the write step itself was not, the write step is executed, succeeds and is marked as
  -- completed; the moves that are stored for the game afterwards are the empty list.
  pub resumed_write_stores_no_moves :
      (load_game : String → Loaded G) (done : List (AnalysisStep G (StepData M) (AnalysisStore M)))
      (game_id : String) (depth : Option ℕ) (w : World (AnalysisStore M)) (game : G)
      → load_game game_id ≡ loaded game
      → All (λ id. contains (get_completed_steps w.step_status game_id) id ≡ true) (ids done)
      → All
          (λ id. contains (ids done) id ≡ true)
          ("move_quality" ∷ "phase" ∷ "eco" ∷ "tactics" ∷ [])
      → contains (get_completed_steps w.step_status game_id) "write" ≡ false
      → let (report, w') =
          execute_pipeline load_game (done ++ write_step ∷ []) false game_id depth w in
        (report.success ≡ true)
        × (report.steps_executed ≡ "write" ∷ [])
        × (Dict.get w'.store.analysis_moves game_id ≡ some [])
        × (contains (get_completed_steps w'.step_status game_id) "write" ≡ true)
  unfolding execute_pipeline
  resumed_write_stores_no_moves load_game done game_id depth w game h all deps fresh =
      let c = get_completed_steps w.step_status game_id in
      let r0 : Run G (StepData M) (AnalysisStore M) = first_run false game_id depth w game in
      let r1 = skip_all done r0 in
      let (success, executed, store) = skip_all_keeps done r0 in
      let (go, success', executed', store') =
        write_single c r1 fresh (Ready-skip_all done r0 deps) in
      let e : run_steps c (done ++ write_step ∷ []) r0 ≡ (run_single_step c write_step r1).1 =
        run_steps-skip c done (write_step ∷ []) r0 all (unfold first_run new_context in refl)
        ∙ (unfold run_steps in ground (arith, go)) in
      let all_executed : (run_single_step c write_step r1).1.report.steps_executed ≡ "write" ∷ [] =
        executed' ∙ ap (λ l. l ++ "write" ∷ []) executed ∙ (unfold first_run in refl) in
      let same_game : r1.ctx.game_id ≡ game_id =
        game_id-skip_all done r0 ∙ (unfold first_run new_context in refl) in
      rw (h, execute_pipeline)
        (unfold run_loaded in
          rw e (
            success' ∙ success ∙ (unfold first_run in refl),
            all_executed,
            ap (λ (s : AnalysisStore M). Dict.get s.analysis_moves game_id) store'
                ∙ (unfold write_analysis in
                    ground (
                      arith,
                      get-put r1.store.analysis_moves r1.ctx.game_id game_id [],
                      same_game,
                      eq_refl game_id,
                    )),
            unfold contains in
                ground (
                  arith,
                  completed-mark_executed w.step_status game_id game_id
                      (run_single_step c write_step r1).1.report.steps_executed "write",
                  all_executed,
                  eq_refl game_id,
                ),
          ))
