-- ===== src/Pipeline/Examples.antt =====
-- Runs of the analysis pipeline (analysis/pipeline) on small inputs.
use chess_blunder_trainer.Common.{
  ℕ, ◌+◌, String, ◌≡◌, refl, true, false, Option, none, some, List, [], ◌∷◌, ◌++◌, arith, contains,
  string_eq, Unique, ◌||◌, ◌&&◌, ◌==◌, keep, add_key,
}
use chess_blunder_trainer.Common.Dict
use chess_blunder_trainer.Pipeline.Steps.{
  StepContext, Outcome, returned, AnalysisStep, PipelineConfig, steps_by_id, from_preset, full,
}
use chess_blunder_trainer.Pipeline.Order.{
  AnalysisPipeline, new_pipeline, get_ordered_steps, pull_in_missing_deps, topological_sort, set_of,
  visit, visit_step,
}
use chess_blunder_trainer.Pipeline.Order.Sort.{ids, DepsFirst}
use chess_blunder_trainer.Pipeline.Order.Total.{direct_dependency, get_ordered_steps_total}
use chess_blunder_trainer.Pipeline.Executor.{
  Loaded, loaded, World, new_report, missing_dependencies, skip_result, get_completed_steps,
  run_single_step, execute_pipeline,
}
use chess_blunder_trainer.Pipeline.Executor.Outcomes.{
  Accounts, execute_pipeline-Accounts, execute_pipeline_marks,
}
use chess_blunder_trainer.Pipeline.Executor.Resume.{
  is_missing, execute_pipeline_not_missing, missing_dependency_stops,
}
use chess_blunder_trainer.Pipeline.Executor.Rerun.{rerun_is_noop}
use chess_blunder_trainer.Pipeline.Write.{StepData, AnalysisStore, write_step}
use chess_blunder_trainer.Pipeline.Write.Resumed.{resumed_write_stores_no_moves}
use chess_blunder_trainer.Pipeline.Registry.{
  get_all_steps, step_named, step_rank, step_rank-lt, get_all_steps-Ranked,
}

-- every step counts one more write, and succeeds
abbrev count_run : String → StepContext (Unit {0}) ℕ → ℕ → Outcome ℕ × ℕ
count_run id ctx n =
    (returned (record { step_id = id; success = true; payload = some n; error = none }), n + 1)

abbrev available : List (AnalysisStep (Unit {0}) ℕ ℕ)
available = get_all_steps count_run

abbrev full_config : PipelineConfig
full_config = from_preset full false

abbrev full_pipeline : AnalysisPipeline (Unit {0}) ℕ ℕ
full_pipeline = record { config = full_config; table = steps_by_id available }

full_builds : new_pipeline full_config available ≡ some full_pipeline
unfolding new_pipeline steps_by_id Dict.put Dict.get from_preset get_all_steps
full_builds = refl

get_ordered_steps_total_example :
    (result : List (AnalysisStep (Unit {0}) ℕ ℕ)) × (get_ordered_steps (λ xs. xs) 5 full_pipeline
      ≡ some result)
    × Unique (ids result)
    × DepsFirst (contains (ids result)) [] result
    × ((x : String)
        → contains (ids result) x
          ≡ contains full_config.steps x
            || direct_dependency (steps_by_id available) full_config.steps x)
get_ordered_steps_total_example =
    get_ordered_steps_total (λ xs. xs) step_rank 5 full_config available full_pipeline
      (λ xs x. refl) (get_all_steps-Ranked count_run) step_rank-lt full_builds

-- "tactics" is not in the preset, and is pulled in for "write".
abbrev names : Option (List (AnalysisStep (Unit {0}) ℕ ℕ)) → List String
names none = []
names (some ss) = ids ss

full_order :
    names (get_ordered_steps (λ xs. xs) 5 full_pipeline)
    ≡ "eco" ∷ "stockfish" ∷ "move_quality" ∷ "phase" ∷ "traps" ∷ "tactics" ∷ "write" ∷ []
unfolding get_ordered_steps steps_by_id Dict.put Dict.get from_preset get_all_steps
    pull_in_missing_deps topological_sort keep contains set_of add_key visit visit_step
full_order = refl

abbrev fresh : World ℕ
fresh = record { step_status = []; store = 0 }

abbrev load_any : String → Loaded (Unit {0})
load_any id = loaded tt

abbrev quality_first : List (AnalysisStep (Unit {0}) ℕ ℕ)
quality_first =
    step_named count_run "stockfish" []
    ∷ step_named count_run "move_quality" ("stockfish" ∷ [])
    ∷ []

execute_pipeline-Accounts_example :
    Accounts quality_first
      (new_report "g1")
      (execute_pipeline load_any quality_first false "g1" none fresh).0
execute_pipeline-Accounts_example =
    execute_pipeline-Accounts load_any quality_first false "g1" none fresh tt refl

execute_pipeline_marks_example :
    let (report, w') = execute_pipeline load_any quality_first false "g1" none fresh in
    contains (get_completed_steps w'.step_status "g1") "move_quality"
    ≡ contains (get_completed_steps fresh.step_status "g1") "move_quality"
      || (◌==◌ {A = String} "g1" "g1" && contains report.steps_executed "move_quality")
execute_pipeline_marks_example =
    execute_pipeline_marks load_any quality_first false "g1" "g1" none fresh "move_quality"

execute_pipeline_not_missing_example :
    is_missing (execute_pipeline load_any quality_first false "g1" none fresh).0.error ≡ false
unfolding step_named contains
execute_pipeline_not_missing_example =
    execute_pipeline_not_missing load_any quality_first false "g1" none fresh
      (λ ctx store result e. ground arith, (λ ctx store result e. ground arith, tt))
      (tt, ((λ p. refl, tt), tt))

-- "llm" pulls in "write" alone, which then lacks its own dependencies.
abbrev llm_order : List (AnalysisStep (Unit {0}) ℕ ℕ)
llm_order = step_named count_run "llm" ("write" ∷ []) ∷ []

abbrev write_metadata : AnalysisStep (Unit {0}) ℕ ℕ
write_metadata = step_named count_run "write" ("move_quality" ∷ "phase" ∷ "eco" ∷ "tactics" ∷ [])

missing_dependency_stops_example :
    let (report, w') =
      execute_pipeline load_any (write_metadata ∷ llm_order) false "g1" none fresh in
    (report.success ≡ false)
    × (report.error ≡ some (missing_dependencies "write" write_metadata.depends_on))
    × (report.steps_executed ≡ [])
    × (w' ≡ fresh)
unfolding step_named get_completed_steps contains Dict.get
missing_dependency_stops_example =
    missing_dependency_stops load_any write_metadata llm_order false "g1" none fresh tt refl
      (λ e. cc) refl

rerun_is_noop_example :
    let w' = (execute_pipeline load_any quality_first false "g1" none fresh).1 in
    let (report, w'') = execute_pipeline load_any quality_first false "g1" none w' in
    (report.success ≡ true) × (report.steps_executed ≡ []) × (w'' ≡ w')
unfolding execute_pipeline run_single_step contains get_completed_steps Dict.get keep step_named
    Dict.put
rerun_is_noop_example = rerun_is_noop load_any quality_first false "g1" none fresh tt refl refl

abbrev idle_step : String → AnalysisStep (Unit {0}) (StepData (Unit {0})) (AnalysisStore (Unit {0}))
idle_step id = record {
  step_id = id;
  depends_on = [];
  execute = λ ctx store. (returned (skip_result id), store);
}

abbrev earlier : List (AnalysisStep (Unit {0}) (StepData (Unit {0})) (AnalysisStore (Unit {0})))
earlier = idle_step "eco" ∷ idle_step "move_quality" ∷ idle_step "phase" ∷ idle_step "tactics" ∷ []

abbrev half_done : World (AnalysisStore (Unit {0}))
half_done = record {
  step_status = ("g1", "eco" ∷ "move_quality" ∷ "phase" ∷ "tactics" ∷ []) ∷ [];
  store = record { analysis_games = []; analysis_moves = [] };
}

resumed_write_stores_no_moves_example :
    let (report, w') =
      execute_pipeline load_any (earlier ++ write_step ∷ []) false "g1" none half_done in
    (report.success ≡ true)
    × (report.steps_executed ≡ "write" ∷ [])
    × (Dict.get w'.store.analysis_moves "g1" ≡ some [])
    × (contains (get_completed_steps w'.step_status "g1") "write" ≡ true)
unfolding contains get_completed_steps Dict.get
resumed_write_stores_no_moves_example =
    resumed_write_stores_no_moves load_any earlier "g1" none half_done tt refl
      (refl, (refl, (refl, (refl, tt)))) (refl, (refl, (refl, (refl, tt)))) refl
