-- ===== src/Pipeline/Executor.antt =====
-- PipelineExecutor of blunder_tutor/analysis/pipeline/executor.py. A run's state is the context, the report and
-- what the steps have written. Timestamps, step durations and logging are left out.
pub mod Outcomes
pub mod Resume
pub mod Rerun
use chess_blunder_trainer.Common.{
  ℕ, String, Bool, true, false, Option, none, some, List, [], ◌∷◌, ◌++◌, contains, add_key, keep,
  not, ◌&&◌, if◌then◌else◌, is_some, string_eq,
}
use chess_blunder_trainer.Common.Dict
use chess_blunder_trainer.Common.Dict.{Dict}
use chess_blunder_trainer.Pipeline.Steps.{
  StepResult, StepContext, Outcome, returned, raised, AnalysisStep, new_context, add_step_result,
}

-- what awaiting `load_game(game_id)` does
pub data Loaded (G : Type 0) : Type 0 where
  loaded : G → Loaded G
  load_raised : String → Loaded G

-- the texts that `report.error` is made of
pub data ReportError : Type 0 where
  load_failed : String → ReportError
  missing_dependencies : String → List String → ReportError
  step_raised : String → ReportError
  step_error : Option String → ReportError

pub record PipelineReport : Type 0 where
  pub game_id : String
  pub steps_executed : List String
  pub steps_skipped : List String
  pub steps_failed : List String
  pub success : Bool
  pub error : Option ReportError

-- `analysis_step_status` by game id, and everything else that the steps write
pub record World (S : Type 0) : Type 0 where
  pub step_status : Dict String (List String)
  pub store : S

pub record Run (G D S : Type 0) : Type 0 where
  pub ctx : StepContext G D
  pub report : PipelineReport
  pub store : S

abbrev pub new_report : String → PipelineReport
new_report id = record {
  game_id = id;
  steps_executed = [];
  steps_skipped = [];
  steps_failed = [];
  success = true;
  error = none;
}

-- `AnalysisRepository.get_completed_steps`
unfoldable pub get_completed_steps : Dict String (List String) → String → List String
get_completed_steps status game_id = elim (Dict.get status game_id) [ none ↦ [] | some s ↦ s ]

abbrev pub add_keys : List String → List String → List String
add_keys [] xs = xs
add_keys (k ∷ ks) xs = add_keys ks (add_key k xs)

-- `AnalysisRepository.mark_steps_completed`
unfoldable pub mark_steps_completed :
    Dict String (List String) → String → List String → Dict String (List String)
unfolding get_completed_steps
mark_steps_completed status game_id steps =
    Dict.put status game_id (add_keys steps (get_completed_steps status game_id))

-- `if report.steps_executed: mark_steps_completed(...)`
unfoldable pub mark_executed :
    Dict String (List String) → String → List String → Dict String (List String)
unfolding mark_steps_completed
mark_executed status game_id [] = status
mark_executed status game_id (s ∷ ss) = mark_steps_completed status game_id (s ∷ ss)

-- the result that a skipped step leaves: success, with no data
abbrev pub skip_result : {D : Type 0} → String → StepResult D
skip_result id = record { step_id = id; success = true; payload = none; error = none }

module _ {G D S : Type 0} where
  unfoldable pub check_dependencies : AnalysisStep G D S → StepContext G D → List String
  check_dependencies step ctx =
      keep (λ d. not (is_some (Dict.get ctx.step_results d))) step.depends_on

  fail_with : Run G D S → String → ReportError → Run G D S
  fail_with r id e = record r {
    report = record r.report {
      steps_failed = r.report.steps_failed ++ id ∷ [];
      success = false;
      error = some e;
    };
  }

  -- `_execute_step` once `step.execute(ctx)` has returned or raised
  settle_step : AnalysisStep G D S → Outcome D → Run G D S → Bool × Run G D S
  unfolding add_step_result fail_with
  settle_step step (raised message) r = (false, fail_with r step.step_id (step_raised message))
  settle_step step (returned result) r =
      let r' : Run G D S = record r { ctx = add_step_result r.ctx result } in
      if result.success
      then (
        true,
        record r' {
          report = record r.report {
            steps_executed = r.report.steps_executed ++ step.step_id ∷ [];
          };
        },
      )
      else (false, fail_with r' step.step_id (step_error result.error))

  unfoldable pub execute_step : AnalysisStep G D S → Run G D S → Bool × Run G D S
  unfolding settle_step
  execute_step step r =
      let (outcome, store') = step.execute r.ctx r.store in
      settle_step step outcome (record r { store = store' })

  -- The completed steps of the game are those that were there when the run began: the executor
  -- marks steps only at the end, and steps do not touch the table.
  unfoldable pub run_single_step : List String → AnalysisStep G D S → Run G D S → Bool × Run G D S
  unfolding check_dependencies execute_step
  run_single_step completed step r =
      if not r.ctx.force_rerun && contains completed step.step_id
      then (
        true,
        record r {
          report = record r.report { steps_skipped = r.report.steps_skipped ++ step.step_id ∷ [] };
          ctx = add_step_result r.ctx (skip_result step.step_id);
        },
      )
      else elim (check_dependencies step r.ctx) [
        | [] ↦ execute_step step r
        | d ∷ ds ↦ (false, fail_with r step.step_id (missing_dependencies step.step_id (d ∷ ds)))
      ]

  -- the `for` loop of `execute_pipeline`, which stops at the first step that returns False
  unfoldable pub run_steps : List String → List (AnalysisStep G D S) → Run G D S → Run G D S
  run_steps completed [] r = r
  run_steps completed (step ∷ steps) r =
      let (go_on, r') = run_single_step completed step r in
      let rest = run_steps completed steps r' in if go_on then rest else r'

  unfoldable pub first_run : Bool → String → Option ℕ → World S → G → Run G D S
  unfolding new_context
  first_run force game_id depth w game = record {
    ctx = new_context game_id game depth force;
    report = new_report game_id;
    store = w.store;
  }

  -- `execute_pipeline` once `load_game` has returned or raised
  unfoldable pub run_loaded :
      List (AnalysisStep G D S)
      → Bool
      → String
      → Option ℕ
      → World S
      → Loaded G
      → PipelineReport × World S
  unfolding run_steps first_run
  run_loaded steps force game_id depth w (load_raised message) =
      (record (new_report game_id) { success = false; error = some (load_failed message) }, w)
  run_loaded steps force game_id depth w (loaded game) =
      let r =
        run_steps (get_completed_steps w.step_status game_id) steps
          (first_run force game_id depth w game) in
      (
        r.report,
        record {
          step_status = mark_executed w.step_status game_id r.report.steps_executed;
          store = r.store;
        },
      )

  -- `steps` is what `get_ordered_steps` returned
  unfoldable pub execute_pipeline :
      (String → Loaded G)
      → List (AnalysisStep G D S)
      → Bool
      → String
      → Option ℕ
      → World S
      → PipelineReport × World S
  unfolding run_loaded
  execute_pipeline load_game steps force game_id depth w =
      run_loaded steps force game_id depth w (load_game game_id)
