-- ===== src/Pipeline/Steps.antt =====
-- blunder_tutor/analysis/pipeline/context.py, pipeline.py (presets, configuration, step table) and the step
-- metadata of analysis/pipeline/steps. `G` is python-chess's game, `D` the data that a step's result
-- carries, and `W` what the steps read and write beyond the context (repositories, the engine).
use chess_blunder_trainer.Common.{
  ℕ, String, ◌≡◌, Bool, Option, none, some, List, [], ◌∷◌, arith, string_eq,
}
use chess_blunder_trainer.Common.Dict
use chess_blunder_trainer.Common.Dict.{Dict, get-put}

-- `data` stands for the data dictionary; a skipped step has the empty one.
pub record StepResult (D : Type 0) : Type 0 where
  pub step_id : String
  pub success : Bool
  pub payload : Option D
  pub error : Option String

pub record StepContext (G D : Type 0) : Type 0 where
  pub game_id : String
  pub game : G
  pub depth : ℕ
  pub step_results : Dict String (StepResult D)
  pub force_rerun : Bool

abbrev pub default_engine_depth : ℕ
default_engine_depth = 11

-- `StepContext(...)` with `__post_init__`
unfoldable pub new_context : {G D : Type 0} → String → G → Option ℕ → Bool → StepContext G D
new_context id g depth force = record {
  game_id = id;
  game = g;
  depth = elim depth [ none ↦ default_engine_depth | some d ↦ d ];
  step_results = [];
  force_rerun = force;
}

-- What awaiting `step.execute(ctx)` does: it returns a result or raises.
pub data Outcome (D : Type 0) : Type 0 where
  returned : StepResult D → Outcome D
  raised : String → Outcome D

pub record AnalysisStep (G D W : Type 0) : Type 0 where
  pub step_id : String
  pub depends_on : List String
  pub execute : StepContext G D → W → Outcome D × W

module _ {G D : Type 0} where
  unfoldable pub get_step_result : StepContext G D → String → Option (StepResult D)
  get_step_result ctx id = Dict.get ctx.step_results id

  unfoldable pub add_step_result : StepContext G D → StepResult D → StepContext G D
  add_step_result ctx r = record ctx { step_results = Dict.put ctx.step_results r.step_id r }

-- PipelinePreset
pub data PipelinePreset : Type 0 where
  full fast backfill_eco backfill_phase backfill_traps llm_backfill : PipelinePreset

unfoldable pub preset_steps : PipelinePreset → List String
preset_steps full = "eco" ∷ "stockfish" ∷ "move_quality" ∷ "phase" ∷ "traps" ∷ "write" ∷ []
preset_steps fast = "eco" ∷ "phase" ∷ []
preset_steps backfill_eco = "eco" ∷ []
preset_steps backfill_phase = "phase" ∷ []
preset_steps backfill_traps = "traps" ∷ []
preset_steps llm_backfill = "llm" ∷ []

pub record PipelineConfig : Type 0 where
  pub steps : List String
  pub force_rerun : Bool

-- PipelineConfig.from_preset
unfoldable pub from_preset : PipelinePreset → Bool → PipelineConfig
unfolding preset_steps
from_preset p force = record { steps = preset_steps p; force_rerun = force }

module _ {G D W : Type 0} where
  -- `{step.step_id: step for step in available_steps}`, from a table to a table
  unfoldable pub index_from :
      Dict String (AnalysisStep G D W)
      → List (AnalysisStep G D W)
      → Dict String (AnalysisStep G D W)
  index_from d [] = d
  index_from d (s ∷ ss) = index_from (Dict.put d s.step_id s) ss

  unfoldable pub steps_by_id : List (AnalysisStep G D W) → Dict String (AnalysisStep G D W)
  unfolding index_from
  steps_by_id = index_from []

  -- Every entry of the table is filed under its own id.
  abbrev pub IsIndexed : Dict String (AnalysisStep G D W) → Type 0
  IsIndexed d = (id : String) (s : AnalysisStep G D W) → Dict.get d id ≡ some s → s.step_id ≡ id

  put-IsIndexed :
      (d : Dict String (AnalysisStep G D W)) (s : AnalysisStep G D W)
      → IsIndexed d
      → IsIndexed (Dict.put d s.step_id s)
  put-IsIndexed d s h id t =
      λ p. ground (arith, get-put d s.step_id id s, h id t, string_eq.beq_iff s.step_id id)

  index_from-IsIndexed :
      (d : Dict String (AnalysisStep G D W)) (ss : List (AnalysisStep G D W))
      → IsIndexed d
      → IsIndexed (index_from d ss)
  unfolding index_from
  index_from-IsIndexed d [] h = h
  index_from-IsIndexed d (s ∷ ss) h =
      index_from-IsIndexed (Dict.put d s.step_id s) ss (put-IsIndexed d s h)

  pub steps_by_id-IsIndexed : (ss : List (AnalysisStep G D W)) → IsIndexed (steps_by_id ss)
  unfolding steps_by_id Dict.get
  steps_by_id-IsIndexed ss = index_from-IsIndexed [] ss (λ id s p. cc)
