-- ===== src/Pipeline/Registry.antt =====
-- get_all_steps of blunder_tutor/analysis/pipeline/steps/__init__.py: the ids and dependencies of the eight steps.
-- What each step does is the parameter `run`, by step id.
use chess_blunder_trainer.Common.{
  ℕ, ◌<◌, String, List, [], ◌∷◌, arith, ◌==◌, if◌then◌else◌, string_eq,
}
use chess_blunder_trainer.Common.Dict
use chess_blunder_trainer.Pipeline.Steps.{StepContext, Outcome, AnalysisStep, steps_by_id}
use chess_blunder_trainer.Pipeline.Order.Sort.{Ranked}

module _ {G D S : Type 0} (run : String → StepContext G D → S → Outcome D × S) where
  unfoldable pub step_named : String → List String → AnalysisStep G D S
  step_named id deps = record { step_id = id; depends_on = deps; execute = run id }

  unfoldable pub get_all_steps : List (AnalysisStep G D S)
  unfolding step_named
  get_all_steps =
      step_named "eco" []
      ∷ step_named "stockfish" []
      ∷ step_named "move_quality" ("stockfish" ∷ [])
      ∷ step_named "phase" []
      ∷ step_named "tactics" ("move_quality" ∷ [])
      ∷ step_named "traps" []
      ∷ step_named "write" ("move_quality" ∷ "phase" ∷ "eco" ∷ "tactics" ∷ [])
      ∷ step_named "llm" ("write" ∷ [])
      ∷ []

-- how many steps a chain of dependencies can go down from a step
abbrev pub step_rank : String → ℕ
step_rank id =
    if "llm" == id
    then 4
    else if "write" == id
    then 3
    else if "tactics" == id
    then 2
    else if "move_quality" == id
    then 1
    else 0

pub step_rank-lt : (id : String) → step_rank id < 5
step_rank-lt id = ground arith

module _ {G D S : Type 0} (run : String → StepContext G D → S → Outcome D × S) where
  -- The registered steps have a ranking, so there is no cycle among their dependencies.
  pub get_all_steps-Ranked : Ranked (steps_by_id (get_all_steps run)) step_rank
  unfolding get_all_steps steps_by_id Dict.get Dict.put
  get_all_steps-Ranked id s h = ground (
    arith,
    string_eq.beq_iff "llm" id,
    string_eq.beq_iff "write" id,
    string_eq.beq_iff "tactics" id,
    string_eq.beq_iff "move_quality" id,
  )
