-- ===== src/Pipeline/Write.antt =====
-- WriteAnalysisStep of blunder_tutor/analysis/pipeline/steps/write.py, and what it writes in a resumed run.
-- `M` is the part of a move record that the step only copies. The analysis row's engine, depth and
-- thresholds are left out; the moves of a game are replaced as a whole (blunder_tutor/repositories/analysis.py).
pub mod Resumed
use chess_blunder_trainer.Common.{
  ℕ, String, Bool, true, false, Option, none, some, List, [], ◌∷◌, length, if◌then◌else◌, string_eq,
  nat_eq,
}
use chess_blunder_trainer.Common.Dict
use chess_blunder_trainer.Common.Dict.{Dict}
use chess_blunder_trainer.Pipeline.Steps.{
  StepResult, StepContext, Outcome, returned, AnalysisStep, get_step_result,
}

pub record Move (M : Type 0) : Type 0 where
  pub ply : ℕ
  pub facts : M
  pub game_phase : Option ℕ
  pub tactical_pattern : Option ℕ
  pub tactical_reason : Option String

pub record TacticRow : Type 0 where
  pub ply : ℕ
  pub primary_pattern : Option ℕ
  pub blunder_reason : Option String

-- the data dictionaries that the steps return, one for each kind of step
pub data StepData (M : Type 0) : Type 0 where
  moves_data : List (Move M) → StepData M
  phases_data : List (ℕ × ℕ) → StepData M
  tactics_data : List TacticRow → StepData M
  eco_data : Option String → Option String → StepData M
  written_data : ℕ → StepData M

-- `analysis_games` (the two ECO columns) and `analysis_moves`, by game id
pub record AnalysisStore (M : Type 0) : Type 0 where
  pub analysis_games : Dict String (Option String × Option String)
  pub analysis_moves : Dict String (List (Move M))

-- `{p["ply"]: p["phase"] for p in ...}`
phase_map : Dict ℕ ℕ → List (ℕ × ℕ) → Dict ℕ ℕ
phase_map d [] = d
phase_map d ((ply, phase) ∷ ps) = phase_map (Dict.put d ply phase) ps

tactics_map : Dict ℕ TacticRow → List TacticRow → Dict ℕ TacticRow
tactics_map d [] = d
tactics_map d (t ∷ ts) = tactics_map (Dict.put d t.ply t) ts

module _ {M : Type 0} where
  -- `data.get("moves", [])` and its like
  abbrev moves_of : Option (StepData M) → List (Move M)
  moves_of (some (moves_data ms)) = ms
  moves_of _ = []

  abbrev phases_of : Option (StepData M) → List (ℕ × ℕ)
  phases_of (some (phases_data ps)) = ps
  phases_of _ = []

  abbrev tactics_of : Option (StepData M) → List TacticRow
  tactics_of (some (tactics_data ts)) = ts
  tactics_of _ = []

  abbrev eco_of : Option (StepData M) → Option String × Option String
  eco_of (some (eco_data code name)) = (code, name)
  eco_of _ = (none, none)

  -- the body of `for move in moves`
  annotate : Dict ℕ ℕ → Dict ℕ TacticRow → Move M → Move M
  annotate phases tactics m =
      let m' = record m { game_phase = Dict.get phases m.ply } in
      elim (Dict.get tactics m.ply) [
        | none ↦ m'
        | some t ↦ record m' {
          tactical_pattern = t.primary_pattern;
          tactical_reason = t.blunder_reason;
        }
      ]

  annotate_all : Dict ℕ ℕ → Dict ℕ TacticRow → List (Move M) → List (Move M)
  annotate_all phases tactics [] = []
  annotate_all phases tactics (m ∷ ms) = annotate phases tactics m ∷ annotate_all phases tactics ms

  -- `AnalysisRepository.write_analysis`
  unfoldable pub write_analysis :
      AnalysisStore M → String → List (Move M) → Option String × Option String → AnalysisStore M
  write_analysis store game_id moves eco = record {
    analysis_games = Dict.put store.analysis_games game_id eco;
    analysis_moves = Dict.put store.analysis_moves game_id moves;
  }

  -- `not result or not result.success`
  abbrev incomplete : Option (StepResult (StepData M)) → Bool
  incomplete none = true
  incomplete (some r) = if r.success then false else true

  abbrev payload_of : Option (StepResult (StepData M)) → Option (StepData M)
  payload_of none = none
  payload_of (some r) = if r.success then r.payload else none

  not_completed : String → Outcome (StepData M)
  not_completed message =
      returned (record { step_id = "write"; success = false; payload = none; error = some message })

  unfoldable pub write_execute :
      {G : Type 0}
      → StepContext G (StepData M)
      → AnalysisStore M
      → Outcome (StepData M) × AnalysisStore M
  unfolding get_step_result annotate annotate_all phase_map tactics_map write_analysis not_completed
  write_execute ctx store =
      let quality = get_step_result ctx "move_quality" in
      let phase = get_step_result ctx "phase" in
      if incomplete quality
      then (not_completed "move_quality step not completed", store)
      else if incomplete phase
      then (not_completed "phase step not completed", store)
      else let phases = phase_map [] (phases_of (payload_of phase)) in
        let tactics = tactics_map [] (tactics_of (payload_of (get_step_result ctx "tactics"))) in
        let moves = annotate_all phases tactics (moves_of (payload_of quality)) in
        let eco = eco_of (payload_of (get_step_result ctx "eco")) in
        (
          returned (record {
            step_id = "write";
            success = true;
            payload = some (written_data (length moves));
            error = none;
          }),
          write_analysis store ctx.game_id moves eco,
        )

  unfoldable pub write_step : {G : Type 0} → AnalysisStep G (StepData M) (AnalysisStore M)
  unfolding write_execute
  write_step = record {
    step_id = "write";
    depends_on = "move_quality" ∷ "phase" ∷ "eco" ∷ "tactics" ∷ [];
    execute = write_execute;
  }
