-- ===== src/Pipeline/Order.antt =====
-- AnalysisPipeline of blunder_tutor/analysis/pipeline/pipeline.py: validation, direct dependencies and the
-- recursive topological sort. A Python set is a list of its keys, in any order.
pub mod Sort
pub mod Total
use chess_blunder_trainer.Common.{
  ℕ, zero, suc, String, Bool, true, false, Option, none, some, List, [], ◌∷◌, ◌++◌, contains,
  add_key, keep, not, if◌then◌else◌, is_some, string_eq, ◌&&◌, ◌||◌,
}
use chess_blunder_trainer.Common.Dict
use chess_blunder_trainer.Common.Dict.{Dict}
use chess_blunder_trainer.Pipeline.Steps.{AnalysisStep, PipelineConfig, steps_by_id}

-- `visited` and `result` of `_topological_sort`
pub record Sorting (S : Type 0) : Type 0 where
  pub visited : List String
  pub result : List S

abbrev pub start : {S : Type 0} → Sorting S
start = record { visited = []; result = [] }

-- `for dep_id in ids: visit(dep_id)`; `none` is the recursion limit, which an inner call ran into
unfoldable pub visit_each :
    {S : Type 0}
    → (String → Sorting S → Option (Sorting S))
    → List String
    → Sorting S
    → Option (Sorting S)
visit_each visit [] st = some st
visit_each visit (d ∷ ds) st = elim (visit d st) [
  | none ↦ none
  | some st' ↦ visit_each visit ds st'
]

module _ {G D W : Type 0} (table : Dict String (AnalysisStep G D W)) where
  -- what `visit` does at a step that it finds: first the dependencies, then the step itself
  unfoldable pub visit_step :
      (String → Sorting (AnalysisStep G D W) → Option (Sorting (AnalysisStep G D W)))
      → String
      → AnalysisStep G D W
      → Sorting (AnalysisStep G D W)
      → Option (Sorting (AnalysisStep G D W))
  visit_step visit id step st = elim (visit_each visit step.depends_on st) [
    | none ↦ none
    | some st' ↦
        some (record { visited = add_key id st'.visited; result = st'.result ++ step ∷ [] })
  ]

  -- `visit`; the fuel is the depth of the Python stack
  unfoldable pub visit :
      List String
      → ℕ
      → String
      → Sorting (AnalysisStep G D W)
      → Option (Sorting (AnalysisStep G D W))
  visit step_ids zero id st = none
  visit step_ids (suc fuel) id st = elim (contains st.visited id || not (contains step_ids id)) [
    | true ↦ some st
    | false ↦ elim (Dict.get table id) [
      | none ↦ some st
      | some step ↦ visit_step (visit step_ids fuel) id step st
    ]
  ]

  unfoldable pub topological_sort : ℕ → List String → Option (List (AnalysisStep G D W))
  unfolding visit_each
  topological_sort fuel step_ids = elim (visit_each (visit step_ids fuel) step_ids start) [
    | none ↦ none
    | some st ↦ some st.result
  ]

  -- `for dep_id in step.depends_on - requested_ids`, adding what the table has
  unfoldable pub pull_deps : List String → List String → List String
  pull_deps requested [] = requested
  pull_deps requested (d ∷ ds) =
      pull_deps (if is_some (Dict.get table d) then add_key d requested else requested) ds

  -- `_pull_in_missing_deps`: the loop goes over the configured list; `none` is a KeyError
  unfoldable pub pull_in_missing_deps : List String → List String → Option (List String)
  unfolding pull_deps
  pull_in_missing_deps requested [] = some requested
  pull_in_missing_deps requested (id ∷ ids) = elim (Dict.get table id) [
    | none ↦ none
    | some step ↦
        pull_in_missing_deps
          (pull_deps requested (keep (λ d. not (contains requested d)) step.depends_on)) ids
  ]

-- `set(config.steps)`
unfoldable pub set_of : List String → List String → List String
set_of seen [] = seen
set_of seen (x ∷ xs) = set_of (add_key x seen) xs

pub record AnalysisPipeline (G D W : Type 0) : Type 0 where
  pub config : PipelineConfig
  pub table : Dict String (AnalysisStep G D W)

module _ {G D W : Type 0} where
  abbrev all_known : Dict String (AnalysisStep G D W) → List String → Bool
  all_known table [] = true
  all_known table (id ∷ ids) = is_some (Dict.get table id) && all_known table ids

  -- AnalysisPipeline.__init__ with `_validate_steps`: `none` is the ValueError for an unknown step
  unfoldable pub new_pipeline :
      PipelineConfig → List (AnalysisStep G D W) → Option (AnalysisPipeline G D W)
  new_pipeline config available =
      let table = steps_by_id available in
      if all_known table config.steps
      then some (record { config = config; table = table })
      else none

  -- `order` is the order in which Python happens to enumerate a set
  unfoldable pub get_ordered_steps :
      (List String → List String) → ℕ → AnalysisPipeline G D W → Option (List (AnalysisStep G D W))
  get_ordered_steps order fuel p =
      elim (pull_in_missing_deps p.table (set_of [] p.config.steps) p.config.steps) [
        | none ↦ none
        | some ids ↦ topological_sort p.table fuel (order ids)
      ]
