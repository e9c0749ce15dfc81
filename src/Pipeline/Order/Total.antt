-- ===== src/Pipeline/Order/Total.antt =====
-- What get_ordered_steps of blunder_tutor/analysis/pipeline/pipeline.py returns, for step tables with a ranking.
use chess_blunder_trainer.Common.{
  ℕ, ◌<◌, String, ◌≡◌, refl, Bool, true, false, Option, none, some, List, [], ◌∷◌, arith, contains,
  add_key, keep, not, if◌then◌else◌, is_some, string_eq, ◌&&◌, ◌||◌, All, Unique, contains-add_key,
  contains-keep, All-at, All-intro, Option-cases, inl, inr,
}
use chess_blunder_trainer.Common.Dict
use chess_blunder_trainer.Common.Dict.{Dict}
use chess_blunder_trainer.Pipeline.Steps.{
  AnalysisStep, PipelineConfig, IsIndexed, steps_by_id, steps_by_id-IsIndexed,
}
use chess_blunder_trainer.Pipeline.Order.{
  AnalysisPipeline, start, visit, topological_sort, pull_deps, pull_in_missing_deps, set_of,
  all_known, new_pipeline, get_ordered_steps,
}
use chess_blunder_trainer.Pipeline.Order.Sort.{
  ids, required, DepsFirst, DepsFirst-mono, Ranked, Reaches-weaken, visit_each-Visits, visit-Visits,
  IsSorting-start,
}

module _ {G D W : Type 0} (table : Dict String (AnalysisStep G D W)) where
  -- For a table whose dependencies have a ranking below the fuel, the sort returns: each step that is
  -- asked for and known stands in the result, once, behind its required dependencies, and no other
  -- step does.
  pub topological_sort_total :
      (rank : String → ℕ) (fuel : ℕ) (step_ids : List String)
      → IsIndexed table
      → Ranked table rank
      → All (λ id. rank id < fuel) step_ids
      → (result : List (AnalysisStep G D W)) × (topological_sort table fuel step_ids ≡ some result)
        × Unique (ids result)
        × DepsFirst (required table step_ids) [] result
        × ((x : String) → contains (ids result) x ≡ required table step_ids x)
  unfolding topological_sort contains
  topological_sort_total rank fuel step_ids indexed ranked small =
      let (st, e, r, placed) =
        visit_each-Visits table step_ids indexed rank fuel (visit table step_ids fuel)
          (λ d sd lt sorted.
            let (sd', ed, rd, pd) =
              visit-Visits table step_ids indexed rank ranked fuel d sd lt sorted in
            (sd', ed, Reaches-weaken table step_ids indexed rank sd sd' lt rd, pd))
          step_ids start small (IsSorting-start table step_ids indexed rank ranked) in
      (
        st.result,
        rw (e, topological_sort),
        r.sorting.unique,
        r.sorting.first,
        λ x. ground (arith, r.sorting.same x, r.sorting.asked x, All-at _ step_ids x placed),
      )

  contains-pull_deps :
      (requested ds : List String) (x : String)
      → contains (pull_deps table requested ds) x
        ≡ contains requested x || (contains ds x && is_some (Dict.get table x))
  unfolding pull_deps contains
  contains-pull_deps requested [] x = ground arith
  contains-pull_deps requested (d ∷ ds) x =
      let grown = if is_some (Dict.get table d) then add_key d requested else requested in
      ground (
        arith,
        contains-pull_deps grown ds x,
        contains-add_key d x requested,
        string_eq.beq_iff d x,
      )

  abbrev known_dependency : Option (AnalysisStep G D W) → String → Bool
  known_dependency none x = false
  known_dependency (some s) x = contains s.depends_on x && is_some (Dict.get table x)

  -- a known dependency of a known step among the given ones
  abbrev pub direct_dependency : List String → String → Bool
  direct_dependency [] x = false
  direct_dependency (id ∷ rest) x =
      known_dependency (Dict.get table id) x || direct_dependency rest x

  contains-pull_one :
      (requested deps : List String) (x : String)
      → contains (pull_deps table requested (keep (λ d. not (contains requested d)) deps)) x
        ≡ contains requested x || (contains deps x && is_some (Dict.get table x))
  contains-pull_one requested deps x = ground (
    arith,
    contains-pull_deps requested (keep (λ d. not (contains requested d)) deps) x,
    contains-keep (λ d. not (contains requested d)) deps x,
  )

  -- When every configured step is known, the direct dependencies of configured steps join the
  -- requested ones, and nothing else does.
  pub contains-pull_in_missing_deps :
      (requested config : List String)
      → all_known table config ≡ true
      → (pulled : List String) × (pull_in_missing_deps table requested config ≡ some pulled)
        × ((x : String) → contains pulled x ≡ contains requested x || direct_dependency config x)
  unfolding pull_in_missing_deps
  contains-pull_in_missing_deps requested [] h = (requested, refl, λ x. ground arith)
  contains-pull_in_missing_deps requested (id ∷ rest) h = elim (Option-cases (Dict.get table id)) [
    | inl unknown ↦ ground arith
    | inr (step, at_id) ↦
        let grown =
          pull_deps table requested (keep (λ d. not (contains requested d)) step.depends_on) in
        let (pulled, e, same) = contains-pull_in_missing_deps grown rest (ground arith) in
        (
          pulled,
          rw (at_id, pull_in_missing_deps) e,
          λ x. ground (arith, same x, contains-pull_one requested step.depends_on x),
        )
  ]

  known_of_configured :
      (xs : List String) (x : String)
      → all_known table xs ≡ true
      → contains xs x ≡ true
      → is_some (Dict.get table x) ≡ true
  unfolding contains
  known_of_configured [] x h m = cc
  known_of_configured (y ∷ ys) x h m =
      ground (arith, known_of_configured ys x, string_eq.beq_iff y x)

  known_of_dependency :
      (xs : List String) (x : String)
      → direct_dependency xs x ≡ true
      → is_some (Dict.get table x) ≡ true
  known_of_dependency [] x h = cc
  known_of_dependency (y ∷ ys) x h = ground (arith, known_of_dependency ys x)

contains-set_of :
    (seen xs : List String) (x : String)
    → contains (set_of seen xs) x ≡ contains seen x || contains xs x
unfolding set_of contains
contains-set_of seen [] x = ground arith
contains-set_of seen (y ∷ ys) x =
    ground (arith, contains-set_of (add_key y seen) ys x, contains-add_key y x seen)

module _ {G D W : Type 0} where
  -- A pipeline that was built from known steps, with a ranking of its dependencies below the stack
  -- depth, has an order of execution, however Python enumerates its sets: no step stands there
  -- twice, dependencies that are there come first, and it holds exactly the configured steps
  -- and their known direct dependencies.
  pub get_ordered_steps_total :
      (order : List String → List String) (rank : String → ℕ) (fuel : ℕ) (config : PipelineConfig)
      (available : List (AnalysisStep G D W)) (p : AnalysisPipeline G D W)
      → ((xs : List String) (x : String) → contains (order xs) x ≡ contains xs x)
      → Ranked (steps_by_id available) rank
      → ((x : String) → rank x < fuel)
      → new_pipeline config available ≡ some p
      → (result : List (AnalysisStep G D W)) × (get_ordered_steps order fuel p ≡ some result)
        × Unique (ids result)
        × DepsFirst (contains (ids result)) [] result
        × ((x : String)
            → contains (ids result) x
              ≡ contains config.steps x || direct_dependency (steps_by_id available) config.steps x)
  unfolding get_ordered_steps new_pipeline contains
  get_ordered_steps_total order rank fuel config available p same_keys ranked small built =
      let table = steps_by_id available in
      let known : all_known table config.steps ≡ true = ground arith in
      let e : p ≡ record { config = config; table = table } = ground arith in
      let (pulled, ep, pulled_keys) =
        contains-pull_in_missing_deps table (set_of [] config.steps) config.steps known in
      let (result, es, unique, first, result_keys) =
        topological_sort_total table rank fuel (order pulled) (steps_by_id-IsIndexed available)
          ranked (All-intro (order pulled) (λ x _. small x)) in
      (
        result,
        rw e (rw (ep, get_ordered_steps) es),
        unique,
        DepsFirst-mono (contains (ids result)) (required table (order pulled))
            (λ d m. ground (arith, result_keys d)) [] result first,
        λ x. ground (
          arith,
          result_keys x,
          pulled_keys x,
          same_keys pulled x,
          contains-set_of [] config.steps x,
          known_of_configured table config.steps x known,
          known_of_dependency table config.steps x,
        ),
      )
