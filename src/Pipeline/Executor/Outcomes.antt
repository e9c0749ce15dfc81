-- ===== src/Pipeline/Executor/Outcomes.antt =====
-- What a run of blunder_tutor/analysis/pipeline/executor.py reports, marks and leaves alone.
use chess_blunder_trainer.Common.{
  ℕ, String, ◌≡◌, refl, ap, Bool, false, Option, List, [], ◌∷◌, ◌++◌, arith, ◌==◌, ◌⊎◌, inl, inr,
  contains, add_key, ◌&&◌, ◌||◌, if◌then◌else◌, string_eq, contains-append, contains-add_key,
  Bool-cases, ◌∙◌,
}
use chess_blunder_trainer.Common.Dict.{Dict, get-put}
use chess_blunder_trainer.Pipeline.Steps.{AnalysisStep}
use chess_blunder_trainer.Pipeline.Order.Sort.{ids}
use chess_blunder_trainer.Pipeline.Executor.{
  new_report, Loaded, loaded, load_raised, PipelineReport, World, Run, get_completed_steps,
  mark_steps_completed, run_single_step, run_steps, first_run, run_loaded, execute_pipeline,
  add_keys, mark_executed,
}

-- the ids that a report counts as done
abbrev pub handled : PipelineReport → String → Bool
handled p x = contains p.steps_executed x || contains p.steps_skipped x

module _ {G D S : Type 0} (completed : List String) (step : AnalysisStep G D S)
    (r : Run G D S) where
  abbrev goes_on : Bool
  goes_on = (run_single_step completed step r).0

  abbrev after : Run G D S
  after = (run_single_step completed step r).1

  handled-after :
      (x : String) → handled after.report x ≡ handled r.report x || (goes_on && step.step_id == x)
  unfolding run_single_step contains
  handled-after x = ground (
    arith,
    contains-append r.report.steps_executed (step.step_id ∷ []) x,
    contains-append r.report.steps_skipped (step.step_id ∷ []) x,
  )

  failed-after :
      after.report.steps_failed
      ≡ (if goes_on then r.report.steps_failed else r.report.steps_failed ++ step.step_id ∷ [])
  unfolding run_single_step
  failed-after = ground arith

  success-after : after.report.success ≡ r.report.success && goes_on
  unfolding run_single_step
  success-after = ground arith

contains-add_keys :
    (ks xs : List String) (x : String)
    → contains (add_keys ks xs) x ≡ contains xs x || contains ks x
unfolding contains
contains-add_keys [] xs x = ground arith
contains-add_keys (k ∷ ks) xs x =
    ground (arith, contains-add_keys ks (add_key k xs) x, contains-add_key k x xs)

get_completed_steps-mark :
    (status : Dict String (List String)) (game_id other : String) (ks : List String)
    → get_completed_steps (mark_steps_completed status game_id ks) other ≡ (
        if game_id == other
        then add_keys ks (get_completed_steps status game_id)
        else get_completed_steps status other)
unfolding mark_steps_completed get_completed_steps
get_completed_steps-mark status game_id other ks =
    ground (arith, get-put status game_id other (add_keys ks (get_completed_steps status game_id)))

pub completed-mark_executed :
    (status : Dict String (List String)) (game_id other : String) (ks : List String) (x : String)
    → contains (get_completed_steps (mark_executed status game_id ks) other) x
      ≡ contains (get_completed_steps status other) x || (game_id == other && contains ks x)
unfolding mark_executed contains
completed-mark_executed status game_id other [] x = ground arith
completed-mark_executed status game_id other (k ∷ ks) x = ground (
  arith,
  get_completed_steps-mark status game_id other (k ∷ ks),
  contains-add_keys (k ∷ ks) (get_completed_steps status game_id) x,
  string_eq.beq_iff game_id other,
)

module _ {G D S : Type 0} where
  -- How the report of a run over `steps` grows from `p` to `p'`: a first part of the steps is handled,
  -- and the run stops either at the end, or at one failed step, which it names.
  abbrev pub Accounts : List (AnalysisStep G D S) → PipelineReport → PipelineReport → Type 0
  Accounts steps p p' =
      (done : List (AnalysisStep G D S)) × (rest : List (AnalysisStep G D S)) × (steps
        ≡ done ++ rest)
      × ((x : String) → handled p' x ≡ handled p x || contains (ids done) x)
      × ((rest ≡ []) × (p'.steps_failed ≡ p.steps_failed) × (p'.success ≡ p.success)
          ⊎ ((f : AnalysisStep G D S) × (more : List (AnalysisStep G D S)) × (rest ≡ f ∷ more)
              × (p'.steps_failed ≡ p.steps_failed ++ f.step_id ∷ [])
              × (p'.success ≡ false)))

  run_steps-Accounts :
      (completed : List String) (steps : List (AnalysisStep G D S)) (r : Run G D S)
      → Accounts steps r.report (run_steps completed steps r).report
  unfolding run_steps contains
  run_steps-Accounts completed [] r = ([], [], refl, λ x. ground arith, inl (refl, refl, refl))
  run_steps-Accounts completed (s ∷ ss) r = elim (Bool-cases (goes_on completed s r)) [
    | inl go ↦
        let r' = after completed s r in
        let (done, rest, e, all, end) = run_steps-Accounts completed ss r' in
        let same_failed : r'.report.steps_failed ≡ r.report.steps_failed =
          ground (arith, failed-after completed s r) in
        let same_success : r'.report.success ≡ r.report.success =
          ground (arith, success-after completed s r) in
        rw (go, run_steps)
          (
            s ∷ done,
            rest,
            ap (λ l. s ∷ l) e,
            λ x. ground (arith, all x, handled-after completed s r x),
            elim end [
              | inl (nil, failed, success) ↦ inl (nil, failed ∙ same_failed, success ∙ same_success)
              | inr (f, more, e', failed, success) ↦
                  inr (f, more, e', failed ∙ ap (λ l. l ++ f.step_id ∷ []) same_failed, success)
            ],
          )
    | inr stop ↦
        rw (stop, run_steps)
          (
            [],
            s ∷ ss,
            refl,
            λ x. ground (arith, handled-after completed s r x),
            inr (
              s,
              ss,
              refl,
              ground (arith, failed-after completed s r),
              ground (arith, success-after completed s r),
            ),
          )
  ]

  -- For a game that loads, the report handles exactly a first part of the steps. Either that part is
  -- all of them and the run succeeds with no failed step, or the next step, and only it, is listed as
  -- failed and the run does not succeed.
  pub execute_pipeline-Accounts :
      (load_game : String → Loaded G) (steps : List (AnalysisStep G D S)) (force : Bool)
      (game_id : String) (depth : Option ℕ) (w : World S) (game : G)
      → load_game game_id ≡ loaded game
      → Accounts steps
          (new_report game_id)
          (execute_pipeline load_game steps force game_id depth w).0
  unfolding execute_pipeline
  execute_pipeline-Accounts load_game steps force game_id depth w game h =
      rw (h, execute_pipeline)
        (run_steps-Accounts (get_completed_steps w.step_status game_id) steps _)

  run_loaded_marks :
      (steps : List (AnalysisStep G D S)) (force : Bool) (game_id other : String) (depth : Option ℕ)
      (w : World S) (x : String) (game : Loaded G)
      → let (report, w') = run_loaded steps force game_id depth w game in
        contains (get_completed_steps w'.step_status other) x
        ≡ contains (get_completed_steps w.step_status other) x
          || (game_id == other && contains report.steps_executed x)
  unfolding run_loaded contains
  run_loaded_marks steps force game_id other depth w x (load_raised message) = ground arith
  run_loaded_marks steps force game_id other depth w x (loaded game) =
      let r =
        run_steps (get_completed_steps w.step_status game_id) steps
          (first_run force game_id depth w game) in
      completed-mark_executed w.step_status game_id other r.report.steps_executed x

  -- After a run, succeeded or not, the steps marked as completed for the game are those marked
  -- before and those that the report lists as executed; the marks of other games are as before.
  pub execute_pipeline_marks :
      (load_game : String → Loaded G) (steps : List (AnalysisStep G D S)) (force : Bool)
      (game_id other : String) (depth : Option ℕ) (w : World S) (x : String)
      → let (report, w') = execute_pipeline load_game steps force game_id depth w in
        contains (get_completed_steps w'.step_status other) x
        ≡ contains (get_completed_steps w.step_status other) x
          || (game_id == other && contains report.steps_executed x)
  unfolding execute_pipeline
  execute_pipeline_marks load_game steps force game_id other depth w x =
      run_loaded_marks steps force game_id other depth w x (load_game game_id)
