-- ===== src/Jobs/Examples.antt =====
-- A concrete job of blunder_tutor/services/job_service.py.
use chess_blunder_trainer.Common.{ℕ, ◌≡◌, refl, true, none, some, List, [], ◌∷◌, string_eq, is_some}
use chess_blunder_trainer.Common.Dict
use chess_blunder_trainer.Events.Bus.{new_bus}
use chess_blunder_trainer.Jobs.Repository.{Job}
use chess_blunder_trainer.Jobs.Service.{
  Surroundings, JobBody, JobService, returned, failed, run_with_lifecycle,
}
use chess_blunder_trainer.Jobs.Lifecycle.{
  last_report, completed_job_is_stored, failed_job_is_stored,
}

abbrev env : Surroundings
env = record { scope = "u1"; percent_of = λ a b. a; wall_clock = 77 }

abbrev pending_job : Job
pending_job = record {
  job_type = "sync";
  status = "pending";
  username = some "anna";
  source = some "lichess";
  start_date = none;
  end_date = none;
  max_games = none;
  progress_current = 0;
  progress_total = 0;
  created_at = 5;
  started_at = none;
  completed_at = none;
  error_message = none;
  result = none;
}

abbrev idle : JobService
idle = record { jobs = ("j", pending_job) ∷ []; bus = new_bus; progress = [] }

-- the second report falls within the flush interval
abbrev reports : List (ℕ × ℕ)
reports = (5000000, 2) ∷ (5100000, 3) ∷ []

completed_job_is_stored_example :
    let body : JobBody = record { reports = reports; outcome = returned "done"; ended_at = 99 } in
    let s' = run_with_lifecycle env 4000000 "j" 10 body idle in
    (job' : Job) × (Dict.get s'.jobs "j" ≡ some job')
    × (job'.status ≡ "completed")
    × (job'.result ≡ some "done")
    × (job'.completed_at ≡ some 99)
    × (job'.progress_current ≡ 3)
    × (job'.progress_total ≡ 10)
    × (Dict.get s'.progress "j" ≡ none)
unfolding last_report
completed_job_is_stored_example =
    completed_job_is_stored env 4000000 "j" 10 reports 99 "done" idle pending_job
      (unfold Dict.get in refl)

failed_job_is_stored_example :
    let body : JobBody = record {
      reports = reports;
      outcome = failed "no network";
      ended_at = 99;
    } in
    let s' = run_with_lifecycle env 4000000 "j" 10 body idle in
    (job' : Job) × (Dict.get s'.jobs "j" ≡ some job')
    × (job'.status ≡ "failed")
    × (job'.error_message ≡ some "no network")
    × (job'.completed_at ≡ some 99)
    × (is_some (Dict.get s'.progress "j") ≡ true)
failed_job_is_stored_example =
    failed_job_is_stored env 4000000 "j" 10 reports 99 "no network" idle pending_job
      (unfold Dict.get in refl)
