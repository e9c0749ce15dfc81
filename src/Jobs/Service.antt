-- ===== src/Jobs/Service.antt =====
-- JobService of blunder_tutor/services/job_service.py. The monotonic clock, the wall clock, the scope of the user
-- and the float computation of a percentage are arguments.
use chess_blunder_trainer.Common.{
  ℕ, ◌-◌, String, Bool, false, Option, none, some, List, [], ◌∷◌, ◌==◌, ◌||◌, if◌then◌else◌,
  string_eq, nat_eq, leb, contains,
}
use chess_blunder_trainer.Common.Dict
use chess_blunder_trainer.Common.Dict.{Dict}
use chess_blunder_trainer.Events.Types.{
  create_status_changed, create_progress_updated, create_stats_updated, create_elo_rating_updated,
}
use chess_blunder_trainer.Events.Bus.{EventBus, publish}
use chess_blunder_trainer.Jobs.Repository.{Job}
use chess_blunder_trainer.Jobs.Repository

abbrev pub game_dataset_job_types : List String
game_dataset_job_types = "import" ∷ "sync" ∷ "import_pgn" ∷ "delete_all_data" ∷ []

-- two seconds, in microseconds
abbrev pub progress_flush_interval : ℕ
progress_flush_interval = 2000000

-- `last_flushed_value` starts at -1, here `none`
pub record ProgressState : Type 0 where
  pub current : ℕ
  pub total : ℕ
  pub job_type : String
  pub last_flushed_at : ℕ
  pub last_flushed_value : Option ℕ

pub record JobService : Type 0 where
  pub jobs : Dict String Job
  pub bus : EventBus
  pub progress : Dict String ProgressState

-- where the service runs: the user's scope, the percentage, and the wall clock as an operation reads it
pub record Surroundings : Type 0 where
  pub scope : String
  pub percent_of : ℕ → ℕ → ℕ
  pub wall_clock : ℕ

unfoldable pub publish_completion_fanout : Surroundings → Job → EventBus → EventBus
publish_completion_fanout env job bus =
    if contains game_dataset_job_types job.job_type
    then publish (create_elo_rating_updated env.scope "game_sync_completed")
        (publish (create_stats_updated env.scope) bus)
    else publish (create_stats_updated env.scope) bus

unfoldable pub create_job : String → Job → JobService → Option JobService
create_job job_id job s = elim (Repository.create_job job_id job s.jobs) [
  | none ↦ none
  | some jobs ↦ some (record s {
    jobs = jobs;
    bus = publish (create_status_changed job_id job.job_type "pending" none) s.bus;
  })
]

-- the events of a change of status, for the row that is read back
unfoldable pub announce_status :
    Surroundings → String → String → Option String → Option Job → EventBus → EventBus
announce_status env job_id status message none bus = bus
announce_status env job_id status message (some job) bus =
    let told = publish (create_status_changed job_id job.job_type status message) bus in
    if status == "completed" then publish_completion_fanout env job told else told

unfoldable pub update_job_status :
    Surroundings → String → String → Option String → JobService → JobService
update_job_status env job_id status message s =
    let jobs = Repository.update_job_status env.wall_clock job_id status message s.jobs in
    record s {
      jobs = jobs;
      bus = announce_status env job_id status message (Dict.get jobs job_id) s.bus;
    }

-- the state of the job, or a new one
unfoldable pub progress_state : String → JobService → ProgressState
progress_state job_id s = elim (Dict.get s.progress job_id) [
  | some state ↦ state
  | none ↦ record {
    current = 0;
    total = 0;
    job_type = elim (Dict.get s.jobs job_id) [ none ↦ "unknown" | some job ↦ job.job_type ];
    last_flushed_at = 0;
    last_flushed_value = none;
  }
]

unfoldable pub should_flush : ℕ → ℕ → ℕ → ProgressState → Bool
should_flush now current total state =
    leb progress_flush_interval (now - state.last_flushed_at)
    || (current == total)
    || (current == 0)

unfoldable pub update_job_progress : Surroundings → ℕ → String → ℕ → ℕ → JobService → JobService
update_job_progress env now job_id current total s =
    let state = record (progress_state job_id s) { current = current; total = total } in
    let bus =
      publish (create_progress_updated env.percent_of job_id state.job_type current total) s.bus in
    if should_flush now current total state
    then record {
      jobs = Repository.update_job_progress job_id current total s.jobs;
      bus = bus;
      progress =
          Dict.put s.progress job_id
            (record state { last_flushed_at = now; last_flushed_value = some current });
    }
    else record s { bus = bus; progress = Dict.put s.progress job_id state }

unfoldable pub is_flushed : ProgressState → Bool
is_flushed state = elim state.last_flushed_value [ none ↦ false | some v ↦ v == state.current ]

unfoldable pub flush_progress : String → JobService → JobService
flush_progress job_id s = elim (Dict.get s.progress job_id) [
  | none ↦ s
  | some state ↦ record s {
    progress = Dict.remove s.progress job_id;
    jobs =
        if is_flushed state
        then s.jobs
        else Repository.update_job_progress job_id state.current state.total s.jobs;
  }
]

unfoldable pub announce_completion : Surroundings → String → Option Job → EventBus → EventBus
announce_completion env job_id none bus = bus
announce_completion env job_id (some job) bus =
    publish_completion_fanout env job
      (publish (create_status_changed job_id job.job_type "completed" none) bus)

unfoldable pub complete_job : Surroundings → String → String → JobService → JobService
complete_job env job_id result s =
    let flushed = flush_progress job_id s in
    let jobs = Repository.complete_job env.wall_clock job_id result flushed.jobs in
    record flushed {
      jobs = jobs;
      bus = announce_completion env job_id (Dict.get jobs job_id) flushed.bus;
    }

-- what a body does: its calls of `progress` with their times, and then its result, its exception, or a cancellation,
-- which `except Exception` lets through; with the wall clock when it ends
pub data JobOutcome : Type 0 where
  returned failed : String → JobOutcome
  cancelled : JobOutcome

pub record JobBody : Type 0 where
  pub reports : List (ℕ × ℕ)
  pub outcome : JobOutcome
  pub ended_at : ℕ

unfoldable pub report_all : Surroundings → String → ℕ → List (ℕ × ℕ) → JobService → JobService
report_all env job_id total [] s = s
report_all env job_id total ((now, current) ∷ rest) s =
    report_all env job_id total rest (update_job_progress env now job_id current total s)

unfoldable pub settle_job : Surroundings → String → JobOutcome → JobService → JobService
settle_job env job_id (returned result) s = complete_job env job_id result s
settle_job env job_id (failed message) s = update_job_status env job_id "failed" (some message) s
settle_job env job_id cancelled s = s

unfoldable pub run_with_lifecycle :
    Surroundings → ℕ → String → ℕ → JobBody → JobService → JobService
run_with_lifecycle env now job_id total body s =
    settle_job (record env { wall_clock = body.ended_at }) job_id body.outcome
      (report_all env job_id total body.reports (
        update_job_progress env now job_id 0 total (update_job_status env job_id "running" none s)))
