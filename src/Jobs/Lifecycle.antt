-- ===== src/Jobs/Lifecycle.antt =====
-- What is stored of a job after run_with_lifecycle of blunder_tutor/services/job_service.py.
use chess_blunder_trainer.Common.{
  ℕ, String, ◌≡◌, refl, true, false, Option, none, some, List, [], ◌∷◌, if◌then◌else◌, string_eq,
  nat_eq, is_some, arith, Option-cases, Bool-cases, inl, inr, eq_refl,
}
use chess_blunder_trainer.Common.Dict
use chess_blunder_trainer.Common.Dict.{Dict, get-put, get-remove}
use chess_blunder_trainer.Jobs.Repository.{Job, update_row, get-update_row, with_status}
use chess_blunder_trainer.Jobs.Repository
use chess_blunder_trainer.Jobs.Service.{
  Surroundings, ProgressState, JobService, progress_state, should_flush, update_job_progress,
  update_job_status, is_flushed, flush_progress, complete_job, returned, failed, JobBody,
  report_all, settle_job, run_with_lifecycle,
}

-- The service keeps track of the job: the row is there, the state holds the last report, and a value
-- that counts as flushed is the row's.
record Tracks (s : JobService) (job_id : String) (current total : ℕ) : Type 0 where
  pub job : Job
  pub state : ProgressState
  pub found : Dict.get s.jobs job_id ≡ some job
  pub kept : Dict.get s.progress job_id ≡ some state
  pub last : state.current ≡ current
  pub whole : state.total ≡ total
  pub synced :
      (v : ℕ)
      → state.last_flushed_value ≡ some v
      → (job.progress_current ≡ v) × (job.progress_total ≡ total)

module _ (env : Surroundings) (now : ℕ) (job_id : String) (current total : ℕ) (s : JobService) where
  new_state : ProgressState
  new_state = record (progress_state job_id s) { current = current; total = total }

  flushed-Tracks :
      (job : Job)
      → Dict.get s.jobs job_id ≡ some job
      → should_flush now current total new_state ≡ true
      → Tracks (update_job_progress env now job_id current total s) job_id current total
  unfolding new_state update_job_progress Repository.update_job_progress
  flushed-Tracks job p f =
      rw (f, update_job_progress)
        (record {
          job = record job { progress_current = current; progress_total = total };
          state = record (record (progress_state job_id s) { current = current; total = total }) {
            last_flushed_at = now;
            last_flushed_value = some current;
          };
          found = ground (
            arith,
            p,
            get-update_row job_id
                (λ (x : Job). record x { progress_current = current; progress_total = total })
                s.jobs,
          );
          kept = ground (
            arith,
            eq_refl job_id,
            get-put s.progress job_id job_id
                (record (record (progress_state job_id s) { current = current; total = total }) {
                  last_flushed_at = now;
                  last_flushed_value = some current;
                }),
          );
          last = refl;
          whole = refl;
          synced = λ v q. (ground (arith, q), refl);
        })

  parked-Tracks :
      (last : ℕ)
      → Tracks s job_id last total
      → should_flush now current total new_state ≡ false
      → Tracks (update_job_progress env now job_id current total s) job_id current total
  unfolding new_state update_job_progress
  parked-Tracks last h f =
      rw (f, update_job_progress)
        (record {
          job = h.job;
          state = record (progress_state job_id s) { current = current; total = total };
          found = h.found;
          kept = ground (
            arith,
            eq_refl job_id,
            get-put s.progress job_id job_id
                (record (progress_state job_id s) { current = current; total = total }),
          );
          last = refl;
          whole = refl;
          synced = λ v q. h.synced v (unfold progress_state in ground (arith, q, h.kept));
        })

  report-Tracks :
      (last : ℕ)
      → Tracks s job_id last total
      → Tracks (update_job_progress env now job_id current total s) job_id current total
  report-Tracks last h = elim (Bool-cases (should_flush now current total new_state)) [
    | inl f ↦ flushed-Tracks h.job h.found f
    | inr f ↦ parked-Tracks last h f
  ]

-- the last value that the body reports, after the initial report
unfoldable pub last_report : ℕ → List (ℕ × ℕ) → ℕ
last_report current [] = current
last_report current ((now, next) ∷ rest) = last_report next rest

report_all-Tracks :
    (env : Surroundings) (job_id : String) (total current : ℕ) (reports : List (ℕ × ℕ))
    (s : JobService)
    → Tracks s job_id current total
    → Tracks (report_all env job_id total reports s) job_id (last_report current reports) total
unfolding report_all last_report
report_all-Tracks env job_id total current [] s h = h
report_all-Tracks env job_id total current ((now, next) ∷ rest) s h =
    report_all-Tracks env job_id total next rest (update_job_progress env now job_id next total s)
      (report-Tracks env now job_id next total s current h)

-- the first report, of zero, is always flushed
started-Tracks :
    (env : Surroundings) (now : ℕ) (job_id : String) (total : ℕ) (s : JobService) (job : Job)
    → Dict.get s.jobs job_id ≡ some job
    → Tracks (update_job_progress env now job_id 0 total s) job_id 0 total
started-Tracks env now job_id total s job p =
    flushed-Tracks env now job_id 0 total s job p (unfold should_flush in ground arith)

jobs-flush_progress :
    (s : JobService) (job_id : String) (state : ProgressState)
    → Dict.get s.progress job_id ≡ some state
    → ((flush_progress job_id s).jobs ≡ (
        if is_flushed state
        then s.jobs
        else Repository.update_job_progress job_id state.current state.total s.jobs))
      × ((flush_progress job_id s).progress ≡ Dict.remove s.progress job_id)
unfolding flush_progress
jobs-flush_progress s job_id state p = (rw (p, flush_progress) refl, rw (p, flush_progress) refl)

-- a flushed state has its value in the row
flushed_row :
    (s : JobService) (job_id : String) (current total : ℕ) (h : Tracks s job_id current total)
    → is_flushed h.state ≡ true
    → (h.job.progress_current ≡ current) × (h.job.progress_total ≡ total)
unfolding is_flushed
flushed_row s job_id current total h f = elim (Option-cases h.state.last_flushed_value) [
  | inl p ↦ ground (arith, f, p)
  | inr (v, p) ↦
      let (c, t) = h.synced v p in
      (ground (arith, f, p, c, h.last, nat_eq.beq_iff v h.state.current), t)
]

-- the row of a job once its progress is flushed
pub record Flushed (s : JobService) (job_id : String) (current total : ℕ) : Type 0 where
  pub job : Job
  pub found : Dict.get s.jobs job_id ≡ some job
  pub is_current : job.progress_current ≡ current
  pub is_total : job.progress_total ≡ total
  pub forgotten : Dict.get s.progress job_id ≡ none

flush_progress-Flushed :
    (s : JobService) (job_id : String) (current total : ℕ)
    → Tracks s job_id current total
    → Flushed (flush_progress job_id s) job_id current total
unfolding Repository.update_job_progress
flush_progress-Flushed s job_id current total h =
    let (jobs, progress) = jobs-flush_progress s job_id h.state h.kept in
    let gone = get-remove s.progress job_id job_id in
    elim (Bool-cases (is_flushed h.state)) [
      | inl f ↦ record {
        job = h.job;
        found = ground (arith, jobs, f, h.found);
        is_current = (flushed_row s job_id current total h f).0;
        is_total = (flushed_row s job_id current total h f).1;
        forgotten = ground (arith, progress, gone, eq_refl job_id);
      }
      | inr f ↦ record {
        job = record h.job { progress_current = h.state.current; progress_total = h.state.total };
        found = ground (
          arith,
          jobs,
          f,
          h.found,
          get-update_row job_id
              (λ (x : Job). record x {
                progress_current = h.state.current;
                progress_total = h.state.total;
              })
              s.jobs,
        );
        is_current = h.last;
        is_total = h.whole;
        forgotten = ground (arith, progress, gone, eq_refl job_id);
      }
    ]

found-update_job_status :
    (env : Surroundings) (job_id status : String) (message : Option String) (s : JobService)
    (job : Job)
    → Dict.get s.jobs job_id ≡ some job
    → Dict.get (update_job_status env job_id status message s).jobs job_id
      ≡ some (with_status env.wall_clock status message job)
unfolding update_job_status Repository.update_job_status
found-update_job_status env job_id status message s job p =
    ground (arith, p, get-update_row job_id (with_status env.wall_clock status message) s.jobs)

-- A job that is stored and whose body returns ends completed, with the result and the time of its end, with the last progress
-- that the body reported whatever was flushed meanwhile, and with no progress state left.
pub completed_job_is_stored :
    (env : Surroundings) (now : ℕ) (job_id : String) (total : ℕ) (reports : List (ℕ × ℕ))
    (ended_at : ℕ) (result : String) (s : JobService) (job : Job)
    → Dict.get s.jobs job_id ≡ some job
    → let body : JobBody = record {
      reports = reports;
      outcome = returned result;
      ended_at = ended_at;
    } in
      let s' = run_with_lifecycle env now job_id total body s in
      (job' : Job) × (Dict.get s'.jobs job_id ≡ some job')
      × (job'.status ≡ "completed")
      × (job'.result ≡ some result)
      × (job'.completed_at ≡ some ended_at)
      × (job'.progress_current ≡ last_report 0 reports)
      × (job'.progress_total ≡ total)
      × (Dict.get s'.progress job_id ≡ none)
unfolding run_with_lifecycle settle_job complete_job Repository.complete_job
completed_job_is_stored env now job_id total reports ended_at result s job p =
    let begun = update_job_status env job_id "running" none s in
    let started = update_job_progress env now job_id 0 total begun in
    let tracked = report_all-Tracks env job_id total 0 reports started (
      started-Tracks env now job_id total begun (with_status env.wall_clock "running" none job)
        (found-update_job_status env job_id "running" none s job p)) in
    let row =
      flush_progress-Flushed (report_all env job_id total reports started) job_id
        (last_report 0 reports) total tracked in
    (
      record row.job { status = "completed"; result = some result; completed_at = some ended_at },
      ground (
        arith,
        row.found,
        get-update_row job_id
            (λ (x : Job). record x {
              status = "completed";
              result = some result;
              completed_at = some ended_at;
            })
            (flush_progress job_id (report_all env job_id total reports started)).jobs,
      ),
      refl,
      refl,
      refl,
      row.is_current,
      row.is_total,
      row.forgotten,
    )

-- A job that is stored and whose body raises ends failed, with the message and the time of the failure,
-- and its progress state stays in the service.
pub failed_job_is_stored :
    (env : Surroundings) (now : ℕ) (job_id : String) (total : ℕ) (reports : List (ℕ × ℕ))
    (ended_at : ℕ) (message : String) (s : JobService) (job : Job)
    → Dict.get s.jobs job_id ≡ some job
    → let body : JobBody = record {
      reports = reports;
      outcome = failed message;
      ended_at = ended_at;
    } in
      let s' = run_with_lifecycle env now job_id total body s in
      (job' : Job) × (Dict.get s'.jobs job_id ≡ some job')
      × (job'.status ≡ "failed")
      × (job'.error_message ≡ some message)
      × (job'.completed_at ≡ some ended_at)
      × (is_some (Dict.get s'.progress job_id) ≡ true)
unfolding run_with_lifecycle settle_job with_status
failed_job_is_stored env now job_id total reports ended_at message s job p =
    let begun = update_job_status env job_id "running" none s in
    let started = update_job_progress env now job_id 0 total begun in
    let tracked = report_all-Tracks env job_id total 0 reports started (
      started-Tracks env now job_id total begun (with_status env.wall_clock "running" none job)
        (found-update_job_status env job_id "running" none s job p)) in
    (
      with_status ended_at "failed" (some message) tracked.job,
      found-update_job_status (record env { wall_clock = ended_at }) job_id "failed" (some message)
          (report_all env job_id total reports started) tracked.job tracked.found,
      refl,
      refl,
      refl,
      unfold update_job_status in ground (arith, tracked.kept),
    )
