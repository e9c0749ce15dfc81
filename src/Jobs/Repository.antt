-- ===== src/Jobs/Repository.antt =====
-- JobRepository of blunder_tutor/repositories/job_repository.py: the rows of background_jobs by their key. A time is
-- a number, and a result is its JSON text.
use chess_blunder_trainer.Common.{
  ℕ, String, ◌≡◌, Bool, Option, none, some, ◌==◌, ◌||◌, if◌then◌else◌, string_eq, is_some, arith,
  Option-cases, inl, inr, eq_refl,
}
use chess_blunder_trainer.Common.Dict
use chess_blunder_trainer.Common.Dict.{Dict, get-put}

pub record Job : Type 0 where
  pub job_type : String
  pub status : String
  pub username : Option String
  pub source : Option String
  pub start_date : Option String
  pub end_date : Option String
  pub max_games : Option ℕ
  pub progress_current : ℕ
  pub progress_total : ℕ
  pub created_at : ℕ
  pub started_at : Option ℕ
  pub completed_at : Option ℕ
  pub error_message : Option String
  pub result : Option String

-- `UPDATE … WHERE job_id = ?`, which touches no row when there is none
unfoldable pub update_row : String → (Job → Job) → Dict String Job → Dict String Job
update_row job_id f jobs = elim (Dict.get jobs job_id) [
  | none ↦ jobs
  | some job ↦ Dict.put jobs job_id (f job)
]

pub get-update_row :
    (job_id : String) (f : Job → Job) (jobs : Dict String Job)
    → Dict.get (update_row job_id f jobs) job_id
      ≡ elim (Dict.get jobs job_id) [ none ↦ none | some job ↦ some (f job) ]
unfolding update_row
get-update_row job_id f jobs = elim (Option-cases (Dict.get jobs job_id)) [
  | inl p ↦ ground (arith, p)
  | inr (job, p) ↦ ground (arith, p, get-put jobs job_id job_id (f job), eq_refl job_id)
]

-- a key that is taken is an IntegrityError, `none`
unfoldable pub create_job : String → Job → Dict String Job → Option (Dict String Job)
create_job job_id job jobs =
    if is_some (Dict.get jobs job_id) then none else some (Dict.put jobs job_id job)

unfoldable pub with_status : ℕ → String → Option String → Job → Job
with_status now status message job =
    if status == "running"
    then record job { status = status; error_message = message; started_at = some now }
    else if (status == "completed") || (status == "failed")
    then record job { status = status; error_message = message; completed_at = some now }
    else record job { status = status; error_message = message }

unfoldable pub update_job_status :
    ℕ → String → String → Option String → Dict String Job → Dict String Job
update_job_status now job_id status message = update_row job_id (with_status now status message)

unfoldable pub update_job_progress : String → ℕ → ℕ → Dict String Job → Dict String Job
update_job_progress job_id current total =
    update_row job_id (λ job. record job { progress_current = current; progress_total = total })

unfoldable pub complete_job : ℕ → String → String → Dict String Job → Dict String Job
complete_job now job_id result =
    update_row job_id
      (λ job. record job { status = "completed"; result = some result; completed_at = some now })

unfoldable pub delete_job : String → Dict String Job → Bool × Dict String Job
delete_job job_id jobs = (is_some (Dict.get jobs job_id), Dict.remove jobs job_id)
