-- ===== src/Jobs.antt =====
-- Background jobs: blunder_tutor/repositories/job_repository.py and blunder_tutor/services/job_service.py.
pub mod Repository
pub mod Service
pub mod Lifecycle
mod Examples
