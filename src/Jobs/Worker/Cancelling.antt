-- ===== src/Jobs/Worker/Cancelling.antt =====
-- What becomes of a cancellation that the polling loop acknowledges while the job's task runs.
use auditable_scientific_age.Prelude.{
  String, false, Option, none, some, [], ◌∷◌, ◌≡◌, arith, eq_refl,
}
use auditable_scientific_age.Prelude.Dict.{get}
use auditable_scientific_age.Jobs.Store.{
  JobRecord, JobStatus, Store, update_job_status, find_job, fetch_next_queued_job,
  fetch_next_cancel_requested_job, get_job, change,
}
use auditable_scientific_age.Jobs.Worker.{acknowledge, claim, poll, finish_job, execute_job_core}

-- The status under which a store keeps a job.
abbrev pub status_of : String → Store → Option JobStatus
status_of job_id db = elim (get job_id db) [ none ↦ none | some job ↦ some job.status ]

-- A job alone in the store.
abbrev pub alone : JobRecord → Store
alone job = (job.job_id, job) ∷ []

-- When the cancellation of a job that is alone in the store is asked for, and a polling round
-- acknowledges it before the end of a task that does not fail, the round sets the job to cancelled,
-- and the task's end sets it to succeeded.
pub acknowledged_cancellation_is_lost :
    (job : JobRecord)
    → job.payload.force_fail ≡ false
    → ((status_of job.job_id
            (poll (update_job_status job.job_id JobStatus.cancel_requested none none (alone job))).0
          ≡ some JobStatus.cancelled)
        × (status_of job.job_id (
              execute_job_core job.job_id
                (poll (
                  update_job_status job.job_id JobStatus.cancel_requested none none (alone job))).0)
            ≡ some JobStatus.succeeded))
unfolding update_job_status poll acknowledge claim fetch_next_queued_job
    fetch_next_cancel_requested_job find_job change execute_job_core get_job finish_job
acknowledged_cancellation_is_lost job h =
    (ground (arith, h, eq_refl job.job_id), ground (arith, h, eq_refl job.job_id))
