-- ===== src/Jobs/Worker.antt =====
-- worker.py of jobs/. The worker and the tasks it dispatches share the store; what stands between
-- two `await`s runs without interruption, and is one step here.
pub mod Attempts
pub mod Cancelling
pub mod Failing
use auditable_scientific_age.Prelude.{
  ℕ, zero, suc, ◌+◌, String, Bool, true, false, Option, none, some, List, [], ◌∷◌, ◌++◌,
  if◌then◌else◌, ltb, ◌≡◌,
}
use auditable_scientific_age.Prelude.Dict.{get, insert, has}
use auditable_scientific_age.Prelude.Text.{◌<>◌}
use auditable_scientific_age.Jobs.Store.{
  JobRecord, JobStatus, JobPayload, JobResult, Store, get_job, change, update_job_status,
  fetch_next_queued_job, fetch_next_cancel_requested_job, with_status, is_cancel_requested,
  submit_job, job_id_at,
}

-- `job.attempt_count += 1`
abbrev pub counted : JobRecord → JobRecord
counted job = record job { attempt_count = job.attempt_count + 1 }

-- The cancellation half of a round of the polling loop.
unfoldable pub acknowledge : Option JobRecord → Store → Store
unfolding update_job_status
acknowledge none db = db
acknowledge (some job) db =
    update_job_status job.job_id JobStatus.cancelled none
      (some "Cancelled gracefully by human request.") db

-- The claim of a queued job: the store, and the id of the task that is dispatched.
unfoldable pub claim : Option JobRecord → Store → Store × List String
claim none db = (db, [])
claim (some job) db =
    (insert job.job_id (counted (with_status JobStatus.running none none job)) db, job.job_id ∷ [])

-- One round of `_process_loop`.
unfoldable pub poll : Store → Store × List String
unfolding acknowledge claim fetch_next_queued_job fetch_next_cancel_requested_job
poll db =
    let db' = acknowledge (fetch_next_cancel_requested_job db) db in
    claim (fetch_next_queued_job db') db'

-- `_execute_job_core` behind its sleep, on the record of the job. The record that it took before
-- the sleep is the one in the store, as long as no submission replaced it.
unfoldable pub finish_job : JobRecord → JobRecord
finish_job job =
    if is_cancel_requested job
    then with_status JobStatus.cancelled none (some "Cancelled gracefully by human request.") job
    else if job.payload.force_fail
    then (if ltb job.attempt_count job.max_attempts
        then with_status JobStatus.queued none none job
        else with_status JobStatus.failed none (some "Transient math convergence error.") job)
    else with_status JobStatus.succeeded
        (some (record {
          summary = "ARIMA rolling done.";
          artifact_id = "art_" <> job.job_id;
          uri = "storage://macro/processed_" <> job.job_id <> ".csv";
        }))
        none job

unfoldable pub execute_job_core : String → Store → Store
unfolding get_job finish_job change
execute_job_core job_id db = change (get_job job_id db) job_id finish_job db

-- Rounds of the loop, while the tasks sleep: the store, and the ids dispatched, the latest first.
unfoldable pub polls : ℕ → Store → Store × List String
unfolding poll
polls zero db = (db, [])
polls (suc n) db =
    let round = poll db in let later = polls n round.0 in (later.0, later.1 ++ round.1)

-- A step of the system, with the ids of the tasks that it dispatches: a submission under an id that
-- is free, a cancellation asked for, a round of the worker, or the end of a task.
pub data Step : Store → List String → Store → Type 0 where
  submitted :
      (now : ℕ) (job_type key : String) (payload : JobPayload) (db : Store)
      → has (job_id_at now) db ≡ false
      → Step db [] (submit_job now job_type key payload db).1
  cancel_asked :
      (job_id : String) (db : Store)
      → Step db [] (update_job_status job_id JobStatus.cancel_requested none none db)
  polled : (db : Store) → Step db (poll db).1 (poll db).0
  task_ended : (job_id : String) (db : Store) → Step db [] (execute_job_core job_id db)

-- A run of the system, with the ids of all tasks dispatched in it, the latest first.
pub data Steps : Store → List String → Store → Type 0 where
  start : (db : Store) → Steps db [] db
  more :
      (db db' db'' : Store) (before ids : List String)
      → Steps db before db'
      → Step db' ids db''
      → Steps db (ids ++ before) db''
