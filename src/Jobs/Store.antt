-- ===== src/Jobs/Store.antt =====
-- models.py and store.py of jobs/. A payload is what the worker reads of it; the times of creation
-- and update, which nothing reads, are left out; `now` is the clock in milliseconds.
pub mod Idempotence
pub mod Collision
use auditable_scientific_age.Prelude.{
  ℕ, String, Bool, true, false, Option, none, some, List, [], ◌∷◌, if◌then◌else◌, ◌==◌,
}
use auditable_scientific_age.Prelude.Dict.{Dict, get, insert}
use auditable_scientific_age.Prelude.Text.{str, ◌<>◌}

pub data JobStatus : Type 0 where
  queued running succeeded failed cancel_requested cancelled : JobStatus

pub record JobPayload : Type 0 where
  -- `payload.get("force_fail")`, as a truth value
  pub force_fail : Bool

pub record JobResult : Type 0 where
  pub summary : String
  pub artifact_id : String
  pub uri : String

pub record JobRecord : Type 0 where
  pub job_id : String
  pub job_type : String
  pub idempotency_key : String
  pub status : JobStatus
  pub payload : JobPayload
  pub result : Option JobResult
  pub error : Option String
  pub attempt_count : ℕ
  pub max_attempts : ℕ

abbrev pub Store : Type 0
Store = Dict JobRecord

abbrev pub is_queued : JobRecord → Bool
is_queued job = elim job.status [ JobStatus.queued ↦ true | _ ↦ false ]

abbrev pub is_cancel_requested : JobRecord → Bool
is_cancel_requested job = elim job.status [ JobStatus.cancel_requested ↦ true | _ ↦ false ]

-- The first job that passes a test, in the order of the store.
unfoldable pub find_job : (JobRecord → Bool) → Store → Option JobRecord
find_job test [] = none
find_job test ((k, job) ∷ db) = if test job then some job else find_job test db

abbrev pub new_job : String → String → String → JobPayload → JobRecord
new_job job_id job_type idempotency_key payload = record {
  job_id = job_id;
  job_type = job_type;
  idempotency_key = idempotency_key;
  status = JobStatus.queued;
  payload = payload;
  result = none;
  error = none;
  attempt_count = 0;
  max_attempts = 3;
}

unfoldable pub job_id_at : ℕ → String
unfolding str
job_id_at now = "job_async_" <> str now

-- The job that the caller gets and the store after it, where `existing` is the job with the key.
unfoldable pub submit_unless :
    Option JobRecord → ℕ → String → String → JobPayload → Store → JobRecord × Store
unfolding job_id_at
submit_unless (some existing_job) now job_type idempotency_key payload db = (existing_job, db)
submit_unless none now job_type idempotency_key payload db =
    let job_id = job_id_at now in
    (
      new_job job_id job_type idempotency_key payload,
      insert job_id (new_job job_id job_type idempotency_key payload) db,
    )

unfoldable pub submit_job : ℕ → String → String → JobPayload → Store → JobRecord × Store
unfolding submit_unless find_job
submit_job now job_type idempotency_key payload db =
    submit_unless (find_job (λ job. job.idempotency_key == idempotency_key) db) now job_type
      idempotency_key payload db

unfoldable pub get_job : String → Store → Option JobRecord
get_job job_id db = get job_id db

-- `if value is not None: field = value`
abbrev pub set_if {ℓ} : {A : Type ℓ} → Option A → Option A → Option A
set_if none old = old
set_if (some new) old = some new

abbrev pub with_status : JobStatus → Option JobResult → Option String → JobRecord → JobRecord
with_status status result error job = record job {
  status = status;
  result = set_if result job.result;
  error = set_if error job.error;
}

-- The record under an id, if there is one, changed in place.
unfoldable pub change : Option JobRecord → String → (JobRecord → JobRecord) → Store → Store
change none job_id f db = db
change (some job) job_id f db = insert job_id (f job) db

-- The store's record is replaced, which every reader of the mutated record sees.
unfoldable pub update_job_status :
    String → JobStatus → Option JobResult → Option String → Store → Store
unfolding change
update_job_status job_id status result error db =
    change (get job_id db) job_id (with_status status result error) db

unfoldable pub fetch_next_queued_job : Store → Option JobRecord
unfolding find_job
fetch_next_queued_job db = find_job is_queued db

unfoldable pub fetch_next_cancel_requested_job : Store → Option JobRecord
unfolding find_job
fetch_next_cancel_requested_job db = find_job is_cancel_requested db
