-- ===== src/Jobs/Store/Idempotence.antt =====
-- One job for each idempotency key.
use auditable_scientific_age.Prelude.{
  ℕ, String, Bool, true, Option, none, some, [], ◌∷◌, ◌==◌, eq_refl, ◌≡◌, refl, ap, arith,
}
use auditable_scientific_age.Prelude.Dict.{insert}
use auditable_scientific_age.Jobs.Store.{
  JobRecord, JobPayload, Store, find_job, new_job, submit_job, submit_unless, job_id_at,
}

find_job-insert :
    (test : JobRecord → Bool) (k : String) (job : JobRecord) (db : Store)
    → test job ≡ true
    → find_job test db ≡ none
    → find_job test (insert k job db) ≡ some job
unfolding find_job
find_job-insert test k job [] t h = rw t refl
find_job-insert test k job ((j, other) ∷ db) t h =
    ground (arith, t, h, find_job-insert test k job db t)

submit_again :
    (o : Option JobRecord) (now later : ℕ) (job_type other_type key : String)
    (payload other_payload : JobPayload) (db : Store)
    → find_job (λ job. job.idempotency_key == key) db ≡ o
    → submit_job later other_type key other_payload (submit_unless o now job_type key payload db).1
      ≡ submit_unless o now job_type key payload db
unfolding submit_job submit_unless
submit_again (some job) now later job_type other_type key payload other_payload db e =
    ap (λ o. submit_unless o later other_type key other_payload db) e
submit_again none now later job_type other_type key payload other_payload db e =
    let job = new_job (job_id_at now) job_type key payload in
    ap (λ o. submit_unless o later other_type key other_payload (insert (job_id_at now) job db))
      (find_job-insert (λ j. j.idempotency_key == key) (job_id_at now) job db (eq_refl key) e)

-- The same key again returns the same job and leaves the store as it is, whatever the type, the
-- payload and the time of the second submission.
pub submit_job-idempotent :
    (now later : ℕ) (job_type other_type key : String) (payload other_payload : JobPayload)
    (db : Store)
    → submit_job later other_type key other_payload (submit_job now job_type key payload db).1
      ≡ submit_job now job_type key payload db
unfolding submit_job
submit_job-idempotent now later job_type other_type key payload other_payload db =
    submit_again (find_job (λ job. job.idempotency_key == key) db) now later job_type other_type key
      payload other_payload db refl
