-- ===== src/Jobs/Store/Collision.antt =====
-- Two submissions within one millisecond.
use auditable_scientific_age.Prelude.{
  ℕ, String, false, none, some, [], ◌==◌, eq_refl, eq_iff, ◌≡◌, arith,
}
use auditable_scientific_age.Jobs.Store.{
  JobPayload, find_job, submit_job, submit_unless, job_id_at, get_job,
}

-- Of two submissions under different keys in the same millisecond, to a store without jobs, the
-- second replaces the first: no job is left under the first key, and the id that the first caller
-- got is that of the second job.
pub submit_job_collides :
    (now : ℕ) (job_type other_type key other_key : String) (payload other_payload : JobPayload)
    → (key == other_key) ≡ false
    → let first = submit_job now job_type key payload [] in
      let second = submit_job now other_type other_key other_payload first.1 in
      (get_job first.0.job_id second.1 ≡ some second.0)
      × (find_job (λ job. job.idempotency_key == key) second.1 ≡ none)
unfolding submit_job submit_unless find_job get_job
submit_job_collides now job_type other_type key other_key payload other_payload h = (
  ground (arith, h, eq_refl (job_id_at now)),
  ground (arith, h, eq_refl (job_id_at now), eq_iff key other_key, eq_iff other_key key),
)
