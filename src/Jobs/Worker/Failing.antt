-- ===== src/Jobs/Worker/Failing.antt =====
-- A job whose task fails whenever it runs, under the worker's loop.
use auditable_scientific_age.Prelude.{
  ℕ, zero, suc, ◌+◌, String, true, false, none, some, List, [], ◌∷◌, ◌++◌, length, map, ap, ◌≡◌,
  ◌∙◌, refl, arith, eq_refl, ltb, lt→ltb, subst, sym, append_assoc, append-nil,
}
use auditable_scientific_age.Jobs.Store.{
  JobRecord, JobStatus, Store, with_status, find_job, fetch_next_queued_job, is_queued,
  is_cancel_requested, fetch_next_cancel_requested_job, get_job, change,
}
use auditable_scientific_age.Jobs.Worker.{
  acknowledge, claim, poll, polls, finish_job, execute_job_core, counted, Step, Steps,
}

-- The ends of tasks, the first dispatched first.
end_all : List String → Store → Store
unfolding execute_job_core
end_all [] db = db
end_all (job_id ∷ ids) db = execute_job_core job_id (end_all ids db)

-- A schedule of the worker: for each number, so many rounds of the loop and one more, and then the ends
-- of the tasks dispatched in them. The ids are those of all tasks dispatched, the latest first.
pub work : List ℕ → Store → Store × List String
unfolding polls end_all
work [] db = (db, [])
work (n ∷ ns) db =
    let rounds = polls (suc n) db in
    let later = work ns (end_all rounds.1 rounds.0) in (later.0, later.1 ++ rounds.1)

Steps-append :
    (db db' db'' : Store) (before ids : List String)
    → Steps db before db'
    → Steps db' ids db''
    → Steps db (ids ++ before) db''
Steps-append db db' db'' before ids run (Steps.start _) = run
Steps-append db db' db'' before ids run (Steps.more _ mid _ earlier last rest step) =
    subst (λ xs. Steps db xs db'') (sym (append_assoc last earlier before))
      (Steps.more db mid db'' (earlier ++ before) last
        (Steps-append db db' mid before earlier run rest) step)

polls-Steps : (n : ℕ) (db : Store) → Steps db (polls n db).1 (polls n db).0
unfolding polls
polls-Steps zero db = Steps.start db
polls-Steps (suc n) db =
    Steps-append db (poll db).0 _ (poll db).1 _
      (subst (λ xs. Steps db xs (poll db).0) (append-nil (poll db).1)
        (Steps.more db db (poll db).0 [] (poll db).1 (Steps.start db) (Step.polled db)))
      (polls-Steps n (poll db).0)

end_all-Steps : (ids : List String) (db : Store) → Steps db [] (end_all ids db)
unfolding end_all
end_all-Steps [] db = Steps.start db
end_all-Steps (job_id ∷ ids) db =
    Steps.more db (end_all ids db) _ [] [] (end_all-Steps ids db)
      (Step.task_ended job_id (end_all ids db))

-- The schedule is a run of the system.
work-Steps : (ns : List ℕ) (db : Store) → Steps db (work ns db).1 (work ns db).0
unfolding work
work-Steps [] db = Steps.start db
work-Steps (n ∷ ns) db =
    let rounds = polls (suc n) db in
    Steps-append db (end_all rounds.1 rounds.0) _ rounds.1 _
      (Steps-append db rounds.0 _ rounds.1 [] (polls-Steps (suc n) db)
        (end_all-Steps rounds.1 rounds.0))
      (work-Steps ns (end_all rounds.1 rounds.0))

abbrev pub failed_at_last : JobRecord → JobRecord
failed_at_last job = record job {
  status = JobStatus.failed;
  error = some "Transient math convergence error.";
  attempt_count = job.max_attempts;
}

abbrev claimed : JobRecord → JobRecord
claimed job = counted (with_status JobStatus.running none none job)

map_snoc : (x : String) (ns : List ℕ) → map (λ _. x) ns ++ x ∷ [] ≡ x ∷ map (λ _. x) ns
map_snoc x [] = refl
map_snoc x (n ∷ ns) = ap (λ xs. x ∷ xs) (map_snoc x ns)

-- A job that is the first of the store.
abbrev pub ahead_of : Store → JobRecord → Store
ahead_of others job = (job.job_id, job) ∷ others

-- A job ahead of others that wait for nothing.
module _ (others : Store) (none_queued : find_job is_queued others ≡ none)
    (none_to_cancel : find_job is_cancel_requested others ≡ none) where
  abbrev ahead : JobRecord → Store
  ahead = ahead_of others

  poll_claims :
      (job : JobRecord)
      → job.status ≡ JobStatus.queued
      → poll (ahead job) ≡ (ahead (claimed job), job.job_id ∷ [])
  unfolding poll acknowledge claim fetch_next_queued_job fetch_next_cancel_requested_job find_job
  poll_claims job q = rw (q, none_to_cancel) (rw (eq_refl job.job_id) refl)

  poll_idle :
      (job : JobRecord)
      → is_queued job ≡ false
      → is_cancel_requested job ≡ false
      → poll (ahead job) ≡ (ahead job, [])
  unfolding poll acknowledge claim fetch_next_queued_job fetch_next_cancel_requested_job find_job
  poll_idle job q c = rw (c, none_to_cancel, q, none_queued) refl

  polls_idle :
      (n : ℕ) (job : JobRecord)
      → is_queued job ≡ false
      → is_cancel_requested job ≡ false
      → polls n (ahead job) ≡ (ahead job, [])
  unfolding polls
  polls_idle zero job q c = refl
  polls_idle (suc n) job q c = rw (poll_idle job q c, polls_idle n job q c) refl

  end-ahead :
      (job : JobRecord)
      → execute_job_core job.job_id (ahead job) ≡ (job.job_id, finish_job job) ∷ others
  unfolding execute_job_core get_job change
  end-ahead job = rw (eq_refl job.job_id) (rw (eq_refl job.job_id) refl)

  -- A claim, so many rounds in which nothing happens, and the end of the task.
  work-round :
      (n : ℕ) (ns : List ℕ) (job : JobRecord)
      → job.status ≡ JobStatus.queued
      → work (n ∷ ns) (ahead job)
        ≡ let later = work ns ((job.job_id, finish_job (claimed job)) ∷ others) in
          (later.0, later.1 ++ job.job_id ∷ [])
  unfolding work polls end_all
  work-round n ns job q =
      rw (poll_claims job q)
        (rw (polls_idle n (claimed job) refl refl) (rw (end-ahead (claimed job)) refl))

  requeue :
      (job : JobRecord)
      → job.payload.force_fail ≡ true
      → ltb (job.attempt_count + 1) job.max_attempts ≡ true
      → finish_job (claimed job) ≡ with_status JobStatus.queued none none (claimed job)
  unfolding finish_job
  requeue job f h = rw f (rw h refl)

  give_up :
      (job : JobRecord)
      → job.payload.force_fail ≡ true
      → job.attempt_count + 1 ≡ job.max_attempts
      → finish_job (claimed job) ≡ failed_at_last job
  unfolding finish_job
  give_up job f h =
      let none_left : ltb (job.attempt_count + 1) job.max_attempts ≡ false = ground (arith, h) in
      rw f (rw none_left (rw h refl))

  work_fails :
      (n : ℕ) (ns : List ℕ) (job : JobRecord)
      → job.status ≡ JobStatus.queued
      → job.payload.force_fail ≡ true
      → job.attempt_count + suc (length ns) ≡ job.max_attempts
      → work (n ∷ ns) (ahead job) ≡ (ahead (failed_at_last job), map (λ _. job.job_id) (n ∷ ns))
  work_fails n [] job q f h =
      work-round n [] job q ∙ unfold work in rw (give_up job f (omega (arith, h))) refl
  work_fails n (m ∷ ns) job q f h =
      let next = with_status JobStatus.queued none none (claimed job) in
      let more = lt→ltb (job.attempt_count + 1) job.max_attempts (omega (arith, h)) in
      work-round n (m ∷ ns) job q
      ∙ rw (requeue job f more) (
          rw (work_fails m ns next refl f (omega (arith, h)))
            (ap (λ ids. (ahead (failed_at_last job), job.job_id ∷ ids)) (map_snoc job.job_id ns)))

  -- A queued job whose task fails whenever it runs, with as many attempts left as there are times at
  -- which its tasks end, is dispatched once before each of these ends, however many rounds of the
  -- loop lie between, and is then failed with the error's text and all attempts made; this is a run
  -- of the system's steps, and no number of further rounds dispatches the job again. The job is the
  -- first of the store, and no other job is queued or to be cancelled.
  pub failing_job_ends :
      (n m : ℕ) (ns : List ℕ) (job : JobRecord)
      → job.status ≡ JobStatus.queued
      → job.payload.force_fail ≡ true
      → job.attempt_count + suc (length ns) ≡ job.max_attempts
      → (work (n ∷ ns) (ahead_of others job)
          ≡ (ahead_of others (failed_at_last job), map (λ _. job.job_id) (n ∷ ns)))
        × Steps
            (ahead_of others job)
            (map (λ _. job.job_id) (n ∷ ns))
            (ahead_of others (failed_at_last job))
        × (polls m (ahead_of others (failed_at_last job))
            ≡ (ahead_of others (failed_at_last job), []))
  failing_job_ends n m ns job q f h =
      let ends = work_fails n ns job q f h in
      (
        ends,
        subst (λ r. Steps (ahead job) r.1 r.0) ends (work-Steps (n ∷ ns) (ahead job)),
        polls_idle m (failed_at_last job) refl refl,
      )
