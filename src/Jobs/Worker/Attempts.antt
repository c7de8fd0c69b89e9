-- ===== src/Jobs/Worker/Attempts.antt =====
-- The attempts of a job, counted by the tasks dispatched for it, over every run of the system.
use auditable_scientific_age.Prelude.{
  ℕ, ◌+◌, ◌≤◌, String, Bool, true, false, Option, none, some, List, [], ◌∷◌, ◌++◌, if◌then◌else◌,
  ◌≡◌, refl, arith, inl, inr, Option-cases, ltb, leb, ◌&&◌, ◌==◌, not, nat_eq, subst, eq_iff,
  Bool-cases, ◌∙◌,
}
use auditable_scientific_age.Prelude.Dict.{get, insert, has, get-insert}
use auditable_scientific_age.Jobs.Store.{
  JobRecord, JobStatus, Store, find_job, new_job, submit_job, submit_unless, job_id_at, get_job,
  change, update_job_status, with_status, is_queued, fetch_next_queued_job,
  fetch_next_cancel_requested_job,
}
use auditable_scientific_age.Jobs.Worker.{
  counted, acknowledge, claim, poll, finish_job, execute_job_core, Step, Steps,
}

-- How often an id is in a list of dispatched tasks.
abbrev pub dispatches : String → List String → ℕ
dispatches job_id [] = 0
dispatches job_id (x ∷ xs) = if x == job_id then dispatches job_id xs + 1 else dispatches job_id xs

-- A job is within its budget, and a queued one has an attempt left.
abbrev pub is_within : JobRecord → Bool
is_within job =
    if is_queued job
    then ltb job.attempt_count job.max_attempts
    else leb job.attempt_count job.max_attempts

-- What is under an id agrees with the tasks dispatched for it.
abbrev is_counted : ℕ → Option JobRecord → Bool
is_counted n none = nat_eq n 0
is_counted n (some job) = nat_eq job.attempt_count n && is_within job

-- Each job is under its own id, once.
abbrev is_keyed : Store → Bool
is_keyed [] = true
is_keyed ((k, job) ∷ db) = job.job_id == k && not (has k db) && is_keyed db

record IsAccounted (ids : List String) (db : Store) : Type 0 where
  keyed : is_keyed db ≡ true
  counts : (k : String) → is_counted (dispatches k ids) (get k db) ≡ true

has-insert :
    (k j : String) (job : JobRecord) (db : Store)
    → has j db ≡ false
    → (k == j) ≡ false
    → has j (insert k job db) ≡ false
has-insert k j job db h e = ground (arith, h, e, get-insert k j job db)

is_keyed-insert :
    (k : String) (job : JobRecord) (db : Store)
    → (job.job_id == k) ≡ true
    → is_keyed db ≡ true
    → is_keyed (insert k job db) ≡ true
is_keyed-insert k job [] e h = ground (arith, e)
is_keyed-insert k job ((j, other) ∷ db) e h =
    ground (arith, e, h, eq_iff j k, eq_iff k j, is_keyed-insert k job db, has-insert k j job db)

-- A job that is found stands under its id.
find_job-get :
    (test : JobRecord → Bool) (job : JobRecord) (db : Store)
    → is_keyed db ≡ true
    → find_job test db ≡ some job
    → (get job.job_id db ≡ some job) × (test job ≡ true)
unfolding find_job
find_job-get test job [] h e = ground (arith, e)
find_job-get test job ((j, other) ∷ db) h e = elim (Bool-cases (test other)) [
  | inl t ↦ ground (arith, h, e, t, eq_iff other.job_id j, eq_iff j j)
  | inr t ↦
      let (found, passes) = find_job-get test job db (ground (arith, h)) (ground (arith, e, t)) in
      (ground (arith, h, found, eq_iff j job.job_id), passes)
]

get-keyed :
    (k : String) (job : JobRecord) (db : Store)
    → is_keyed db ≡ true
    → get k db ≡ some job
    → (job.job_id == k) ≡ true
get-keyed k job [] h e = ground (arith, e)
get-keyed k job ((j, other) ∷ db) h e =
    ground (arith, h, e, eq_iff j k, eq_iff other.job_id j, get-keyed k job db)

-- A job stored under its own id, when the dispatches of no other id change.
insert-IsAccounted :
    (ids ids' : List String) (job : JobRecord) (db : Store)
    → ((j : String) → (job.job_id == j) ≡ false → dispatches j ids' ≡ dispatches j ids)
    → is_counted (dispatches job.job_id ids') (some job) ≡ true
    → IsAccounted ids db
    → IsAccounted ids' (insert job.job_id job db)
insert-IsAccounted ids ids' job db others own h = record {
  keyed = is_keyed-insert job.job_id job db (ground (arith, eq_iff job.job_id job.job_id)) h.keyed;
  counts = λ j. elim (Bool-cases (job.job_id == j)) [
    | inl e ↦ rw (get-insert job.job_id j job db) (
        rw e (
          subst (λ k. is_counted (dispatches k ids') (some job) ≡ true) ((eq_iff job.job_id j).0 e)
            own))
    | inr e ↦ rw (get-insert job.job_id j job db) (rw e (rw (others j e) (h.counts j)))
  ];
}

change-IsAccounted :
    (ids : List String) (o : Option JobRecord) (k : String) (f : JobRecord → JobRecord) (db : Store)
    → ((job : JobRecord) → (f job).job_id ≡ job.job_id)
    → ((n : ℕ) (job : JobRecord)
        → is_counted n (some job) ≡ true
        → is_counted n (some (f job)) ≡ true)
    → get k db ≡ o
    → IsAccounted ids db
    → IsAccounted ids (change o k f db)
unfolding change
change-IsAccounted ids none k f db same keep e h = h
change-IsAccounted ids (some job) k f db same keep e h =
    let at_k : (f job).job_id ≡ k =
      same job ∙ ground (arith, eq_iff job.job_id k, get-keyed k job db h.keyed e) in
    subst (λ i. IsAccounted ids (insert i (f job) db)) at_k
      (insert-IsAccounted ids ids (f job) db (λ j d. refl)
        (keep (dispatches (f job).job_id ids) job
          (rw at_k (subst (λ o. is_counted (dispatches k ids) o ≡ true) e (h.counts k))))
        h)

acknowledge-IsAccounted :
    (ids : List String) (o : Option JobRecord) (db : Store)
    → IsAccounted ids db
    → IsAccounted ids (acknowledge o db)
unfolding acknowledge update_job_status
acknowledge-IsAccounted ids none db h = h
acknowledge-IsAccounted ids (some job) db h =
    change-IsAccounted ids (get job.job_id db) job.job_id
      (with_status JobStatus.cancelled none (some "Cancelled gracefully by human request.")) db
      (λ j. refl) (λ n j w. ground (arith, w)) refl h

abbrev claimed : JobRecord → JobRecord
claimed job = counted (with_status JobStatus.running none none job)

claim-IsAccounted :
    (ids : List String) (job : JobRecord) (db : Store)
    → get job.job_id db ≡ some job
    → is_queued job ≡ true
    → IsAccounted ids db
    → IsAccounted (job.job_id ∷ ids) (insert job.job_id (claimed job) db)
claim-IsAccounted ids job db e q h =
    let before =
      subst (λ o. is_counted (dispatches job.job_id ids) o ≡ true) e (h.counts job.job_id) in
    insert-IsAccounted ids (job.job_id ∷ ids) (claimed job) db (λ j d. rw d refl)
      (ground (arith, q, before, eq_iff job.job_id job.job_id)) h

poll-IsAccounted :
    (ids : List String) (db : Store)
    → IsAccounted ids db
    → IsAccounted ((poll db).1 ++ ids) (poll db).0
unfolding poll claim fetch_next_queued_job
poll-IsAccounted ids db h =
    let db' = acknowledge (fetch_next_cancel_requested_job db) db in
    let h' = acknowledge-IsAccounted ids (fetch_next_cancel_requested_job db) db h in
    elim (Option-cases (find_job is_queued db')) [
      | inl e ↦ rw e h'
      | inr (job, e) ↦
          let (found, next) = find_job-get is_queued job db' h'.keyed e in
          rw e (claim-IsAccounted ids job db' found next h')
    ]

finish_job-same : (job : JobRecord) → (finish_job job).job_id ≡ job.job_id
unfolding finish_job
finish_job-same job = ground arith

finish_job-is_counted :
    (n : ℕ) (job : JobRecord)
    → is_counted n (some job) ≡ true
    → is_counted n (some (finish_job job)) ≡ true
unfolding finish_job
finish_job-is_counted n job w = ground (arith, w)

step-IsAccounted :
    (db db' : Store) (before ids : List String)
    → Step db ids db'
    → IsAccounted before db
    → IsAccounted (ids ++ before) db'
unfolding submit_job execute_job_core get_job submit_unless update_job_status
step-IsAccounted db db' before ids (Step.submitted now job_type key payload _ fresh) h =
    elim (Option-cases (find_job (λ job. job.idempotency_key == key) db)) [
      | inl e ↦ rw e (
          insert-IsAccounted before before (new_job (job_id_at now) job_type key payload) db
            (λ j d. refl) (ground (arith, fresh, h.counts (job_id_at now))) h)
      | inr (job, e) ↦ rw e h
    ]
step-IsAccounted db db' before ids (Step.cancel_asked job_id _) h =
    change-IsAccounted before (get job_id db) job_id
      (with_status JobStatus.cancel_requested none none) db (λ j. refl) (λ n j w. ground (arith, w))
      refl h
step-IsAccounted db db' before ids (Step.polled _) h = poll-IsAccounted before db h
step-IsAccounted db db' before ids (Step.task_ended job_id _) h =
    change-IsAccounted before (get job_id db) job_id finish_job db finish_job-same
      finish_job-is_counted refl h

Steps-IsAccounted :
    (db db' : Store) (ids : List String)
    → Steps db ids db'
    → IsAccounted [] db
    → IsAccounted ids db'
Steps-IsAccounted db db' ids (Steps.start _) h = h
Steps-IsAccounted db db' ids (Steps.more _ mid _ before last run step) h =
    step-IsAccounted mid db' before last step (Steps-IsAccounted db mid before run h)

-- In every run of submissions under free ids, cancellations, polling rounds and task ends, from the
-- empty store, the attempts that a job records are the tasks that the worker has dispatched for it;
-- they are at most its `max_attempts`, and fewer while it is queued.
pub Steps-dispatches :
    (db : Store) (dispatched : List String) (job_id : String) (job : JobRecord)
    → Steps [] dispatched db
    → get_job job_id db ≡ some job
    → (job.attempt_count ≡ dispatches job_id dispatched)
      × (dispatches job_id dispatched ≤ job.max_attempts)
      × (is_within job ≡ true)
unfolding get_job
Steps-dispatches db dispatched job_id job run e =
    let all =
      Steps-IsAccounted [] db dispatched run (record { keyed = refl; counts = λ k. refl }) in
    let own =
      subst (λ o. is_counted (dispatches job_id dispatched) o ≡ true) e (all.counts job_id) in
    (ground (arith, own), ground (arith, own), ground (arith, own))
