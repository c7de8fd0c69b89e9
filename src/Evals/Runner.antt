-- ===== src/Evals/Runner.antt =====
-- runner.py: the semaphore of variable capacity, and the trials that run concurrently behind it. The
-- blocks under `_cond` are atomic; a waiter is woken whenever the guard can have changed, so it may
-- enter whenever the guard holds. The trial's runtime, the graders and the event stream are not
-- part of it.
pub mod Capacity
pub mod Progress
use auditable_scientific_age.Prelude.{
  ℕ, String, ◌+◌, ◌-◌, ◌<◌, Bool, true, false, List, [], ◌∷◌, ◌++◌, map, max, if◌then◌else◌, ltb,
  Option, none, some, ◌≡◌,
}

pub record DynamicSemaphore : Type 0 where
  pub value : ℕ
  pub allocated : ℕ

unfoldable pub new_semaphore : ℕ → DynamicSemaphore
new_semaphore initial_value = record { value = max 1 initial_value; allocated = 0 }

-- `__aenter__`, where `none` is one more wait
unfoldable pub acquire : DynamicSemaphore → Option DynamicSemaphore
acquire s =
    if ltb s.allocated s.value then some (record s { allocated = s.allocated + 1 }) else none

-- `__aexit__`
unfoldable pub release : DynamicSemaphore → DynamicSemaphore
release s = record s { allocated = s.allocated - 1 }

unfoldable pub resize : ℕ → DynamicSemaphore → DynamicSemaphore
resize new_value s = record s { value = max 1 new_value }

-- Where `run_single_trial_async` stands: before the semaphore, in the runtime's thread, before the
-- resize to a new concurrency, past it, and outside again.
pub data Phase : Type 0 where
  waiting : Phase
  executing : Phase
  reducing : ℕ → Phase
  leaving : Phase
  returned : Phase

pub record AsyncEvalRunner : Type 0 where
  pub current_concurrency : ℕ
  pub semaphore : DynamicSemaphore
  pub trials : List Phase

-- One future for each trial, by its task.
unfoldable pub new_runner : ℕ → List String → AsyncEvalRunner
unfolding new_semaphore
new_runner initial_concurrency futures = record {
  current_concurrency = initial_concurrency;
  semaphore = new_semaphore initial_concurrency;
  trials = map (λ _. waiting) futures;
}

abbrev pub runner_with : ℕ → DynamicSemaphore → List Phase → AsyncEvalRunner
runner_with current s trials = record {
  current_concurrency = current;
  semaphore = s;
  trials = trials;
}

-- One step of one trial, between the trials before and after it.
pub data Step : AsyncEvalRunner → AsyncEvalRunner → Type 0 where
  enter :
      (current : ℕ) (s s' : DynamicSemaphore) (before after : List Phase)
      → acquire s ≡ some s'
      → Step
          (runner_with current s (before ++ waiting ∷ after))
          (runner_with current s' (before ++ executing ∷ after))
  -- Any result but a rate limit, a rate limit at concurrency 1, or an exception.
  finish :
      (current : ℕ) (s : DynamicSemaphore) (before after : List Phase)
      → Step
          (runner_with current s (before ++ executing ∷ after))
          (runner_with current s (before ++ leaving ∷ after))
  -- A result with status "failed" and "429" in its answer.
  rate_limited :
      (current : ℕ) (s : DynamicSemaphore) (before after : List Phase)
      → 1 < current
      → Step
          (runner_with current s (before ++ executing ∷ after))
          (runner_with (current - 1) s (before ++ reducing (current - 1) ∷ after))
  reduce :
      (current new_value : ℕ) (s : DynamicSemaphore) (before after : List Phase)
      → Step
          (runner_with current s (before ++ reducing new_value ∷ after))
          (runner_with current (resize new_value s) (before ++ leaving ∷ after))
  leave :
      (current : ℕ) (s : DynamicSemaphore) (before after : List Phase)
      → Step
          (runner_with current s (before ++ leaving ∷ after))
          (runner_with current (release s) (before ++ returned ∷ after))

pub data Steps : AsyncEvalRunner → AsyncEvalRunner → Type 0 where
  start : (r : AsyncEvalRunner) → Steps r r
  more : (r r' r'' : AsyncEvalRunner) → Steps r r' → Step r' r'' → Steps r r''
