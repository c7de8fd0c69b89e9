-- ===== src/Evals/Runner/Progress.antt =====
-- No deadlock among the trials, and an end to every run.
use auditable_scientific_age.Prelude.{
  ℕ, suc, ◌+◌, ◌*◌, ◌-◌, ◌≤◌, ◌<◌, String, Bool, true, false, List, [], ◌∷◌, ◌++◌, max, total,
  total-append, all, ltb, ◌≡◌, refl, arith, subst, ◌⊎◌, inl, inr, map, append_assoc, length,
  Bool-cases,
}
use auditable_scientific_age.Evals.Runner.{
  DynamicSemaphore, AsyncEvalRunner, Phase, acquire, new_runner, runner_with, Step, Steps,
}
use auditable_scientific_age.Evals.Runner.Capacity.{IsBounded, Steps-IsBounded, held}

abbrev pub is_returned : Phase → Bool
is_returned Phase.returned = true
is_returned _ = false

abbrev CanStep : AsyncEvalRunner → Type 0
CanStep r = (r' : AsyncEvalRunner) × Step r r'

-- A trial counted with those before it.
passed_over :
    (current : ℕ) (s : DynamicSemaphore) (before after : List Phase) (p : Phase)
    → CanStep (runner_with current s ((before ++ p ∷ []) ++ after))
    → CanStep (runner_with current s (before ++ p ∷ after))
passed_over current s before after p can =
    subst (λ trials. CanStep (runner_with current s trials)) (append_assoc before (p ∷ []) after)
      can

-- A trial inside the semaphore can always go on.
step_inside :
    (current : ℕ) (s : DynamicSemaphore) (before after : List Phase)
    → 0 < total held after
    → CanStep (runner_with current s (before ++ after))
step_inside current s before [] h = absurd (omega (arith, h))
step_inside current s before (Phase.executing ∷ after) h = (_, Step.finish current s before after)
step_inside current s before (Phase.reducing n ∷ after) h =
    (_, Step.reduce current n s before after)
step_inside current s before (Phase.leaving ∷ after) h = (_, Step.leave current s before after)
step_inside current s before (Phase.waiting ∷ after) h =
    passed_over current s before after Phase.waiting
      (step_inside current s (before ++ Phase.waiting ∷ []) after (omega (arith, h)))
step_inside current s before (Phase.returned ∷ after) h =
    passed_over current s before after Phase.returned
      (step_inside current s (before ++ Phase.returned ∷ []) after (omega (arith, h)))

-- A waiting trial can enter when a slot is free.
step_waiting :
    (current : ℕ) (s : DynamicSemaphore) (before after : List Phase)
    → s.allocated < s.value
    → total held after ≡ 0
    → all is_returned after ≡ false
    → CanStep (runner_with current s (before ++ after))
unfolding acquire
step_waiting current s before [] room out h = absurd (ground (arith, h))
step_waiting current s before (Phase.waiting ∷ after) room out h = (
  _,
  Step.enter current s (record s { allocated = s.allocated + 1 }) before after
      (ground (arith, room)),
)
step_waiting current s before (Phase.executing ∷ after) room out h = absurd (omega (arith, out))
step_waiting current s before (Phase.reducing n ∷ after) room out h = absurd (omega (arith, out))
step_waiting current s before (Phase.leaving ∷ after) room out h = absurd (omega (arith, out))
step_waiting current s before (Phase.returned ∷ after) room out h =
    passed_over current s before after Phase.returned
      (step_waiting current s (before ++ Phase.returned ∷ []) after room (omega (arith, out)) h)

-- The steps that a trial may still take.
abbrev steps_left : Phase → ℕ
steps_left Phase.waiting = 4
steps_left Phase.executing = 3
steps_left (Phase.reducing n) = 2
steps_left Phase.leaving = 1
steps_left Phase.returned = 0

abbrev pub step_total : {r r' : AsyncEvalRunner} → Steps r r' → ℕ
step_total (Steps.start _) = 0
step_total (Steps.more _ _ _ before last) = suc (step_total before)

left-append :
    (before after : List Phase) (p q : Phase)
    → steps_left q < steps_left p
    → total steps_left (before ++ q ∷ after) < total steps_left (before ++ p ∷ after)
left-append before after p q h = omega (
  arith,
  h,
  total-append steps_left before (p ∷ after),
  total-append steps_left before (q ∷ after),
)

step_uses :
    (r r' : AsyncEvalRunner) → Step r r' → total steps_left r'.trials < total steps_left r.trials
step_uses r r' (Step.enter current s s' before after h) =
    left-append before after Phase.waiting Phase.executing (omega arith)
step_uses r r' (Step.finish current s before after) =
    left-append before after Phase.executing Phase.leaving (omega arith)
step_uses r r' (Step.rate_limited current s before after h) =
    left-append before after Phase.executing (Phase.reducing (current - 1)) (omega arith)
step_uses r r' (Step.reduce current n s before after) =
    left-append before after (Phase.reducing n) Phase.leaving (omega arith)
step_uses r r' (Step.leave current s before after) =
    left-append before after Phase.leaving Phase.returned (omega arith)

steps_use :
    (r r' : AsyncEvalRunner) (steps : Steps r r')
    → step_total steps + total steps_left r'.trials ≤ total steps_left r.trials
steps_use r r' (Steps.start _) = omega arith
steps_use r r' (Steps.more _ mid _ before last) =
    omega (arith, steps_use r mid before, step_uses mid r' last)

left_at_start :
    (futures : List String)
    → total steps_left (map (λ _. Phase.waiting) futures) ≡ 4 * length futures
left_at_start [] = refl
left_at_start (f ∷ futures) = omega (arith, left_at_start futures)

runner_moves :
    (r : AsyncEvalRunner) (limit : ℕ)
    → IsBounded limit r
    → (all is_returned r.trials ≡ true) ⊎ CanStep r
runner_moves r limit b = elim (Bool-cases (all is_returned r.trials)) [
  | inl done ↦ inl done
  | inr still ↦ elim (Bool-cases (ltb 0 (total held r.trials))) [
    | inl inside ↦
        inr (step_inside r.current_concurrency r.semaphore [] r.trials (ground (arith, inside)))
    | inr outside ↦
        let nobody : total held r.trials ≡ 0 = ground (arith, outside) in
        inr (
          step_waiting r.current_concurrency r.semaphore [] r.trials
            (omega (arith, nobody, b.slots, b.positive)) nobody still)
  ]
]

-- From a new runner, in any order of steps, either every trial has returned or some trial can take a
-- step, and no run takes more than four steps for each trial.
pub Steps_progress :
    (initial : ℕ) (futures : List String) (r : AsyncEvalRunner)
    (steps : Steps (new_runner initial futures) r)
    → ((all is_returned r.trials ≡ true) ⊎ ((r' : AsyncEvalRunner) × Step r r'))
      × (step_total steps ≤ 4 * length futures)
unfolding new_runner
Steps_progress initial futures r steps = (
  runner_moves r (max 1 initial) (Steps-IsBounded initial futures r steps),
  omega (arith, steps_use (new_runner initial futures) r steps, left_at_start futures),
)
