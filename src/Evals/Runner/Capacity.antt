-- ===== src/Evals/Runner/Capacity.antt =====
-- How many trials run at once.
use auditable_scientific_age.Prelude.{
  ℕ, String, ◌+◌, ◌-◌, ◌≤◌, ◌<◌, Bool, true, ◌&&◌, List, [], ◌∷◌, ◌++◌, map, max, total,
  total-append, all, ltb, leb, some, ◌≡◌, refl, arith, sym, ap, Bool-cases, inl, inr,
}
use auditable_scientific_age.Evals.Runner.{
  DynamicSemaphore, AsyncEvalRunner, Phase, acquire, release, resize, new_semaphore, new_runner,
  runner_with, Step, Steps,
}

-- A trial that holds a slot.
abbrev pub held : Phase → ℕ
held Phase.waiting = 0
held Phase.executing = 1
held (Phase.reducing n) = 1
held Phase.leaving = 1
held Phase.returned = 0

-- A pending resize stays within the limit.
abbrev pub within : ℕ → Phase → Bool
within limit Phase.waiting = true
within limit Phase.executing = true
within limit (Phase.reducing n) = leb n limit
within limit Phase.leaving = true
within limit Phase.returned = true

-- The slots in use are those of the trials inside, at most `limit`, and the capacity is at least one
-- and at most `limit`.
pub record IsBounded (limit : ℕ) (r : AsyncEvalRunner) : Type 0 where
  pub slots : r.semaphore.allocated ≡ total held r.trials
  pub few : r.semaphore.allocated ≤ limit
  pub positive : 1 ≤ r.semaphore.value
  pub capacity : r.semaphore.value ≤ limit
  pub concurrency : r.current_concurrency ≤ limit
  pub pending : all (within limit) r.trials ≡ true

held-append :
    (before after : List Phase) (p : Phase)
    → total held (before ++ p ∷ after) ≡ held p + total held (before ++ after)
held-append before after p =
    omega (arith, total-append held before (p ∷ after), total-append held before after)

within-append :
    (limit : ℕ) (before after : List Phase) (p : Phase)
    → all (within limit) (before ++ p ∷ after)
      ≡ (within limit p && all (within limit) (before ++ after))
within-append limit [] after p = refl
within-append limit (x ∷ before) after p = ground (arith, within-append limit before after p)

-- The bounds after a trial goes from one phase to another.
moved :
    (limit current current' : ℕ) (s s' : DynamicSemaphore) (before after : List Phase) (p q : Phase)
    → IsBounded limit (runner_with current s (before ++ p ∷ after))
    → s'.allocated + held p ≡ s.allocated + held q
    → s'.allocated ≤ limit
    → 1 ≤ s'.value
    → s'.value ≤ limit
    → current' ≤ current
    → within limit q ≡ true
    → IsBounded limit (runner_with current' s' (before ++ q ∷ after))
moved limit current current' s s' before after p q b balance few positive capacity le q_within =
    record {
      slots =
          omega (arith, b.slots, balance, held-append before after p, held-append before after q);
      few = few;
      positive = positive;
      capacity = capacity;
      concurrency = omega (arith, b.concurrency, le);
      pending = ground (
        arith,
        b.pending,
        q_within,
        within-append limit before after p,
        within-append limit before after q,
      );
    }

acquire-some :
    (s s' : DynamicSemaphore)
    → acquire s ≡ some s'
    → (s'.allocated ≡ s.allocated + 1) × (s'.value ≡ s.value) × (s.allocated < s.value)
unfolding acquire
acquire-some s s' h = elim (Bool-cases (ltb s.allocated s.value)) [
  | inl lt ↦
      let e : s' ≡ record s { allocated = s.allocated + 1 } = ground (arith, h, lt) in
      (ap (λ x. x.allocated) e, ap (λ x. x.value) e, ground (arith, lt))
  | inr ge ↦ absurd (ground (arith, h, ge))
]

Step-IsBounded :
    (limit : ℕ) (r r' : AsyncEvalRunner)
    → 1 ≤ limit
    → IsBounded limit r
    → Step r r'
    → IsBounded limit r'
unfolding acquire release resize
Step-IsBounded limit r r' one b (Step.enter current s s' before after h) =
    let (count, same, room) = acquire-some s s' h in
    moved limit current current s s' before after Phase.waiting Phase.executing b
      (omega (arith, count)) (omega (arith, count, room, b.capacity))
      (omega (arith, same, b.positive)) (omega (arith, same, b.capacity)) (omega arith) refl
Step-IsBounded limit r r' one b (Step.finish current s before after) =
    moved limit current current s s before after Phase.executing Phase.leaving b refl b.few
      b.positive b.capacity (omega arith) refl
Step-IsBounded limit r r' one b (Step.rate_limited current s before after h) =
    moved limit current (current - 1) s s before after Phase.executing
      (Phase.reducing (current - 1)) b refl b.few b.positive b.capacity (omega arith)
      (ground (arith, b.concurrency))
Step-IsBounded limit r r' one b (Step.reduce current n s before after) =
    let small : n ≤ limit =
      ground (arith, b.pending, within-append limit before after (Phase.reducing n)) in
    moved limit current current s (resize n s) before after (Phase.reducing n) Phase.leaving b refl
      b.few (omega arith) (omega (arith, one, small)) (omega arith) refl
Step-IsBounded limit r r' one b (Step.leave current s before after) =
    let slot = held-append before after Phase.leaving in
    moved limit current current s (release s) before after Phase.leaving Phase.returned b
      (omega (arith, slot, b.slots)) (omega (arith, b.few)) b.positive b.capacity (omega arith) refl

held_waiting : (futures : List String) → total held (map (λ _. Phase.waiting) futures) ≡ 0
held_waiting [] = refl
held_waiting (f ∷ futures) = omega (arith, held_waiting futures)

within_waiting :
    (limit : ℕ) (futures : List String)
    → all (within limit) (map (λ _. Phase.waiting) futures) ≡ true
within_waiting limit [] = refl
within_waiting limit (f ∷ futures) = within_waiting limit futures

new_runner-IsBounded :
    (initial : ℕ) (futures : List String) → IsBounded (max 1 initial) (new_runner initial futures)
unfolding new_runner new_semaphore
new_runner-IsBounded initial futures = record {
  slots = sym (held_waiting futures);
  few = omega arith;
  positive = omega arith;
  capacity = omega arith;
  concurrency = omega arith;
  pending = within_waiting (max 1 initial) futures;
}

Steps_keep :
    (limit : ℕ) (r r' : AsyncEvalRunner)
    → 1 ≤ limit
    → IsBounded limit r
    → Steps r r'
    → IsBounded limit r'
Steps_keep limit r r' one b (Steps.start _) = b
Steps_keep limit r r' one b (Steps.more _ mid _ before last) =
    Step-IsBounded limit mid r' one (Steps_keep limit r mid one b before) last

-- From a new runner, whatever the trials do and in whatever order, the slots in use are those of the
-- trials inside the semaphore, they are never more than the initial concurrency (or one), and the
-- capacity stays between one and that.
pub Steps-IsBounded :
    (initial : ℕ) (futures : List String) (r : AsyncEvalRunner)
    → Steps (new_runner initial futures) r
    → IsBounded (max 1 initial) r
Steps-IsBounded initial futures r steps =
    Steps_keep (max 1 initial) (new_runner initial futures) r (omega arith)
      (new_runner-IsBounded initial futures) steps
