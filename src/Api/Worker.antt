-- ===== src/Api/Worker.antt =====
-- What a client reads after its run.
use auditable_scientific_age.Prelude.{
  ℕ, zero, suc, ◌+◌, String, true, false, Option, none, some, List, [], ◌∷◌, if◌then◌else◌, ◌==◌,
  ◌≡◌, refl, arith, ap, sym, subst, leb,
}
use auditable_scientific_age.Prelude.Dict.{get-insert}
use auditable_scientific_age.Runtime.Models.{AgentMessage, AgentState, RunStatus}
use auditable_scientific_age.Context.Models.{ContextItem, ContextBundle, ContextBudgetReport}
use auditable_scientific_age.Context.Assembler.{assemble}
use auditable_scientific_age.Runtime.Tools.{Host}
use auditable_scientific_age.Runtime.Loop.{
  Limits, is_running, run, loop, iterate, receive, act, exceed, requested, responded,
}
use auditable_scientific_age.Runtime.Prompt.{pre_context_events, dynamic_items}
use auditable_scientific_age.Api.{
  assistant, summary_of_run, with_fake_provider, gateway_limits, RunsDatabase, RunSummaryResponse,
  gateway_run, gateway_answer, background_agent_worker, get_run_status, fake_generate,
}

-- How a run ended.
abbrev EndsAs : RunStatus → ℕ → Option String → AgentState → Type 0
EndsAs status step_count final_answer s =
    (s.status ≡ status) × (s.step_count ≡ step_count) × (s.final_answer ≡ final_answer)

gateway_run_exceeds :
    (host : Host (List AgentMessage)) (skill : Option (String × String))
    (inner_id user_input : String)
    → EndsAs RunStatus.max_steps_exceeded 0 none (gateway_run host skill inner_id user_input 0)
unfolding gateway_run run loop iterate exceed pre_context_events
gateway_run_exceeds host none inner_id user_input = (refl, refl, refl)
gateway_run_exceeds host (some skill) inner_id user_input = (refl, refl, refl)

requested-step_count :
    (bundle : ContextBundle) (report : ContextBudgetReport) (s : AgentState)
    → (requested bundle report s).step_count ≡ s.step_count
unfolding requested
requested-step_count bundle report s = ground arith

iterate_answers :
    (host : Host (List AgentMessage)) (n : ℕ) (pre : List ContextItem) (s : AgentState)
    → s.step_count ≡ 0
    → EndsAs RunStatus.completed 1
        (some gateway_answer)
        (iterate
          (with_fake_provider host)
          (gateway_limits (suc n))
          pre
          s
          (assistant gateway_answer ∷ [])).1
unfolding iterate receive act responded fake_generate
iterate_answers host n pre s zero_steps =
    let fake = with_fake_provider host in
    let assembled = assemble 1500 (dynamic_items fake pre s.messages) in
    let below : leb (suc n) s.step_count ≡ false = ground (arith, zero_steps) in
    rw below (refl, omega (arith, zero_steps, requested-step_count assembled.0 assembled.1 s), refl)

-- A loop whose first iteration stops the run.
loop_once :
    {W : Type 0}
    → (host : Host W) (limits : Limits) (fuel : ℕ) (pre : List ContextItem) (s : AgentState) (w : W)
    → is_running s.status ≡ true
    → is_running (iterate host limits pre s w).1.status ≡ false
    → loop host limits (suc (suc fuel)) pre (w, s) ≡ iterate host limits pre s w
unfolding loop
loop_once host limits fuel pre s w on off = ground (arith, on, off)

loop_completes :
    (host : Host (List AgentMessage)) (n : ℕ) (pre : List ContextItem) (s : AgentState)
    → is_running s.status ≡ true
    → s.step_count ≡ 0
    → EndsAs RunStatus.completed 1
        (some gateway_answer)
        (loop
          (with_fake_provider host)
          (gateway_limits (suc n))
          (suc n + 1)
          pre
          (assistant gateway_answer ∷ [], s)).1
loop_completes host n pre s on zero_steps =
    let e : suc n + 1 ≡ suc (suc n) = omega arith in
    let fake = with_fake_provider host in
    let w = assistant gateway_answer ∷ [] in
    let ends = iterate_answers host n pre s zero_steps in
    let once = loop_once fake (gateway_limits (suc n)) n pre s w on (ap is_running ends.0) in
    subst
      (λ k.
        EndsAs RunStatus.completed 1 (some gateway_answer)
          (loop fake (gateway_limits (suc n)) k pre (w, s)).1)
      (sym e) (subst (λ r. EndsAs RunStatus.completed 1 (some gateway_answer) r.1) (sym once) ends)

gateway_run_completes :
    (host : Host (List AgentMessage)) (skill : Option (String × String))
    (inner_id user_input : String) (n : ℕ)
    → EndsAs RunStatus.completed 1
        (some gateway_answer)
        (gateway_run host skill inner_id user_input (suc n))
unfolding gateway_run run pre_context_events
gateway_run_completes host none inner_id user_input n = loop_completes host n _ _ refl refl
gateway_run_completes host (some skill) inner_id user_input n = loop_completes host n _ _ refl refl

-- The summary that the run of a client ends with.
abbrev pub final_summary : String → ℕ → RunSummaryResponse
final_summary run_id zero = record {
  run_id = run_id;
  status = "max_steps_exceeded";
  step_count = 0;
  final_answer = none;
}
final_summary run_id (suc n) = record {
  run_id = run_id;
  status = "completed";
  step_count = 1;
  final_answer = some gateway_answer;
}

summary_of_run-final :
    (host : Host (List AgentMessage)) (skill : Option (String × String))
    (inner_id run_id user_input : String) (max_steps : ℕ)
    → summary_of_run
        (some (record (gateway_run host skill inner_id user_input max_steps) { run_id = run_id }))
      ≡ some (final_summary run_id max_steps)
summary_of_run-final host skill inner_id run_id user_input zero =
    let (status, steps, answer) = gateway_run_exceeds host skill inner_id user_input in
    rw (status, steps, answer) refl
summary_of_run-final host skill inner_id run_id user_input (suc n) =
    let (status, steps, answer) = gateway_run_completes host skill inner_id user_input n in
    rw (status, steps, answer) refl

-- Once the worker of a run with a step limit has returned, the run reads as completed after one step
-- with the provider's answer, or as stopped without a step when the limit is zero, whatever the user
-- asked; every other run reads as before.
pub background_agent_worker-get_run_status :
    (host : Host (List AgentMessage)) (skill : Option (String × String))
    (inner_id run_id user_input : String) (max_steps : ℕ) (db : RunsDatabase) (asked : String)
    → get_run_status asked
        (background_agent_worker host skill inner_id run_id user_input (some max_steps) db)
      ≡ (if run_id == asked then some (final_summary run_id max_steps) else get_run_status asked db)
unfolding background_agent_worker get_run_status
background_agent_worker-get_run_status host skill inner_id run_id user_input max_steps db asked =
    let state = record (gateway_run host skill inner_id user_input max_steps) { run_id = run_id } in
    ground (
      arith,
      get-insert run_id asked state db,
      summary_of_run-final host skill inner_id run_id user_input max_steps,
    )
