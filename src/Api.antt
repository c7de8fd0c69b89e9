-- ===== src/Api.antt =====
-- api.py and providers/fake_provider.py: the store of runs behind the HTTP routes, and the worker that
-- runs the agent for one. The tools of the runtime and the printing of its values are a parameter, a
-- `Host` whose provider is replaced. A limit on the steps may be null. The health check and the
-- evaluation stream are not part of it.
pub mod Worker
use auditable_scientific_age.Prelude.{
  ℕ, String, Bool, true, false, Option, none, some, List, [], ◌∷◌, if◌then◌else◌,
}
use auditable_scientific_age.Prelude.Dict.{Dict, get, insert}
use auditable_scientific_age.Runtime.Models.{AgentMessage, AgentState, RunStatus, status_text}
use auditable_scientific_age.Runtime.Tools.{Host, Reply}
use auditable_scientific_age.Runtime.Prompt.{Sources}
use auditable_scientific_age.Runtime.Loop.{Limits, run}

abbrev pub assistant : String → AgentMessage
assistant content = record {
  role = "assistant";
  content = some content;
  tool_calls = none;
  tool_result = none;
  rationale = none;
}

-- `FakeProvider.generate`, on the responses that are left, the next one first.
unfoldable pub fake_generate : List AgentMessage → List AgentMessage → List AgentMessage × Reply
fake_generate [] messages = ([], Reply.answered (assistant "No more responses available."))
fake_generate (response ∷ responses) messages = (responses, Reply.answered response)

-- A runtime on the fake provider.
abbrev pub with_fake_provider : Host (List AgentMessage) → Host (List AgentMessage)
with_fake_provider host = record {
  tools = "add_numbers" ∷ [];
  execute = host.execute;
  generate = fake_generate;
  key_error_text = host.key_error_text;
  calls_text = host.calls_text;
  result_text = host.result_text;
}

-- `RUNS_DATABASE`
abbrev pub RunsDatabase : Type 0
RunsDatabase = Dict AgentState

pub record RunSummaryResponse : Type 0 where
  pub run_id : String
  pub status : String
  pub step_count : ℕ
  pub final_answer : Option String

-- A runtime without a retrieval and a memory; the skill that the selector activates is a parameter.
abbrev pub skill_only : Option (String × String) → Sources
skill_only skill = record {
  activated_skill = skill;
  retrieval = none;
  memories = [];
  namespace = "default_project";
}

abbrev gateway_limits : ℕ → Limits
gateway_limits max_steps = record {
  max_steps = max_steps;
  max_tool_retries = 3;
  max_token_budget = 1500;
}

abbrev pub gateway_answer : String
gateway_answer = "Processed via FastAPI Gateway seamlessly."

-- `runtime.run(user_input)` of the worker, on the runtime's own run id.
unfoldable pub gateway_run :
    Host (List AgentMessage) → Option (String × String) → String → String → ℕ → AgentState
unfolding fake_generate run
gateway_run host skill inner_id user_input max_steps =
    (run (with_fake_provider host) (gateway_limits max_steps) (skill_only skill) inner_id user_input
      (assistant gateway_answer ∷ [])).1

-- The `except` branches: the status of the run, if it is there.
abbrev set_status_of : RunStatus → String → Option AgentState → RunsDatabase → RunsDatabase
set_status_of status run_id none db = db
set_status_of status run_id (some state) db = insert run_id (record state { status = status }) db

-- `background_agent_worker`, when nobody cancels it; a null limit fails the comparison with it.
unfoldable pub background_agent_worker :
    Host (List AgentMessage)
    → Option (String × String)
    → String
    → String
    → String
    → Option ℕ
    → RunsDatabase
    → RunsDatabase
unfolding gateway_run
background_agent_worker host skill inner_id run_id user_input none db =
    set_status_of RunStatus.failed run_id (get run_id db) db
background_agent_worker host skill inner_id run_id user_input (some max_steps) db =
    insert run_id
      (record (gateway_run host skill inner_id user_input max_steps) { run_id = run_id }) db

-- The worker's `except asyncio.CancelledError`
unfoldable pub cancelled_worker : String → RunsDatabase → RunsDatabase
cancelled_worker run_id db = set_status_of RunStatus.cancelled run_id (get run_id db) db

abbrev pub initial_run : String → AgentState
initial_run run_id = record {
  run_id = run_id;
  messages = [];
  step_count = 0;
  status = RunStatus.running;
  steps = [];
  trace_events = [];
  final_answer = none;
  stop_reason = none;
}

-- `create_run`, before the worker that it starts
unfoldable pub create_run : String → RunsDatabase → RunSummaryResponse × RunsDatabase
create_run run_id db = (
  record { run_id = run_id; status = "running"; step_count = 0; final_answer = none },
  insert run_id (initial_run run_id) db,
)

abbrev summary_of_run : Option AgentState → Option RunSummaryResponse
summary_of_run none = none
summary_of_run (some state) = some (record {
  run_id = state.run_id;
  status = status_text state.status;
  step_count = state.step_count;
  final_answer = state.final_answer;
})

-- `get_run_status`, where `none` is the response 404
unfoldable pub get_run_status : String → RunsDatabase → Option RunSummaryResponse
get_run_status run_id db = summary_of_run (get run_id db)
