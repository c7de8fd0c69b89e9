-- ===== src/Tests/Api.antt =====
-- A run through the gateway, between two others.
use auditable_scientific_age.Prelude.{some, List, [], ◌≡◌}
use auditable_scientific_age.Runtime.Models.{AgentMessage}
use auditable_scientific_age.Runtime.Tools.{Host, Outcome, Reply}
use auditable_scientific_age.Api.{RunsDatabase, create_run, background_agent_worker, get_run_status}
use auditable_scientific_age.Api.Worker.{background_agent_worker-get_run_status, final_summary}

abbrev gateway : Host (List AgentMessage)
gateway = record {
  tools = [];
  execute = λ w name arguments. (w, Outcome.returned "{}");
  generate = λ w messages. (w, Reply.raised "no provider");
  key_error_text = λ text. text;
  calls_text = λ calls. "calls";
  result_text = λ result. "result";
}

abbrev two_runs : RunsDatabase
two_runs = (create_run "run_2" (create_run "run_1" []).1).1

background_agent_worker-get_run_status_example :
    get_run_status "run_1" (
      background_agent_worker gateway
        (some ("arima", "Check the order."))
        "inner"
        "run_1"
        "Fit it"
        (some 5)
        two_runs)
    ≡ some (final_summary "run_1" 5)
background_agent_worker-get_run_status_example =
    background_agent_worker-get_run_status gateway (some ("arima", "Check the order.")) "inner"
      "run_1" "Fit it" 5 two_runs "run_1"
