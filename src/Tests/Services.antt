-- ===== src/Tests/Services.antt =====
-- Sample jobs and tool requests.
use auditable_scientific_age.Prelude.{true, false, none, some, [], ◌∷◌, ◌==◌, ◌≡◌, ◌≤◌, refl}
use auditable_scientific_age.Jobs.Store.{
  JobRecord, JobPayload, JobStatus, Store, new_job, submit_job, update_job_status, get_job,
  find_job,
}
use auditable_scientific_age.Jobs.Store.Idempotence.{submit_job-idempotent}
use auditable_scientific_age.Jobs.Store.Collision.{submit_job_collides}
use auditable_scientific_age.Jobs.Worker.{poll, polls, execute_job_core, Step, Steps}
use auditable_scientific_age.Jobs.Worker.Attempts.{Steps-dispatches, dispatches, is_within}
use auditable_scientific_age.Jobs.Worker.Cancelling.{
  acknowledged_cancellation_is_lost, status_of, alone,
}
use auditable_scientific_age.Jobs.Worker.Failing.{failing_job_ends, work, ahead_of, failed_at_last}
use auditable_scientific_age.Policy.Registry.{
  RegisteredCapability, RiskLevel, register_capability, McpCapabilityRegistry, get_capability,
}
use auditable_scientific_age.Policy.Gate.{evaluate_tool_call, Decision}
use auditable_scientific_age.Policy.Gate.Decisions.{evaluate_tool_call-verdict}

abbrev calm : JobPayload
calm = record { force_fail = false }

abbrev failing : JobPayload
failing = record { force_fail = true }

submit_job-idempotent_example :
    submit_job 1002 "forecast" "k1" failing (submit_job 1001 "arima" "k1" calm []).1
    ≡ submit_job 1001 "arima" "k1" calm []
submit_job-idempotent_example =
    submit_job-idempotent 1001 1002 "arima" "forecast" "k1" calm failing []

submit_job_collides_example :
    let second = submit_job 1001 "ets" "k2" failing (submit_job 1001 "arima" "k1" calm []).1 in
    (get_job (submit_job 1001 "arima" "k1" calm []).0.job_id second.1 ≡ some second.0)
    × (find_job (λ job. job.idempotency_key == "k1") second.1 ≡ none)
submit_job_collides_example = submit_job_collides 1001 "arima" "ets" "k1" "k2" calm failing refl

abbrev submitted : Store
submitted = (submit_job 1001 "arima" "k1" failing []).1

-- The job of `submitted`, once claimed.
abbrev claimed_once : JobRecord
claimed_once = record (new_job "job_async_1001" "arima" "k1" failing) {
  status = JobStatus.running;
  attempt_count = 1;
}

Steps-dispatches_example :
    (1 ≡ dispatches "job_async_1001" (poll submitted).1)
    × (dispatches "job_async_1001" (poll submitted).1 ≤ 3)
    × (is_within claimed_once ≡ true)
unfolding poll submit_job get_job
Steps-dispatches_example =
    Steps-dispatches (poll submitted).0 (poll submitted).1 "job_async_1001" claimed_once
      (Steps.more [] submitted (poll submitted).0 [] (poll submitted).1
        (Steps.more [] [] submitted [] [] (Steps.start [])
          (Step.submitted 1001 "arima" "k1" failing [] refl))
        (Step.polled submitted))
      refl

abbrev computing : JobRecord
computing = record (new_job "j2" "arima" "k1" calm) {
  status = JobStatus.running;
  attempt_count = 1;
}

acknowledged_cancellation_is_lost_example :
    (status_of "j2"
        (poll (update_job_status "j2" JobStatus.cancel_requested none none (alone computing))).0
      ≡ some JobStatus.cancelled)
    × (status_of "j2" (
          execute_job_core "j2"
            (poll
              (update_job_status "j2" JobStatus.cancel_requested none none (alone computing))).0)
        ≡ some JobStatus.succeeded)
acknowledged_cancellation_is_lost_example = acknowledged_cancellation_is_lost computing refl

abbrev doomed : JobRecord
doomed = new_job "j1" "arima" "k1" failing

failing_job_ends_example :
    (work (2 ∷ 0 ∷ 1 ∷ []) (ahead_of (alone computing) doomed)
      ≡ (ahead_of (alone computing) (failed_at_last doomed), "j1" ∷ "j1" ∷ "j1" ∷ []))
    × Steps
        (ahead_of (alone computing) doomed)
        ("j1" ∷ "j1" ∷ "j1" ∷ [])
        (ahead_of (alone computing) (failed_at_last doomed))
    × (polls 5 (ahead_of (alone computing) (failed_at_last doomed))
        ≡ (ahead_of (alone computing) (failed_at_last doomed), []))
unfolding find_job
failing_job_ends_example =
    failing_job_ends (alone computing) refl refl 2 5 (0 ∷ 1 ∷ []) doomed refl refl refl

abbrev delete_file : RegisteredCapability
delete_file = record {
  name = "delete_file";
  input_schema = some ("path" ∷ []);
  risk_level = RiskLevel.high;
  requires_approval = false;
  allowed_roles = "admin" ∷ [];
}

abbrev capabilities : McpCapabilityRegistry
capabilities = register_capability delete_file []

evaluate_tool_call-verdict_example :
    (evaluate_tool_call capabilities "delete_file" ("path" ∷ []) "admin").0 ≡ Decision.route_to_hitl
unfolding register_capability get_capability
evaluate_tool_call-verdict_example =
    evaluate_tool_call-verdict capabilities "delete_file" ("path" ∷ []) "admin"
