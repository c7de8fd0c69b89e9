-- ===== src/Runtime/Loop/Ends.antt =====
-- The whole run stops, by a verdict that fits, within `max_steps` answers of the provider.
use auditable_scientific_age.Prelude.{
  ℕ, zero, suc, ◌+◌, ◌≤◌, ◌<◌, ◌==◌, String, Bool, true, false, Option, none, some, List, [], ◌∷◌,
  ◌≡◌, refl, sym, ap, ◌∙◌, subst, arith, leb, Bool-cases, inl, inr, ◌⊎◌,
}
use auditable_scientific_age.Context.Models.{ContextItem, ContextBundle, ContextBudgetReport}
use auditable_scientific_age.Context.Assembler.{assemble}
use auditable_scientific_age.Runtime.Models.{
  ToolCall, PlannerRationale, AgentMessage, Reason, RunStatus, AgentState,
}
use auditable_scientific_age.Runtime.Tools.{Host, Reply}
use auditable_scientific_age.Runtime.Prompt.{
  Sources, dynamic_items, context_bundle_to_message, pre_context_items, pre_context_events,
  skill_event, retrieval_event,
}
use auditable_scientific_age.Runtime.Loop.{
  Limits, is_running, requested, responded, rationale_recorded, receive, act, handle_calls, exceed,
  iterate, loop, started, run,
}
use auditable_scientific_age.Runtime.Loop.Stops.{IsSameOrFailed, handle_calls-IsAfterCalls}

-- The stop reasons that fit a status.
abbrev pub agrees : RunStatus → Option Reason → Bool
agrees RunStatus.running none = true
agrees RunStatus.completed (some Reason.final_answer) = true
agrees RunStatus.max_steps_exceeded (some Reason.max_steps_exceeded) = true
agrees RunStatus.failed (some Reason.non_retryable_error) = true
agrees RunStatus.failed (some Reason.provider_failed) = true
agrees _ _ = false

-- One iteration makes a step or stops.
record IsProgress (s t : AgentState) : Type 0 where
  verdict : agrees t.status t.stop_reason ≡ true
  bounded : t.step_count ≤ s.step_count + 1
  moved : (is_running t.status ≡ false) ⊎ (t.step_count ≡ s.step_count + 1)

IsSameOrFailed-agrees :
    (s t : AgentState)
    → agrees s.status s.stop_reason ≡ true
    → IsSameOrFailed s t
    → agrees t.status t.stop_reason ≡ true
IsSameOrFailed-agrees s t h (inl (a, b)) =
    subst (λ x. agrees x t.stop_reason ≡ true) (sym a)
      (subst (λ y. agrees s.status y ≡ true) (sym b) h)
IsSameOrFailed-agrees s t h (inr (a, b)) =
    subst (λ x. agrees x t.stop_reason ≡ true) (sym a)
      (subst (λ y. agrees RunStatus.failed y ≡ true) (sym b) refl)

-- The parts that the tests of the loop read.
record IsLike (s t : AgentState) : Type 0 where
  step_count : t.step_count ≡ s.step_count
  status : t.status ≡ s.status
  stop_reason : t.stop_reason ≡ s.stop_reason

abbrev like : (s : AgentState) → IsLike s s
like s = record { step_count = refl; status = refl; stop_reason = refl }

rationale_recorded-IsLike :
    (o : Option PlannerRationale) (s : AgentState) → IsLike s (rationale_recorded o s)
rationale_recorded-IsLike none s = like s
rationale_recorded-IsLike (some r) s = record {
  step_count = refl;
  status = refl;
  stop_reason = refl;
}

requested-IsLike :
    (bundle : ContextBundle) (report : ContextBudgetReport) (s : AgentState)
    → IsLike s (requested bundle report s)
unfolding requested
requested-IsLike bundle report s = elim (Bool-cases report.lost_in_middle_warning) [
  | inl e ↦ rw e record { step_count = refl; status = refl; stop_reason = refl }
  | inr e ↦ rw e record { step_count = refl; status = refl; stop_reason = refl }
]

module _ {W : Type 0} (host : Host W) (limits : Limits) where
  act-IsProgress :
      (msg : AgentMessage) (calls : Option (List ToolCall)) (s t : AgentState) (w : W)
      → agrees t.status t.stop_reason ≡ true
      → t.step_count ≡ s.step_count + 1
      → IsProgress s (act host limits msg calls (w, t)).1
  unfolding act
  act-IsProgress msg none s t w a c = record {
    verdict = refl;
    bounded = omega (arith, c);
    moved = inr c;
  }
  act-IsProgress msg (some []) s t w a c = record {
    verdict = refl;
    bounded = omega (arith, c);
    moved = inr c;
  }
  act-IsProgress msg (some (tc ∷ tcs)) s t w a c =
      let h = handle_calls-IsAfterCalls host limits (tc ∷ tcs) msg.rationale t w in
      record {
        verdict =
            IsSameOrFailed-agrees t (handle_calls host limits (tc ∷ tcs) msg.rationale (w, t)).1 a
              h.verdict;
        bounded = omega (arith, h.step_count, c);
        moved = inr (h.step_count ∙ c);
      }

  receive-IsProgress :
      (reply : Reply) (s t : AgentState) (w : W)
      → agrees s.status s.stop_reason ≡ true
      → IsLike s t
      → IsProgress s (receive host limits reply t w).1
  unfolding receive responded
  receive-IsProgress (Reply.raised text) s t w a l = record {
    verdict = refl;
    bounded = omega (arith, l.step_count);
    moved = inl refl;
  }
  receive-IsProgress (Reply.answered msg) s t w a l =
      let h = rationale_recorded-IsLike msg.rationale _ in
      act-IsProgress msg msg.tool_calls s (responded msg t) w
        (IsSameOrFailed-agrees s (responded msg t) a
          (inl (h.status ∙ l.status, h.stop_reason ∙ l.stop_reason)))
        (h.step_count ∙ ap (λ n. n + 1) l.step_count)

  iterate-IsProgress :
      (pre : List ContextItem) (s : AgentState) (w : W)
      → agrees s.status s.stop_reason ≡ true
      → leb limits.max_steps s.step_count ≡ false
      → IsProgress s (iterate host limits pre s w).1
  unfolding iterate
  iterate-IsProgress pre s w a e =
      let assembled = assemble limits.max_token_budget (dynamic_items host pre s.messages) in
      let reply = host.generate w (context_bundle_to_message assembled.0 ∷ s.messages) in
      rw e (
        receive-IsProgress reply.1 s (requested assembled.0 assembled.1 s) reply.0 a
          (requested-IsLike assembled.0 assembled.1 s))

  iterate-exceed :
      (pre : List ContextItem) (s : AgentState) (w : W)
      → leb limits.max_steps s.step_count ≡ true
      → iterate host limits pre s w ≡ (w, exceed limits.max_steps s)
  unfolding iterate
  iterate-exceed pre s w e = rw e refl

  -- The state where the run stands, with enough fuel for the rest.
  record IsOnCourse (fuel : ℕ) (s : AgentState) : Type 0 where
    verdict : agrees s.status s.stop_reason ≡ true
    bounded : s.step_count ≤ limits.max_steps
    enough : (is_running s.status ≡ false) ⊎ (limits.max_steps < s.step_count + fuel)

  iterate-IsOnCourse :
      (fuel : ℕ) (pre : List ContextItem) (s : AgentState) (w : W)
      → IsOnCourse (suc fuel) s
      → is_running s.status ≡ true
      → IsOnCourse fuel (iterate host limits pre s w).1
  unfolding exceed
  iterate-IsOnCourse fuel pre s w h r = elim (Bool-cases (leb limits.max_steps s.step_count)) [
    | inl e ↦
        subst (λ x. IsOnCourse fuel x.1) (sym (iterate-exceed pre s w e))
          (record { verdict = refl; bounded = h.bounded; enough = inl refl })
    | inr e ↦
        let p = iterate-IsProgress pre s w h.verdict e in
        record {
          verdict = p.verdict;
          bounded = ground (arith, e, p.bounded);
          enough = ground (arith, r, p.moved, h.enough);
        }
  ]

  loop-IsOnCourse :
      (fuel : ℕ) (pre : List ContextItem) (s : AgentState) (w : W)
      → IsOnCourse fuel s
      → (is_running (loop host limits fuel pre (w, s)).1.status ≡ false)
        × IsOnCourse 0 (loop host limits fuel pre (w, s)).1
  unfolding loop
  loop-IsOnCourse zero pre s w h = (ground (arith, h.enough, h.bounded), h)
  loop-IsOnCourse (suc fuel) pre s w h = elim (Bool-cases (is_running s.status)) [
    | inl e ↦ rw e (
        loop-IsOnCourse fuel pre (iterate host limits pre s w).1 (iterate host limits pre s w).0
          (iterate-IsOnCourse fuel pre s w h e))
    | inr e ↦ rw e (e, record { verdict = h.verdict; bounded = h.bounded; enough = inl e })
  ]

  skill_event-IsLike : (o : Option (String × String)) (s : AgentState) → IsLike s (skill_event o s)
  unfolding skill_event
  skill_event-IsLike none s = like s
  skill_event-IsLike (some (n, i)) s = record {
    step_count = refl;
    status = refl;
    stop_reason = refl;
  }

  retrieval_event-IsLike :
      (o : Option (String × List String)) (s : AgentState) → IsLike s (retrieval_event o s)
  unfolding retrieval_event
  retrieval_event-IsLike none s = like s
  retrieval_event-IsLike (some (t, c)) s = elim (Bool-cases (t == "insufficient_evidence")) [
    | inl e ↦ rw e record { step_count = refl; status = refl; stop_reason = refl }
    | inr e ↦ rw e record { step_count = refl; status = refl; stop_reason = refl }
  ]

  -- Whatever the provider and the tools do, the run stops: its status is no more `running`, its stop
  -- reason is the one that fits the status, and it made at most `max_steps` steps.
  pub run_stops :
      (sources : Sources) (run_id user_input : String) (w : W)
      → ((is_running (run host limits sources run_id user_input w).1.status ≡ false)
          × (agrees
                (run host limits sources run_id user_input w).1.status
                (run host limits sources run_id user_input w).1.stop_reason
              ≡ true)
          × ((run host limits sources run_id user_input w).1.step_count ≤ limits.max_steps))
  unfolding run pre_context_events
  run_stops sources run_id user_input w =
      let s0 = started run_id user_input in
      let a = skill_event-IsLike sources.activated_skill s0 in
      let b = retrieval_event-IsLike sources.retrieval (skill_event sources.activated_skill s0) in
      let s1 = pre_context_events sources s0 in
      let (done, h) =
        loop-IsOnCourse (limits.max_steps + 1) (pre_context_items sources) s1 w (record {
          verdict =
              IsSameOrFailed-agrees s0 s1 refl
                (inl (b.status ∙ a.status, b.stop_reason ∙ a.stop_reason));
          bounded = omega (arith, a.step_count, b.step_count);
          enough = inr (omega (arith, a.step_count, b.step_count));
        }) in
      (done, h.verdict, h.bounded)
