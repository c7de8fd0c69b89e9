-- ===== src/Runtime/Loop/Stops.antt =====
-- The loop stops, with a verdict that fits its status; and what a list of tool calls leaves.
use auditable_scientific_age.Prelude.{
  ℕ, suc, ◌+◌, ◌<◌, Bool, true, false, not, ◌&&◌, take, Option, some, List, [], ◌∷◌, length,
  length-append, ◌≡◌, refl, sym, ap, ◌∙◌, subst, arith, if◌then◌else◌, Bool-cases, inl, inr, ◌⊎◌,
}
use auditable_scientific_age.Runtime.Models.{
  ToolCall, PlannerRationale, Reason, RunStatus, AgentState,
}
use auditable_scientific_age.Runtime.Tools.{Host, Execution, execute_tool}
use auditable_scientific_age.Runtime.Tools.Retries.{IsAfterTool, execute_tool-IsAfterTool}
use auditable_scientific_age.Runtime.Calls.{
  resolve, append_call, call_received, tool_call_to_action,
}
use auditable_scientific_age.Runtime.Loop.{
  Limits, is_stopped, handle_call, handle_calls, stop_recorded,
}

-- The state as it was, or a run that failed with a non-retryable error.
abbrev pub IsSameOrFailed : AgentState → AgentState → Type 0
IsSameOrFailed s t =
    ((t.status ≡ s.status) × (t.stop_reason ≡ s.stop_reason))
    ⊎ ((t.status ≡ RunStatus.failed) × (t.stop_reason ≡ some Reason.non_retryable_error))

resolve-IsAfterTool :
    (tc : ToolCall) (e : Execution) (s t : AgentState)
    → IsAfterTool s t
    → IsAfterTool s (resolve tc e t).0
unfolding resolve
resolve-IsAfterTool tc (Execution.observed o) s t h = h
resolve-IsAfterTool tc (Execution.unknown text) s t h = record {
  step_count = h.step_count;
  messages = h.messages;
  steps = h.steps;
  verdict = inr (refl, refl);
}
resolve-IsAfterTool tc (Execution.invalid errors) s t h = record {
  step_count = h.step_count;
  messages = h.messages;
  steps = h.steps;
  verdict = h.verdict;
}
resolve-IsAfterTool tc (Execution.broken text) s t h = record {
  step_count = h.step_count;
  messages = h.messages;
  steps = h.steps;
  verdict = inr (refl, refl);
}

module _ {W : Type 0} (host : Host W) (limits : Limits) where
  -- The calls of a list answered one after the other, without a look at the status.
  pub answer_all : List ToolCall → Option PlannerRationale → W × AgentState → W × AgentState
  answer_all [] rationale p = p
  answer_all (tc ∷ tcs) rationale (w, s) =
      answer_all tcs rationale (handle_call host limits tc rationale s w)

  -- No call of the list ends the run, when they are answered one after the other.
  pub none_stops : List ToolCall → Option PlannerRationale → W × AgentState → Bool
  none_stops [] rationale p = true
  none_stops (tc ∷ tcs) rationale (w, s) =
      let r = handle_call host limits tc rationale s w in
      not (is_stopped r.1.status) && none_stops tcs rationale r

  -- All calls are answered, and none ends the run.
  pub record IsComplete (tcs : List ToolCall) (rationale : Option PlannerRationale)
      (before after : W × AgentState) (answered : ℕ) : Type 0 where
    pub all : answered ≡ length tcs
    pub goes_on : none_stops tcs rationale before ≡ true
    pub result : after ≡ answer_all tcs rationale before

  -- The last call answered is the first that ends the run, and the reason is recorded behind it.
  pub record IsCut (tcs : List ToolCall) (rationale : Option PlannerRationale)
      (before after : W × AgentState) (answered : ℕ) : Type 0 where
    pub earlier : ℕ
    pub one_more : answered ≡ suc earlier
    pub within : earlier < length tcs
    pub go_on : none_stops (take earlier tcs) rationale before ≡ true
    pub stopped : is_stopped (answer_all (take (suc earlier) tcs) rationale before).1.status ≡ true
    pub result :
        after
        ≡ let last = answer_all (take (suc earlier) tcs) rationale before in
          (last.0, stop_recorded last.1.stop_reason last.1)

  -- What the calls of one answer leave of the world and the state before them.
  pub record IsAfterCalls (tcs : List ToolCall) (rationale : Option PlannerRationale)
      (before after : W × AgentState) : Type 0 where
    pub answered : ℕ
    pub ends :
        IsComplete tcs rationale before after answered ⊎ IsCut tcs rationale before after answered
    pub step_count : after.1.step_count ≡ before.1.step_count
    pub messages : length after.1.messages ≡ length before.1.messages + answered
    pub steps : length after.1.steps ≡ length before.1.steps + answered
    pub verdict : IsSameOrFailed before.1 after.1

  handle_call-one :
      (tc : ToolCall) (rationale : Option PlannerRationale) (s : AgentState) (w : W)
      → (((handle_call host limits tc rationale s w).1.step_count ≡ s.step_count)
          × (length (handle_call host limits tc rationale s w).1.messages ≡ length s.messages + 1)
          × (length (handle_call host limits tc rationale s w).1.steps ≡ length s.steps + 1)
          × IsSameOrFailed s (handle_call host limits tc rationale s w).1)
  unfolding handle_call append_call
  handle_call-one tc rationale s w =
      let r =
        execute_tool host limits.max_tool_retries (tool_call_to_action tc rationale)
          (call_received tc s) w in
      let h = resolve-IsAfterTool tc r.2 (call_received tc s) r.1 (
        execute_tool-IsAfterTool host limits.max_tool_retries (tool_call_to_action tc rationale)
          (call_received tc s) w) in
      (
        h.step_count,
        length-append (resolve tc r.2 r.1).0.messages _ ∙ ap (λ ms. length ms + 1) h.messages,
        length-append (resolve tc r.2 r.1).0.steps _ ∙ ap (λ xs. length xs + 1) h.steps,
        h.verdict,
      )

  then_same_or_failed :
      (s t u : AgentState) → IsSameOrFailed s t → IsSameOrFailed t u → IsSameOrFailed s u
  then_same_or_failed s t u h (inr k) = inr k
  then_same_or_failed s t u (inl (a, b)) (inl (c, d)) = inl (c ∙ a, d ∙ b)
  then_same_or_failed s t u (inr (a, b)) (inl (c, d)) = inr (c ∙ a, d ∙ b)

  -- A call that goes on, before others.
  ends-cons :
      (tc : ToolCall) (tcs : List ToolCall) (rationale : Option PlannerRationale) (w : W)
      (s : AgentState) (after : W × AgentState) (n : ℕ)
      → let r = handle_call host limits tc rationale s w in
        is_stopped r.1.status ≡ false
        → IsComplete tcs rationale r after n ⊎ IsCut tcs rationale r after n
        → IsComplete (tc ∷ tcs) rationale (w, s) after (suc n)
          ⊎ IsCut (tc ∷ tcs) rationale (w, s) after (suc n)
  unfolding answer_all none_stops
  ends-cons tc tcs rationale w s after n e (inl h) =
      inl (record { all = ap suc h.all; goes_on = rw (e, h.goes_on) refl; result = h.result })
  ends-cons tc tcs rationale w s after n e (inr h) = inr (record {
    earlier = suc h.earlier;
    one_more = ap suc h.one_more;
    within = omega (arith, h.within);
    go_on = rw (e, h.go_on) refl;
    stopped = h.stopped;
    result = h.result;
  })

  -- What `handle_calls` makes of the rest, behind a call.
  abbrev behind : List ToolCall → Option PlannerRationale → W × AgentState → Bool → W × AgentState
  behind tcs rationale r stopped =
      if stopped
      then (r.0, stop_recorded r.1.stop_reason r.1)
      else handle_calls host limits tcs rationale r

  -- The tool calls of an answer add a tool message and a step each, in their order, up to the first
  -- that ends the run, the reason recorded behind it, and all of them when none does; they make no
  -- step of the loop, and the run goes on as it was or failed with a non-retryable error.
  pub handle_calls-IsAfterCalls :
      (tcs : List ToolCall) (rationale : Option PlannerRationale) (s : AgentState) (w : W)
      → IsAfterCalls tcs rationale (w, s) (handle_calls host limits tcs rationale (w, s))
  unfolding handle_calls answer_all none_stops
  handle_calls-IsAfterCalls [] rationale s w = record {
    answered = 0;
    ends = inl (record { all = refl; goes_on = refl; result = refl });
    step_count = refl;
    messages = omega arith;
    steps = omega arith;
    verdict = inl (refl, refl);
  }
  handle_calls-IsAfterCalls (tc ∷ tcs) rationale s w =
      let r = handle_call host limits tc rationale s w in
      let (count, answered, recorded, verdict) = handle_call-one tc rationale s w in
      let ih = handle_calls-IsAfterCalls tcs rationale r.1 r.0 in
      elim (Bool-cases (is_stopped r.1.status)) [
        | inl e ↦
            subst (λ b. IsAfterCalls (tc ∷ tcs) rationale (w, s) (behind tcs rationale r b)) (sym e)
              (record {
                answered = 1;
                ends = inr (record {
                  earlier = 0;
                  one_more = refl;
                  within = omega arith;
                  go_on = refl;
                  stopped = e;
                  result = refl;
                });
                step_count = count;
                messages = answered;
                steps = recorded;
                verdict = verdict;
              })
        | inr e ↦
            subst (λ b. IsAfterCalls (tc ∷ tcs) rationale (w, s) (behind tcs rationale r b)) (sym e)
              (record {
                answered = suc ih.answered;
                ends = ends-cons tc tcs rationale w s _ ih.answered e ih.ends;
                step_count = ih.step_count ∙ count;
                messages = omega (arith, answered, ih.messages);
                steps = omega (arith, recorded, ih.steps);
                verdict =
                    then_same_or_failed s r.1 (handle_calls host limits tcs rationale r).1 verdict
                      ih.verdict;
              })
      ]
