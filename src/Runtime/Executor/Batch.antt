-- ===== src/Runtime/Executor/Batch.antt =====
-- The results of a batch against its calls.
use auditable_scientific_age.Prelude.{
  ℕ, zero, suc, String, Bool, true, false, ◌&&◌, Option, none, some, List, [], ◌∷◌, map, all, ◌==◌,
  eq_refl, ◌≡◌, refl, arith, inl, inr, Option-cases, subst, ap, ◌∙◌,
}
use auditable_scientific_age.Runtime.Models.{ToolCall, ToolResult, AgentError}
use auditable_scientific_age.Runtime.Tools.{Outcome, Host}
use auditable_scientific_age.Runtime.Executor.{
  Task, result_for, timeout_result, execute_single, settle, settle_all, gather, execute_batch,
}

-- An output or an error, as `ok` says.
abbrev is_whole : Bool → Option String → Option AgentError → Bool
is_whole true (some output) none = true
is_whole false none (some error) = true
is_whole _ _ _ = false

-- The result answers the call, with an output when it is ok and else with an error.
abbrev pub answers : ToolCall → ToolResult → Bool
answers call r =
    r.call_id == call.call_id && r.tool_name == call.tool_name && is_whole r.ok r.output r.error

-- One result for each call, in the same order.
abbrev pub all_answer : List ToolCall → List ToolResult → Bool
all_answer [] [] = true
all_answer (call ∷ calls) (r ∷ results) = answers call r && all_answer calls results
all_answer _ _ = false

abbrev is_sound : Task → Bool
is_sound (call, none) = true
is_sound (call, some r) = answers call r

abbrev calls_of : List Task → List ToolCall
calls_of [] = []
calls_of ((call, r) ∷ tasks) = call ∷ calls_of tasks

timeouts_answer :
    (batch_timeout : String) (calls : List ToolCall)
    → all_answer calls (map (timeout_result batch_timeout) calls) ≡ true
timeouts_answer batch_timeout [] = refl
timeouts_answer batch_timeout (call ∷ calls) =
    ground
      (arith, eq_refl call.call_id, eq_refl call.tool_name, timeouts_answer batch_timeout calls)

result_for-answers : (call : ToolCall) (o : Outcome) → answers call (result_for call o) ≡ true
result_for-answers call (Outcome.returned output) =
    ground (arith, eq_refl call.call_id, eq_refl call.tool_name)
result_for-answers call (Outcome.validation_error details) =
    ground (arith, eq_refl call.call_id, eq_refl call.tool_name)
result_for-answers call (Outcome.transient message) =
    ground (arith, eq_refl call.call_id, eq_refl call.tool_name)
result_for-answers call (Outcome.key_error message) =
    ground (arith, eq_refl call.call_id, eq_refl call.tool_name)
result_for-answers call (Outcome.other_error message) =
    ground (arith, eq_refl call.call_id, eq_refl call.tool_name)

module _ {W : Type 0} (host : Host W) where
  execute_single-answers :
      (o : Outcome) (call : ToolCall) → answers call (execute_single host o call) ≡ true
  unfolding execute_single
  execute_single-answers o call =
      ground (arith, eq_refl call.call_id, eq_refl call.tool_name, result_for-answers call o)

  settle-is_sound :
      (i : ℕ) (o : Outcome) (tasks : List Task)
      → all is_sound tasks ≡ true
      → (all is_sound (settle host i o tasks) ≡ true)
        × (calls_of (settle host i o tasks) ≡ calls_of tasks)
  unfolding settle
  settle-is_sound i o [] h = (refl, refl)
  settle-is_sound zero o ((call, none) ∷ tasks) h =
      (ground (arith, h, execute_single-answers o call), refl)
  settle-is_sound zero o ((call, some r) ∷ tasks) h = (h, refl)
  settle-is_sound (suc i) o ((call, r) ∷ tasks) h =
      let (sound, same) = settle-is_sound i o tasks (ground (arith, h)) in
      (ground (arith, h, sound), ap (λ calls. call ∷ calls) same)

  settle_all-is_sound :
      (ended : List (ℕ × Outcome)) (tasks : List Task)
      → all is_sound tasks ≡ true
      → (all is_sound (settle_all host ended tasks) ≡ true)
        × (calls_of (settle_all host ended tasks) ≡ calls_of tasks)
  unfolding settle_all
  settle_all-is_sound [] tasks h = (h, refl)
  settle_all-is_sound ((i, o) ∷ ended) tasks h =
      let (sound, same) = settle-is_sound i o tasks h in
      let (sounds, sames) = settle_all-is_sound ended (settle host i o tasks) sound in
      (sounds, sames ∙ same)

  fresh_tasks :
      (calls : List ToolCall)
      → (all is_sound (map (λ call. (call, none)) calls) ≡ true)
        × (calls_of (map (λ call. (call, none)) calls) ≡ calls)
  fresh_tasks [] = (refl, refl)
  fresh_tasks (call ∷ calls) =
      let (sound, same) = fresh_tasks calls in (sound, ap (λ cs. call ∷ cs) same)

gather-answers :
    (tasks : List Task) (results : List ToolResult)
    → all is_sound tasks ≡ true
    → gather tasks ≡ some results
    → all_answer (calls_of tasks) results ≡ true
unfolding gather
gather-answers [] results h done =
    let e : [] ≡ results = ground (arith, done) in subst (λ rs. all_answer [] rs ≡ true) e refl
gather-answers ((call, none) ∷ tasks) results h done = absurd (ground (arith, done))
gather-answers ((call, some r) ∷ tasks) results h done = elim (Option-cases (gather tasks)) [
  | inl stuck ↦ absurd (ground (arith, stuck, done))
  | inr (rest, rest_done) ↦
      let e : r ∷ rest ≡ results = ground (arith, rest_done, done) in
      subst (λ rs. all_answer (call ∷ calls_of tasks) rs ≡ true) e
        (ground (arith, h, gather-answers tasks rest (ground (arith, h)) rest_done))
]

-- Whatever the tools do, in whatever order the tasks end, and whether or not they end in time, a batch
-- returns one result for each call, in the calls' order and with the call's id and tool, holding an
-- output when it is ok and an error when it is not.
pub execute_batch-all_answer :
    {W : Type 0}
    → (host : Host W) (batch_timeout : String) (ended : List (ℕ × Outcome))
      (tool_calls : List ToolCall)
    → all_answer tool_calls (execute_batch host batch_timeout ended tool_calls) ≡ true
unfolding execute_batch
execute_batch-all_answer host batch_timeout ended tool_calls =
    let tasks = settle_all host ended (map (λ call. (call, none)) tool_calls) in
    let (fresh, named) = fresh_tasks host tool_calls in
    let (sound, same) =
      settle_all-is_sound host ended (map (λ call. (call, none)) tool_calls) fresh in
    elim (Option-cases (gather tasks)) [
      | inl late ↦ rw late (timeouts_answer batch_timeout tool_calls)
      | inr (results, done) ↦ rw done (
          subst (λ calls. all_answer calls results ≡ true) (same ∙ named)
            (gather-answers tasks results sound done))
    ]
