-- ===== src/Lib.antt =====
-- A model of the auditable scientific agent kernel, and the theorems that say what it does.
--
-- The program (src/agent_runtime/) has two ways to run. The macro graph (graph/) takes a research
-- query through five nodes: a typed model specification is generated, validated, compiled, executed
-- and, within a budget of two, repaired, before a report is written. The agent runtime (runtime/)
-- asks a provider in a loop and executes the tools that it names, on a context that the assembler
-- (context/) cuts to a token budget. Beside them stand the store of long-running jobs with its worker
-- (jobs/), the policy gate of the MCP tools (mcp_clients/), the client of a tool server (mcp/), the
-- long-term memory (memory/), the retrieval of evidence (retrieval/), the tools (tools/), the
-- evaluation of trials (evals/) and the HTTP routes (api.py).
--
-- Scientific: scientific/. Modelspec holds the types of modelspec.py; Parser `ModelSpecParser` with
-- the schema's checks; Validators and StaticAnalysis the two validators; Compiler `compile_plan`;
-- Executor `execute_plan_step` with its registry of handlers; Repairs `attempt_auto_repair`.
-- Graph: graph/. State, Reducers, Nodes and Edges are the files of those names; Builder is the
-- topology of builder.py, with `step` for the execution of one node, `run` for so many of them, and
-- `run_workflow` of service.py, an invocation on what the checkpointer has saved of the thread, with
-- `IsSaved` for what that may be. A node returns an update, which `apply_update` merges as the
-- reducers say; `none` is an exception. The clock and the random plan ids come from an environment.
-- Context: context/. Models, Budget, Dedup, Pruner and Assembler are the files of those names.
-- Runtime: runtime/loop.py, runtime/steps.py, runtime/state.py, models.py, errors.py, tracing.py and
-- tools/registry.py. Tools is `_execute_tool`, Prompt the context of a run, Calls one
-- tool call in it, Loop `run`. The provider
-- and the tools are the fields of `Host`, over a world of their own that the loop passes on; what the
-- skill selector, the retrieval and the memory answer is the record `Sources`. Executor is
-- `AsyncToolExecutor` of runtime/async_executor.py: the results of a batch by the tasks that end
-- before its timeout, in any order.
-- Policy: mcp_clients/. Registry is the registry, Gate `evaluate_tool_call`.
-- Jobs: jobs/. Store is `SQLiteJobStore`, Worker the worker; what runs between two awaits is one step
-- of the relation `Step`, which names the tasks that it dispatches; `polls` is so many rounds of the
-- loop.
-- Evals: evals/. Graders has the trajectory, policy and efficiency graders, Trials the results of
-- models.py, Regression `RegressionReporter`, Harness `EvalHarness` with the failure episodes, Skills
-- `SkillsRegressionGuard` and `ReflexionOptimizer`, Stream the trial of `run_single_trial_async` with
-- the four graders. Runner is the semaphore of runner.py and the
-- trials behind it, as steps of the relation `Step`.
-- Memory: memory/. Models has the records of models.py, Store the statements of `SQLiteMemoryStore`
-- on its table, Policy `inspect_and_commit`, Condenser `condense`, Working the working memory.
-- Mcp: mcp/. Client is the client of client.py with its callers and its reader, as steps; Bridge what
-- the bridge makes of a result.
-- Retrieval: retrieval/. Chunker is chunker.py; Fusion is what hybrid.py, reranker.py, citations.py and
-- pipeline.py make of the hits of the two retrievers, over a record `Scores` for the floats.
-- Skills: skills/selector.py, on the hits of its two searches.
-- Tools: tools/. Registry is registry.py with `BaseTool.execute`, Writer idempotency_writer.py.
-- Api: api.py and providers/fake_provider.py: the store of runs and `background_agent_worker`, which
-- runs the runtime of Runtime.
-- Prelude has the shared names, Tests the runs on concrete inputs.
--
-- Bounds. `run` of the graph counts node executions: nine reach END for every query on a new
-- thread. `loop` of the runtime has `max_steps + 1` as fuel, since an iteration makes a step or
-- stops; the retry loop is structural in the attempts left. The chunker's loop has the length of
-- the document as fuel, since a chunk goes on by at least one character. Numbers are unbounded, as
-- Python's.
--
-- Not modelled: the checkpointer's database and the resumption of a graph (the graph library's),
-- the retrievers of retrieval/ (on floats) with their tokenizer, the loader of skills/, the
-- dataset files and the JSON of the event stream of evals/, the other tools of tools/ (floats,
-- files and processes), the settings of config.py. Ratios are kept unrounded, or their rounding is
-- a parameter; times that nothing reads are left out, and dicts that the code hands on unread are
-- their printed form.
pub mod Prelude
pub mod Scientific
pub mod Graph
pub mod Context
pub mod Runtime
pub mod Policy
pub mod Jobs
pub mod Evals
pub mod Memory
pub mod Skills
pub mod Tools
pub mod Api
pub mod Mcp
pub mod Retrieval
mod Tests
