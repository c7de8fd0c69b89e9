-- ===== src/Graph/Runs.antt =====
-- Induction over the runs of the graph.
use auditable_scientific_age.Prelude.{ℕ, zero, suc, ◌+◌}
use auditable_scientific_age.Graph.Nodes.{Environment}
use auditable_scientific_age.Graph.Builder.{Config, step, run}

-- A property that every node execution keeps holds after any number of them.
pub run-keeps :
    (P : Config → Type 0)
    → ((env : Environment) (c : Config) → P c → P (step env c))
    → (n : ℕ) (envs : ℕ → Environment) (c : Config) → P c
    → P (run n envs c)
unfolding run
run-keeps P keep zero envs c h = h
run-keeps P keep (suc n) envs c h =
    run-keeps P keep n (λ k. envs (k + 1)) (step (envs 0) c) (keep (envs 0) c h)
