-- ===== src/Tests/Tools.antt =====
-- Four runs of the writer on two operations.
use auditable_scientific_age.Prelude.{String, List, [], ◌∷◌, ◌≡◌}
use auditable_scientific_age.Tools.Writer.{IdempotentInput, run_markers}
use auditable_scientific_age.Tools.Writer.Once.{run_markers-commits, commits}

abbrev marker : String → IdempotentInput
marker operation_id = record { operation_id = operation_id; content = "done" }

abbrev markers : List IdempotentInput
markers = marker "op_1" ∷ marker "op_2" ∷ marker "op_1" ∷ marker "op_1" ∷ []

run_markers-commits_example : commits "op_1" (run_markers [] markers) ≡ 1
run_markers-commits_example = run_markers-commits "op_1" markers
