-- ===== src/Tools/Writer.antt =====
-- idempotency_writer.py: the tool that commits every operation once. Its set of seen operations is a
-- list.
pub mod Once
use auditable_scientific_age.Prelude.{String, Bool, true, false, List, [], ◌∷◌, if◌then◌else◌}
use auditable_scientific_age.Prelude.Dict.{is_in}
use auditable_scientific_age.Prelude.Text.{◌<>◌}

pub record IdempotentInput : Type 0 where
  pub operation_id : String
  pub content : String

pub record IdempotentOutput : Type 0 where
  pub status : String
  pub message : String

abbrev pub skipped : String → IdempotentOutput
skipped operation_id = record {
  status = "skipped";
  message =
      "Idempotency hit: Operation '" <> operation_id
      <> "' has already been processed. Guarded against double action.";
}

abbrev pub committed_output : String → IdempotentOutput
committed_output operation_id = record {
  status = "committed";
  message = "Successfully committed data for operation: " <> operation_id;
}

-- `IdempotencyRunMarkerTool.run`
unfoldable pub run_marker : List String → IdempotentInput → List String × IdempotentOutput
run_marker seen args =
    if is_in args.operation_id seen
    then (seen, skipped args.operation_id)
    else (args.operation_id ∷ seen, committed_output args.operation_id)

-- A sequence of runs, with the operation of each output.
unfoldable pub run_markers : List String → List IdempotentInput → List (String × IdempotentOutput)
unfolding run_marker
run_markers seen [] = []
run_markers seen (args ∷ rest) =
    let r = run_marker seen args in (args.operation_id, r.1) ∷ run_markers r.0 rest
