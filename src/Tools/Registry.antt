-- ===== src/Tools/Registry.antt =====
-- registry.py and base.py of tools/. A tool validates its arguments, runs and dumps its output; what its
-- models do is a parameter of the tool. `none` is a KeyError.
use auditable_scientific_age.Prelude.{String, Option, none, some, List, [], ◌∷◌, if◌then◌else◌}
use auditable_scientific_age.Prelude.Dict.{Dict, get, has, insert}
use auditable_scientific_age.Runtime.Tools.{Outcome}

-- A tool over a type of validated inputs and one of outputs, and a state of its own.
pub record BaseTool : Type 1 where
  pub Input : Type 0
  pub Output : Type 0
  pub Memory : Type 0
  pub name : String
  pub description : String
  -- the errors, or the input
  pub model_validate : String → List String × Option Input
  pub run : Memory → Input → Memory × Output
  pub model_dump : Output → String
  pub json_schema : String

abbrev executed :
    (tool : BaseTool) → tool.Memory → List String × Option tool.Input → tool.Memory × Outcome
executed tool memory (errors, none) = (memory, Outcome.validation_error errors)
executed tool memory (errors, some input) =
    let r = tool.run memory input in (r.0, Outcome.returned (tool.model_dump r.1))

-- `BaseTool.execute`, where the run raises no exception
unfoldable pub execute : (tool : BaseTool) → tool.Memory → String → tool.Memory × Outcome
execute tool memory arguments = executed tool memory (tool.model_validate arguments)

abbrev pub ToolRegistry : Type 1
ToolRegistry = Dict BaseTool

unfoldable pub register : BaseTool → ToolRegistry → Option ToolRegistry
register tool tools = if has tool.name tools then none else some (insert tool.name tool tools)

unfoldable pub get_tool : String → ToolRegistry → Option BaseTool
get_tool name tools = get name tools

-- A schema's name, description and parameters.
unfoldable pub list_schemas : ToolRegistry → List (String × String × String)
list_schemas [] = []
list_schemas ((key, tool) ∷ tools) =
    (tool.name, tool.description, tool.json_schema) ∷ list_schemas tools
