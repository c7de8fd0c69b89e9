-- ===== src/Policy/Gate.antt =====
-- policy.py of mcp_clients/: `evaluate_tool_call`, which reads the names of the arguments only.
pub mod Decisions
use auditable_scientific_age.Prelude.{
  String, Bool, true, false, not, ◌||◌, Option, none, some, List, [], ◌∷◌, if◌then◌else◌,
}
use auditable_scientific_age.Prelude.Dict.{is_in}
use auditable_scientific_age.Prelude.Text.{◌<>◌}
use auditable_scientific_age.Policy.Registry.{
  RiskLevel, RegisteredCapability, McpCapabilityRegistry, get_capability,
}

pub data Decision : Type 0 where
  allow deny route_to_hitl : Decision

abbrev pub is_high : RiskLevel → Bool
is_high RiskLevel.high = true
is_high _ = false

-- The first argument that is no property of the schema.
unfoldable pub unknown_key : List String → List String → Option String
unknown_key properties [] = none
unknown_key properties (key ∷ arguments) =
    if is_in key properties then unknown_key properties arguments else some key

-- The same for a capability, whose schema may be missing.
unfoldable pub rejected_key : Option (List String) → List String → Option String
unfolding unknown_key
rejected_key none arguments = none
rejected_key (some properties) arguments = unknown_key properties arguments

-- The last guard.
abbrev pub guard_risk : RegisteredCapability → String → Decision × String
guard_risk cap tool_name =
    if is_high cap.risk_level || cap.requires_approval
    then (
      Decision.route_to_hitl,
      "HITL Guard Engaged: '" <> tool_name
          <> "' exhibits high-risk status. Control routed to human approval lock.",
    )
    else (Decision.allow, "Verification passed.")

unfoldable pub check_schema : Option String → RegisteredCapability → String → Decision × String
check_schema none cap tool_name = guard_risk cap tool_name
check_schema (some key) cap tool_name =
    (Decision.deny, "Schema Error: Malicious or invalid argument key '" <> key <> "' detected.")

unfoldable pub decide :
    Option RegisteredCapability → String → List String → String → Decision × String
unfolding check_schema rejected_key
decide none tool_name arguments current_user_role = (
  Decision.deny,
  "Security Violation: Capability '" <> tool_name <> "' is not registered in the host.",
)
decide (some cap) tool_name arguments current_user_role =
    if not (is_in current_user_role cap.allowed_roles)
    then (
      Decision.deny,
      "Access Denied: Role '" <> current_user_role <> "' has insufficient privileges for '"
          <> tool_name <> "'.",
    )
    else check_schema (rejected_key cap.input_schema arguments) cap tool_name

unfoldable pub evaluate_tool_call :
    McpCapabilityRegistry → String → List String → String → Decision × String
unfolding decide get_capability
evaluate_tool_call registry tool_name arguments current_user_role =
    decide (get_capability tool_name registry) tool_name arguments current_user_role
