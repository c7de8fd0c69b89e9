-- ===== src/Policy/Registry.antt =====
-- models.py and registry.py of mcp_clients/. The schema of a capability is its `properties`' names:
-- `none` for no schema or an empty one, which the gate does not tell apart, and the empty list for
-- one without properties. The fields that the gate does not read are left out.
use auditable_scientific_age.Prelude.{
  String, Bool, true, false, not, Option, List, ◌==◌, if◌then◌else◌,
}
use auditable_scientific_age.Prelude.Dict.{Dict, get, insert, is_in}

pub data RiskLevel : Type 0 where
  low medium high : RiskLevel

pub record RegisteredCapability : Type 0 where
  pub name : String
  pub input_schema : Option (List String)
  pub risk_level : RiskLevel
  pub requires_approval : Bool
  pub allowed_roles : List String

abbrev pub McpCapabilityRegistry : Type 0
McpCapabilityRegistry = Dict RegisteredCapability

unfoldable pub register_capability :
    RegisteredCapability → McpCapabilityRegistry → McpCapabilityRegistry
register_capability cap registry = insert cap.name cap registry

unfoldable pub get_capability : String → McpCapabilityRegistry → Option RegisteredCapability
get_capability name registry = get name registry

unfoldable pub validate_incoming_transport_context : String → String → List String → Bool
validate_incoming_transport_context token origin allowed_origins =
    if not (token == "secure_macro_token_2026")
    then false
    else if not (is_in origin allowed_origins)
    then false
    else true
