-- ===== src/Policy/Gate/Decisions.antt =====
-- What a request meets that the gate lets through.
use auditable_scientific_age.Prelude.{
  String, Bool, true, false, ◌&&◌, ◌||◌, Option, none, some, List, [], ◌∷◌, all, ◌≡◌, refl, arith,
  if◌then◌else◌, Bool-cases, inl, inr, ◌==◌,
}
use auditable_scientific_age.Prelude.Dict.{is_in, get-insert}
use auditable_scientific_age.Policy.Registry.{
  RegisteredCapability, McpCapabilityRegistry, get_capability, register_capability,
}
use auditable_scientific_age.Policy.Gate.{
  Decision, is_high, unknown_key, rejected_key, check_schema, decide, evaluate_tool_call,
}

-- Every argument is a property of the schema, when there is one.
abbrev pub fits_schema : Option (List String) → List String → Bool
fits_schema none arguments = true
fits_schema (some properties) arguments = all (λ key. is_in key properties) arguments

-- The requests that the role may make with these arguments.
abbrev pub is_permitted : Option RegisteredCapability → List String → String → Bool
is_permitted none arguments role = false
is_permitted (some cap) arguments role =
    is_in role cap.allowed_roles && fits_schema cap.input_schema arguments

abbrev pub is_gated : Option RegisteredCapability → Bool
is_gated none = false
is_gated (some cap) = is_high cap.risk_level || cap.requires_approval

unknown_key-none :
    (properties arguments : List String)
    → all (λ key. is_in key properties) arguments ≡ true
    → unknown_key properties arguments ≡ none
unfolding unknown_key
unknown_key-none properties [] h = refl
unknown_key-none properties (key ∷ arguments) h =
    ground (arith, h, unknown_key-none properties arguments)

unknown_key-some :
    (properties arguments : List String)
    → all (λ key. is_in key properties) arguments ≡ false
    → (key : String) × (unknown_key properties arguments ≡ some key)
unfolding unknown_key
unknown_key-some properties [] h = ground (arith, h)
unknown_key-some properties (key ∷ arguments) h = elim (Bool-cases (is_in key properties)) [
  | inl e ↦ rw e (unknown_key-some properties arguments (ground (arith, h, e)))
  | inr e ↦ rw e (key, refl)
]

-- The verdict that the rules of the gate ask for.
abbrev pub verdict : Bool → Bool → Decision
verdict permitted gated =
    if permitted then (if gated then Decision.route_to_hitl else Decision.allow) else Decision.deny

check_schema-verdict :
    (schema : Option (List String)) (capability : RegisteredCapability) (tool_name : String)
    (arguments : List String)
    → (check_schema (rejected_key schema arguments) capability tool_name).0
      ≡ verdict (fits_schema schema arguments) (is_gated (some capability))
unfolding check_schema rejected_key
check_schema-verdict none capability tool_name arguments = ground arith
check_schema-verdict (some properties) capability tool_name arguments =
    elim (Bool-cases (all (λ key. is_in key properties) arguments)) [
      | inl e ↦ rw (unknown_key-none properties arguments e) (rw e (ground arith))
      | inr e ↦ let (key, k) = unknown_key-some properties arguments e in rw k (rw e refl)
    ]

decide-verdict :
    (cap : Option RegisteredCapability) (tool_name : String) (arguments : List String)
    (role : String)
    → (decide cap tool_name arguments role).0
      ≡ verdict (is_permitted cap arguments role) (is_gated cap)
unfolding decide
decide-verdict none tool_name arguments role = refl
decide-verdict (some cap) tool_name arguments role =
    ground (arith, check_schema-verdict cap.input_schema cap tool_name arguments)

-- The gate denies a request exactly if its tool is not registered, its role not allowed, or one of
-- its arguments no property of the schema; it routes one that passes to a human exactly if the risk
-- is high or an approval is required; all other requests are allowed.
pub evaluate_tool_call-verdict :
    (registry : McpCapabilityRegistry) (tool_name : String) (arguments : List String)
    (role : String)
    → (evaluate_tool_call registry tool_name arguments role).0
      ≡ verdict
          (is_permitted (get_capability tool_name registry) arguments role)
          (is_gated (get_capability tool_name registry))
unfolding evaluate_tool_call
evaluate_tool_call-verdict registry tool_name arguments role =
    decide-verdict (get_capability tool_name registry) tool_name arguments role

-- Registering a capability decides the calls of its name by its own rules, and those of another
-- name as before.
register_capability-scope :
    (cap : RegisteredCapability) (registry : McpCapabilityRegistry) (tool_name : String)
    (arguments : List String) (role : String)
    → evaluate_tool_call (register_capability cap registry) tool_name arguments role ≡ (
        if cap.name == tool_name
        then decide (some cap) tool_name arguments role
        else evaluate_tool_call registry tool_name arguments role)
unfolding evaluate_tool_call register_capability get_capability
register_capability-scope cap registry tool_name arguments role =
    ground (arith, get-insert cap.name tool_name cap registry)
