-- ===== src/Mcp/Bridge.antt =====
-- bridge.py of mcp/: what the local callable makes of a server's result.
use auditable_scientific_age.Prelude.{
  String, Bool, false, not, Option, none, some, List, [], ◌∷◌, if◌then◌else◌, ◌==◌,
}

-- An item of the content list; a missing text is an empty one.
pub record ContentItem : Type 0 where
  pub type_name : Option String
  pub text : Option String

-- The key "result" of a response.
pub record McpResult : Type 0 where
  pub content : List ContentItem
  pub has_error : Bool

pub record NativeOutput : Type 0 where
  pub tool_name : String
  pub raw_output : String
  pub is_success : Bool

abbrev text_or_empty : Option String → String
text_or_empty none = ""
text_or_empty (some text) = text

abbrev is_text : Option String → Bool
is_text none = false
is_text (some t) = t == "text"

unfoldable pub text_output : List ContentItem → String
text_output [] = ""
text_output (item ∷ items) = if is_text item.type_name then text_or_empty item.text else ""

-- `native_async_wrapper`, after the call
unfoldable pub native_output : String → McpResult → NativeOutput
unfolding text_output
native_output tool_name mcp_result = record {
  tool_name = tool_name;
  raw_output = text_output mcp_result.content;
  is_success = not mcp_result.has_error;
}
