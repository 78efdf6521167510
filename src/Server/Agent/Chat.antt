-- ===== src/Server/Agent/Chat.antt =====
-- harness/server/agent/loop.py: messages, tools and what the loop needs of its surroundings.
use harness_solomon.Base.{
  ℕ, String, Bool, Option, none, some, List, [], ◌∷◌, ◌++◌, string_eq, if◌then◌else◌,
}
use harness_solomon.Base.Text.{Text, codes}
use harness_solomon.Server.Agent.Stream.{Usage, CallFunction, ToolCall, Streamed}

pub record ChatMessage : Type 0 where
  pub role : String
  pub content : Text
  pub tool_calls : List ToolCall
  pub tool_call_id : Option Text
  pub name : Option Text

-- The arguments of a tool: none, a JSON object, or another value under the key "value".
pub data Args : Type 0 where
  no_args : Args
  object : Text → Args
  value : Text → Args

-- `json.loads`, and the type of what it returns.
pub data Parsed : Type 0 where
  parsed_object : Text → Parsed
  parsed_other : Text → Parsed
  invalid : Parsed

-- ToolResult, or an exception with its text.
pub data Executed : Type 0 where
  result : Bool → Text → Text → Executed
  fails : Text → Executed

-- `router.completion`.
pub data Completed : Type 0 where
  completion : Text → List ToolCall → Option Usage → Completed
  fails : Text → Completed

-- ToolOffloader; `offload` gives no id when it fails or takes too long.
pub record Offloader : Type 0 where
  pub should_offload : Text → Bool
  pub offload : Text → Text → Option Text → Option ℕ
  pub build_stub : Text → ℕ → Text → Text

-- What the loop is made with, and what is outside.
pub record World : Type 0 where
  pub max_iterations : ℕ
  pub supports_streaming : Bool
  pub stream : List ChatMessage → Streamed
  pub complete : List ChatMessage → Completed
  pub execute : List ChatMessage → Text → Args → Executed
  pub loads : Text → Parsed
  pub offloader : Option Offloader
  pub system_prompt : Text
  pub l0_section : Text
  pub maybe_compact : List ChatMessage → List ChatMessage
  pub redact : List ChatMessage → List ChatMessage

abbrev pub message : String → Text → ChatMessage
message role content = record {
  role = role;
  content = content;
  tool_calls = [];
  tool_call_id = none;
  name = none;
}

-- `_format_tool_content`.
abbrev pub format_tool_content : Text → Text → Text
format_tool_content output [] = output
format_tool_content [] (e ∷ err) = codes "[error] " ++ e ∷ err
format_tool_content (o ∷ output) (e ∷ err) = (o ∷ output) ++ codes "\n[error] " ++ e ∷ err

abbrev pub args_of : Parsed → Args
args_of (parsed_object v) = object v
args_of (parsed_other v) = value v
args_of invalid = no_args

-- `_coerce_args` and `_coerce_args_from_router_tool_call`.
abbrev pub coerce_args : (Text → Parsed) → Option CallFunction → Args
coerce_args loads none = no_args
coerce_args loads (some f) = elim f.arguments [
  | [] ↦ no_args
  | (c ∷ raw) ↦ args_of (loads (c ∷ raw))
]

abbrev pub text_or_empty : Option Text → Text
text_or_empty none = []
text_or_empty (some s) = s

abbrev pub name_of : Option CallFunction → Text
name_of none = []
name_of (some f) = text_or_empty f.name

abbrev pub stub_or : Offloader → Text → Text → Option ℕ → Text
stub_or o content name none = content
stub_or o content name (some note_id) = o.build_stub content note_id name

-- `_maybe_offload_tool_result`.
abbrev pub maybe_offload : Option Offloader → Text → Text → Option Text → Text
maybe_offload none content name tool_call_id = content
maybe_offload (some o) content name tool_call_id =
    if o.should_offload content
    then stub_or o content name (o.offload content name tool_call_id)
    else content

abbrev pub tool_message : ToolCall → Text → ChatMessage
tool_message c content = record {
  role = "tool";
  content = content;
  tool_calls = [];
  tool_call_id = c.id;
  name = some (name_of c.function);
}
