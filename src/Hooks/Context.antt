-- ===== src/Hooks/Context.antt =====
-- harness/hooks/context.py and events.py: events, payloads, contexts and decisions. Timestamps and
-- durations, which no decision reads, are left out.
use harness_solomon.Base.{
  ℕ, ◌+◌, String, Bool, true, false, not, Option, none, some, List, [], ◌∷◌, ◌++◌, ◌==◌, HasEq,
  string_eq, if◌then◌else◌, eq_of_discrete,
}

pub data EventType : Type 0 where
  pre_tool_use post_tool_use stop subagent_start subagent_stop session_start : EventType
  session_end user_prompt_submit pre_compact instructions_loaded permission_request : EventType
  elicitation notification on_memory_write on_routing_decision on_compaction : EventType

pub EventType-discrete : Discrete EventType
EventType-discrete = hlevel

instance abbrev pub event_eq : HasEq EventType
event_eq = eq_of_discrete EventType-discrete

-- The wire name, `EventType.value`.
unfoldable pub value : EventType → String
value pre_tool_use = "PreToolUse"
value post_tool_use = "PostToolUse"
value stop = "Stop"
value subagent_start = "SubagentStart"
value subagent_stop = "SubagentStop"
value session_start = "SessionStart"
value session_end = "SessionEnd"
value user_prompt_submit = "UserPromptSubmit"
value pre_compact = "PreCompact"
value instructions_loaded = "InstructionsLoaded"
value permission_request = "PermissionRequest"
value elicitation = "Elicitation"
value notification = "Notification"
value on_memory_write = "OnMemoryWrite"
value on_routing_decision = "OnRoutingDecision"
value on_compaction = "OnCompaction"

abbrev pub all_events : List EventType
all_events =
    pre_tool_use ∷ post_tool_use ∷ stop ∷ subagent_start ∷ subagent_stop ∷ session_start
    ∷ session_end ∷ user_prompt_submit ∷ pre_compact ∷ instructions_loaded ∷ permission_request
    ∷ elicitation ∷ notification ∷ on_memory_write ∷ on_routing_decision ∷ on_compaction ∷ []

find_event : String → List EventType → Option EventType
unfolding value
find_event s [] = none
find_event s (e ∷ es) = if value e == s then some e else find_event s es

-- `EventType(s)`, which raises ValueError for an unknown name.
unfoldable pub event_of : String → Option EventType
unfolding find_event
event_of s = find_event s all_events

-- A JSON value as the hooks see it. A value that is no text, dict or None is carried by its `str`.
mutual
  pub data Value : Type 0 where
    null : Value
    text : String → Value
    other : String → Value
    obj : Fields → Value

  pub data Fields : Type 0 where
    end : Fields
    field : String → Value → Fields → Fields

pub record HookContext : Type 0 where
  pub event : String
  pub session_id : String
  pub agent_id : String
  pub payload : Fields
  pub request_id : String
  pub recursion_depth : ℕ
  pub event_stack : List String

unfoldable pub with_payload : HookContext → Fields → HookContext
with_payload c new_payload = record c { payload = new_payload }

unfoldable pub with_event : HookContext → String → HookContext
with_event c event = record c {
  event = event;
  event_stack = c.event_stack ++ c.event ∷ [];
  recursion_depth = c.recursion_depth + 1;
}

pub data Decision : Type 0 where
  allow block modify : Decision

-- The `error` text of a decision, by the f-string that makes it.
pub data HookError : Type 0 where
  no_error rate_limited circuit_circuit_open circuit_half_open no_callable no_router : HookError
  wrong_type raised reported : String → HookError
  timeout_after : ℕ → HookError

-- `bool(d.error)`.
abbrev pub has_error : HookError → Bool
has_error no_error = false
has_error (reported s) = not (s == "")
has_error _ = true

-- `payload` is `output.get("payload")`.
pub record HookDecision : Type 0 where
  pub decision : Decision
  pub hook_id : String
  pub payload : Option Fields
  pub error : HookError

pub record HookAggregate : Type 0 where
  pub final_decision : Decision
  pub decisions : List HookDecision
  pub final_payload : Fields
  pub blocked_by : String
