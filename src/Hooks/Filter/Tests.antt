-- ===== src/Hooks/Filter/Tests.antt =====
-- Filters of one event.
use harness_solomon.Base.{String}
use harness_solomon.Hooks.Context.{Fields, end, field, text}
use harness_solomon.Hooks.Filter.{Fired}

abbrev fired : Fired
fired = record {
  event = "PreToolUse";
  session_id = "s1";
  agent_id = "a1";
  payload = field "tool_name" (text "bash") end;
  request_id = "r1";
}

abbrev no_text : Fields → String
no_text fs = ""
