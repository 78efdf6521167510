-- ===== src/Server/Agent/Loop.antt =====
-- harness/server/agent/loop.py: AgentLoop.run. What the model and the tools answer is a function of the
-- conversation so far; compaction, redaction, the prompt and the JSON parser are arguments. The Stop hook,
-- the log and the events collected for reflection do not change what the loop does and are left out.
use harness_solomon.Base.{
  ℕ, zero, suc, Bool, false, Option, none, some, List, [], ◌∷◌, ◌++◌, ◌==◌, string_eq, ◌&&◌,
  if◌then◌else◌,
}
use harness_solomon.Base.Text.{Text, codes}
use harness_solomon.Server.Agent.Stream.{
  Usage, ToolCall, RouterEvent, router_token, router_done, router_error, newer_usage,
  streaming_completion,
}
use harness_solomon.Server.Agent.Chat.{
  ChatMessage, Args, Executed, result, Completed, completion, fails, World, message,
  format_tool_content, coerce_args, name_of, maybe_offload, tool_message,
}

pub data AgentEvent : Type 0 where
  token : Text → AgentEvent
  assistant_message : Text → Option Usage → AgentEvent
  tool_result : Text → Option Text → Text → Args → Bool → AgentEvent
  error : Text → AgentEvent
  done : AgentEvent

-- How the loop ends: without more tool calls, at the cap, by an exception, or by an error of the stream.
pub data End : Type 0 where
  finished : End
  capped : End
  failed : Text → End
  aborted : End

pub record Progress : Type 0 where
  pub events : List AgentEvent
  pub messages : List ChatMessage
  pub end : End

-- What the model answers.
pub data Asked : Type 0 where
  replied : Text → List ToolCall → Option Usage → Asked
  stream_error : Text → Asked
  raises : Text → Asked

-- `_extract_tool_calls_from_stream_done`.
abbrev pub one_call : Option ToolCall → List ToolCall
one_call none = []
one_call (some c) = c ∷ []

-- The `async for` over the events of the router, with what it has gathered.
unfoldable pub consume :
    Text → List ToolCall → Option Usage → List RouterEvent → List AgentEvent × Asked
consume content calls usage [] = ([], replied content calls usage)
consume content calls usage (router_token t ∷ events) =
    let (out, asked) = consume (content ++ t) calls usage events in (token t ∷ out, asked)
consume content calls usage (router_done text call u ∷ events) =
    consume content (one_call call) (newer_usage u usage) events
consume content calls usage (router_error e ∷ events) = (error e ∷ [], stream_error e)

abbrev pub asked_of : Completed → Asked
asked_of (completion content calls usage) = replied content calls usage
asked_of (fails e) = raises e

-- One call of the model.
unfoldable pub ask : World → Bool → List ChatMessage → List AgentEvent × Asked
unfolding consume streaming_completion
ask w use_streaming ms =
    if use_streaming
    then consume [] [] none (streaming_completion (w.stream ms))
    else ([], asked_of (w.complete ms))

abbrev pub assistant_turn : Text → List ToolCall → ChatMessage
assistant_turn content calls = record {
  role = "assistant";
  content = content;
  tool_calls = calls;
  tool_call_id = none;
  name = none;
}

abbrev pub before_events : List AgentEvent → Progress → Progress
before_events events p = record p { events = events ++ p.events }

-- One tool call, and what comes after it.
abbrev pub after_execute :
    World → List ChatMessage → ToolCall → Executed → (List ChatMessage → Progress) → Progress
after_execute w ms c (result ok output err) next =
    let name = name_of c.function in
    let content = maybe_offload w.offloader (format_tool_content output err) name c.id in
    before_events (tool_result content c.id name (coerce_args w.loads c.function) ok ∷ [])
      (next (ms ++ tool_message c content ∷ []))
after_execute w ms c (fails e) next = record { events = []; messages = ms; end = failed e }

-- `for tool_call in tool_calls`, and what comes after the loop.
unfoldable pub execute_all :
    World → List ChatMessage → List ToolCall → (List ChatMessage → Progress) → Progress
execute_all w ms [] next = next ms
execute_all w ms (c ∷ calls) next =
    after_execute w ms c (w.execute ms (name_of c.function) (coerce_args w.loads c.function))
      (λ ms'. execute_all w ms' calls next)

-- The rest of an iteration, with the iterations that follow.
unfoldable pub after_calls :
    World → List ChatMessage → List ToolCall → (List ChatMessage → Progress) → Progress
unfolding execute_all
after_calls w ms [] next = record { events = []; messages = ms; end = finished }
after_calls w ms (c ∷ calls) next = execute_all w ms (c ∷ calls) next

unfoldable pub after_ask :
    World → List ChatMessage → Asked → (List ChatMessage → Progress) → Progress
unfolding after_calls
after_ask w ms (replied content calls usage) next =
    before_events (assistant_message content usage ∷ [])
      (after_calls w (ms ++ assistant_turn content calls ∷ []) calls next)
after_ask w ms (stream_error e) next = record { events = []; messages = ms; end = aborted }
after_ask w ms (raises e) next = record { events = []; messages = ms; end = failed e }

-- `for _ in range(self.max_iterations)`.
unfoldable pub iterate : World → Bool → ℕ → List ChatMessage → Progress
unfolding ask after_ask
iterate w use_streaming zero ms = record { events = []; messages = ms; end = capped }
iterate w use_streaming (suc n) ms =
    let (events, asked) = ask w use_streaming ms in
    before_events events (after_ask w ms asked (λ ms'. iterate w use_streaming n ms'))

abbrev pub has_system : List ChatMessage → Bool
has_system [] = false
has_system (m ∷ ms) = m.role == "system"

abbrev pub system_content : World → Text
system_content w = elim w.l0_section [
  | [] ↦ w.system_prompt
  | (c ∷ l0) ↦ (c ∷ l0) ++ codes "\n\n" ++ w.system_prompt
]

-- The conversation that the loop starts with.
abbrev pub prepared : World → List ChatMessage → List ChatMessage
prepared w ms =
    let with_system = if has_system ms then ms else message "system" (system_content w) ∷ ms in
    w.redact (w.maybe_compact with_system)

-- The events behind the loop.
abbrev pub closing : End → List AgentEvent
closing finished = done ∷ []
closing capped = error (codes "max iterations reached") ∷ done ∷ []
closing (failed e) = error e ∷ done ∷ []
closing aborted = []

-- `run`; the end is how the loop has ended.
unfoldable pub run : World → Bool → List ChatMessage → Progress
unfolding iterate
run w stream ms =
    let p = iterate w (stream && w.supports_streaming) w.max_iterations (prepared w ms) in
    record p { events = p.events ++ closing p.end }
