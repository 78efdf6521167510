-- ===== src/Server/Agent/Tests.antt =====
-- A model that calls a tool once, streamed in pieces, and one whose stream fails.
use harness_solomon.Base.{
  ℕ, Bool, true, false, none, some, arith, List, [], ◌∷◌, ◌==◌, nat_eq, if◌then◌else◌, length, ◌≡◌,
  refl,
}
use harness_solomon.Base.Text.{Text, codes, strip, lstrip, is_space}
use harness_solomon.Base.Dict.{get, put}
use harness_solomon.Base.Sort.{sort_by, insert_by}
use harness_solomon.Agents.Scratchpad.{l2, Note, Notes, ScratchpadStore}
use harness_solomon.Server.Agent.Offload.{
  OffloadSettings, offload, read, preview_block, lines, shown,
}
use harness_solomon.Server.Agent.ReadBack.{read-offload}
use harness_solomon.Server.Agent.Stream.{
  CallDelta, Chunk, no_choices, no_delta, delta, chunks, raised, stitch_all, chunk_to_event, drain,
  tool_calls_final, streaming_completion,
}
use harness_solomon.Server.Agent.Chat.{ChatMessage, result, completion, World, invalid, message}
use harness_solomon.Server.Agent.Loop.{
  replied, consume, ask, after_calls, after_ask, execute_all, iterate, prepared, run,
}
use harness_solomon.Server.Agent.Assembled.{ask_streamed}
use harness_solomon.Server.Agent.Closes.{closers}
use harness_solomon.Server.Agent.Dialogue.{is_failed, Adds, run_dialogue}

abbrev piece : ℕ → Text → Text → CallDelta
piece index id arguments = record {
  index = index;
  id = id;
  type = [];
  name = codes "bash";
  arguments = arguments;
}

-- Two tool calls, the second in two pieces.
abbrev answer : List Chunk
answer =
    delta (codes "he") (piece 0 (codes "a") (codes "{}") ∷ piece 1 (codes "b") (codes "{") ∷ [])
    ∷ no_delta
    ∷ delta (codes "llo") (piece 1 [] (codes "}") ∷ [])
    ∷ no_choices none
    ∷ []

-- The model calls tools when the user has spoken last.
abbrev is_first : List ChatMessage → Bool
is_first ms = length ms == 2

abbrev world : World
world = record {
  max_iterations = 2;
  supports_streaming = true;
  stream = λ ms. if is_first ms then chunks answer else raised (codes "down");
  complete = λ ms. completion (codes "bye") [] none;
  execute = λ ms name args. result true (codes "ok") [];
  loads = λ raw. invalid;
  offloader = none;
  system_prompt = codes "be brief";
  l0_section = [];
  maybe_compact = λ ms. ms;
  redact = λ ms. ms;
}

abbrev asked : List ChatMessage
asked = message "system" (codes "be brief") ∷ message "user" (codes "hi") ∷ []

-- Of the two calls only the first is run, and the second answer fails: there is no `done`.
streams_down :
    (closers (run world true asked).events ≡ 1) × (length (run world true asked).messages ≡ 4)
unfolding run iterate ask consume streaming_completion drain chunk_to_event stitch_all get put
    tool_calls_final sort_by insert_by after_ask after_calls execute_all
streams_down = (refl, refl)

ask_streamed_example :
    (ask world true asked).1
    ≡ replied
        (codes "hello")
        (record {
          id = some (codes "a");
          type = codes "function";
          function = some (record { name = some (codes "bash"); arguments = codes "{}" });
        }
          ∷ [])
        none
ask_streamed_example = ask_streamed world asked answer refl

not_failed : is_failed (run world true asked).end ≡ false
unfolding run iterate ask consume streaming_completion drain chunk_to_event stitch_all get put
    tool_calls_final sort_by insert_by after_ask after_calls execute_all
not_failed = refl

run_dialogue_example : Adds 2 (prepared world asked) (run world true asked)
run_dialogue_example = run_dialogue world true asked not_failed

abbrev offload_settings : OffloadSettings
offload_settings = record {
  tool_offload_enabled = true;
  tool_offload_threshold_bytes = 3;
  tool_offload_preview_lines = 3;
  tool_offload_preview_max_chars = 80;
}

abbrev scratchpad : ScratchpadStore
scratchpad = record { session_id = "s"; agent_id = some "a"; l0_max_bytes = 128 }

abbrev earlier : Note
earlier = record {
  id = 1;
  session_id = "s";
  agent_id = some "a";
  level = l2;
  content = codes "old";
  tags = [];
  created_at = 5;
}

abbrev notes : Notes
notes = record { rows = (1, earlier) ∷ []; next_id = 2 }

read-offload_example :
    let (t', note_id) =
      offload offload_settings scratchpad 5 (codes "a long output") (codes "bash") notes in
    (note_id ≡ some 2) × (read scratchpad 2 6 t' ≡ some (codes "a long"))
read-offload_example =
    read-offload offload_settings scratchpad 5 (codes "a long output") (codes "bash") notes 6 refl
      (omega arith) (omega arith) ((omega arith, omega arith), tt)

previewed : preview_block offload_settings (codes "\n one\t\r\n\n two") ≡ codes " one\t\n two"
unfolding preview_block lines shown strip lstrip is_space
previewed = refl
