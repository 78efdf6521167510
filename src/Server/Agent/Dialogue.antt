-- ===== src/Server/Agent/Dialogue.antt =====
-- harness/server/agent/loop.py: the shape of the conversation that a run makes.
use harness_solomon.Base.{
  ℕ, zero, suc, ◌≤◌, Bool, true, false, List, [], ◌∷◌, ◌++◌, ◌&&◌, ◌≡◌, refl, sym, ap, subst, ◌∙◌,
  arith,
}
use harness_solomon.Base.Text.{Text}
use mathlib.Core.List.{append_assoc, append-nil}
use harness_solomon.Server.Agent.Stream.{ToolCall}
use harness_solomon.Server.Agent.Chat.{
  ChatMessage, Executed, result, fails, World, format_tool_content, coerce_args, name_of,
  maybe_offload, tool_message,
}
use harness_solomon.Server.Agent.Loop.{
  End, finished, capped, failed, aborted, Progress, Asked, replied, stream_error, raises, ask,
  assistant_turn, after_execute, execute_all, after_calls, after_ask, iterate, prepared, run,
}

-- The results of some tool calls: one message of the tool for each call, in order, with its id.
pub data Answered : List ToolCall → List ChatMessage → Type 0 where
  no_calls : Answered [] []
  one_call :
      (c : ToolCall) (m : ChatMessage) {calls : List ToolCall} {ms : List ChatMessage}
      → m.role ≡ "tool"
      → m.tool_call_id ≡ c.id
      → Answered calls ms
      → Answered (c ∷ calls) (m ∷ ms)

-- Messages of the assistant, each followed by the results of all the tool calls that it has.
pub data Dialogue : ℕ → List ChatMessage → Type 0 where
  no_rounds : Dialogue 0 []
  one_round :
      (m : ChatMessage) {tools rest : List ChatMessage} {n : ℕ}
      → m.role ≡ "assistant"
      → Answered m.tool_calls tools
      → Dialogue n rest
      → Dialogue (suc n) (m ∷ tools ++ rest)

abbrev pub is_failed : End → Bool
is_failed finished = false
is_failed capped = false
is_failed (failed e) = true
is_failed aborted = false

abbrev pub is_capped : End → Bool
is_capped finished = false
is_capped capped = true
is_capped (failed e) = false
is_capped aborted = false

-- A run adds a dialogue of at most `k` rounds, and of exactly `k` if it has met the cap.
abbrev pub Adds : ℕ → List ChatMessage → Progress → Type 0
Adds k ms p =
    (n : ℕ) × (added : List ChatMessage) × Dialogue n added
    × (p.messages ≡ ms ++ added)
    × (n ≤ k)
    × (is_capped p.end ≡ true → n ≡ k)

-- It adds the results of the calls, and then such a dialogue.
abbrev Answers : ℕ → List ToolCall → List ChatMessage → Progress → Type 0
Answers k calls ms p = (tools : List ChatMessage) × Answered calls tools × Adds k (ms ++ tools) p

module _ (w : World) where
  after_execute-Answers :
      (k : ℕ) (c : ToolCall) (calls : List ToolCall) (ms : List ChatMessage) (x : Executed)
      (next : List ChatMessage → Progress)
      → ((ms' : List ChatMessage)
          → is_failed (next ms').end ≡ false
          → Answers k calls ms' (next ms'))
      → is_failed (after_execute w ms c x next).end ≡ false
      → Answers k (c ∷ calls) ms (after_execute w ms c x next)
  after_execute-Answers k c calls ms (result ok output err) next h f =
      let content =
        maybe_offload w.offloader (format_tool_content output err) (name_of c.function) c.id in
      let (tools, a, (n, added, d, q, le, e)) = h (ms ++ tool_message c content ∷ []) f in
      (
        tool_message c content ∷ tools,
        one_call c (tool_message c content) refl refl a,
        (
          n,
          added,
          d,
          q
              ∙ ap (λ (l : List ChatMessage). l ++ added)
                  (append_assoc ms (tool_message c content ∷ []) tools),
          le,
          e,
        ),
      )
  after_execute-Answers k c calls ms (fails e) next h f = absurd cc

  execute_all-Answers :
      (k : ℕ) (calls : List ToolCall) (ms : List ChatMessage) (next : List ChatMessage → Progress)
      → ((ms' : List ChatMessage) → is_failed (next ms').end ≡ false → Adds k ms' (next ms'))
      → is_failed (execute_all w ms calls next).end ≡ false
      → Answers k calls ms (execute_all w ms calls next)
  unfolding execute_all
  execute_all-Answers k [] ms next h f = (
    [],
    no_calls,
    subst (λ (l : List ChatMessage). Adds k l (next ms)) (sym (append-nil ms)) (h ms f),
  )
  execute_all-Answers k (c ∷ calls) ms next h f =
      after_execute-Answers k c calls ms
        (w.execute ms (name_of c.function) (coerce_args w.loads c.function))
        (λ ms'. execute_all w ms' calls next) (λ ms' f'. execute_all-Answers k calls ms' next h f')
        f

  after_calls-Answers :
      (k : ℕ) (calls : List ToolCall) (ms : List ChatMessage) (next : List ChatMessage → Progress)
      → ((ms' : List ChatMessage) → is_failed (next ms').end ≡ false → Adds k ms' (next ms'))
      → is_failed (after_calls w ms calls next).end ≡ false
      → Answers k calls ms (after_calls w ms calls next)
  unfolding after_calls
  after_calls-Answers k [] ms next h f = (
    [],
    no_calls,
    (0, [], no_rounds, sym (append-nil (ms ++ []) ∙ append-nil ms), omega arith, λ e. absurd cc),
  )
  after_calls-Answers k (c ∷ calls) ms next h f = execute_all-Answers k (c ∷ calls) ms next h f

  -- A round that is answered, and the rounds behind it.
  round-Adds :
      (k : ℕ) (content : Text) (calls : List ToolCall) (ms : List ChatMessage) (p : Progress)
      → Answers k calls (ms ++ assistant_turn content calls ∷ []) p
      → Adds (suc k) ms p
  round-Adds k content calls ms p (tools, a, (n, added, d, q, le, e)) = (
    suc n,
    assistant_turn content calls ∷ tools ++ added,
    one_round (assistant_turn content calls) refl a d,
    q
        ∙ ap (λ (l : List ChatMessage). l ++ added)
            (append_assoc ms (assistant_turn content calls ∷ []) tools)
        ∙ append_assoc ms (assistant_turn content calls ∷ tools) added,
    omega (arith, le),
    λ c. ap suc (e c),
  )

  after_ask-Adds :
      (k : ℕ) (ms : List ChatMessage) (asked : Asked) (next : List ChatMessage → Progress)
      → ((ms' : List ChatMessage) → is_failed (next ms').end ≡ false → Adds k ms' (next ms'))
      → is_failed (after_ask w ms asked next).end ≡ false
      → Adds (suc k) ms (after_ask w ms asked next)
  unfolding after_ask
  after_ask-Adds k ms (replied content calls usage) next h f =
      round-Adds k content calls ms
        (after_calls w (ms ++ assistant_turn content calls ∷ []) calls next)
        (after_calls-Answers k calls (ms ++ assistant_turn content calls ∷ []) next h f)
  after_ask-Adds k ms (stream_error e) next h f =
      (0, [], no_rounds, sym (append-nil ms), omega arith, λ c. absurd cc)
  after_ask-Adds k ms (raises e) next h f = absurd cc

  iterate-Adds :
      (use_streaming : Bool) (k : ℕ) (ms : List ChatMessage)
      → is_failed (iterate w use_streaming k ms).end ≡ false
      → Adds k ms (iterate w use_streaming k ms)
  unfolding iterate
  iterate-Adds use_streaming zero ms f =
      (0, [], no_rounds, sym (append-nil ms), omega arith, λ c. refl)
  iterate-Adds use_streaming (suc k) ms f =
      after_ask-Adds k ms (ask w use_streaming ms).1 (λ ms'. iterate w use_streaming k ms')
        (λ ms' f'. iterate-Adds use_streaming k ms' f') f

  -- A run that no exception ends adds to the prepared conversation a dialogue of rounds: a message of the
  -- assistant, and for each tool call in this message, in order, a message of the tool with the id of the
  -- call. The rounds are at most `max_iterations`, and exactly as many if the run has met the cap.
  pub run_dialogue :
      (stream : Bool) (ms : List ChatMessage)
      → is_failed (run w stream ms).end ≡ false
      → Adds w.max_iterations (prepared w ms) (run w stream ms)
  unfolding run
  run_dialogue stream ms f =
      iterate-Adds (stream && w.supports_streaming) w.max_iterations (prepared w ms) f
