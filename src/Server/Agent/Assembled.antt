-- ===== src/Server/Agent/Assembled.antt =====
-- harness/server/llm/router.py: what the loop gets of an answer that comes in chunks.
use harness_solomon.Base.{
  ℕ, true, Option, none, some, List, [], ◌∷◌, ◌++◌, nat_eq, All, ◌≡◌, refl, sym, ap, ◌∙◌,
}
use harness_solomon.Base.Text.{Text}
use harness_solomon.Base.Dict.{Dict}
use mathlib.Core.List.{append_assoc, append-nil}
use harness_solomon.Server.Agent.Stream.{
  Usage, ToolCall, Slot, CallDelta, Chunk, no_choices, no_delta, delta, Streamed, chunks, Buffers,
  RouterEvent, router_token, router_done, router_error, stitch, stitch_all, add_piece, token_of,
  token_event, newer_usage, chunk_to_event, drain, no_buffers, tool_calls_final, first, join_all,
  streaming_completion,
}
use harness_solomon.Server.Agent.Whole.{first_call}
use harness_solomon.Server.Agent.Least.{one_call-first_call}
use harness_solomon.Server.Agent.Chat.{World, ChatMessage}
use harness_solomon.Server.Agent.Loop.{replied, one_call, consume, ask}

-- The text of an answer, and the arguments of its tool call of an index, as the chunks have them in order.
abbrev pub text_of : List Chunk → Text
text_of [] = []
text_of (no_choices usage ∷ cs) = text_of cs
text_of (no_delta ∷ cs) = text_of cs
text_of (delta content deltas ∷ cs) = content ++ text_of cs

-- The pieces of tool calls, and the last usage, that the chunks have.
abbrev pub deltas_of : List Chunk → List CallDelta
deltas_of [] = []
deltas_of (no_choices usage ∷ cs) = deltas_of cs
deltas_of (no_delta ∷ cs) = deltas_of cs
deltas_of (delta content deltas ∷ cs) = deltas ++ deltas_of cs

abbrev pub usage_of : List Chunk → Option Usage
usage_of [] = none
usage_of (no_choices usage ∷ cs) = elim (usage_of cs) [ none ↦ usage | some u ↦ some u ]
usage_of (no_delta ∷ cs) = usage_of cs
usage_of (delta content deltas ∷ cs) = usage_of cs

abbrev pub tokens : List RouterEvent → Text
tokens [] = []
tokens (router_token t ∷ events) = t ++ tokens events
tokens (router_done text call usage ∷ events) = tokens events
tokens (router_error e ∷ events) = tokens events

stitch_all-append :
    (buf : Dict ℕ Slot) (ds es : List CallDelta)
    → stitch_all buf (ds ++ es) ≡ stitch_all (stitch_all buf ds) es
unfolding stitch_all
stitch_all-append buf [] es = refl
stitch_all-append buf (d ∷ ds) es = stitch_all-append (stitch buf d) ds es

newer_usage-later :
    (later usage old : Option Usage)
    → newer_usage later (newer_usage usage old)
      ≡ newer_usage (elim later as (λ _. Option Usage) [ none ↦ usage | some u ↦ some u ]) old
newer_usage-later none usage old = refl
newer_usage-later (some u) usage old = refl

tokens-token :
    (t : Text) (events : List RouterEvent)
    → tokens (token_event (token_of t) ++ events) ≡ t ++ tokens events
tokens-token [] events = refl
tokens-token (c ∷ t) events = refl

-- What the buffers have after the chunks, and what the tokens come to.
drain-lem :
    (b : Buffers) (cs : List Chunk)
    → (tokens (drain b cs).1 ≡ text_of cs)
      × ((drain b cs).0.calls ≡ stitch_all b.calls (deltas_of cs))
      × ((drain b cs).0.usage ≡ newer_usage (usage_of cs) b.usage)
unfolding drain chunk_to_event stitch_all
drain-lem b [] = (refl, refl, refl)
drain-lem b (no_choices usage ∷ cs) =
    let (toks, calls, last) = drain-lem (record b { usage = newer_usage usage b.usage }) cs in
    (toks, calls, last ∙ newer_usage-later (usage_of cs) usage b.usage)
drain-lem b (no_delta ∷ cs) = drain-lem b cs
drain-lem b (delta content deltas ∷ cs) =
    let b' : Buffers = record b {
      content = add_piece content b.content;
      calls = stitch_all b.calls deltas;
    } in
    let (toks, calls, last) = drain-lem b' cs in
    (
      tokens-token content (drain b' cs).1 ∙ ap (λ (t : Text). content ++ t) toks,
      calls ∙ sym (stitch_all-append b.calls deltas (deltas_of cs)),
      last,
    )

abbrev pub IsToken : RouterEvent → Type 0
IsToken (router_token t) = Unit
IsToken (router_done text call usage) = ⊥
IsToken (router_error e) = ⊥

consume-done :
    (content text : Text) (calls : List ToolCall) (old usage : Option Usage)
    (call : Option ToolCall) (events : List RouterEvent)
    → All IsToken events
    → (consume content calls old (events ++ router_done text call usage ∷ [])).1
      ≡ replied (content ++ tokens events) (one_call call) (newer_usage usage old)
unfolding consume
consume-done content text calls old usage call [] h =
    ap (λ (t : Text). replied t (one_call call) (newer_usage usage old)) (sym (append-nil content))
consume-done content text calls old usage call (router_token t ∷ events) (h, hs) =
    consume-done (content ++ t) text calls old usage call events hs
    ∙ ap (λ (s : Text). replied s (one_call call) (newer_usage usage old))
        (append_assoc content t (tokens events))
consume-done content text calls old usage call (router_done s d u ∷ events) (h, hs) = absurd h
consume-done content text calls old usage call (router_error e ∷ events) (h, hs) = absurd h

token_event-IsToken :
    (o : Option Text) (events : List RouterEvent)
    → All IsToken events
    → All IsToken (token_event o ++ events)
token_event-IsToken none events h = h
token_event-IsToken (some t) events h = (tt, h)

pub drain-IsToken : (b : Buffers) (cs : List Chunk) → All IsToken (drain b cs).1
unfolding drain
drain-IsToken b [] = tt
drain-IsToken b (c ∷ cs) =
    token_event-IsToken (chunk_to_event b c).1 (drain (chunk_to_event b c).0 cs).1
      (drain-IsToken (chunk_to_event b c).0 cs)

newer_usage-none : (u : Option Usage) → newer_usage u none ≡ u
newer_usage-none none = refl
newer_usage-none (some u) = refl

-- Of an answer that comes in chunks the loop gets the text of the chunks in order, however it was cut, the
-- last usage, and of the tool calls only the one of the least index: with the last id, type and name that
-- are given for this index and are not empty, and the arguments of this index in order.
pub ask_streamed :
    (w : World) (ms : List ChatMessage) (cs : List Chunk)
    → w.stream ms ≡ chunks cs
    → (ask w true ms).1 ≡ replied (text_of cs) (first_call (deltas_of cs)) (usage_of cs)
unfolding ask streaming_completion
ask_streamed w ms cs h =
    let b = (drain no_buffers cs).0 in
    let (toks, calls, last) = drain-lem no_buffers cs in
    ap (λ (s : Streamed). (consume [] [] none (streaming_completion s)).1) h
    ∙ consume-done [] (join_all b.content) [] none b.usage (first (tool_calls_final b.calls))
        (drain no_buffers cs).1 (drain-IsToken no_buffers cs)
    ∙ ap
        (λ (t : Text).
          replied t (one_call (first (tool_calls_final b.calls))) (newer_usage b.usage none))
        toks
    ∙ ap (λ (l : List ToolCall). replied (text_of cs) l (newer_usage b.usage none))
        (ap (λ (buf : Dict ℕ Slot). one_call (first (tool_calls_final buf))) calls
          ∙ one_call-first_call (deltas_of cs))
    ∙ ap (λ (u : Option Usage). replied (text_of cs) (first_call (deltas_of cs)) u)
        (newer_usage-none b.usage ∙ last ∙ newer_usage-none (usage_of cs))
