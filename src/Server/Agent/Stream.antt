-- ===== src/Server/Agent/Stream.antt =====
-- harness/server/llm/router.py: `streaming_completion`, from the chunks that the library gives to the
-- events of the router. Costs, the usage log and the clock are left out.
use harness_solomon.Base.{ℕ, Option, none, some, List, [], ◌∷◌, ◌++◌, nat_eq, leb, map}
use harness_solomon.Base.Text.{Text, codes}
use harness_solomon.Base.Dict.{Dict, get, put}
use harness_solomon.Base.Sort.{sort_by}

pub record Usage : Type 0 where
  pub prompt_tokens : ℕ
  pub completion_tokens : ℕ
  pub total_tokens : ℕ

-- A tool call as the router gives it on; arguments that are None are the empty text.
pub record CallFunction : Type 0 where
  pub name : Option Text
  pub arguments : Text

pub record ToolCall : Type 0 where
  pub id : Option Text
  pub type : Text
  pub function : Option CallFunction

-- A tool call that is not complete yet.
pub record Slot : Type 0 where
  pub id : Option Text
  pub type : Text
  pub name : Option Text
  pub arguments : Text

-- A piece of a tool call: what is missing, None or empty is the empty text, an index that is missing 0.
pub record CallDelta : Type 0 where
  pub index : ℕ
  pub id : Text
  pub type : Text
  pub name : Text
  pub arguments : Text

-- A chunk without choices, one without a delta, and one with the content, or an empty one, and the pieces.
pub data Chunk : Type 0 where
  no_choices : Option Usage → Chunk
  no_delta : Chunk
  delta : Text → List CallDelta → Chunk

-- What the library does: all chunks, or an exception with its text.
pub data Streamed : Type 0 where
  chunks : List Chunk → Streamed
  raised : Text → Streamed

-- The buffers of `streaming_completion`; the usage is that of the last chunk that has one.
pub record Buffers : Type 0 where
  pub content : List Text
  pub calls : Dict ℕ Slot
  pub usage : Option Usage

pub data RouterEvent : Type 0 where
  router_token : Text → RouterEvent
  router_done : Text → Option ToolCall → Option Usage → RouterEvent
  router_error : Text → RouterEvent

abbrev pub new_slot : Slot
new_slot = record { id = none; type = codes "function"; name = none; arguments = [] }

abbrev pub slot_or_new : Option Slot → Slot
slot_or_new none = new_slot
slot_or_new (some c) = c

-- `slot["id"] = tc_delta.id` if there is one.
abbrev pub or_old : Text → Option Text → Option Text
or_old [] old = old
or_old (c ∷ s) old = some (c ∷ s)

abbrev pub type_or_old : Text → Text → Text
type_or_old [] old = old
type_or_old (c ∷ s) old = c ∷ s

abbrev pub stitched : CallDelta → Slot → Slot
stitched d c = record {
  id = or_old d.id c.id;
  type = type_or_old d.type c.type;
  name = or_old d.name c.name;
  arguments = c.arguments ++ d.arguments;
}

abbrev pub stitch : Dict ℕ Slot → CallDelta → Dict ℕ Slot
stitch buf d = put d.index (stitched d (slot_or_new (get d.index buf))) buf

unfoldable pub stitch_all : Dict ℕ Slot → List CallDelta → Dict ℕ Slot
unfolding get put
stitch_all buf [] = buf
stitch_all buf (d ∷ ds) = stitch_all (stitch buf d) ds

abbrev pub add_piece : Text → List Text → List Text
add_piece [] buf = buf
add_piece (c ∷ s) buf = buf ++ (c ∷ s) ∷ []

abbrev pub token_of : Text → Option Text
token_of [] = none
token_of (c ∷ s) = some (c ∷ s)

abbrev pub newer_usage : Option Usage → Option Usage → Option Usage
newer_usage none old = old
newer_usage (some u) old = some u

-- `_chunk_to_event`, with the buffers, and the token that it gives.
unfoldable pub chunk_to_event : Buffers → Chunk → Buffers × Option Text
unfolding stitch_all
chunk_to_event b (no_choices usage) = (record b { usage = newer_usage usage b.usage }, none)
chunk_to_event b no_delta = (b, none)
chunk_to_event b (delta content deltas) = (
  record b { content = add_piece content b.content; calls = stitch_all b.calls deltas },
  token_of content,
)

abbrev pub token_event : Option Text → List RouterEvent
token_event none = []
token_event (some t) = router_token t ∷ []

unfoldable pub drain : Buffers → List Chunk → Buffers × List RouterEvent
unfolding chunk_to_event
drain b [] = (b, [])
drain b (c ∷ cs) =
    let (b', t) = chunk_to_event b c in
    let (end, events) = drain b' cs in (end, token_event t ++ events)

abbrev pub no_buffers : Buffers
no_buffers = record { content = []; calls = []; usage = none }

abbrev pub call_of : Slot → ToolCall
call_of c = record {
  id = c.id;
  type = c.type;
  function = some (record { name = c.name; arguments = c.arguments });
}

-- `[tool_calls_buf[i] for i in sorted(tool_calls_buf)]`.
unfoldable pub tool_calls_final : Dict ℕ Slot → List ToolCall
unfolding sort_by
tool_calls_final buf = map (λ e. call_of e.1) (sort_by (λ d e. leb d.0 e.0) buf)

abbrev pub first {ℓ} : {A : Type ℓ} → List A → Option A
first [] = none
first (x ∷ xs) = some x

abbrev pub join_all : List Text → Text
join_all [] = []
join_all (s ∷ ss) = s ++ join_all ss

-- `streaming_completion`.
unfoldable pub streaming_completion : Streamed → List RouterEvent
unfolding drain tool_calls_final
streaming_completion (raised e) = router_error e ∷ []
streaming_completion (chunks cs) =
    let (b, events) = drain no_buffers cs in
    events ++ router_done (join_all b.content) (first (tool_calls_final b.calls)) b.usage ∷ []
