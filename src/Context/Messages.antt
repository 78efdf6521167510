-- ===== src/Context/Messages.antt =====
-- harness/context/compaction.py: messages as the compactor reads them.
use harness_solomon.Base.{
  ℕ, ◌+◌, ◌/◌, String, Bool, false, Option, none, some, List, [], ◌∷◌, ◌==◌, string_eq, ◌&&◌, not,
  any,
}
use harness_solomon.Base.Text.{Text}

-- A message. Of each tool call only its id is read; `none` is a call without one.
pub record Message : Type 0 where
  pub role : String
  pub content : Option Text
  pub tool_calls : List (Option String)
  pub tool_call_id : Option String

-- The length of the JSON text of a message is an argument.
abbrev pub total_chars : (Message → ℕ) → List Message → ℕ
total_chars json_length [] = 0
total_chars json_length (m ∷ ms) = json_length m + total_chars json_length ms

-- `_estimate_tokens`.
unfoldable pub estimate_tokens : (Message → ℕ) → List Message → ℕ
estimate_tokens json_length ms = total_chars json_length ms / 4

abbrev pub id_is : String → Option String → Bool
id_is tool_id none = false
id_is tool_id (some i) = i == tool_id

abbrev pub refers : String → Message → Bool
refers tool_id m = m.role == "assistant" && any (id_is tool_id) m.tool_calls

-- Whether the id is not empty and a message refers to it.
abbrev pub called : Option String → List Message → Bool
called none later = false
called (some tool_id) later = not (tool_id == "") && any (refers tool_id) later

-- `_keep_for_pairs`, of a message and those after it.
unfoldable pub keep_for_pairs : Message → List Message → Bool
keep_for_pairs m later = m.role == "tool" && called m.tool_call_id later
