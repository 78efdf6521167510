-- ===== src/Hooks/Filter.antt =====
-- harness/hooks/filter_chain.py.
pub mod Laws
mod Tests
use harness_solomon.Base.{
  ℕ, String, Bool, true, false, not, ◌&&◌, Option, none, some, List, [], ◌∷◌, ◌==◌, string_eq,
  nat_eq, ◌++◌, if◌then◌else◌,
}
use harness_solomon.Base.Text.{Text, codes, text_eq, strip, split, partition, strip_prefix}
use harness_solomon.Base.Glob.{fnmatchcase}
use harness_solomon.Hooks.Context.{Value, null, text, other, obj, Fields, end, field}

match_rest : Text → ℕ → Text → Bool
match_rest value c p = if c == b'!' then not (fnmatchcase value p) else fnmatchcase value (c ∷ p)

-- `_match_pattern`.
pub match_pattern : Text → Text → Bool
unfolding match_rest
match_pattern value [] = true
match_pattern value (c ∷ p) = match_rest value c p

-- `fields.get(name)`.
pub get_field : Text → Fields → Option Value
get_field name end = none
get_field name (field k v fs) = if codes k == name then some v else get_field name fs

abbrev pub get_or_null : Option Value → Value
get_or_null none = null
get_or_null (some v) = v

-- `str` of a dict is the caller's.
module _ (str_dict : Fields → String) where
  -- `str(v) if v is not None else ""`.
  str_value : Value → Text
  str_value null = []
  str_value (text s) = codes s
  str_value (other s) = codes s
  str_value (obj fs) = codes (str_dict fs)

  -- The loop of `_resolve_field` from the value `cur`, with the parts of the path that are left.
  resolve_from : Value → List Text → Text
  unfolding str_value
  resolve_from cur [] = str_value cur
  resolve_from (obj fs) (part ∷ parts) = resolve_from (get_or_null (get_field part fs)) parts
  resolve_from null (part ∷ parts) = []
  resolve_from (text s) (part ∷ parts) = []
  resolve_from (other s) (part ∷ parts) = []

  -- `_resolve_field`.
  pub resolve_field : Fields → Text → Text
  unfolding resolve_from
  resolve_field payload path = resolve_from (obj payload) (split b'.' path)

parse_rule : Text → List (Text × Text)
parse_rule [] = []
parse_rule (c ∷ rule) = elim (partition b'=' (c ∷ rule)) [
  | none ↦ (codes "event", c ∷ rule) ∷ []
  | some (name, pattern) ↦ (strip name, strip pattern) ∷ []
]

parse_rules : List Text → List (Text × Text)
unfolding parse_rule
parse_rules [] = []
parse_rules (raw ∷ raws) = parse_rule (strip raw) ++ parse_rules raws

-- An empty text is split into one empty rule, which adds nothing.
pub parse_filter_chain : Text → List (Text × Text)
unfolding parse_rules
parse_filter_chain spec = parse_rules (split b',' spec)

-- One of the fields that a rule can name.
pub record Fired : Type 0 where
  pub event : String
  pub session_id : String
  pub agent_id : String
  pub payload : Fields
  pub request_id : String

module _ (str_dict : Fields → String) where
  -- `str(payload.get("tool_name", ""))`.
  tool_name : Option Value → Text
  tool_name none = []
  tool_name (some null) = codes "None"
  tool_name (some (text s)) = codes s
  tool_name (some (other s)) = codes s
  tool_name (some (obj fs)) = codes (str_dict fs)

  -- `fields.get(name, "")`.
  plain_field : Fired → Text → Text
  unfolding tool_name get_field
  plain_field f name =
      if name == codes "event"
      then codes f.event
      else if name == codes "session_id"
      then codes f.session_id
      else if name == codes "agent_id"
      then codes f.agent_id
      else if name == codes "request_id"
      then codes f.request_id
      else if name == codes "tool_name"
      then tool_name (get_field name f.payload)
      else []

  field_value : Fired → Text → Text
  unfolding plain_field resolve_field
  field_value f name = elim (strip_prefix (codes "payload.") name) [
    | none ↦ plain_field f name
    | some path ↦ resolve_field str_dict f.payload path
  ]

  pub matches_rules : Fired → List (Text × Text) → Bool
  unfolding field_value match_pattern
  matches_rules f [] = true
  matches_rules f ((name, pattern) ∷ rules) =
      if match_pattern (field_value f name) pattern then matches_rules f rules else false

  pub matches_filter_chain : Text → Fired → Bool
  unfolding matches_rules parse_filter_chain
  matches_filter_chain spec f = matches_rules f (parse_filter_chain spec)
