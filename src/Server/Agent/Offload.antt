-- ===== src/Server/Agent/Offload.antt =====
-- harness/server/agent/tool_offloader.py: ToolOffloader over the notes of a session. The audit and the
-- log are left out, and the database does not fail.
use harness_solomon.Base.{
  ℕ, zero, suc, ◌-◌, max, Bool, true, false, Option, none, some, List, [], ◌∷◌, ◌++◌, ltb, leb,
  ◌==◌, nat_eq, ◌&&◌, ◌||◌, not, if◌then◌else◌, length, take, any,
}
use harness_solomon.Base.Text.{Text, codes, text_eq, strip}
use harness_solomon.Base.Decimal.{decimal}
use harness_solomon.Agents.Scratchpad.{
  l2, Note, Notes, ScratchpadStore, utf8_length, write_note, read_notes,
}

pub record OffloadSettings : Type 0 where
  pub tool_offload_enabled : Bool
  pub tool_offload_threshold_bytes : ℕ
  pub tool_offload_preview_lines : ℕ
  pub tool_offload_preview_max_chars : ℕ

abbrev pub is_empty {ℓ} : {A : Type ℓ} → List A → Bool
is_empty [] = true
is_empty (x ∷ xs) = false

-- `should_offload`.
abbrev pub should_offload : OffloadSettings → Text → Bool
should_offload c content =
    c.tool_offload_enabled
    && not (is_empty content)
    && ltb c.tool_offload_threshold_bytes (utf8_length content)

abbrev pub tool_offload_tag : Text
tool_offload_tag = codes "#tool-offload"

abbrev pub written : Notes → Option (Notes × Note) → Notes × Option ℕ
written t none = (t, none)
written t (some (t', note)) = (t', some note.id)

-- `offload`.
unfoldable pub offload :
    OffloadSettings → ScratchpadStore → ℕ → Text → Text → Notes → Notes × Option ℕ
unfolding write_note
offload c s now content tool_name t =
    if should_offload c content
    then written t
        (write_note s now l2 content (tool_offload_tag ∷ (codes "#tool/" ++ tool_name) ∷ []) t)
    else (t, none)

abbrev pub find_offloaded : ℕ → ℕ → List Note → Option Text
find_offloaded note_id max_bytes [] = none
find_offloaded note_id max_bytes (n ∷ notes) =
    let rest = find_offloaded note_id max_bytes notes in
    if n.id == note_id && any (λ tag. tag == tool_offload_tag) n.tags
    then some (take max_bytes n.content)
    else rest

-- `read`, where `max_bytes` is given; it counts characters, and 0 stands for 4096.
unfoldable pub read : ScratchpadStore → ℕ → ℕ → Notes → Option Text
unfolding read_notes
read s note_id max_bytes t =
    if note_id == 0
    then none
    else find_offloaded note_id (if max_bytes == 0 then 4096 else max_bytes)
        (read_notes s (some l2) 500 t)

-- A character that ends a line for `splitlines`; a line end of two characters gives an empty line more,
-- which the preview drops.
abbrev pub ends_line : ℕ → Bool
ends_line c = leb 10 c && leb c 13 || leb 28 c && leb c 30 || c == 133 || c == 8232 || c == 8233

abbrev pub cons_line : ℕ → List Text → List Text
cons_line c [] = (c ∷ []) ∷ []
cons_line c (l ∷ ls) = (c ∷ l) ∷ ls

unfoldable pub lines : Text → List Text
lines [] = []
lines (c ∷ s) = let rest = lines s in if ends_line c then [] ∷ rest else cons_line c rest

abbrev pub is_control : ℕ → Bool
is_control c = ltb c 9 || c == 11 || c == 12 || leb 14 c && leb c 31

abbrev pub without_control : Text → Text
without_control [] = []
without_control (c ∷ s) = if is_control c then without_control s else c ∷ without_control s

-- The first `n` lines that are not blank.
unfoldable pub shown : ℕ → List Text → List Text
unfolding strip
shown zero ls = []
shown (suc n) [] = []
shown (suc n) (l ∷ ls) =
    let kept = without_control l in
    let more = shown n ls in
    let skipped = shown (suc n) ls in if is_empty (strip kept) then skipped else kept ∷ more

abbrev pub join_lines : List Text → Text
join_lines [] = []
join_lines (l ∷ []) = l
join_lines (l ∷ m ∷ ls) = l ++ 10 ∷ join_lines (m ∷ ls)

-- `_preview_block`.
unfoldable pub preview_block : OffloadSettings → Text → Text
unfolding lines shown
preview_block c content =
    let max_chars = max 64 c.tool_offload_preview_max_chars in
    let preview = join_lines (shown (max 1 c.tool_offload_preview_lines) (lines content)) in
    if ltb max_chars (length preview) then take (max_chars - 1) preview ++ 8230 ∷ [] else preview

-- `build_stub`.
unfoldable pub build_stub : OffloadSettings → Text → ℕ → Text → Text
unfolding preview_block decimal
build_stub c content note_id tool_name =
    codes "[Tool result offloaded: "
    ++ decimal (utf8_length content)
    ++ codes " bytes, id="
    ++ decimal note_id
    ++ codes ", tool="
    ++ tool_name
    ++ codes "]\n\n"
    ++ preview_block c content
    ++ codes "\n\nRead full result via scratchpad_read_offloaded(id="
    ++ decimal note_id
    ++ codes "). Search across offloaded content via scratchpad_search_offloaded(query)."
