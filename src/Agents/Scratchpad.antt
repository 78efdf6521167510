-- ===== src/Agents/Scratchpad.antt =====
-- harness/agents/scratchpad_store.py: ScratchpadStore, its notes. The rows are a dict by their id; the
-- time is an argument, in whole ticks. UTF-8 is as long as its encoding; surrogates, which cannot be
-- encoded, are not told apart.
pub mod Room
pub mod Views
pub mod Cap
pub mod Plan
pub mod Marks
mod Tests
use harness_solomon.Base.{
  ℕ, zero, suc, ◌+◌, max, String, Bool, true, false, Option, none, some, List, [], ◌∷◌, ◌++◌, ltb,
  leb, ◌==◌, nat_eq, string_eq, ◌&&◌, ◌||◌, not, if◌then◌else◌, length, take, keep, map,
}
use harness_solomon.Base.Text.{Text}
use harness_solomon.Base.Dict.{Dict, get, put, pop}
use harness_solomon.Base.Sort.{sort_by}

pub data NoteLevel : Type 0 where
  l0 : NoteLevel
  l1 : NoteLevel
  l2 : NoteLevel

pub record Note : Type 0 where
  pub id : ℕ
  pub session_id : String
  pub agent_id : Option String
  pub level : NoteLevel
  pub content : Text
  pub tags : List Text
  pub created_at : ℕ

pub record Notes : Type 0 where
  pub rows : Dict ℕ Note
  pub next_id : ℕ

-- A store is bound to a session, and to an agent or to none.
pub record ScratchpadStore : Type 0 where
  pub session_id : String
  pub agent_id : Option String
  pub l0_max_bytes : ℕ

-- `__init__`; `none` is the ValueError.
abbrev pub new_store : String → Option String → ℕ → Option ScratchpadStore
new_store session_id agent_id l0_max_bytes =
    if session_id == "" || ltb l0_max_bytes 128
    then none
    else some (record { session_id = session_id; agent_id = agent_id; l0_max_bytes = l0_max_bytes })

abbrev pub level_eq : NoteLevel → NoteLevel → Bool
level_eq l0 l0 = true
level_eq l1 l1 = true
level_eq l2 l2 = true
level_eq l0 l1 = false
level_eq l0 l2 = false
level_eq l1 l0 = false
level_eq l1 l2 = false
level_eq l2 l0 = false
level_eq l2 l1 = false

-- `len(text.encode("utf-8"))`.
abbrev pub utf8_width : ℕ → ℕ
utf8_width c = if ltb c 128 then 1 else if ltb c 2048 then 2 else if ltb c 65536 then 3 else 4

abbrev pub utf8_length : Text → ℕ
utf8_length [] = 0
utf8_length (c ∷ s) = utf8_width c + utf8_length s

abbrev pub agent_is : String → Option String → Bool
agent_is a none = false
agent_is a (some b) = b == a

-- `_where_agent`.
abbrev pub where_agent : Option String → Note → Bool
where_agent none n = true
where_agent (some a) n = agent_is a n.agent_id

abbrev pub is_visible : ScratchpadStore → Note → Bool
is_visible s n = n.session_id == s.session_id && where_agent s.agent_id n

abbrev pub is_hot : ScratchpadStore → Note → Bool
is_hot s n = is_visible s n && level_eq n.level l0

abbrev pub hot_bytes : ScratchpadStore → Note → ℕ
hot_bytes s n = if is_hot s n then utf8_length n.content else 0

-- `l0_size_bytes`.
abbrev pub l0_size_bytes : ScratchpadStore → Dict ℕ Note → ℕ
l0_size_bytes s [] = 0
l0_size_bytes s ((i, n) ∷ rows) = hot_bytes s n + l0_size_bytes s rows

-- By `created_at`, and then by the id.
abbrev pub is_before : Note → Note → Bool
is_before n m = ltb n.created_at m.created_at || n.created_at == m.created_at && leb n.id m.id

abbrev pub older : ℕ × Note → Option (ℕ × Note) → Option (ℕ × Note)
older e none = some e
older e (some f) = if is_before e.1 f.1 then some e else some f

-- The oldest note of L0 that the store sees, with its id.
unfoldable pub oldest_l0 : ScratchpadStore → Dict ℕ Note → Option (ℕ × Note)
oldest_l0 s [] = none
oldest_l0 s ((i, n) ∷ rows) =
    let rest = oldest_l0 s rows in if is_hot s n then older (i, n) rest else rest

-- `_prune_oldest_l0`; `none` if there is nothing to delete.
abbrev pub delete_found : Dict ℕ Note → Option (ℕ × Note) → Option (Dict ℕ Note)
delete_found rows none = none
delete_found rows (some (i, n)) = some (pop i rows)

unfoldable pub prune_oldest_l0 : ScratchpadStore → Dict ℕ Note → Option (Dict ℕ Note)
unfolding oldest_l0 pop
prune_oldest_l0 s rows = delete_found rows (oldest_l0 s rows)

-- The loop that prunes until `incoming` bytes fit, on fuel; as many steps as there are rows are enough
-- (Scratchpad.Room).
unfoldable pub prune_until : ℕ → ScratchpadStore → ℕ → Dict ℕ Note → Dict ℕ Note
unfolding prune_oldest_l0
prune_until zero s incoming rows = rows
prune_until (suc fuel) s incoming rows = elim (prune_oldest_l0 s rows) [
  | none ↦ rows
  | some fewer ↦
      let pruned = prune_until fuel s incoming fewer in
      if ltb s.l0_max_bytes (l0_size_bytes s rows + incoming) then pruned else rows
]

unfoldable pub make_room : ScratchpadStore → ℕ → Dict ℕ Note → Dict ℕ Note
unfolding prune_until
make_room s incoming rows = prune_until (length rows) s incoming rows

abbrev pub fits_alone : ScratchpadStore → NoteLevel → Text → Bool
fits_alone s level content = not (level_eq level l0 && ltb s.l0_max_bytes (utf8_length content))

unfoldable pub room_for : ScratchpadStore → NoteLevel → Text → Dict ℕ Note → Dict ℕ Note
unfolding make_room
room_for s level content rows =
    if level_eq level l0 then make_room s (utf8_length content) rows else rows

-- `write_note`, with the note; `none` is the ValueError of a note of L0 that is too long.
unfoldable pub write_note :
    ScratchpadStore → ℕ → NoteLevel → Text → List Text → Notes → Option (Notes × Note)
unfolding room_for
write_note s now level content tags t =
    let note : Note = record {
      id = t.next_id;
      session_id = s.session_id;
      agent_id = s.agent_id;
      level = level;
      content = content;
      tags = tags;
      created_at = now;
    } in
    if fits_alone s level content
    then some (
      record {
        rows = room_for s level content t.rows ++ (t.next_id, note) ∷ [];
        next_id = suc t.next_id;
      },
      note,
    )
    else none

abbrev pub is_newer : Note → Note → Bool
is_newer n m = is_before m n

-- The `level` clause of `read_notes`; `none` asks for all levels.
abbrev pub has_level : Option NoteLevel → Note → Bool
has_level none n = true
has_level (some level) n = level_eq n.level level

-- `read_notes`.
unfoldable pub read_notes : ScratchpadStore → Option NoteLevel → ℕ → Notes → List Note
unfolding sort_by
read_notes s level limit t =
    take (max 1 limit)
      (sort_by is_newer (keep (λ n. is_visible s n && has_level level n) (map (λ e. e.1) t.rows)))

-- The row of the id if the store sees it.
abbrev pub if_visible : ScratchpadStore → Option Note → Option Note
if_visible s none = none
if_visible s (some n) = if is_visible s n then some n else none

unfoldable pub find_note : ScratchpadStore → ℕ → Notes → Option Note
unfolding get
find_note s note_id t = if_visible s (get note_id t.rows)

-- `delete_note`.
unfoldable pub delete_note : ScratchpadStore → ℕ → Notes → Notes × Bool
unfolding find_note pop
delete_note s note_id t = elim (find_note s note_id t) [
  | none ↦ (t, false)
  | some n ↦ (record t { rows = pop note_id t.rows }, true)
]

abbrev pub relevel : NoteLevel → Note → Note
relevel level n = record n { level = level }

unfoldable pub set_level : ScratchpadStore → ℕ → NoteLevel → Note → Notes → Notes × Option Note
unfolding put room_for
set_level s note_id level n t = (
  record t { rows = put note_id (relevel level n) (room_for s level n.content t.rows) },
  some (relevel level n),
)

unfoldable pub promote_found :
    ScratchpadStore → ℕ → NoteLevel → Option Note → Notes → Option (Notes × Option Note)
unfolding set_level
promote_found s note_id level none t = some (t, none)
promote_found s note_id level (some n) t =
    if level_eq level l0 && level_eq n.level l0
    then some (t, some n)
    else if fits_alone s level n.content
    then some (set_level s note_id level n t)
    else none

-- `promote_note`, with the note that it returns; `none` is the ValueError.
unfoldable pub promote_note : ScratchpadStore → ℕ → NoteLevel → Notes → Option (Notes × Option Note)
unfolding promote_found find_note
promote_note s note_id level t = promote_found s note_id level (find_note s note_id t) t
