-- ===== src/Server/Agent/ReadBack.antt =====
-- harness/server/agent/tool_offloader.py: what was offloaded last is read back.
use harness_solomon.Base.{
  ℕ, suc, ◌≤◌, ◌<◌, Bool, true, false, Option, some, List, [], ◌∷◌, ◌++◌, ◌==◌, nat_eq, nat_beq_iff,
  string_eq, ==_refl, ◌&&◌, if◌then◌else◌, if-ind, take, keep, map, any, All, All-keep, ◌≡◌, refl,
  ap, ◌∙◌, arith,
}
use harness_solomon.Base.Text.{Text, codes, text_eq}
use harness_solomon.Base.Dict.{Dict}
use harness_solomon.Base.Sort.{insert_by, sort_by}
use harness_solomon.Agents.Scratchpad.{
  NoteLevel, l2, Note, Notes, ScratchpadStore, level_eq, where_agent, is_visible, is_newer,
  room_for, write_note, read_notes,
}
use harness_solomon.Agents.Scratchpad.Views.{own_agent}
use harness_solomon.Server.Agent.Offload.{
  OffloadSettings, should_offload, tool_offload_tag, offload, find_offloaded, read,
}

module _ {ℓ} {A : Type ℓ} where
  keep-append : (p : A → Bool) (xs ys : List A) → keep p (xs ++ ys) ≡ keep p xs ++ keep p ys
  keep-append p [] ys = refl
  keep-append p (x ∷ xs) ys = ground (arith, keep-append p xs ys)

  map-append {κ} :
      {B : Type κ} (f : B → A) (xs ys : List B) → map f (xs ++ ys) ≡ map f xs ++ map f ys
  map-append f [] ys = refl
  map-append f (x ∷ xs) ys = ap (λ (zs : List A). f x ∷ zs) (map-append f xs ys)

  -- An element that none may stand before comes first.
  sort_by-last :
      (le : A → A → Bool) (x : A) (ys : List A)
      → All (λ y. le y x ≡ false) ys
      → (rest : List A) × (sort_by le (ys ++ x ∷ []) ≡ x ∷ rest)
  unfolding sort_by insert_by
  sort_by-last le x [] h = ([], refl)
  sort_by-last le x (y ∷ ys) (h, hs) =
      let (rest, q) = sort_by-last le x ys hs in
      (insert_by le y rest, ap (insert_by le y) q ∙ rw h refl)

-- A note is older than the one that is written next.
abbrev pub IsOlder : ℕ → ℕ → ℕ × Note → Type 0
IsOlder next_id now (i, n) = (n.id < next_id) × (n.created_at ≤ now)

older_first :
    (n note : Note) → n.id < note.id → n.created_at ≤ note.created_at → is_newer n note ≡ false
older_first n note h k = ground arith

All-older :
    (note : Note) (rows : Dict ℕ Note)
    → All (IsOlder note.id note.created_at) rows
    → All (λ n. is_newer n note ≡ false) (map (λ (e : ℕ × Note). e.1) rows)
All-older note [] h = tt
All-older note ((i, n) ∷ rows) ((h, k), hs) = (older_first n note h k, All-older note rows hs)

found_first :
    (note : Note) (max_bytes : ℕ) (rest : List Note)
    → any (λ tag. tag == tool_offload_tag) note.tags ≡ true
    → find_offloaded note.id max_bytes (note ∷ rest) ≡ some (take max_bytes note.content)
found_first note max_bytes rest h = ground (arith, h, ==_refl note.id)

module _ (s : ScratchpadStore) (t : Notes) (next : ℕ) (note : Note) where
  -- The note is the first of those of L2, when it is the last row.
  read_notes-last :
      note.session_id ≡ s.session_id
      → note.agent_id ≡ s.agent_id
      → note.level ≡ l2
      → All (IsOlder note.id note.created_at) t.rows
      → (rest : List Note) × (read_notes s
            (some l2)
            500
            (record { rows = t.rows ++ (note.id, note) ∷ []; next_id = next })
          ≡ note ∷ rest)
  unfolding read_notes
  read_notes-last session agent level h =
      let p = λ (n : Note). is_visible s n && level_eq n.level l2 in
      let seen : p note ≡ true =
        mine (note.session_id == s.session_id) (where_agent s.agent_id note)
          (level_eq note.level l2) ((string_eq.same_iff note.session_id s.session_id).1 session)
          (own_agent s.agent_id note agent) (ap (λ (l : NoteLevel). level_eq l l2) level) in
      let old =
        All-keep (λ n. is_newer n note ≡ false) p (map (λ (e : ℕ × Note). e.1) t.rows)
          (All-older note t.rows h) in
      let (rest, q) =
        sort_by-last is_newer note (keep p (map (λ (e : ℕ × Note). e.1) t.rows)) old in
      (
        take 499 rest,
        ap (λ (ns : List Note). take 500 (sort_by is_newer (keep p ns)))
              (map-append (λ (e : ℕ × Note). e.1) t.rows ((note.id, note) ∷ []))
            ∙ ap (λ (ns : List Note). take 500 (sort_by is_newer ns))
                (keep-append p (map (λ (e : ℕ × Note). e.1) t.rows) (note ∷ [])
                  ∙ ap
                      (λ (b : Bool).
                        keep p (map (λ (e : ℕ × Note). e.1) t.rows)
                        ++ (if b then note ∷ [] else []))
                      seen)
            ∙ ap (λ (ns : List Note). take 500 ns) q,
      )
    where
      mine : (a b c : Bool) → a ≡ true → b ≡ true → c ≡ true → (a && b && c) ≡ true
      mine a b c h k l = ground arith

-- A result that is over the threshold is offloaded under a new id, and read back by it at once, up to
-- `max_bytes` characters, if the rows before it are older.
pub read-offload :
    (c : OffloadSettings) (s : ScratchpadStore) (now : ℕ) (content tool_name : Text) (t : Notes)
    (max_bytes : ℕ)
    → should_offload c content ≡ true
    → 0 < t.next_id
    → 0 < max_bytes
    → All (IsOlder t.next_id now) t.rows
    → let (t', note_id) = offload c s now content tool_name t in
      (note_id ≡ some t.next_id) × (read s t.next_id max_bytes t' ≡ some (take max_bytes content))
unfolding offload write_note room_for read
read-offload c s now content tool_name t max_bytes over fresh bytes h =
    let note : Note = record {
      id = t.next_id;
      session_id = s.session_id;
      agent_id = s.agent_id;
      level = l2;
      content = content;
      tags = tool_offload_tag ∷ (codes "#tool/" ++ tool_name) ∷ [];
      created_at = now;
    } in
    let (rest, q) = read_notes-last s t (suc t.next_id) note refl refl refl h in
    if-ind
      (λ (r : Notes × Option ℕ).
        (r.1 ≡ some t.next_id) × (read s t.next_id max_bytes r.0 ≡ some (take max_bytes content)))
      (should_offload c content)
      (λ _. (
        refl,
        if-ind (λ (o : Option Text). o ≡ some (take max_bytes content)) (t.next_id == 0)
            (λ z. absurd (omega (arith, fresh, (nat_beq_iff t.next_id 0).0 z)))
            (λ _.
              ap (find_offloaded t.next_id (if max_bytes == 0 then 4096 else max_bytes)) q
              ∙ found_first note (if max_bytes == 0 then 4096 else max_bytes) rest refl
              ∙ ap (λ (k : ℕ). some (take k content)) (given max_bytes bytes)),
      ))
      (λ e. absurd (differ (should_offload c content) over e))
  where
    given : (n : ℕ) → 0 < n → (if n == 0 then 4096 else n) ≡ n
    given n h = ground arith

    differ : (b : Bool) → b ≡ true → ¬ (b ≡ false)
    differ b h k = ground arith
