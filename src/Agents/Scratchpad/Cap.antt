-- ===== src/Agents/Scratchpad/Cap.antt =====
-- harness/agents/scratchpad_store.py: the notes of L0 keep to their cap.
use harness_solomon.Base.{
  ℕ, ◌≤◌, String, Bool, true, false, Option, none, some, List, [], ◌∷◌, ◌==◌, nat_eq, string_eq,
  ==_refl, ◌&&◌, if-ind, All, ◌≡◌, refl, ap, ◌∙◌, arith,
}
use harness_solomon.Base.Text.{Text}
use harness_solomon.Base.Dict.{get, pop}
use harness_solomon.Agents.Scratchpad.{
  NoteLevel, l0, Note, Notes, ScratchpadStore, level_eq, where_agent, is_visible, l0_size_bytes,
  fits_alone, room_for, write_note, if_visible, find_note, delete_note, relevel, set_level,
  promote_found, promote_note,
}
use harness_solomon.Agents.Scratchpad.Views.{
  store_of, own_agent, where_agent-relevel, and_true, room-fits,
}
use harness_solomon.Agents.Scratchpad.Room.{size-pop, size-append, size-put}

-- A call of a store that changes the notes.
pub data Call : Type 0 where
  writes : ℕ → NoteLevel → Text → List Text → Call
  deletes : ℕ → Call
  promotes : ℕ → NoteLevel → Call

abbrev notes_or {ℓ} : {A : Type ℓ} → Notes → Option (Notes × A) → Notes
notes_or t none = t
notes_or t (some (t', a)) = t'

-- What the call makes of the notes; a ValueError changes nothing.
unfoldable pub step : Notes → ScratchpadStore × Call → Notes
unfolding write_note delete_note promote_note
step t (s, writes now level content tags) = notes_or t (write_note s now level content tags t)
step t (s, deletes note_id) = (delete_note s note_id t).0
step t (s, promotes note_id level) = notes_or t (promote_note s note_id level t)

unfoldable pub run : Notes → List (ScratchpadStore × Call) → Notes
unfolding step
run t [] = t
run t (c ∷ calls) = run (step t c) calls

module _ (session a : String) (cap : ℕ) where
  abbrev pub IsCapped : Notes → Type 0
  IsCapped t = l0_size_bytes (store_of session a cap) t.rows ≤ cap

  writes-Capped :
      (s : ScratchpadStore) (t : Notes) (now : ℕ) (level : NoteLevel) (content : Text)
      (tags : List Text)
      → s.l0_max_bytes ≡ cap
      → IsCapped t
      → IsCapped (notes_or t (write_note s now level content tags t))
  unfolding write_note
  writes-Capped s t now level content tags same le =
      let note : Note = record {
        id = t.next_id;
        session_id = s.session_id;
        agent_id = s.agent_id;
        level = level;
        content = content;
        tags = tags;
        created_at = now;
      } in
      if-ind (λ (o : Option (Notes × Note)). IsCapped (notes_or t o)) (fits_alone s level content)
        (λ alone. omega (
          arith,
          size-append (store_of session a cap) (room_for s level content t.rows) t.next_id note,
          room-fits session a cap s note t.rows same
              (and_true (s.session_id == s.session_id) (where_agent s.agent_id note)
                (==_refl s.session_id) (own_agent s.agent_id note refl))
              alone le,
        ))
        (λ _. le)

  deletes-Capped :
      (s : ScratchpadStore) (t : Notes) (note_id : ℕ)
      → IsCapped t
      → IsCapped (delete_note s note_id t).0
  unfolding delete_note
  deletes-Capped s t note_id le = found (find_note s note_id t)
    where
      found :
          (o : Option Note)
          → IsCapped
              (elim o as (λ _. Notes × Bool) [
                | none ↦ (t, false)
                | some n ↦ (record t { rows = pop note_id t.rows }, true)
              ]).0
      found none = le
      found (some n) = omega (arith, le, size-pop (store_of session a cap) note_id t.rows)

  -- What `find_note` finds is seen.
  abbrev IsSeen : ScratchpadStore → Option Note → Type 0
  IsSeen s none = Unit
  IsSeen s (some n) = is_visible s n ≡ true

  if_visible-IsSeen : (s : ScratchpadStore) (o : Option Note) → IsSeen s (if_visible s o)
  if_visible-IsSeen s none = tt
  if_visible-IsSeen s (some n) =
      if-ind (λ (o : Option Note). IsSeen s o) (is_visible s n) (λ e. e) (λ _. tt)

  promoted-Capped :
      (s : ScratchpadStore) (t : Notes) (note_id : ℕ) (level : NoteLevel) (o : Option Note)
      → s.l0_max_bytes ≡ cap
      → IsSeen s o
      → IsCapped t
      → IsCapped (notes_or t (promote_found s note_id level o t))
  unfolding promote_found set_level
  promoted-Capped s t note_id level none same seen le = le
  promoted-Capped s t note_id level (some n) same seen le =
      if-ind (λ (r : Option (Notes × Option Note)). IsCapped (notes_or t r))
        (level_eq level l0 && level_eq n.level l0) (λ _. le)
        (λ _.
          if-ind (λ (r : Option (Notes × Option Note)). IsCapped (notes_or t r))
            (fits_alone s level n.content)
            (λ alone. omega (
              arith,
              size-put (store_of session a cap) (room_for s level n.content t.rows) note_id
                  (relevel level n),
              room-fits session a cap s (relevel level n) t.rows same
                  (ap (λ (b : Bool). (n.session_id == s.session_id) && b)
                      (where_agent-relevel s.agent_id level n)
                    ∙ seen)
                  alone le,
            ))
            (λ _. le))

  promotes-Capped :
      (s : ScratchpadStore) (t : Notes) (note_id : ℕ) (level : NoteLevel)
      → s.l0_max_bytes ≡ cap
      → IsCapped t
      → IsCapped (notes_or t (promote_note s note_id level t))
  unfolding promote_note find_note
  promotes-Capped s t note_id level same le =
      promoted-Capped s t note_id level (find_note s note_id t) same
        (if_visible-IsSeen s (get note_id t.rows)) le

  step-Capped :
      (t : Notes) (s : ScratchpadStore) (c : Call)
      → s.l0_max_bytes ≡ cap
      → IsCapped t
      → IsCapped (step t (s, c))
  unfolding step
  step-Capped t s (writes now level content tags) same le =
      writes-Capped s t now level content tags same le
  step-Capped t s (deletes note_id) same le = deletes-Capped s t note_id le
  step-Capped t s (promotes note_id level) same le = promotes-Capped s t note_id level same le

  -- The notes of L0 of an agent in a session never take more bytes than the cap, if they did not before,
  -- whatever stores of whatever sessions and agents, with this cap, write, delete and promote.
  pub run-IsCapped :
      (t : Notes) (calls : List (ScratchpadStore × Call))
      → All (λ c. c.0.l0_max_bytes ≡ cap) calls
      → IsCapped t
      → IsCapped (run t calls)
  unfolding run
  run-IsCapped t [] h le = le
  run-IsCapped t ((s, c) ∷ calls) (same, h) le =
      run-IsCapped (step t (s, c)) calls h (step-Capped t s c same le)
