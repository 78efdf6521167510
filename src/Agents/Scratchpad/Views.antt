-- ===== src/Agents/Scratchpad/Views.antt =====
-- harness/agents/scratchpad_store.py: what the stores of an agent see, and room for its notes.
use harness_solomon.Base.{
  ℕ, ◌+◌, ◌≤◌, String, Bool, true, false, Option, none, some, [], ◌∷◌, ltb, ◌==◌, nat_eq, string_eq,
  ==_refl, ◌&&◌, not, if◌then◌else◌, if-ind, length, ◌≡◌, refl, ap, ◌∙◌, arith,
}
use harness_solomon.Base.Dict.{Dict}
use harness_solomon.Agents.Scratchpad.{
  NoteLevel, l0, Note, ScratchpadStore, level_eq, utf8_length, agent_is, where_agent, is_visible,
  hot_bytes, l0_size_bytes, prune_until, make_room, fits_alone, room_for, relevel,
}
use harness_solomon.Agents.Scratchpad.Room.{prune-fits, prune-le}

-- The store of an agent in a session.
abbrev pub store_of : String → String → ℕ → ScratchpadStore
store_of session_id agent_id l0_max_bytes = record {
  session_id = session_id;
  agent_id = some agent_id;
  l0_max_bytes = l0_max_bytes;
}

same_agent :
    (a b : String) (o p : Option String)
    → agent_is b o ≡ true
    → agent_is a o ≡ true
    → agent_is a p ≡ true
    → agent_is b p ≡ true
same_agent a b none p h k l = absurd cc
same_agent a b (some x) none h k l = absurd cc
same_agent a b (some x) (some y) h k l = ground (
  arith,
  string_eq.same_iff x b,
  string_eq.same_iff x a,
  string_eq.same_iff y a,
  string_eq.same_iff y b,
)

same_session :
    (x y s v : String) → (x == s) ≡ true → (x == v) ≡ true → (y == v) ≡ true → (y == s) ≡ true
same_session x y s v h k l = ground (
  arith,
  string_eq.same_iff x s,
  string_eq.same_iff x v,
  string_eq.same_iff y v,
  string_eq.same_iff y s,
)

where_covers :
    (agent : Option String) (a : String) (n m : Note)
    → where_agent agent n ≡ true
    → agent_is a n.agent_id ≡ true
    → agent_is a m.agent_id ≡ true
    → where_agent agent m ≡ true
where_covers none a n m h k l = refl
where_covers (some b) a n m h k l = same_agent a b n.agent_id m.agent_id h k l

both : (a b : Bool) → (a && b) ≡ true → (a ≡ true) × (b ≡ true)
both a b h = ground arith

pub and_true : (a b : Bool) → a ≡ true → b ≡ true → (a && b) ≡ true
and_true a b h k = ground arith

pub own_agent : (agent : Option String) (n : Note) → n.agent_id ≡ agent → where_agent agent n ≡ true
own_agent none n e = refl
own_agent (some b) n e = ap (agent_is b) e ∙ ==_refl b

pub where_agent-relevel :
    (agent : Option String) (level : NoteLevel) (n : Note)
    → where_agent agent (relevel level n) ≡ where_agent agent n
where_agent-relevel none level n = refl
where_agent-relevel (some b) level n = refl

module _ (session a : String) (cap : ℕ) where
  -- A store that sees one note of an agent sees them all.
  covers :
      (s : ScratchpadStore) (n m : Note)
      → is_visible s n ≡ true
      → is_visible (store_of session a cap) n ≡ true
      → is_visible (store_of session a cap) m ≡ true
      → is_visible s m ≡ true
  covers s n m h k l =
      let (h1, h2) = both (n.session_id == s.session_id) (where_agent s.agent_id n) h in
      let (k1, k2) = both (n.session_id == session) (agent_is a n.agent_id) k in
      let (m1, m2) = both (m.session_id == session) (agent_is a m.agent_id) l in
      and_true (m.session_id == s.session_id) (where_agent s.agent_id m)
        (same_session n.session_id m.session_id s.session_id session h1 k1 m1)
        (where_covers s.agent_id a n m h2 k2 m2)

  size-covers :
      (s v : ScratchpadStore) (rows : Dict ℕ Note)
      → ((m : Note) → is_visible v m ≡ true → is_visible s m ≡ true)
      → l0_size_bytes v rows ≤ l0_size_bytes s rows
  size-covers s v [] h = omega arith
  size-covers s v ((i, m) ∷ rows) h =
      bigger (is_visible v m) (is_visible s m) (level_eq m.level l0) (utf8_length m.content) (h m)
        (size-covers s v rows h)
    where
      bigger :
          (x y c : Bool) (n : ℕ) {p q : ℕ}
          → (x ≡ true → y ≡ true)
          → p ≤ q
          → (if x && c then n else 0) + p ≤ (if y && c then n else 0) + q
      bigger x y c n f le = ground arith

  -- The room that a store makes for a note is enough for each agent whose note it is.
  pub room-fits :
      (s : ScratchpadStore) (n : Note) (rows : Dict ℕ Note)
      → s.l0_max_bytes ≡ cap
      → is_visible s n ≡ true
      → fits_alone s n.level n.content ≡ true
      → l0_size_bytes (store_of session a cap) rows ≤ cap
      → l0_size_bytes (store_of session a cap) (room_for s n.level n.content rows)
          + hot_bytes (store_of session a cap) n
        ≤ cap
  unfolding room_for make_room
  room-fits s n rows same seen alone le =
      let v = store_of session a cap in
      let bytes = utf8_length n.content in
      let fuel = length rows in
      if-ind (λ (r : Dict ℕ Note). l0_size_bytes v r + hot_bytes v n ≤ cap) (level_eq n.level l0)
        (λ hot.
          fitting (is_visible v n) (level_eq n.level l0) bytes (prune-le fuel s v bytes rows) le
            (λ mine. size-covers s v (prune_until fuel s bytes rows) (λ m. covers s n m seen mine))
            (omega (
              arith,
              same,
              prune-fits fuel s bytes rows (omega arith)
                  (alone_fits (level_eq n.level l0) bytes s.l0_max_bytes hot alone),
            )))
        (λ cold. cold_fits (is_visible v n) (level_eq n.level l0) bytes cold le)
    where
      alone_fits :
          (hot : Bool) (bytes max_bytes : ℕ)
          → hot ≡ true
          → not (hot && ltb max_bytes bytes) ≡ true
          → bytes ≤ max_bytes
      alone_fits hot bytes max_bytes e h = ground arith

      fitting :
          (mine hot : Bool) (bytes : ℕ) {room_v rows_v room_s : ℕ}
          → room_v ≤ rows_v
          → rows_v ≤ cap
          → (mine ≡ true → room_v ≤ room_s)
          → room_s + bytes ≤ cap
          → room_v + (if mine && hot then bytes else 0) ≤ cap
      fitting mine hot bytes p q r t = ground arith

      cold_fits :
          (mine hot : Bool) (bytes : ℕ) {rows_v : ℕ}
          → hot ≡ false
          → rows_v ≤ cap
          → rows_v + (if mine && hot then bytes else 0) ≤ cap
      cold_fits mine hot bytes e le = ground arith
