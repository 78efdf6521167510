-- ===== src/Context/Idle/Due.antt =====
-- harness/agents/idle_trigger.py: when a session that was compacted is due again.
use harness_solomon.Base.{
  ℕ, ◌+◌, ◌*◌, String, Bool, true, false, some, List, [], ◌∷◌, ◌==◌, string_eq, nat_eq, keep,
  length, any, ==_refl, ◌&&◌, ◌||◌, not, leb, ◌≡◌, refl, ap, ◌∙◌, inl, inr, Bool-cases, arith,
}
use harness_solomon.Base.Dict.{get, put, get-put}
use harness_solomon.Context.Messages.{Message}
use harness_solomon.Context.Idle.{
  TriggerMode, TriggerSettings, IdleTrigger, token, turn, time, hybrid, count_user_turns,
  has_assistant_turn, turn_fired, time_fired, or_time, fired_by, should_trigger, mark_compacted,
}

-- By the turns, and by the time, since the session was marked; an interval of 0 is never over.
abbrev pub turns_over : TriggerSettings → ℕ → ℕ → Bool
turns_over s then_turns turns =
    not (s.compaction_turn_interval == 0) && leb (then_turns + s.compaction_turn_interval) turns

abbrev pub time_over : TriggerSettings → ℕ → ℕ → Bool
time_over s marked_at now =
    not (s.compaction_time_idle_minutes == 0)
    && leb (marked_at + s.compaction_time_idle_minutes * 60) now

abbrev pub due : TriggerMode → TriggerSettings → ℕ → ℕ → ℕ → ℕ → Bool
due token s then_turns turns marked_at now = false
due turn s then_turns turns marked_at now = turns_over s then_turns turns
due time s then_turns turns marked_at now = time_over s marked_at now
due hybrid s then_turns turns marked_at now =
    turns_over s then_turns turns || time_over s marked_at now

-- The messages that the user has said.
abbrev pub user_turns : List Message → ℕ
user_turns ms = length (keep (λ m. m.role == "user") ms)

count_user_turns-keep : (ms : List Message) → count_user_turns ms ≡ user_turns ms
unfolding count_user_turns
count_user_turns-keep [] = refl
count_user_turns-keep (m ∷ ms) = ground (arith, count_user_turns-keep ms)

get-put_same : (k : String) (v : ℕ) (m : List (String × ℕ)) → get k (put k v m) ≡ some v
get-put_same k v m = get-put k k v m ∙ rw (==_refl k)

module _ (s : TriggerSettings) (t : IdleTrigger) (session_id : String)
    (before now_messages : List Message) (marked_at now : ℕ) where
  turn_fired-mark_compacted :
      (session_id == "") ≡ false
      → turn_fired s (mark_compacted t session_id before marked_at) session_id now_messages ≡ (
        mark_compacted t session_id before marked_at,
        turns_over s (count_user_turns before) (count_user_turns now_messages),
      )
  unfolding turn_fired mark_compacted
  turn_fired-mark_compacted h =
      rw (h, get-put_same session_id (count_user_turns before) t.last_user_turn) (ground arith)

  time_fired-mark_compacted :
      (session_id == "") ≡ false
      → time_fired s (mark_compacted t session_id before marked_at) session_id now
        ≡ (mark_compacted t session_id before marked_at, time_over s marked_at now)
  unfolding time_fired mark_compacted
  time_fired-mark_compacted h =
      rw (h, get-put_same session_id marked_at t.last_compact_at) (ground arith)

  or_time-mark_compacted :
      (fired : Bool)
      → (session_id == "") ≡ false
      → or_time s session_id now (mark_compacted t session_id before marked_at, fired)
        ≡ (mark_compacted t session_id before marked_at, fired || time_over s marked_at now)
  unfolding or_time time_fired
  or_time-mark_compacted true h = refl
  or_time-mark_compacted false h = time_fired-mark_compacted h

  fired_by-mark_compacted :
      (mode : TriggerMode)
      → (session_id == "") ≡ false
      → fired_by mode s (mark_compacted t session_id before marked_at) session_id now_messages now
        ≡ (
          mark_compacted t session_id before marked_at,
          due mode s (count_user_turns before) (count_user_turns now_messages) marked_at now,
        )
  unfolding fired_by or_time
  fired_by-mark_compacted token h = refl
  fired_by-mark_compacted turn h = turn_fired-mark_compacted h
  fired_by-mark_compacted time h = time_fired-mark_compacted h
  fired_by-mark_compacted hybrid h =
      ap (λ (r : IdleTrigger × Bool). or_time s session_id now r) (turn_fired-mark_compacted h)
      ∙ or_time-mark_compacted
          (turns_over s (count_user_turns before) (count_user_turns now_messages)) h

  marked_looked :
      (session_id == "") ≡ false
      → should_trigger s
          (mark_compacted t session_id before marked_at)
          session_id
          now_messages
          false
          now
        ≡ (
          mark_compacted t session_id before marked_at,
          has_assistant_turn now_messages
              && due s.compaction_trigger s
                  (count_user_turns before)
                  (count_user_turns now_messages)
                  marked_at
                  now,
        )
  unfolding should_trigger
  marked_looked h = elim (Bool-cases (has_assistant_turn now_messages)) [
    | inl e ↦ rw (h, e) (fired_by-mark_compacted s.compaction_trigger h)
    | inr e ↦ rw (h, e)
  ]

  -- A trigger is marked for a session with a list of messages. Then it fires for another list of messages
  -- of the session exactly when an assistant has spoken in it and, as the mode says, it has as many user
  -- messages more than the first list as the interval of turns, or the time since the mark has reached the
  -- interval of time, an interval of 0 being never over; and looking does not change the trigger.
  pub should_trigger-mark_compacted :
      (session_id == "") ≡ false
      → should_trigger s
          (mark_compacted t session_id before marked_at)
          session_id
          now_messages
          false
          now
        ≡ (
          mark_compacted t session_id before marked_at,
          any (λ m. m.role == "assistant") now_messages
              && due s.compaction_trigger s
                  (user_turns before)
                  (user_turns now_messages)
                  marked_at
                  now,
        )
  should_trigger-mark_compacted h =
      marked_looked h
      ∙ ap
          (λ (k : ℕ × ℕ). (
            mark_compacted t session_id before marked_at,
            has_assistant_turn now_messages && due s.compaction_trigger s k.0 k.1 marked_at now,
          ))
          (ap (λ (n : ℕ). (n, count_user_turns now_messages)) (count_user_turns-keep before)
            ∙ ap (λ (n : ℕ). (user_turns before, n)) (count_user_turns-keep now_messages))
