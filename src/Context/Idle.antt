-- ===== src/Context/Idle.antt =====
-- harness/agents/idle_trigger.py: when a session is due by its turns or by the time. Times are seconds.
pub mod Due
use harness_solomon.Base.{
  ℕ, suc, ◌+◌, ◌*◌, String, Bool, true, false, Option, none, some, List, [], ◌∷◌, ◌==◌, string_eq,
  nat_eq, leb, any, if◌then◌else◌,
}
use harness_solomon.Base.Dict.{Dict, get, put, pop}
use harness_solomon.Context.Messages.{Message}

pub data TriggerMode : Type 0 where
  token turn time hybrid : TriggerMode

-- The settings, where an interval below 1 is 0.
pub record TriggerSettings : Type 0 where
  pub compaction_trigger : TriggerMode
  pub compaction_turn_interval : ℕ
  pub compaction_time_idle_minutes : ℕ

pub record IdleTrigger : Type 0 where
  pub last_compact_at : Dict String ℕ
  pub last_user_turn : Dict String ℕ

-- `_count_user_turns`.
unfoldable pub count_user_turns : List Message → ℕ
count_user_turns [] = 0
count_user_turns (m ∷ ms) =
    let rest = count_user_turns ms in if m.role == "user" then suc rest else rest

-- `_has_assistant_turn`.
abbrev pub has_assistant_turn : List Message → Bool
has_assistant_turn = any λ m. m.role == "assistant"

abbrev pub turn_since : IdleTrigger → String → ℕ → ℕ → Option ℕ → IdleTrigger × Bool
unfolding put
turn_since t session_id interval turns none =
    (record t { last_user_turn = put session_id turns t.last_user_turn }, false)
turn_since t session_id interval turns (some last) = (t, leb (last + interval) turns)

-- `_turn_fired`.
unfoldable pub turn_fired :
    TriggerSettings → IdleTrigger → String → List Message → IdleTrigger × Bool
unfolding turn_since count_user_turns get
turn_fired s t session_id ms =
    if s.compaction_turn_interval == 0
    then (t, false)
    else turn_since t session_id s.compaction_turn_interval (count_user_turns ms)
        (get session_id t.last_user_turn)

abbrev pub time_since : IdleTrigger → String → ℕ → ℕ → Option ℕ → IdleTrigger × Bool
unfolding put
time_since t session_id minutes now none =
    (record t { last_compact_at = put session_id now t.last_compact_at }, false)
time_since t session_id minutes now (some last) = (t, leb (last + minutes * 60) now)

-- `_time_fired`.
unfoldable pub time_fired : TriggerSettings → IdleTrigger → String → ℕ → IdleTrigger × Bool
unfolding time_since get
time_fired s t session_id now =
    if s.compaction_time_idle_minutes == 0
    then (t, false)
    else time_since t session_id s.compaction_time_idle_minutes now
        (get session_id t.last_compact_at)

-- `or`, which leaves its second part alone when the first is true.
abbrev pub or_time : TriggerSettings → String → ℕ → IdleTrigger × Bool → IdleTrigger × Bool
unfolding time_fired
or_time s session_id now (t, true) = (t, true)
or_time s session_id now (t, false) = time_fired s t session_id now

abbrev pub fired_by :
    TriggerMode → TriggerSettings → IdleTrigger → String → List Message → ℕ → IdleTrigger × Bool
unfolding turn_fired or_time
fired_by token s t session_id ms now = (t, false)
fired_by turn s t session_id ms now = turn_fired s t session_id ms
fired_by time s t session_id ms now = time_fired s t session_id now
fired_by hybrid s t session_id ms now = or_time s session_id now (turn_fired s t session_id ms)

-- `should_trigger`.
unfoldable pub should_trigger :
    TriggerSettings → IdleTrigger → String → List Message → Bool → ℕ → IdleTrigger × Bool
unfolding fired_by
should_trigger s t session_id ms force now =
    if force
    then (t, false)
    else if session_id == ""
    then (t, false)
    else if has_assistant_turn ms
    then fired_by s.compaction_trigger s t session_id ms now
    else (t, false)

-- `mark_compacted` with messages.
unfoldable pub mark_compacted : IdleTrigger → String → List Message → ℕ → IdleTrigger
unfolding put count_user_turns
mark_compacted t session_id ms now = if session_id == "" then t else record t {
  last_compact_at = put session_id now t.last_compact_at;
  last_user_turn = put session_id (count_user_turns ms) t.last_user_turn;
}

-- `reset`.
unfoldable pub reset : IdleTrigger → String → IdleTrigger
unfolding pop
reset t session_id = record t {
  last_compact_at = pop session_id t.last_compact_at;
  last_user_turn = pop session_id t.last_user_turn;
}
