-- ===== src/Context/Compactor.antt =====
-- harness/context/compaction.py: ContextCompactor. What the process outside answers is a record,
-- Outside; the threshold and the target are those of the model. The hook before a compaction, the
-- write to memory, metrics and the log do not change the result and are left out.
pub mod Cached
pub mod Calls
pub mod Preview
pub mod Cut
mod Tests
use harness_solomon.Base.{
  ℕ, ◌-◌, ◌*◌, String, Bool, true, false, Option, none, some, List, [], ◌∷◌, ◌++◌, ◌==◌, string_eq,
  ◌&&◌, not, ltb, leb, length, if◌then◌else◌,
}
use harness_solomon.Base.Text.{Text, codes, strip}
use harness_solomon.Hooks.Context.{Decision, allow, block, modify}
use harness_solomon.Context.Messages.{Message, estimate_tokens}
use harness_solomon.Context.Window.{drop, sliding_window, extract_dropped, inject_summary}
use harness_solomon.Context.CompactStore.{CompactRecord, lookup_cached, insert}
use harness_solomon.Context.Idle.{TriggerSettings, IdleTrigger, should_trigger, mark_compacted}

-- The settings that the compactor reads; its two models are those with the defaults put in.
pub record Settings : Type 0 where
  pub compaction_enabled : Bool
  pub compaction_keep_recent_turns : ℕ
  pub compaction_persistent_store : Bool
  pub hooks_on_compaction_skip_cache_hit : Bool
  pub summariser : String
  pub fallback : String
  pub max_input_tokens : ℕ
  pub trigger : TriggerSettings

-- The JSON text of messages and its length, their fingerprint, what a model answers (`none` is an
-- exception), what `safe_fire` returns for OnCompaction, and whether the store can be read and written.
pub record Outside : Type 0 where
  pub json_length : Message → ℕ
  pub dumps : List Message → Text
  pub source_hash : List Message → Text
  pub completion : String → List Message → Option Text
  pub verdict : Decision
  pub reads : Bool
  pub writes : Bool
  pub now : ℕ
  pub duration_ms : ℕ

-- The cache and the trigger, either of which may be missing.
pub record Compactor : Type 0 where
  pub store : Option (List CompactRecord)
  pub idle_trigger : Option IdleTrigger

abbrev pub message : String → Text → Message
message role content = record {
  role = role;
  content = some content;
  tool_calls = [];
  tool_call_id = none;
}

-- The last characters of the text, behind an ellipsis if there are more.
abbrev pub last_chars : ℕ → Text → Text
last_chars max_chars blob =
    if ltb max_chars (length blob) then 8230 ∷ drop (length blob - max_chars) blob else blob

abbrev pub pre_trimmed : Outside → Settings → List Message → List Message
unfolding estimate_tokens
pre_trimmed o s dropped =
    if ltb s.max_input_tokens (estimate_tokens o.json_length dropped)
    then message "user" (
        codes "Earlier turns (truncated):"
        ++ 10 ∷ last_chars (s.max_input_tokens * 4) (o.dumps dropped))
      ∷ []
    else dropped

abbrev pub or_next : Text → Text → Text
or_next [] next = next
or_next (c ∷ content) next = c ∷ content

abbrev pub answered : Option Text → Text → Text
unfolding strip
answered none next = next
answered (some content) next = or_next (strip content) next

-- The models in turn; the empty text stands for no summary.
unfoldable pub ask_models : Outside → List Message → List String → Text
unfolding answered
ask_models o ms [] = []
ask_models o ms (model ∷ models) =
    let next = ask_models o ms models in
    if model == "" then next else answered (o.completion model ms) next

-- `_summarise`, with the text of the prompt.
unfoldable pub summarise : Outside → Settings → Text → List Message → Text
unfolding pre_trimmed ask_models
summarise o s prompt dropped =
    ask_models o (message "system" prompt ∷ message "user" (o.dumps (pre_trimmed o s dropped)) ∷ [])
      (s.summariser ∷ s.fallback ∷ [])

-- `_rebuild_from_cache`.
unfoldable pub rebuild_from_cache : Outside → Settings → List Message → Text → List Message
unfolding sliding_window inject_summary
rebuild_from_cache o s ms summary =
    inject_summary (sliding_window o.json_length s.compaction_keep_recent_turns 1000000000 ms)
      summary

abbrev pub or_unknown : String → String
or_unknown model = if model == "" then "unknown" else model

abbrev pub compact_record :
    Outside → Settings → String → ℕ → List Message → List Message → Text → CompactRecord
unfolding estimate_tokens
compact_record o s session_id tokens ms compacted summary = record {
  session_id = session_id;
  version = 0;
  source_hash = o.source_hash ms;
  original_tokens = tokens;
  compacted_tokens = estimate_tokens o.json_length compacted;
  original_message_count = length ms;
  kept_message_ids = [];
  summary = summary;
  model = or_unknown s.summariser;
  trigger_kind = "auto_load_history";
  outcome = "ok";
  created_at = o.now;
  duration_ms = o.duration_ms;
}

-- The cache serves a call if it is switched on and the session has a name.
abbrev pub serves : Bool → String → Bool
serves cache_enabled session_id = cache_enabled && not (session_id == "unknown")

-- `_persist_compact`, best effort.
abbrev pub persist :
    Bool → CompactRecord → Option (List CompactRecord) → Option (List CompactRecord)
unfolding insert
persist writes r none = none
persist writes r (some rows) = some (if writes then (insert rows r).0 else rows)

-- What `_run_slow_path` returns: the result, the window without a summary, and the cache.
pub record Slow : Type 0 where
  pub compacted : List Message
  pub trimmed : List Message
  pub store : Option (List CompactRecord)

abbrev pub with_summary :
    Outside
    → Settings
    → Option (List CompactRecord)
    → String
    → ℕ
    → Bool
    → List Message
    → List Message
    → Text
    → Slow
unfolding inject_summary persist
with_summary o s store session_id tokens cache_enabled ms trimmed [] = record {
  compacted = trimmed;
  trimmed = trimmed;
  store = store;
}
with_summary o s store session_id tokens cache_enabled ms trimmed (c ∷ summary) =
    let compacted = inject_summary trimmed (c ∷ summary) in
    record {
      compacted = compacted;
      trimmed = trimmed;
      store =
          if serves cache_enabled session_id
          then persist o.writes (compact_record o s session_id tokens ms compacted (c ∷ summary))
              store
          else store;
    }

abbrev pub summary_of : Outside → Settings → Text → List Message → Text
unfolding summarise
summary_of o s prompt [] = []
summary_of o s prompt (m ∷ dropped) = summarise o s prompt (m ∷ dropped)

-- `_run_slow_path`.
unfoldable pub run_slow_path :
    Outside
    → Settings
    → Text
    → Option (List CompactRecord)
    → String
    → ℕ
    → ℕ
    → Bool
    → List Message
    → Slow
unfolding sliding_window extract_dropped with_summary summary_of estimate_tokens
run_slow_path o s prompt store session_id target tokens cache_enabled ms =
    let trimmed = sliding_window o.json_length s.compaction_keep_recent_turns target ms in
    if leb (estimate_tokens o.json_length trimmed) target
    then record { compacted = trimmed; trimmed = trimmed; store = store }
    else with_summary o s store session_id tokens cache_enabled ms trimmed
        (summary_of o s prompt (extract_dropped s.compaction_keep_recent_turns ms trimmed))

-- `_emit_on_compaction`, which is given the window without a summary.
abbrev pub on_verdict : Decision → List Message → List Message → List Message
on_verdict block compacted trimmed = trimmed
on_verdict allow compacted trimmed = compacted
on_verdict modify compacted trimmed = compacted

abbrev pub emit_on_compaction :
    Outside → Settings → Bool → List Message → List Message → List Message
emit_on_compaction o s cache_hit compacted trimmed =
    if s.hooks_on_compaction_skip_cache_hit && cache_hit
    then compacted
    else on_verdict o.verdict compacted trimmed

abbrev pub lookup_in :
    Outside → String → List Message → Option (List CompactRecord) → Option CompactRecord
unfolding lookup_cached
lookup_in o session_id ms none = none
lookup_in o session_id ms (some rows) =
    if o.reads then lookup_cached session_id (o.source_hash ms) rows else none

-- The look into the cache; `none` also when it is not served.
unfoldable pub cached_record :
    Outside → Bool → String → List Message → Option (List CompactRecord) → Option CompactRecord
unfolding lookup_in
cached_record o cache_enabled session_id ms store =
    if serves cache_enabled session_id then lookup_in o session_id ms store else none
