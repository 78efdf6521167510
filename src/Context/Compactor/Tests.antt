-- ===== src/Context/Compactor/Tests.antt =====
-- harness/context: tests.
use harness_solomon.Base.{
  ℕ, String, true, false, Option, none, some, List, [], ◌∷◌, ◌++◌, ◌≤◌, ◌≡◌, ◌⊎◌, refl, string_eq,
  arith,
}
use harness_solomon.Base.Text.{Text, codes, strip, lstrip, is_space}
use harness_solomon.Hooks.Context.{allow}
use harness_solomon.Context.Messages.{Message, estimate_tokens, keep_for_pairs}
use harness_solomon.Context.Window.{
  drop, recent_start, protected, candidates, add_back, system_part, marker, sliding_window,
  extract_dropped, inject_summary,
}
use harness_solomon.Context.Window.Fits.{sliding_window_fits}
use harness_solomon.Context.Idle.{
  TriggerSettings, IdleTrigger, hybrid, should_trigger, mark_compacted, count_user_turns,
}
use harness_solomon.Context.Idle.Due.{should_trigger-mark_compacted}
use harness_solomon.Context.Compactor.{
  Settings, Outside, Compactor, summarise, ask_models, cached_record,
}
use harness_solomon.Context.Compactor.Cached.{maybe_compact_cached}
use harness_solomon.Context.Compactor.Calls.{
  Call, maybe_compact, force_compact, find_preview, marked,
}
use harness_solomon.Context.Compactor.Cut.{maybe_compact_forgets}
use harness_solomon.Context.Compactor.Preview.{force_compact_preview}

abbrev says : String → String → Message
says role content = record {
  role = role;
  content = some (codes content);
  tool_calls = [];
  tool_call_id = none;
}

-- Each message counts as 40 characters, which is 10 tokens.
abbrev forty : Message → ℕ
forty m = 40

abbrev talk : List Message
talk =
    says "system" "be brief"
    ∷ says "user" "one"
    ∷ says "assistant" "two"
    ∷ says "user" "three"
    ∷ says "assistant" "four"
    ∷ []

-- There is room for one more message, and it is not used.
forgets :
    sliding_window forty 2 40 talk
    ≡ says "system" "be brief" ∷ says "user" "three" ∷ says "assistant" "four" ∷ []
unfolding sliding_window protected keep_for_pairs estimate_tokens
forgets = refl

sliding_window_fits_example :
    (front : List Message) × (sliding_window forty 2 40 talk
      ≡ front ++ drop (recent_start 2 talk) talk)
    × ((front ≡ system_part talk) ⊎ (estimate_tokens forty (sliding_window forty 2 40 talk) ≤ 40))
sliding_window_fits_example = sliding_window_fits forty 2 40 talk

abbrev short : List Message
short = says "user" "one" ∷ []

abbrev trigger_settings : TriggerSettings
trigger_settings = record {
  compaction_trigger = hybrid;
  compaction_turn_interval = 2;
  compaction_time_idle_minutes = 1;
}

abbrev settings : Settings
settings = record {
  compaction_enabled = true;
  compaction_keep_recent_turns = 2;
  compaction_persistent_store = true;
  hooks_on_compaction_skip_cache_hit = true;
  summariser = "t1";
  fallback = "t2";
  max_input_tokens = 16000;
  trigger = trigger_settings;
}

abbrev outside : Option Text → Outside
outside answer = record {
  json_length = forty;
  dumps = λ ms. codes "json";
  source_hash = λ ms. codes "hash";
  completion = λ model ms. answer;
  verdict = allow;
  reads = true;
  writes = true;
  now = 5;
  duration_ms = 1;
}

abbrev call : ℕ → Call
call target = record {
  session_id = "s";
  threshold = 45;
  target = target;
  force_idle_check = false;
  first_check = 0;
  second_check = 0;
  marked_at = 0;
}

abbrev compactor : Compactor
compactor = record { store = some []; idle_trigger = none }

maybe_compact_forgets_example :
    (maybe_compact (outside (some (codes "sum"))) settings [] compactor (call 30) talk).0
    ≡ system_part talk ++ drop (recent_start 2 talk) talk
unfolding keep_for_pairs estimate_tokens cached_record
maybe_compact_forgets_example =
    maybe_compact_forgets (outside (some (codes "sum"))) settings [] compactor (call 30) talk refl
      refl (refl, (refl, (refl, (refl, (refl, tt))))) (omega arith) (omega arith) refl (omega arith)

abbrev trigger : IdleTrigger
trigger = record { last_compact_at = []; last_user_turn = [] }

abbrev ready : Compactor
ready = record { store = some []; idle_trigger = some trigger }

maybe_compact_cached_example :
    (maybe_compact
      (outside none)
      settings
      []
      (maybe_compact (outside (some (codes " sum "))) settings [] ready (call 20) talk).1
      (call 20)
      talk).0
    ≡ inject_summary (sliding_window forty 2 1000000000 talk) (codes "sum")
unfolding cached_record sliding_window protected keep_for_pairs estimate_tokens add_back candidates
    summarise ask_models extract_dropped strip lstrip is_space
maybe_compact_cached_example =
    maybe_compact_cached (outside (some (codes " sum "))) (outside none) settings [] []
      (some trigger) (call 20) (call 20) (says "system" "be brief")
      (says "user" "one"
        ∷ says "assistant" "two"
        ∷ says "user" "three"
        ∷ says "assistant" "four"
        ∷ [])
      b's' (codes "um") refl refl refl refl refl refl refl refl refl refl refl refl refl

force_compact_preview_example :
    (force_compact
      (outside (some (codes " sum ")))
      settings
      []
      compactor
      (call 20)
      true
      talk).0.summary_preview
    ≡ marker
unfolding cached_record sliding_window protected keep_for_pairs estimate_tokens add_back candidates
    summarise ask_models extract_dropped strip lstrip is_space find_preview marked
force_compact_preview_example =
    force_compact_preview (outside (some (codes " sum "))) settings [] compactor (call 20) true
      (says "system" "be brief")
      (says "user" "one"
        ∷ says "assistant" "two"
        ∷ says "user" "three"
        ∷ says "assistant" "four"
        ∷ [])
      b's' (codes "um") refl refl refl refl refl

should_trigger-mark_compacted_example :
    should_trigger trigger_settings (mark_compacted trigger "s" short 100) "s" talk false 170
    ≡ (mark_compacted trigger "s" short 100, true)
unfolding count_user_turns
should_trigger-mark_compacted_example =
    should_trigger-mark_compacted trigger_settings trigger "s" short talk 100 170 refl
