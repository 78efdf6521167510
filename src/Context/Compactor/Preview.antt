-- ===== src/Context/Compactor/Preview.antt =====
-- harness/context/compaction.py: the preview that `force_compact` returns.
use harness_solomon.Base.{
  ℕ, Bool, false, Option, none, some, List, [], ◌∷◌, ◌==◌, string_eq, nat_eq, leb, ◌&&◌,
  if◌then◌else◌, ◌≡◌, refl, ap, ◌∙◌, inl, inr, Bool-cases, if-ind,
}
use harness_solomon.Base.Text.{Text}
use harness_solomon.Base.Search.{starts_with, find_text, before}
use harness_solomon.Hooks.Context.{allow}
use harness_solomon.Context.Messages.{Message, estimate_tokens}
use harness_solomon.Context.Window.{
  system_part, marker, summary_message, inject_summary, sliding_window, extract_dropped,
}
use harness_solomon.Context.Compactor.{
  Settings, Outside, Compactor, run_slow_path, summary_of, on_verdict, emit_on_compaction,
  cached_record,
}
use harness_solomon.Context.Compactor.Calls.{
  Call, marked, up_to_blank, find_preview, shorten, or_reason, force_compact,
}

find_preview-summary_message :
    (summary : Text) (ms : List Message) → find_preview (summary_message summary ∷ ms) ≡ some marker
unfolding find_preview marked find_text starts_with before
find_preview-summary_message summary ms = refl

unmarked : (o : Option Text) → up_to_blank o none ≡ none → o ≡ none
unfolding before
unmarked none h = refl
unmarked (some tail) h = absurd cc

find_preview_system :
    (m : Message) (ms : List Message)
    → find_preview (m ∷ []) ≡ none
    → find_preview (m ∷ ms) ≡ find_preview ms
unfolding find_preview before
find_preview_system m ms h =
    ap (λ (o : Option Text). up_to_blank o (find_preview ms)) (unmarked (marked m) h)

find_preview-inject_summary :
    (ms : List Message) (summary : Text)
    → find_preview (system_part ms) ≡ none
    → find_preview (inject_summary ms summary) ≡ some marker
unfolding inject_summary
find_preview-inject_summary [] summary h = find_preview-summary_message summary []
find_preview-inject_summary (m ∷ ms) summary h = elim (Bool-cases (m.role == "system")) [
  | inl e ↦ rw e (
      find_preview_system m (summary_message summary ∷ ms) (rw e at h)
      ∙ find_preview-summary_message summary ms)
  | inr e ↦ rw e (find_preview-summary_message summary (m ∷ ms))
]

emit_allowed :
    (o : Outside) (s : Settings) (compacted trimmed : List Message)
    → o.verdict ≡ allow
    → emit_on_compaction o s false compacted trimmed ≡ compacted
emit_allowed o s compacted trimmed h =
    if-ind (λ (l : List Message). l ≡ compacted) (s.hooks_on_compaction_skip_cache_hit && false)
      {y = on_verdict o.verdict compacted trimmed} (λ e. refl) (λ e. rw h)

-- When `force_compact` finds nothing in the cache, its window is over the target, a model answers and
-- the hook allows it, the preview is the marker alone, whatever the summary, unless the system message
-- has a marker in it.
pub force_compact_preview :
    (o : Outside) (s : Settings) (prompt : Text) (c : Compactor) (call : Call) (bypass_cache : Bool)
    (m : Message) (ms : List Message) (a : ℕ) (summary : Text)
    → cached_record o
        (if bypass_cache then false else s.compaction_persistent_store)
        call.session_id
        (m ∷ ms)
        c.store
      ≡ none
    → leb
        (estimate_tokens o.json_length
          (sliding_window o.json_length s.compaction_keep_recent_turns call.target (m ∷ ms)))
        call.target
      ≡ false
    → summary_of o s prompt (
        extract_dropped s.compaction_keep_recent_turns
          (m ∷ ms)
          (sliding_window o.json_length s.compaction_keep_recent_turns call.target (m ∷ ms)))
      ≡ a ∷ summary
    → o.verdict ≡ allow
    → find_preview (
        system_part
          (sliding_window o.json_length s.compaction_keep_recent_turns call.target (m ∷ ms)))
      ≡ none
    → (force_compact o s prompt c call bypass_cache (m ∷ ms)).0.summary_preview ≡ marker
unfolding force_compact run_slow_path
force_compact_preview o s prompt c call bypass_cache m ms a summary miss over made allowed plain =
    let window = sliding_window o.json_length s.compaction_keep_recent_turns call.target (m ∷ ms) in
    let compacted = inject_summary window (a ∷ summary) in
    rw (miss, over, made)
      (ap (λ (l : List Message). shorten (or_reason (find_preview l)))
          (emit_allowed o s compacted window allowed)
        ∙ ap (λ (found : Option Text). shorten (or_reason found))
            (find_preview-inject_summary window (a ∷ summary) plain))
