-- ===== src/Context/Compactor/Cut.antt =====
-- harness/context/compaction.py: a conversation that is cut with no summary of what is gone.
use harness_solomon.Base.{
  ◌≤◌, ◌<◌, Bool, true, false, none, List, [], ◌∷◌, ◌++◌, leb, length, if-ind, ◌≡◌, refl, ◌∙◌,
  arith,
}
use harness_solomon.Base.Text.{Text}
use harness_solomon.Hooks.Context.{Decision, allow, block, modify}
use harness_solomon.Context.Messages.{Message, estimate_tokens}
use harness_solomon.Context.Window.{drop, keep_recent, recent_start, system_part, sliding_window}
use harness_solomon.Context.Window.Shape.{IsOrdered, sliding_window_forgets}
use harness_solomon.Context.Compactor.{
  Settings, Outside, Compactor, run_slow_path, on_verdict, emit_on_compaction, cached_record,
}
use harness_solomon.Context.Compactor.Calls.{Call, by_tokens, maybe_compact}

on_verdict_same : (d : Decision) (ms : List Message) → on_verdict d ms ms ≡ ms
on_verdict_same allow ms = refl
on_verdict_same block ms = refl
on_verdict_same modify ms = refl

module _ (o : Outside) (s : Settings) (prompt : Text) where
  emit_same : (cache_hit : Bool) (ms : List Message) → emit_on_compaction o s cache_hit ms ms ≡ ms
  emit_same cache_hit ms =
      if-ind (λ (l : List Message). l ≡ ms) _ (λ e. refl) (λ e. on_verdict_same o.verdict ms)

  -- Of a conversation over the threshold that is longer than its recent messages, with no tool message
  -- before its call, no trigger and nothing in the cache: if the system message and the recent messages
  -- are within the target, `maybe_compact` returns just these, whatever the models would answer and
  -- whatever the hook says.
  pub maybe_compact_forgets :
      (c : Compactor) (call : Call) (ms : List Message)
      → s.compaction_enabled ≡ true
      → c.idle_trigger ≡ none
      → IsOrdered ms
      → keep_recent s.compaction_keep_recent_turns < length ms
      → call.threshold < estimate_tokens o.json_length ms
      → cached_record o s.compaction_persistent_store call.session_id ms c.store ≡ none
      → estimate_tokens o.json_length
          (system_part ms ++ drop (recent_start s.compaction_keep_recent_turns ms) ms)
        ≤ call.target
      → (maybe_compact o s prompt c call ms).0
        ≡ system_part ms ++ drop (recent_start s.compaction_keep_recent_turns ms) ms
  unfolding maybe_compact by_tokens run_slow_path
  maybe_compact_forgets c call [] on idle o' long over miss fits = absurd (omega arith)
  maybe_compact_forgets c call (m ∷ ms) on idle ordered long over miss fits =
      let turns = s.compaction_keep_recent_turns in
      let all = m ∷ ms in
      let kept = system_part all ++ drop (recent_start turns all) all in
      let window = sliding_window_forgets o.json_length turns call.target all ordered long in
      let above : leb (estimate_tokens o.json_length all) call.threshold ≡ false = ground arith in
      let within : leb
            (estimate_tokens o.json_length (sliding_window o.json_length turns call.target all))
            call.target
          ≡ true =
        rw window (ground arith) in
      rw (on, idle, above, miss, within)
        (emit_same false (sliding_window o.json_length turns call.target all) ∙ window)
