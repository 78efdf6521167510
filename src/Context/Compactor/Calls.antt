-- ===== src/Context/Compactor/Calls.antt =====
-- harness/context/compaction.py: `maybe_compact` and `force_compact`.
use harness_solomon.Base.{
  ℕ, ◌-◌, String, Bool, true, false, Option, none, some, List, [], ◌∷◌, ◌++◌, ltb, leb, length,
  take, if◌then◌else◌,
}
use harness_solomon.Base.Text.{Text, codes}
use harness_solomon.Base.Search.{find_text, before}
use harness_solomon.Context.Messages.{Message, estimate_tokens}
use harness_solomon.Context.CompactStore.{CompactRecord}
use harness_solomon.Context.Idle.{IdleTrigger, should_trigger, mark_compacted}
use harness_solomon.Context.Compactor.{
  Settings, Outside, Compactor, Slow, run_slow_path, rebuild_from_cache, emit_on_compaction,
  cached_record,
}

-- The session of a call, what the window of its model allows, and the times at which the clock is read.
pub record Call : Type 0 where
  pub session_id : String
  pub threshold : ℕ
  pub target : ℕ
  pub force_idle_check : Bool
  pub first_check : ℕ
  pub second_check : ℕ
  pub marked_at : ℕ

unfoldable pub mark : Option IdleTrigger → Call → List Message → Option IdleTrigger
unfolding mark_compacted
mark none call ms = none
mark (some t) call ms = some (mark_compacted t call.session_id ms call.marked_at)

module _ (o : Outside) (s : Settings) (prompt : Text) where
  -- After a slow path the trigger is marked with the messages before the verdict.
  abbrev pub finish : Compactor → Call → Slow → List Message × Compactor
  unfolding mark
  finish c call slow = (
    emit_on_compaction o s false slow.compacted slow.trimmed,
    record { store = slow.store; idle_trigger = mark c.idle_trigger call slow.compacted },
  )

  abbrev pub from_cache :
      Compactor → Call → List Message → Option CompactRecord → List Message × Compactor
  unfolding finish run_slow_path rebuild_from_cache estimate_tokens
  from_cache c call ms (some cached) = (rebuild_from_cache o s ms cached.summary, c)
  from_cache c call ms none = finish c call (
      run_slow_path o s prompt c.store call.session_id call.target
        (estimate_tokens o.json_length ms) s.compaction_persistent_store ms)

  -- `maybe_compact` from the threshold on.
  unfoldable pub by_tokens : Compactor → Call → List Message → List Message × Compactor
  unfolding from_cache cached_record
  by_tokens c call ms =
      if leb (estimate_tokens o.json_length ms) call.threshold
      then (ms, c)
      else from_cache c call ms
          (cached_record o s.compaction_persistent_store call.session_id ms c.store)

  abbrev pub idle_slow : Compactor → Call → List Message → Slow
  unfolding run_slow_path
  idle_slow c call ms =
      run_slow_path o s prompt c.store call.session_id call.target
        (estimate_tokens o.json_length ms) false ms

  -- When the first look at the trigger does not fire, the code looks again, and cuts the messages if it
  -- fires then, before it goes on to the threshold.
  abbrev pub second_look :
      Compactor → Call → List Message → IdleTrigger × Bool → List Message × Compactor
  unfolding by_tokens idle_slow
  second_look c call ms (t, true) =
      by_tokens (record c { idle_trigger = some t }) call (idle_slow c call ms).compacted
  second_look c call ms (t, false) = by_tokens (record c { idle_trigger = some t }) call ms

  abbrev pub first_look :
      Compactor → Call → List Message → IdleTrigger × Bool → List Message × Compactor
  unfolding second_look finish should_trigger idle_slow
  first_look c call ms (t, true) =
      finish (record c { idle_trigger = some t }) call (idle_slow c call ms)
  first_look c call ms (t, false) =
      second_look c call ms (should_trigger s.trigger t call.session_id ms false call.second_check)

  unfoldable pub by_trigger :
      Compactor → Call → List Message → Option IdleTrigger → List Message × Compactor
  unfolding first_look by_tokens should_trigger
  by_trigger c call ms none = by_tokens c call ms
  by_trigger c call ms (some t) =
      if call.force_idle_check
      then first_look c call ms
          (should_trigger s.trigger t call.session_id ms false call.first_check)
      else by_tokens c call ms

  -- `maybe_compact`.
  unfoldable pub maybe_compact : Compactor → Call → List Message → List Message × Compactor
  unfolding by_trigger
  maybe_compact c call [] = ([], c)
  maybe_compact c call (m ∷ ms) =
      if s.compaction_enabled then by_trigger c call (m ∷ ms) c.idle_trigger else (m ∷ ms, c)

pub record CompactResult : Type 0 where
  pub original_tokens : ℕ
  pub compacted_tokens : ℕ
  pub summary_preview : Text
  pub cache_hit : Bool

-- `saved_tokens`, which is not below 0.
abbrev pub saved_tokens : CompactResult → ℕ
saved_tokens r = r.original_tokens - r.compacted_tokens

abbrev pub content_of : Message → Text
content_of m = elim m.content [ none ↦ [] | some content ↦ content ]

abbrev pub or_older : Text → Option Text → Option Text
unfolding find_text
or_older content (some tail) = some tail
or_older content none = find_text (codes "[Conversation summary]") content

-- The content of a message from the marker on.
unfoldable pub marked : Message → Option Text
unfolding or_older
marked m = or_older (content_of m) (find_text (codes "[Compaction summary") (content_of m))

abbrev pub up_to_blank : Option Text → Option Text → Option Text
unfolding before
up_to_blank none later = later
up_to_blank (some tail) later = some (before (10 ∷ 10 ∷ []) tail)

-- The loop that looks for the summary.
unfoldable pub find_preview : List Message → Option Text
unfolding marked up_to_blank
find_preview [] = none
find_preview (m ∷ ms) = up_to_blank (marked m) (find_preview ms)

abbrev pub or_reason : Option Text → Text
or_reason none = codes "(summary blocked by hook)"
or_reason (some []) = codes "(no summary generated)"
or_reason (some (c ∷ preview)) = c ∷ preview

abbrev pub shorten : Text → Text
shorten preview = if ltb 200 (length preview) then take 200 preview ++ 8230 ∷ [] else preview

module _ (o : Outside) (s : Settings) (prompt : Text) where
  abbrev pub forced : Compactor → Slow → ℕ → CompactResult × Compactor
  unfolding find_preview estimate_tokens
  forced c slow tokens =
      let compacted = emit_on_compaction o s false slow.compacted slow.trimmed in
      (
        record {
          original_tokens = tokens;
          compacted_tokens = estimate_tokens o.json_length compacted;
          summary_preview = shorten (or_reason (find_preview compacted));
          cache_hit = false;
        },
        record c { store = slow.store },
      )

  abbrev pub force_found :
      Compactor → Call → Bool → List Message → Option CompactRecord → CompactResult × Compactor
  unfolding forced run_slow_path
  force_found c call cache_enabled ms (some cached) = (
    record {
      original_tokens = estimate_tokens o.json_length ms;
      compacted_tokens = cached.compacted_tokens;
      summary_preview = shorten cached.summary;
      cache_hit = true;
    },
    c,
  )
  force_found c call cache_enabled ms none =
      let tokens = estimate_tokens o.json_length ms in
      forced c
        (run_slow_path o s prompt c.store call.session_id call.target tokens cache_enabled ms)
        tokens

  abbrev pub nothing : CompactResult
  nothing = record {
    original_tokens = 0;
    compacted_tokens = 0;
    summary_preview = [];
    cache_hit = false;
  }

  -- `force_compact`.
  unfoldable pub force_compact : Compactor → Call → Bool → List Message → CompactResult × Compactor
  unfolding force_found cached_record
  force_compact c call bypass_cache [] = (nothing, c)
  force_compact c call bypass_cache (m ∷ ms) =
      let cache_enabled = if bypass_cache then false else s.compaction_persistent_store in
      force_found c call cache_enabled (m ∷ ms)
        (cached_record o cache_enabled call.session_id (m ∷ ms) c.store)
