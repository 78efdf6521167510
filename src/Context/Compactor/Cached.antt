-- ===== src/Context/Compactor/Cached.antt =====
-- harness/context/compaction.py: the second time the summary comes from the cache.
use harness_solomon.Base.{
  ℕ, String, Bool, true, false, Option, none, some, List, ◌∷◌, string_eq, leb, if◌then◌else◌, ◌≡◌,
  refl, ap, ◌∙◌,
}
use harness_solomon.Base.Text.{Text}
use harness_solomon.Context.Messages.{Message, estimate_tokens}
use harness_solomon.Context.Window.{sliding_window, extract_dropped, inject_summary}
use harness_solomon.Context.CompactStore.{CompactRecord, lookup_cached, with_version, insert}
use harness_solomon.Context.CompactStore.Latest.{lookup_cached-insert}
use harness_solomon.Context.Idle.{IdleTrigger}
use harness_solomon.Context.Compactor.{
  Settings, Outside, Compactor, run_slow_path, summary_of, serves, compact_record, cached_record,
  rebuild_from_cache,
}
use harness_solomon.Context.Compactor.Calls.{Call, mark, by_tokens, by_trigger, maybe_compact}

-- The record that a call writes.
written : Outside → Settings → Call → List Message → Text → CompactRecord
written o s call ms summary =
    compact_record o s call.session_id (estimate_tokens o.json_length ms) ms
      (inject_summary (sliding_window o.json_length s.compaction_keep_recent_turns call.target ms)
        summary)
      summary

abbrev Summarised : Outside → Settings → Text → Call → List Message → Text → Type 0
Summarised o s prompt call ms summary =
    summary_of o s prompt (
      extract_dropped s.compaction_keep_recent_turns ms
        (sliding_window o.json_length s.compaction_keep_recent_turns call.target ms))
    ≡ summary

persisted :
    (writes : Bool)
    → writes ≡ true
    → (r : CompactRecord) (rows : List CompactRecord) (tr : Option IdleTrigger)
    → Path Compactor
        (record { store = some (if writes then (insert rows r).0 else rows); idle_trigger = tr })
        (record { store = some (insert rows r).0; idle_trigger = tr })
persisted writes h r rows tr = rw h

-- Whether the call looks at a trigger.
abbrev pub looks : Option IdleTrigger → Call → Bool
looks none call = false
looks (some t) call = call.force_idle_check

looks-mark :
    (tr : Option IdleTrigger) (call again : Call) (ms : List Message)
    → looks (mark tr call ms) again ≡ looks tr again
unfolding mark
looks-mark none call again ms = refl
looks-mark (some t) call again ms = refl

-- A call that looks at no trigger goes by the tokens.
unlooked :
    (o : Outside) (s : Settings) (prompt : Text) (c : Compactor) (call : Call) (ms : List Message)
    (tr : Option IdleTrigger)
    → looks tr call ≡ false
    → by_trigger o s prompt c call ms tr ≡ by_tokens o s prompt c call ms
unfolding by_trigger
unlooked o s prompt c call ms none h = refl
unlooked o s prompt c call ms (some t) h = rw h

found_again :
    (reads : Bool) (rows : List CompactRecord) (r : CompactRecord) (session_id : String)
    (source_hash : Text)
    → reads ≡ true
    → session_id ≡ r.session_id
    → source_hash ≡ r.source_hash
    → (if reads then lookup_cached session_id source_hash (insert rows r).0 else none)
      ≡ some (with_version rows r)
found_again reads rows r session_id source_hash h e f = rw (h, e, f) (lookup_cached-insert rows r)

writes_once :
    (o : Outside) (s : Settings) (prompt : Text) (rows : List CompactRecord)
    (tr : Option IdleTrigger) (call : Call) (m : Message) (ms : List Message) (a : ℕ)
    (summary : Text)
    → looks tr call ≡ false
    → s.compaction_enabled ≡ true
    → serves s.compaction_persistent_store call.session_id ≡ true
    → cached_record o s.compaction_persistent_store call.session_id (m ∷ ms) (some rows) ≡ none
    → leb (estimate_tokens o.json_length (m ∷ ms)) call.threshold ≡ false
    → leb
        (estimate_tokens o.json_length
          (sliding_window o.json_length s.compaction_keep_recent_turns call.target (m ∷ ms)))
        call.target
      ≡ false
    → Summarised o s prompt call (m ∷ ms) (a ∷ summary)
    → o.writes ≡ true
    → (marked : Option IdleTrigger) × ((maybe_compact o s prompt
          (record { store = some rows; idle_trigger = tr })
          call
          (m ∷ ms)).1
        ≡ record {
          store = some (insert rows (written o s call (m ∷ ms) (a ∷ summary))).0;
          idle_trigger = marked;
        })
      × ((again : Call) → looks marked again ≡ looks tr again)
unfolding maybe_compact by_tokens run_slow_path written
writes_once o s prompt rows tr call m ms a summary plain on served miss over wide made writes =
    let c : Compactor = record { store = some rows; idle_trigger = tr } in
    let compacted =
      inject_summary
        (sliding_window o.json_length s.compaction_keep_recent_turns call.target (m ∷ ms))
        (a ∷ summary) in
    (
      mark tr call compacted,
      ap (λ (b : Bool). (if b then by_trigger o s prompt c call (m ∷ ms) tr else (m ∷ ms, c)).1) on
          ∙ ap (λ (r : List Message × Compactor). r.1)
              (unlooked o s prompt c call (m ∷ ms) tr plain)
          ∙ rw (over, miss, wide, made, served)
              (persisted o.writes writes (written o s call (m ∷ ms) (a ∷ summary)) rows
                (mark tr call compacted)),
      λ again. looks-mark tr call again compacted,
    )

reads_back :
    (p : Outside) (s : Settings) (prompt : Text) (rows : List CompactRecord)
    (tr : Option IdleTrigger) (again : Call) (m : Message) (ms : List Message) (r : CompactRecord)
    → looks tr again ≡ false
    → s.compaction_enabled ≡ true
    → serves s.compaction_persistent_store again.session_id ≡ true
    → p.reads ≡ true
    → again.session_id ≡ r.session_id
    → p.source_hash (m ∷ ms) ≡ r.source_hash
    → leb (estimate_tokens p.json_length (m ∷ ms)) again.threshold ≡ false
    → (maybe_compact p s prompt
        (record { store = some (insert rows r).0; idle_trigger = tr })
        again
        (m ∷ ms)).0
      ≡ rebuild_from_cache p s (m ∷ ms) r.summary
unfolding maybe_compact by_tokens cached_record
reads_back p s prompt rows tr again m ms r plain on served reads same hash over =
    let c : Compactor = record { store = some (insert rows r).0; idle_trigger = tr } in
    ap (λ (b : Bool). (if b then by_trigger p s prompt c again (m ∷ ms) tr else (m ∷ ms, c)).0) on
    ∙ ap (λ (k : List Message × Compactor). k.0) (unlooked p s prompt c again (m ∷ ms) tr plain)
    ∙ rw (
      over,
      served,
      found_again p.reads rows r again.session_id (p.source_hash (m ∷ ms)) reads same hash,
    )

-- Two calls, one after the other, look at no idle trigger: the compactor has none, or they do not ask for
-- the idle check. The first finds nothing in the cache, is over the threshold with a window over the
-- target, and a model answers; its cache can be written. Then the second, with the same messages over its
-- threshold, for which the cache can be read, returns the summary made by the first in the window of these
-- messages, whatever the models would answer now.
pub maybe_compact_cached :
    (o p : Outside) (s : Settings) (prompt : Text) (rows : List CompactRecord)
    (tr : Option IdleTrigger) (call again : Call) (m : Message) (ms : List Message) (a : ℕ)
    (summary : Text)
    → looks tr call ≡ false
    → looks tr again ≡ false
    → s.compaction_enabled ≡ true
    → serves s.compaction_persistent_store call.session_id ≡ true
    → cached_record o s.compaction_persistent_store call.session_id (m ∷ ms) (some rows) ≡ none
    → leb (estimate_tokens o.json_length (m ∷ ms)) call.threshold ≡ false
    → leb
        (estimate_tokens o.json_length
          (sliding_window o.json_length s.compaction_keep_recent_turns call.target (m ∷ ms)))
        call.target
      ≡ false
    → summary_of o s prompt (
        extract_dropped s.compaction_keep_recent_turns
          (m ∷ ms)
          (sliding_window o.json_length s.compaction_keep_recent_turns call.target (m ∷ ms)))
      ≡ a ∷ summary
    → o.writes ≡ true
    → p.reads ≡ true
    → again.session_id ≡ call.session_id
    → p.source_hash (m ∷ ms) ≡ o.source_hash (m ∷ ms)
    → leb (estimate_tokens p.json_length (m ∷ ms)) again.threshold ≡ false
    → (maybe_compact p s prompt
        (maybe_compact o s prompt (record { store = some rows; idle_trigger = tr }) call (m ∷ ms)).1
        again
        (m ∷ ms)).0
      ≡ inject_summary
          (sliding_window p.json_length s.compaction_keep_recent_turns 1000000000 (m ∷ ms))
          (a ∷ summary)
unfolding rebuild_from_cache written
maybe_compact_cached o p s prompt rows tr call again m ms a summary plain plain_again on served miss
      over wide made writes reads same hash over_again =
    let r : CompactRecord = written o s call (m ∷ ms) (a ∷ summary) in
    let (marked, wrote, looked) =
      writes_once o s prompt rows tr call m ms a summary plain on served miss over wide made
        writes in
    ap (λ (c : Compactor). (maybe_compact p s prompt c again (m ∷ ms)).0) wrote
    ∙ reads_back p s prompt rows marked again m ms r (looked again ∙ plain_again) on
        (rw same served) reads same hash over_again
