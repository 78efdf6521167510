-- ===== src/Context/CompactStore.antt =====
-- harness/agents/compact_store.py: the cache of summaries.
pub mod Latest
use harness_solomon.Base.{
  ℕ, suc, max, String, Bool, true, false, Option, none, some, List, [], ◌∷◌, ◌++◌, ◌==◌, string_eq,
  ◌&&◌, not, ltb, take, keep, length, if◌then◌else◌,
}
use harness_solomon.Base.Text.{Text, text_eq}
use harness_solomon.Base.Sort.{sort_by}

pub record CompactRecord : Type 0 where
  pub session_id : String
  pub version : ℕ
  pub source_hash : Text
  pub original_tokens : ℕ
  pub compacted_tokens : ℕ
  pub original_message_count : ℕ
  pub kept_message_ids : List ℕ
  pub summary : Text
  pub model : String
  pub trigger_kind : String
  pub outcome : String
  pub created_at : ℕ
  pub duration_ms : ℕ

abbrev pub matches : String → Text → CompactRecord → Bool
matches session_id source_hash r = r.session_id == session_id && r.source_hash == source_hash

abbrev pub newer : CompactRecord → Option CompactRecord → Option CompactRecord
newer r none = some r
newer r (some q) = if ltb r.version q.version then some q else some r

-- `lookup_cached`: of the rows that match, the one of the highest version.
unfoldable pub lookup_cached : String → Text → List CompactRecord → Option CompactRecord
lookup_cached session_id source_hash [] = none
lookup_cached session_id source_hash (r ∷ rows) =
    let rest = lookup_cached session_id source_hash rows in
    if matches session_id source_hash r then newer r rest else rest

unfoldable pub max_version : String → List CompactRecord → ℕ
max_version session_id [] = 0
max_version session_id (r ∷ rows) =
    let rest = max_version session_id rows in
    if r.session_id == session_id then max r.version rest else rest

abbrev pub with_version : List CompactRecord → CompactRecord → CompactRecord
unfolding max_version
with_version rows r = record r { version = suc (max_version r.session_id rows) }

-- `insert`, with the version that it assigns.
unfoldable pub insert : List CompactRecord → CompactRecord → List CompactRecord × ℕ
unfolding with_version
insert rows r = (rows ++ with_version rows r ∷ [], (with_version rows r).version)

-- `list_for_session`: the newest first.
unfoldable pub list_for_session : List CompactRecord → String → ℕ → List CompactRecord
unfolding sort_by
list_for_session rows session_id limit =
    take limit
      (sort_by (λ q r. not (ltb q.version r.version)) (keep (λ r. r.session_id == session_id) rows))

-- `count`.
abbrev pub count : List CompactRecord → ℕ
count rows = length rows
