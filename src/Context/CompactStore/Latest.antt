-- ===== src/Context/CompactStore/Latest.antt =====
-- harness/agents/compact_store.py: the record inserted last is the one found.
use harness_solomon.Base.{
  ◌<◌, String, true, some, List, [], ◌∷◌, ◌++◌, string_eq, ==_refl, ◌≡◌, arith,
}
use harness_solomon.Base.Text.{Text, text_eq}
use harness_solomon.Context.CompactStore.{
  CompactRecord, matches, newer, lookup_cached, max_version, with_version, insert,
}

newer_latest : (x r : CompactRecord) → r.version < x.version → newer r (some x) ≡ some x
newer_latest x r h = ground arith

lookup_cached-append :
    (session_id : String) (source_hash : Text) (rows : List CompactRecord) (x : CompactRecord)
    → matches session_id source_hash x ≡ true
    → max_version session_id rows < x.version
    → lookup_cached session_id source_hash (rows ++ x ∷ []) ≡ some x
unfolding lookup_cached max_version
lookup_cached-append session_id source_hash [] x m h = rw m
lookup_cached-append session_id source_hash (r ∷ rows) x m h =
    ground (arith, lookup_cached-append session_id source_hash rows x, newer_latest x r)

pub lookup_cached-insert :
    (rows : List CompactRecord) (r : CompactRecord)
    → lookup_cached r.session_id r.source_hash (insert rows r).0 ≡ some (with_version rows r)
unfolding insert
lookup_cached-insert rows r =
    lookup_cached-append r.session_id r.source_hash rows (with_version rows r)
      (rw (==_refl r.session_id) (==_refl r.source_hash)) (omega arith)
