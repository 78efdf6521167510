-- ===== src/Agents/Outbound.antt =====
-- harness/agents/webhook_store.py: the state of outbound webhooks and the queue of dead letters. The
-- times that the clock gives are arguments, in the order of their ISO texts; a payload is its JSON text.
pub mod Park
pub mod Replay
use harness_solomon.Base.{
  ℕ, suc, ◌+◌, min, max, String, Bool, true, false, Option, none, some, List, [], ◌∷◌, ◌++◌, leb,
  ltb, ◌==◌, nat_eq, string_eq, ◌&&◌, if◌then◌else◌, length, take, keep, map,
}
use harness_solomon.Base.Text.{Text}
use harness_solomon.Base.Dict.{Dict, get, put}
use harness_solomon.Base.Sort.{sort_by}

pub record OutboundWebhook : Type 0 where
  pub id : ℕ
  pub url : String
  pub consecutive_failures : ℕ
  pub disabled_at : Option ℕ
  pub secret_version : ℕ
  pub created_at : ℕ
  pub updated_at : ℕ

pub record DlqEntry : Type 0 where
  pub id : ℕ
  pub webhook_id : ℕ
  pub url : String
  pub event_kind : String
  pub payload : Text
  pub last_error : Text
  pub failed_at : ℕ
  pub replayed_at : Option ℕ
  pub attempts : ℕ

-- The tables: the rows of outbound_webhooks by their unique url, and those of outbound_dlq.
pub record Tables : Type 0 where
  pub webhooks : Dict String OutboundWebhook
  pub dlq : List DlqEntry

abbrev pub is_null {ℓ} : {A : Type ℓ} → Option A → Bool
is_null none = true
is_null (some a) = false

abbrev pub new_webhook : Tables → String → ℕ → ℕ → OutboundWebhook
new_webhook t url secret_version now = record {
  id = suc (length t.webhooks);
  url = url;
  consecutive_failures = 0;
  disabled_at = none;
  secret_version = secret_version;
  created_at = now;
  updated_at = now;
}

-- `get_outbound`.
abbrev pub get_outbound : Tables → String → Option OutboundWebhook
get_outbound t url = get url t.webhooks

abbrev pub set_outbound : Tables → String → OutboundWebhook → Tables
set_outbound t url w = record t { webhooks = put url w t.webhooks }

abbrev pub or_new : Tables → String → ℕ → ℕ → Option OutboundWebhook → OutboundWebhook
or_new t url secret_version now none = new_webhook t url secret_version now
or_new t url secret_version now (some w) = w

-- `get_or_create_outbound`.
unfoldable pub get_or_create_outbound : Tables → String → ℕ → ℕ → Tables × OutboundWebhook
unfolding get put
get_or_create_outbound t url secret_version now =
    let w = or_new t url secret_version now (get_outbound t url) in (set_outbound t url w, w)

abbrev pub reset : ℕ → OutboundWebhook → OutboundWebhook
reset now w = record w { consecutive_failures = 0; updated_at = now }

abbrev pub update_some :
    Tables → String → (OutboundWebhook → OutboundWebhook) → Option OutboundWebhook → Tables
update_some t url f none = t
update_some t url f (some w) = set_outbound t url (f w)

-- `record_outbound_success`.
unfoldable pub record_outbound_success : Tables → String → ℕ → Tables
unfolding get put
record_outbound_success t url now = update_some t url (reset now) (get_outbound t url)

-- The first UPDATE of `record_outbound_failure`.
abbrev pub count_failure : ℕ → OutboundWebhook → OutboundWebhook
count_failure now w = record w {
  consecutive_failures = w.consecutive_failures + 1;
  updated_at = now;
}

-- Its test of the row that the UPDATE returns.
abbrev pub is_due : ℕ → OutboundWebhook → Bool
is_due auto_disable_threshold w =
    leb auto_disable_threshold w.consecutive_failures && is_null w.disabled_at

abbrev pub disable : ℕ → OutboundWebhook → OutboundWebhook
disable disabled_at w = record w { disabled_at = some disabled_at; updated_at = disabled_at }

-- What both make of the row.
unfoldable pub fail_row : ℕ → ℕ → ℕ → OutboundWebhook → OutboundWebhook × Bool
fail_row threshold now later w =
    if is_due threshold (count_failure now w)
    then (disable later (count_failure now w), true)
    else (count_failure now w, false)

-- `record_outbound_failure`, for calls of one url that do not overlap.
unfoldable pub record_outbound_failure : Tables → String → ℕ → ℕ → ℕ → Tables × Bool
unfolding get_or_create_outbound fail_row put
record_outbound_failure t url threshold now later =
    let (t', w) = get_or_create_outbound t url 1 now in
    let (failed, parked) = fail_row threshold now later w in (set_outbound t' url failed, parked)

-- What `enable_outbound` makes of the row.
unfoldable pub enable_row : ℕ → OutboundWebhook → OutboundWebhook × Bool
enable_row now w =
    if is_null w.disabled_at
    then (w, false)
    else (record w { disabled_at = none; consecutive_failures = 0; updated_at = now }, true)

enabled : Tables → String → ℕ → Option OutboundWebhook → Tables × Bool
unfolding enable_row put
enabled t url now none = (t, false)
enabled t url now (some w) =
    let (w', changed) = enable_row now w in (set_outbound t url w', changed)

-- `enable_outbound`.
unfoldable pub enable_outbound : Tables → String → ℕ → Tables × Bool
unfolding enabled get
enable_outbound t url now = enabled t url now (get_outbound t url)

-- `rotate_outbound_secret`; `none` is the ValueError of a version below 1.
unfoldable pub rotate_outbound_secret :
    Tables → String → ℕ → ℕ → Option (Tables × Option OutboundWebhook)
unfolding get put
rotate_outbound_secret t url new_version now =
    let rotate =
      λ (w : OutboundWebhook). record w { secret_version = new_version; updated_at = now } in
    if ltb new_version 1
    then none
    else some (
      update_some t url rotate (get_outbound t url),
      elim (get_outbound t url) [ none ↦ none | some w ↦ some (rotate w) ],
    )

-- `enqueue_dlq`, with the id of the new row.
unfoldable pub enqueue_dlq : Tables → String → String → Text → Text → ℕ → ℕ → ℕ → Tables × ℕ
unfolding get_or_create_outbound
enqueue_dlq t url event_kind payload last_error attempts now failed_at =
    let (t', cfg) = get_or_create_outbound t url 1 now in
    let dlq_id = suc (length t'.dlq) in
    let entry : DlqEntry = record {
      id = dlq_id;
      webhook_id = cfg.id;
      url = url;
      event_kind = event_kind;
      payload = payload;
      last_error = take 500 last_error;
      failed_at = failed_at;
      replayed_at = none;
      attempts = attempts;
    } in
    (record t' { dlq = t'.dlq ++ entry ∷ [] }, dlq_id)

-- `list_dlq`.
unfoldable pub list_dlq : Tables → ℕ → Bool → List DlqEntry
unfolding sort_by
list_dlq t limit include_replayed =
    let listed = if include_replayed then t.dlq else keep (λ e. is_null e.replayed_at) t.dlq in
    take (max 1 (min 1000 limit)) (sort_by (λ d e. leb e.failed_at d.failed_at) listed)

-- `get_dlq_entry`.
unfoldable pub find_dlq : ℕ → List DlqEntry → Option DlqEntry
find_dlq dlq_id [] = none
find_dlq dlq_id (e ∷ es) = if e.id == dlq_id then some e else find_dlq dlq_id es

-- The UPDATE of `mark_dlq_replayed`, with whether a row was changed.
unfoldable pub mark_rows : ℕ → ℕ → List DlqEntry → List DlqEntry × Bool
mark_rows dlq_id now [] = ([], false)
mark_rows dlq_id now (e ∷ es) =
    let (rest, changed) = mark_rows dlq_id now es in
    if e.id == dlq_id && is_null e.replayed_at
    then (record e { replayed_at = some now } ∷ rest, true)
    else (e ∷ rest, changed)

-- `mark_dlq_replayed`.
unfoldable pub mark_dlq_replayed : Tables → ℕ → ℕ → Tables × Bool
unfolding mark_rows
mark_dlq_replayed t dlq_id now =
    let (rows, changed) = mark_rows dlq_id now t.dlq in (record t { dlq = rows }, changed)
