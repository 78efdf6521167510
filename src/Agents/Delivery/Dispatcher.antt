-- ===== src/Agents/Delivery/Dispatcher.antt =====
-- harness/agents/outbound.py: OutboundWebhookDispatcher. The urls of one event, each of which has a row
-- of its own, are served one after another. `fire` only starts a task; a delivery is modelled for tasks
-- that do not overlap. A call of the store that raises changes nothing; logs and metrics are left out. The lookup
-- of the environment is `resolve_outbound_secret` of harness/agents/webhook_store.py.
use harness_solomon.Base.{
  ℕ, suc, max, String, Bool, true, false, not, Option, none, some, List, [], ◌∷◌, ◌++◌, leb, ◌==◌,
  string_eq, if◌then◌else◌, any, keep, map, ◌&&◌, ◌||◌,
}
use harness_solomon.Base.Text.{Text, codes, strip, split}
use harness_solomon.Base.Decimal.{decimal}
use harness_solomon.Agents.Outbound.{
  OutboundWebhook, Tables, is_null, get_outbound, record_outbound_success, record_outbound_failure,
  enqueue_dlq,
}
use harness_solomon.Agents.Delivery.Attempts.{
  Answer, Outcome, delivered, gave_up, broken_off, Retries, Run, attempts,
}

-- The keys of an event that the dispatcher reads, and all of it as JSON.
pub record Event : Type 0 where
  pub kind : Option String
  pub event : Option String
  pub json : Text

pub record Dispatcher : Type 0 where
  pub urls : List String
  pub token : Text
  pub retries : Retries
  pub auto_disable_threshold : ℕ
  pub dlq_enabled : Bool

-- The calls of the store that may raise, named by where they stand.
pub data StoreCall : Type 0 where
  filtering : StoreCall
  resolving : StoreCall
  succeeding : StoreCall
  failing : StoreCall
  parking_letter : StoreCall

-- What is outside, for one event: the answers of the urls, the jitter, `redact_dict`, the environment,
-- which calls of the store raise, whether an event loop runs, and the clock.
pub record World : Type 0 where
  pub post : String → ℕ → Answer
  pub jitter : String → ℕ → ℕ
  pub redact_dict : Text → Text
  pub environ : Text → Option Text
  pub raises : StoreCall → String → Bool
  pub has_loop : Bool
  pub now : String → ℕ
  pub later : String → ℕ

-- One url served: what was sent, and how it went.
pub record Delivery : Type 0 where
  pub url : String
  pub sent_token : Text
  pub sent_json : Text
  pub run : Run

abbrev pub is_blank : Text → Bool
is_blank [] = true
is_blank (c ∷ s) = false

-- `parse_urls`.
unfoldable pub parse_urls : Text → List Text
unfolding strip split
parse_urls [] = []
parse_urls (c ∷ raw) = keep (λ u. not (is_blank u)) (map strip (split b',' (c ∷ raw)))

-- `__init__`, where `threshold` is a number from 0 up.
abbrev pub new_dispatcher : List String → Text → Retries → ℕ → Bool → Dispatcher
new_dispatcher urls token retries threshold dlq_enabled = record {
  urls = keep (λ u. not (u == "")) urls;
  token = token;
  retries = retries;
  auto_disable_threshold = max 1 threshold;
  dlq_enabled = dlq_enabled;
}

abbrev pub outbound_event_kinds : List String
outbound_event_kinds = "merged" ∷ "failed" ∷ "stack_merged" ∷ "pr_waiting_review" ∷ []

-- `should_fire`.
abbrev pub should_fire : String → Bool
should_fire event_kind = any (λ k. k == event_kind) outbound_event_kinds

abbrev pub value_or : String → Option String → String
value_or fallback none = fallback
value_or fallback (some s) = s

-- `event.get("kind") or event.get("event") or "unknown"`.
abbrev pub truthy_or : String → Option String → String
truthy_or fallback none = fallback
truthy_or fallback (some s) = if s == "" then fallback else s

abbrev pub event_kind : Event → String
event_kind e = truthy_or (truthy_or "unknown" e.event) e.kind

abbrev pub or_none : Option Text → Option Text
or_none none = none
or_none (some s) = if is_blank s then none else some s

-- `resolve_outbound_secret`.
unfoldable pub resolve_outbound_secret : (Text → Option Text) → ℕ → Option Text
unfolding decimal
resolve_outbound_secret environ secret_version =
    if leb secret_version 1
    then or_none (environ (codes "WEBHOOK_SECRET"))
    else or_none (environ (codes "WEBHOOK_SECRET" ++ codes "_V" ++ decimal secret_version))

abbrev pub token_or : Text → Option Text → Text
token_or token none = token
token_or token (some resolved) = resolved

abbrev pub token_of : World → Text → Option OutboundWebhook → Text
unfolding resolve_outbound_secret
token_of w token none = token
token_of w token (some cfg) = token_or token (resolve_outbound_secret w.environ cfg.secret_version)

-- `_resolve_token`.
unfoldable pub resolve_token : World → Dispatcher → Option Tables → String → Text
unfolding token_of
resolve_token w d none url = d.token
resolve_token w d (some t) url =
    if w.raises resolving url then d.token else token_of w d.token (get_outbound t url)

abbrev pub is_disabled : Option OutboundWebhook → Bool
is_disabled none = false
is_disabled (some cfg) = not (is_null cfg.disabled_at)

-- `_filter_disabled`: a url whose row cannot be read is active.
abbrev pub filter_disabled : World → Option Tables → List String → List String
filter_disabled w none urls = urls
filter_disabled w (some t) urls =
    keep (λ u. w.raises filtering u || not (is_disabled (get_outbound t u))) urls

-- `_on_success`.
abbrev pub on_success : World → Tables → String → Tables
on_success w t url =
    if w.raises succeeding url then t else record_outbound_success t url (w.now url)

abbrev pub count_failed : World → Dispatcher → Tables → String → Tables
count_failed w d t url =
    if w.raises failing url
    then t
    else (record_outbound_failure t url d.auto_disable_threshold (w.now url) (w.later url)).0

-- `_on_failure`.
abbrev pub on_failure : World → Dispatcher → Tables → String → Event → Text → Tables
on_failure w d t url e last_err =
    let counted = count_failed w d t url in
    if d.dlq_enabled && not (w.raises parking_letter url)
    then (enqueue_dlq counted url (event_kind e) e.json last_err (suc d.retries.max_retries)
        (w.now url) (w.later url)).0
    else counted

abbrev pub settle : World → Dispatcher → Tables → String → Event → Outcome → Tables
settle w d t url e delivered = on_success w t url
settle w d t url e (gave_up last_err) = on_failure w d t url e last_err
settle w d t url e (broken_off err) = t

-- `_deliver_one`.
unfoldable pub deliver_one :
    World → Dispatcher → Option Tables → String → Event → Option Tables × Delivery
unfolding attempts resolve_token
deliver_one w d store url e =
    let run = attempts d.retries (w.jitter url) (w.post url) in
    (
      elim store [ none ↦ none | some t ↦ some (settle w d t url e run.outcome) ],
      record {
        url = url;
        sent_token = resolve_token w d store url;
        sent_json = w.redact_dict e.json;
        run = run;
      },
    )

-- The deliveries that `asyncio.gather` runs.
unfoldable pub deliver_all :
    World → Dispatcher → Option Tables → List String → Event → Option Tables × List Delivery
unfolding deliver_one
deliver_all w d store [] e = (store, [])
deliver_all w d store (url ∷ urls) e =
    let (store', one) = deliver_one w d store url e in
    let (rest, more) = deliver_all w d store' urls e in (rest, one ∷ more)

-- `_deliver`.
unfoldable pub deliver : World → Dispatcher → Option Tables → Event → Option Tables × List Delivery
unfolding deliver_all
deliver w d store e = deliver_all w d store (filter_disabled w store d.urls) e

abbrev pub is_off : List String → Bool
is_off [] = true
is_off (url ∷ urls) = false

-- `fire`: the tasks that wait, with the one that it creates.
unfoldable pub fire : World → Dispatcher → List Event → Event → List Event
fire w d tasks e =
    if should_fire (value_or "" e.kind) && not (is_off d.urls) && w.has_loop
    then tasks ++ e ∷ []
    else tasks

-- The tasks, each run to its end before the next.
unfoldable pub run_tasks :
    World → Dispatcher → Option Tables → List Event → Option Tables × List Delivery
unfolding deliver
run_tasks w d store [] = (store, [])
run_tasks w d store (e ∷ tasks) =
    let (store', ds) = deliver w d store e in
    let (rest, more) = run_tasks w d store' tasks in (rest, ds ++ more)
