-- ===== src/Agents/Delivery/Resend.antt =====
-- harness/server/routes/observability_admin.py: `admin_webhooks_dlq_replay`, the replay of a dead
-- letter. What the url answers, what other requests do to the tables while it does, the environment and
-- the clock are arguments.
use harness_solomon.Base.{ℕ, String, Bool, false, Option, none, some, if◌then◌else◌}
use harness_solomon.Base.Text.{Text}
use harness_solomon.Agents.Outbound.{
  OutboundWebhook, DlqEntry, Tables, is_null, get_outbound, find_dlq, mark_dlq_replayed,
}
use harness_solomon.Agents.Delivery.Attempts.{
  Answer, answered, timed_out, http_error, unexpected, is_success,
}
use harness_solomon.Agents.Delivery.Dispatcher.{resolve_outbound_secret}

-- What leaves the process.
pub record Resent : Type 0 where
  pub url : String
  pub secret : Option Text
  pub json : Text

-- 404, the answer for an entry that is replayed already, the answer after a post, and the exception of
-- a post that the route lets through.
pub data Reply : Type 0 where
  not_found : Reply
  already_replayed : Reply
  resent : Bool → ℕ → Reply
  raised : Reply

abbrev pub version_of : Option OutboundWebhook → ℕ
version_of none = 1
version_of (some cfg) = cfg.secret_version

module _ (environ : Text → Option Text) where
  -- `resolve_outbound_secret` for the row of the url, and the post.
  unfoldable pub resend : Tables → DlqEntry → Resent
  unfolding resolve_outbound_secret
  resend t entry = record {
    url = entry.url;
    secret = resolve_outbound_secret environ (version_of (get_outbound t entry.url));
    json = entry.payload;
  }

  unfoldable pub after_resend : Tables → DlqEntry → Answer → ℕ → Tables × Reply
  unfolding mark_dlq_replayed
  after_resend t entry (answered status text) now =
      let (t', replayed) = mark_dlq_replayed t entry.id now in
      if is_success status then (t', resent replayed status) else (t, resent false status)
  after_resend t entry (timed_out e) now = (t, raised)
  after_resend t entry (http_error e) now = (t, raised)
  after_resend t entry (unexpected e) now = (t, raised)

  unfoldable pub replay_found :
      (Resent → Answer)
      → (Tables → Tables)
      → Tables
      → ℕ
      → Option DlqEntry
      → Tables × Reply × Option Resent
  unfolding after_resend resend
  replay_found post meanwhile t now none = (t, not_found, none)
  replay_found post meanwhile t now (some entry) =
      let sent = resend t entry in
      let (t', reply) = after_resend (meanwhile t) entry (post sent) now in
      if is_null entry.replayed_at then (t', reply, some sent) else (t, already_replayed, none)

  -- `admin_webhooks_dlq_replay`.
  unfoldable pub replay :
      (Resent → Answer) → (Tables → Tables) → Tables → ℕ → ℕ → Tables × Reply × Option Resent
  unfolding replay_found find_dlq
  replay post meanwhile t dlq_id now = replay_found post meanwhile t now (find_dlq dlq_id t.dlq)
