-- ===== src/Agents/Webhooks/Dispatch.antt =====
-- harness/agents/webhook_handler.py: what an inbound webhook does to the job of a pull request. The
-- clock's reading at the event is an argument; the calls of `gh` by the mergers are functions that tell
-- whether they succeed. The text of an exception in a job's error is left out.
use harness_solomon.Base.{
  ℕ, String, Bool, true, false, Option, none, some, List, ◌==◌, string_eq, nat_eq, ◌&&◌,
  if◌then◌else◌,
}
use harness_solomon.Agents.Jobs.{
  JobStatus, JobRecord, JobStore, Update, merged, failed, timeout, cancelled, pr_auto_merge_enabled,
  update, update_rows,
}

pub record WebhookEvent : Type 0 where
  pub delivery_id : String
  pub event_type : String
  pub action : Option String
  pub pr_number : Option ℕ
  pub pr_numbers : List ℕ
  pub pr_url : Option String
  pub head_sha : Option String
  pub conclusion : Option String
  pub review_state : Option String
  pub pr_merged : Bool

-- The injected `merger` and `auto_merger`.
pub record WebhookHandler : Type 0 where
  pub merger : Option (Option String → Option ℕ → Bool)
  pub auto_merger : Option (Option String → Option ℕ → Bool)

pub data Action : Type 0 where
  marked_merged marked_failed auto_merge_enabled merged_via_review : Action

pub data Reason : Type 0 where
  no_job already_terminal checks_polled unhandled auto_merge_failed no_merger : Reason

-- The entry of one pull request: `processed` with an action and the job's id, or not, with a reason.
pub data Dispatched : Type 0 where
  processed : Action → String → Dispatched
  ignored : Reason → Dispatched

-- `job.status in ("merged", "failed", "timeout", "cancelled")`.
abbrev pub is_terminal : JobStatus → Bool
is_terminal merged = true
is_terminal failed = true
is_terminal timeout = true
is_terminal cancelled = true
is_terminal _ = false

abbrev pub text_is : Option String → String → Bool
text_is none s = false
text_is (some t) s = t == s

-- `update_status(job.id, status, finished=..., cost=job.cost, error=...)`.
abbrev pub status_update : JobStatus → Bool → ℕ → Option String → Update
status_update s finished cost error = record {
  status = s;
  cost = some cost;
  error = error;
  finished = finished;
  pr_url = none;
  pr_number = none;
  result_text = none;
}

-- A job that ends as failed, with this error.
abbrev pub failure : String → JobRecord → Update
failure error job = status_update failed true job.cost (some error)

abbrev pub some_or : Option String → Option String → Option String
some_or none o = o
some_or (some s) o = if s == "" then o else some s

abbrev pub merged_update : WebhookEvent → ℕ → JobRecord → Update
merged_update event n job = record (status_update merged true job.cost none) {
  pr_url = some_or event.pr_url job.pr_url;
  pr_number = some n;
}

-- `bool(getattr(job, "auto_merge", False))`: a JobRecord has no such attribute.
abbrev pub auto_merge : JobRecord → Bool
auto_merge job = false

-- The direct merge of `_on_review_approved`.
unfoldable pub merge_directly : WebhookHandler → ℕ → JobRecord → JobStore → JobStore × Dispatched
unfolding update_rows
merge_directly h now job store = elim h.merger [
  | none ↦ (store, ignored no_merger)
  | some merge_pr ↦
      if merge_pr job.repo job.pr_number
      then (
        update store job.id now (status_update merged true job.cost none),
        processed merged_via_review job.id,
      )
      else (
        update store job.id now (failure "merge_pr after approved review failed" job),
        processed marked_failed job.id,
      )
]

-- `_on_review_approved`.
unfoldable pub on_review_approved :
    WebhookHandler → ℕ → JobRecord → JobStore → JobStore × Dispatched
unfolding merge_directly
on_review_approved h now job store =
    if is_terminal job.status
    then (store, ignored already_terminal)
    else if auto_merge job
    then elim h.auto_merger [
      | none ↦ merge_directly h now job store
      | some enable ↦
          if enable job.repo job.pr_number
          then (
            update store job.id now (status_update pr_auto_merge_enabled false job.cost none),
            processed auto_merge_enabled job.id,
          )
          else (store, ignored auto_merge_failed)
    ]
    else merge_directly h now job store

abbrev pub is_closed_merged : WebhookEvent → Bool
is_closed_merged event =
    event.event_type == "pull_request" && text_is event.action "closed" && event.pr_merged

abbrev pub is_check : WebhookEvent → String → Bool
is_check event conclusion = event.event_type == "check_run" && text_is event.conclusion conclusion

abbrev pub is_review : WebhookEvent → String → Bool
is_review event state =
    event.event_type == "pull_request_review" && text_is event.review_state state

-- `_dispatch_to_job`.
unfoldable pub dispatch_to_job :
    WebhookHandler → ℕ → WebhookEvent → ℕ → JobRecord → JobStore → JobStore × Dispatched
unfolding on_review_approved update_rows
dispatch_to_job h now event n job store =
    let approved = on_review_approved h now job store in
    if is_terminal job.status
    then (store, ignored already_terminal)
    else if is_closed_merged event
    then (update store job.id now (merged_update event n job), processed marked_merged job.id)
    else if is_check event "failure"
    then (
      update store job.id now (failure "PR CI failed (check_run reported failure)" job),
      processed marked_failed job.id,
    )
    else if is_check event "success"
    then (store, ignored checks_polled)
    else if is_review event "changes_requested"
    then (
      update store job.id now (failure "PR review requested changes" job),
      processed marked_failed job.id,
    )
    else if is_review event "approved"
    then approved
    else (store, ignored unhandled)
