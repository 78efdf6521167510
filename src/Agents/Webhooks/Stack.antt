-- ===== src/Agents/Webhooks/Stack.antt =====
-- harness/agents/webhook_handler.py: dispatch_event, with the promotion of the parent of a stack.
-- Metrics, logs and the outbound notification are left out.
use harness_solomon.Base.{
  ℕ, ◌+◌, ◌-◌, String, true, Option, none, some, List, [], ◌∷◌, ◌==◌, string_eq, nat_eq,
  if◌then◌else◌, length,
}
use harness_solomon.Agents.Jobs.{
  JobRecord, JobStore, merged, update, update_rows, find_job_by_pr_number, find_pr,
  find_jobs_by_stack_id, all_stack_children_merged,
}
use harness_solomon.Agents.Webhooks.Dispatch.{
  WebhookEvent, WebhookHandler, Dispatched, is_terminal, status_update, dispatch_to_job,
  marked_merged, marked_failed, auto_merge_enabled, merged_via_review, no_job, processed, ignored,
}

pub record Promotion : Type 0 where
  pub stack_id : String
  pub parent_job_id : String
  pub children_count : ℕ

-- The first row at position 0.
unfoldable pub find_parent : List JobRecord → Option JobRecord
find_parent [] = none
find_parent (r ∷ rs) = if r.stack_position == 0 then some r else find_parent rs

unfoldable pub total_cost : List JobRecord → ℕ
total_cost [] = 0
total_cost (r ∷ rs) = r.cost + total_cost rs

unfoldable pub promote :
    String → ℕ → List JobRecord → JobRecord → JobStore → JobStore × Option Promotion
unfolding total_cost update_rows
promote stack_id now rows parent store = if is_terminal parent.status then (store, none) else (
  update store parent.id now (status_update merged true (total_cost rows) none),
  some
      (record { stack_id = stack_id; parent_job_id = parent.id; children_count = length rows - 1 }),
)

unfoldable pub promote_found :
    String → ℕ → List JobRecord → Option JobRecord → JobStore → JobStore × Option Promotion
unfolding promote
promote_found stack_id now rows none store = (store, none)
promote_found stack_id now rows (some parent) store = promote stack_id now rows parent store

-- `_maybe_promote_stack_parent`.
unfoldable pub maybe_promote_stack_parent : String → ℕ → JobStore → JobStore × Option Promotion
unfolding promote_found find_parent find_jobs_by_stack_id all_stack_children_merged
maybe_promote_stack_parent stack_id now store =
    let rows = find_jobs_by_stack_id store stack_id in
    let promoted = promote_found stack_id now rows (find_parent rows) store in
    if all_stack_children_merged store stack_id then promoted else (store, none)

-- The promotion that follows the dispatch to one job.
unfoldable pub after_dispatch : ℕ → JobRecord → JobStore × Dispatched → JobStore × Option Promotion
unfolding maybe_promote_stack_parent
after_dispatch now job (store, processed marked_merged job_id) = elim job.pr_stack_id [
  | none ↦ (store, none)
  | some stack_id ↦
      let promoted = maybe_promote_stack_parent stack_id now store in
      if stack_id == "" then (store, none) else promoted
]
after_dispatch now job (store, processed marked_failed job_id) = (store, none)
after_dispatch now job (store, processed auto_merge_enabled job_id) = (store, none)
after_dispatch now job (store, processed merged_via_review job_id) = (store, none)
after_dispatch now job (store, ignored reason) = (store, none)

-- What `dispatch_event` returns: the entry of each pull request, and the last promotion.
pub record Outcome : Type 0 where
  pub store : JobStore
  pub dispatched_to : List (ℕ × Dispatched)
  pub promoted_parent : Option Promotion

abbrev pub or_earlier : Option Promotion → Option Promotion → Option Promotion
or_earlier none o = o
or_earlier (some p) o = some p

-- One round of the loop over the pull requests.
unfoldable pub dispatch_pr :
    WebhookHandler
    → ℕ
    → WebhookEvent
    → ℕ
    → Option JobRecord
    → JobStore
    → JobStore × Dispatched × Option Promotion
unfolding dispatch_to_job after_dispatch
dispatch_pr h now event n none store = (store, ignored no_job, none)
dispatch_pr h now event n (some job) store =
    let r = dispatch_to_job h now event n job store in
    let (store', promoted) = after_dispatch now job r in (store', r.1, promoted)

unfoldable pub dispatch_all : WebhookHandler → ℕ → WebhookEvent → List ℕ → Outcome → Outcome
unfolding dispatch_pr find_pr
dispatch_all h now event [] o = o
dispatch_all h now event (n ∷ ns) o =
    let (store, result, promoted) =
      dispatch_pr h now event n (find_job_by_pr_number o.store n) o.store in
    let rest = dispatch_all h now event ns (record {
      store = store;
      dispatched_to = [];
      promoted_parent = or_earlier promoted o.promoted_parent;
    }) in
    record rest { dispatched_to = (n, result) ∷ rest.dispatched_to }

abbrev pub numbers_of : WebhookEvent → List ℕ
numbers_of event = elim event.pr_numbers [
  | [] ↦ elim event.pr_number [ none ↦ [] | some n ↦ n ∷ [] ]
  | n ∷ ns ↦ n ∷ ns
]

-- `dispatch_event`; without a pull request it does nothing.
unfoldable pub dispatch_event : WebhookHandler → ℕ → WebhookEvent → JobStore → Outcome
unfolding dispatch_all
dispatch_event h now event store =
    dispatch_all h now event (numbers_of event)
      (record { store = store; dispatched_to = []; promoted_parent = none })
