-- ===== src/Agents/Webhooks/Terminal.antt =====
-- A job that has ended stays as it is.
use harness_solomon.Base.{
  ℕ, String, true, false, Option, none, some, List, [], ◌∷◌, ◌≡◌, inl, inr, if-ind, OnSome,
  Option-cases, All, All-keep, keep, ◌==◌, nat_eq, string_eq,
}
use harness_solomon.Base.Sort.{All-sort_by}
use harness_solomon.Agents.Jobs.{
  merged, JobRecord, JobStore, Update, find_id, find_pr, load, update, find_jobs_by_stack_id,
  by_position, in_stack, all_stack_children_merged,
}
use harness_solomon.Agents.Jobs.Keys.{
  IsKeyed, Found, IsKeyed-Found, find_pr-holds, update_rows-IsKeyed, find_id-update_apart,
}
use harness_solomon.Agents.Webhooks.Dispatch.{
  WebhookEvent, WebhookHandler, Dispatched, processed, ignored, marked_merged, marked_failed,
  auto_merge_enabled, merged_via_review, is_terminal, status_update, failure, merged_update,
  is_closed_merged, is_check, is_review, merge_directly, on_review_approved, dispatch_to_job,
}
use harness_solomon.Agents.Webhooks.Stack.{
  total_cost, find_parent, promote, promote_found, maybe_promote_stack_parent, after_dispatch,
  Outcome, dispatch_pr, dispatch_all, dispatch_event, numbers_of, Promotion, or_earlier,
}

pub find_parent-holds :
    (P : JobRecord → Type 0) (rs : List JobRecord) → All P rs → OnSome P (find_parent rs)
unfolding find_parent
find_parent-holds P [] h = tt
find_parent-holds P (r ∷ rs) h =
    if-ind (OnSome P) (r.stack_position == 0) (λ e. h.0) (λ e. find_parent-holds P rs h.1)

pub find_jobs_by_stack_id-holds :
    (P : JobRecord → Type 0) (store : JobStore) (stack_id : String)
    → All P store.rows
    → All P (find_jobs_by_stack_id store stack_id)
unfolding find_jobs_by_stack_id
find_jobs_by_stack_id-holds P store stack_id h =
    All-sort_by by_position P (keep (in_stack stack_id) store.rows)
      (All-keep P (in_stack stack_id) store.rows h)

module _ (k : String) (t : JobRecord) (ended : is_terminal t.status ≡ true) where
  -- The ids of the store are keys, and the job is there.
  abbrev Keeps : JobStore → Type 0
  Keeps store = IsKeyed store.rows × (find_id k store.rows ≡ some t)

  update-Keeps :
      (store : JobStore) (job : JobRecord) (now : ℕ) (u : Update)
      → Keeps store
      → Found store.rows job
      → is_terminal job.status ≡ false
      → Keeps (update store job.id now u)
  update-Keeps store job now u (keyed, here) f open_still = (
    update_rows-IsKeyed job.id now u store.rows keyed,
    find_id-update_apart k now u store.rows job t f here λ e. absurd cc,
  )

  merge_directly-Keeps :
      (h : WebhookHandler) (now : ℕ) (job : JobRecord) (store : JobStore)
      → Keeps store
      → Found store.rows job
      → is_terminal job.status ≡ false
      → Keeps (merge_directly h now job store).0
  unfolding merge_directly
  merge_directly-Keeps h now job store s f o = elim (Option-cases h.merger) [
    | inl e ↦ rw e s
    | inr (merge_pr, e) ↦ rw e (
        if-ind (λ (r : JobStore × Dispatched). Keeps r.0) (merge_pr job.repo job.pr_number)
          (λ b. update-Keeps store job now (status_update merged true job.cost none) s f o)
          (λ b.
            update-Keeps store job now (failure "merge_pr after approved review failed" job) s f o))
  ]

  on_review_approved-Keeps :
      (h : WebhookHandler) (now : ℕ) (job : JobRecord) (store : JobStore)
      → Keeps store
      → Found store.rows job
      → Keeps (on_review_approved h now job store).0
  unfolding on_review_approved
  on_review_approved-Keeps h now job store s f =
      if-ind (λ (r : JobStore × Dispatched). Keeps r.0) (is_terminal job.status) (λ e. s)
        (λ o. merge_directly-Keeps h now job store s f o)

  dispatch_to_job-Keeps :
      (h : WebhookHandler) (now : ℕ) (event : WebhookEvent) (n : ℕ) (job : JobRecord)
      (store : JobStore)
      → Keeps store
      → Found store.rows job
      → Keeps (dispatch_to_job h now event n job store).0
  unfolding dispatch_to_job
  dispatch_to_job-Keeps h now event n job store s f =
      let P : JobStore × Dispatched → Type 0 = λ r. Keeps r.0 in
      if-ind P (is_terminal job.status) (λ e. s)
        λ o.
          if-ind P (is_closed_merged event)
            (λ e. update-Keeps store job now (merged_update event n job) s f o)
            λ c.
              if-ind P (is_check event "failure")
                (λ e.
                  update-Keeps store job now
                    (failure "PR CI failed (check_run reported failure)" job) s f o)
                λ d.
                  if-ind P (is_check event "success") (λ e. s)
                    λ g.
                      if-ind P (is_review event "changes_requested")
                        (λ e.
                          update-Keeps store job now (failure "PR review requested changes" job) s f
                            o)
                        λ i.
                          if-ind P (is_review event "approved")
                            (λ e. on_review_approved-Keeps h now job store s f) (λ j. s)

  promote_found-Keeps :
      (stack_id : String) (now : ℕ) (rows : List JobRecord) (o : Option JobRecord)
      (store : JobStore)
      → Keeps store
      → OnSome (Found store.rows) o
      → Keeps (promote_found stack_id now rows o store).0
  unfolding promote_found promote
  promote_found-Keeps stack_id now rows none store s f = s
  promote_found-Keeps stack_id now rows (some parent) store s f =
      if-ind (λ (r : JobStore × Option Promotion). Keeps r.0) (is_terminal parent.status) (λ e. s)
        λ o. update-Keeps store parent now (status_update merged true (total_cost rows) none) s f o

  maybe_promote_stack_parent-Keeps :
      (stack_id : String) (now : ℕ) (store : JobStore)
      → Keeps store
      → Keeps (maybe_promote_stack_parent stack_id now store).0
  unfolding maybe_promote_stack_parent
  maybe_promote_stack_parent-Keeps stack_id now store s =
      let rows = find_jobs_by_stack_id store stack_id in
      let found =
        find_jobs_by_stack_id-holds (Found store.rows) store stack_id
          (IsKeyed-Found store.rows s.0) in
      if-ind (λ (r : JobStore × Option Promotion). Keeps r.0)
        (all_stack_children_merged store stack_id)
        (λ e.
          promote_found-Keeps stack_id now rows (find_parent rows) store s
            (find_parent-holds (Found store.rows) rows found))
        (λ e. s)

  after_dispatch-Keeps :
      (now : ℕ) (job : JobRecord) (r : JobStore × Dispatched)
      → Keeps r.0
      → Keeps (after_dispatch now job r).0
  unfolding after_dispatch
  after_dispatch-Keeps now job (store, processed marked_merged i) s =
      elim (Option-cases job.pr_stack_id) [
        | inl e ↦ rw e s
        | inr (stack_id, e) ↦ rw e (
            if-ind (λ (r : JobStore × Option Promotion). Keeps r.0) (stack_id == "") (λ b. s)
              (λ b. maybe_promote_stack_parent-Keeps stack_id now store s))
      ]
  after_dispatch-Keeps now job (store, processed marked_failed i) s = s
  after_dispatch-Keeps now job (store, processed auto_merge_enabled i) s = s
  after_dispatch-Keeps now job (store, processed merged_via_review i) s = s
  after_dispatch-Keeps now job (store, ignored reason) s = s

  dispatch_pr-Keeps :
      (h : WebhookHandler) (now : ℕ) (event : WebhookEvent) (n : ℕ) (o : Option JobRecord)
      (store : JobStore)
      → Keeps store
      → OnSome (Found store.rows) o
      → Keeps (dispatch_pr h now event n o store).0
  unfolding dispatch_pr
  dispatch_pr-Keeps h now event n none store s f = s
  dispatch_pr-Keeps h now event n (some job) store s f =
      after_dispatch-Keeps now job (dispatch_to_job h now event n job store)
        (dispatch_to_job-Keeps h now event n job store s f)

  dispatch_all-Keeps :
      (h : WebhookHandler) (now : ℕ) (event : WebhookEvent) (ns : List ℕ) (o : Outcome)
      → Keeps o.store
      → Keeps (dispatch_all h now event ns o).store
  unfolding dispatch_all
  dispatch_all-Keeps h now event [] o s = s
  dispatch_all-Keeps h now event (n ∷ ns) o s =
      let r = dispatch_pr h now event n (find_pr n o.store.rows) o.store in
      let found =
        find_pr-holds (Found o.store.rows) n o.store.rows (IsKeyed-Found o.store.rows s.0) in
      dispatch_all-Keeps h now event ns
        (record {
          store = r.0;
          dispatched_to = [];
          promoted_parent = or_earlier r.2 o.promoted_parent;
        })
        (dispatch_pr-Keeps h now event n (find_pr n o.store.rows) o.store s found)

-- Where ids are keys, a job that has ended is the same row after any event as before it, even if it is
-- the parent of a stack that the event completes.
pub dispatch_event-terminal :
    (h : WebhookHandler) (now : ℕ) (event : WebhookEvent) (store : JobStore) (job_id : String)
    {job : JobRecord}
    → IsKeyed store.rows
    → load store job_id ≡ some job
    → is_terminal job.status ≡ true
    → load (dispatch_event h now event store).store job_id ≡ some job
unfolding dispatch_event
dispatch_event-terminal h now event store job_id {job} keyed here ended =
    (dispatch_all-Keeps job_id job ended h now event (numbers_of event)
      (record { store = store; dispatched_to = []; promoted_parent = none }) (keyed, here)).1
