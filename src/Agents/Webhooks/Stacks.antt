-- ===== src/Agents/Webhooks/Stacks.antt =====
-- An approving review, and the parent of a stack.
use harness_solomon.Base.{
  ℕ, String, Bool, true, false, Option, none, some, [], ◌∷◌, ◌≡◌, refl, ap, ◌∙◌, nat_eq, string_eq,
}
use harness_solomon.Agents.Jobs.{JobRecord, JobStore, merged, find_pr, update, update_row}
use harness_solomon.Agents.Webhooks.Dispatch.{
  WebhookEvent, WebhookHandler, Dispatched, processed, ignored, already_terminal, merged_via_review,
  is_terminal, status_update, merge_directly, on_review_approved, dispatch_to_job,
}
use harness_solomon.Agents.Webhooks.Stack.{
  Outcome, Promotion, after_dispatch, dispatch_pr, dispatch_all, dispatch_event, numbers_of,
  or_earlier,
}
use harness_solomon.Agents.Webhooks.Lookup.{find_pr-update_found}

-- What an approving review does to the job of its pull request.
approved_dispatch :
    (h : WebhookHandler) (now : ℕ) (e : WebhookEvent) (n : ℕ) (job : JobRecord) (store : JobStore)
    {merge_pr : Option String → Option ℕ → Bool}
    → e.event_type ≡ "pull_request_review"
    → e.review_state ≡ some "approved"
    → h.merger ≡ some merge_pr
    → merge_pr job.repo job.pr_number ≡ true
    → is_terminal job.status ≡ false
    → dispatch_to_job h now e n job store ≡ (
      update store job.id now (status_update merged true job.cost none),
      processed merged_via_review job.id,
    )
unfolding dispatch_to_job on_review_approved merge_directly
approved_dispatch h now e n job store ty st m ok open_still = rw (open_still, ty, st, m, ok)

-- The outcome of an event of one pull request.
abbrev pub outcome_of : ℕ → JobStore × Dispatched × Option Promotion → Outcome
outcome_of n r = record {
  store = r.0;
  dispatched_to = (n, r.1) ∷ [];
  promoted_parent = or_earlier r.2 none;
}

pub dispatch_single :
    (h : WebhookHandler) (now : ℕ) (e : WebhookEvent) (n : ℕ) (store : JobStore) {job : JobRecord}
    → numbers_of e ≡ n ∷ []
    → find_pr n store.rows ≡ some job
    → dispatch_event h now e store ≡ outcome_of n (dispatch_pr h now e n (some job) store)
unfolding dispatch_event dispatch_all
dispatch_single h now e n store ns f =
    ap
      (λ k.
        dispatch_all h now e k
          (record { store = store; dispatched_to = []; promoted_parent = none }))
      ns
    ∙ ap (λ o. outcome_of n (dispatch_pr h now e n o store)) f

ended_dispatch :
    (h : WebhookHandler) (now : ℕ) (e : WebhookEvent) (n : ℕ) (job : JobRecord) (store : JobStore)
    → is_terminal job.status ≡ true
    → dispatch_pr h now e n (some job) store ≡ (store, ignored already_terminal, none)
unfolding dispatch_pr dispatch_to_job after_dispatch
ended_dispatch h now e n job store ended = rw ended

approved_pr :
    (h : WebhookHandler) (now : ℕ) (e : WebhookEvent) (n : ℕ) (job : JobRecord) (store : JobStore)
    {merge_pr : Option String → Option ℕ → Bool}
    → e.event_type ≡ "pull_request_review"
    → e.review_state ≡ some "approved"
    → h.merger ≡ some merge_pr
    → merge_pr job.repo job.pr_number ≡ true
    → is_terminal job.status ≡ false
    → dispatch_pr h now e n (some job) store ≡ (
      update store job.id now (status_update merged true job.cost none),
      processed merged_via_review job.id,
      none,
    )
unfolding dispatch_pr after_dispatch
approved_pr h now e n job store ty st m ok open_still =
    rw (approved_dispatch h now e n job store ty st m ok open_still)

-- When an approving review has made the handler merge the pull request of a job, neither this event nor
-- any later one of that pull request alone promotes the parent of the job's stack: the later event
-- changes nothing.
pub review_merge_strands :
    (h : WebhookHandler) (now later : ℕ) (review event : WebhookEvent) (n : ℕ) (store : JobStore)
    {job : JobRecord} {merge_pr : Option String → Option ℕ → Bool}
    → review.event_type ≡ "pull_request_review"
    → review.review_state ≡ some "approved"
    → numbers_of review ≡ n ∷ []
    → numbers_of event ≡ n ∷ []
    → find_pr n store.rows ≡ some job
    → is_terminal job.status ≡ false
    → h.merger ≡ some merge_pr
    → merge_pr job.repo job.pr_number ≡ true
    → let first = dispatch_event h now review store in
      (first.promoted_parent ≡ none)
      × (dispatch_event h later event first.store ≡ record {
        store = first.store;
        dispatched_to = (n, ignored already_terminal) ∷ [];
        promoted_parent = none;
      })
unfolding update_row
review_merge_strands h now later review event n store {job} ty st ns ms f open_still m ok =
    let u = status_update merged true job.cost none in
    let first =
      dispatch_single h now review n store ns f
      ∙ ap (outcome_of n) (approved_pr h now review n job store ty st m ok open_still) in
    let again = find_pr-update_found n now u store.rows refl f in
    let second =
      dispatch_single h later event n (update store job.id now u) ms again
      ∙ ap (outcome_of n) (
          ended_dispatch h later event n (update_row now u job) (update store job.id now u) refl) in
    rw first (refl, second)
