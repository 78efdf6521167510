-- ===== src/Agents/Webhooks/Closing.antt =====
-- What the merge of a child's pull request does to the parent of its stack.
use harness_solomon.Base.{
  ℕ, String, Bool, true, false, Option, none, some, List, [], ◌∷◌, ◌≡◌, refl, ap, subst, ◌∙◌,
  OnSome, ◌-◌, ◌≤◌, sym, any, not, All, ==_refl, arith, Bool-cases, inl, inr, length, ◌==◌, nat_eq,
  string_eq,
}
use harness_solomon.Agents.Jobs.{
  JobRecord, JobStore, merged, in_stack, find_id, load, find_pr, update, update_row,
  find_jobs_by_stack_id, all_stack_children_merged,
}
use harness_solomon.Agents.Jobs.Keys.{
  IsKeyed, Found, IsKeyed-Found, update_rows-IsKeyed, find_id-update_rows,
  find_id-update_rows_other, find_pr-holds, some_injective,
}
use harness_solomon.Agents.Webhooks.Dispatch.{
  WebhookEvent, WebhookHandler, processed, marked_merged, is_terminal, status_update, merged_update,
  dispatch_to_job,
}
use harness_solomon.Agents.Webhooks.Stack.{
  Outcome, Promotion, after_dispatch, dispatch_pr, dispatch_event, numbers_of, find_parent,
  total_cost, promote, promote_found, maybe_promote_stack_parent,
}
use harness_solomon.Agents.Webhooks.Stacks.{outcome_of, dispatch_single}
use harness_solomon.Agents.Webhooks.Complete.{
  waits, IsOnly, update_rows-IsOnly, find_parent-only, all_merged-waits,
}

closed_dispatch :
    (h : WebhookHandler) (now : ℕ) (e : WebhookEvent) (n : ℕ) (job : JobRecord) (store : JobStore)
    → e.event_type ≡ "pull_request"
    → e.action ≡ some "closed"
    → e.pr_merged ≡ true
    → is_terminal job.status ≡ false
    → dispatch_to_job h now e n job store
      ≡ (update store job.id now (merged_update e n job), processed marked_merged job.id)
unfolding dispatch_to_job
closed_dispatch h now e n job store ty ac me open_still = rw (open_still, ty, ac, me)

promotion_of : String → JobRecord → List JobRecord → Promotion
promotion_of stack_id parent rows = record {
  stack_id = stack_id;
  parent_job_id = parent.id;
  children_count = length rows - 1;
}

complete_promotes :
    (stack_id : String) (now : ℕ) (store : JobStore) {parent : JobRecord}
    → all_stack_children_merged store stack_id ≡ true
    → find_parent (find_jobs_by_stack_id store stack_id) ≡ some parent
    → is_terminal parent.status ≡ false
    → maybe_promote_stack_parent stack_id now store ≡ (
      update store parent.id now
          (status_update merged true (total_cost (find_jobs_by_stack_id store stack_id)) none),
      some (promotion_of stack_id parent (find_jobs_by_stack_id store stack_id)),
    )
unfolding maybe_promote_stack_parent promote_found promote promotion_of
complete_promotes stack_id now store all_merged par open_still =
    let rows = find_jobs_by_stack_id store stack_id in
    rw all_merged (ap (λ o. promote_found stack_id now rows o store) par ∙ rw open_still)

-- The store after the job of a merged pull request is marked.
abbrev pub marked : JobStore → ℕ → WebhookEvent → ℕ → JobRecord → JobStore
marked store now e n job = update store job.id now (merged_update e n job)

closed_pr :
    (h : WebhookHandler) (now : ℕ) (e : WebhookEvent) (n : ℕ) (job : JobRecord) (store : JobStore)
    {stack_id : String}
    → e.event_type ≡ "pull_request"
    → e.action ≡ some "closed"
    → e.pr_merged ≡ true
    → is_terminal job.status ≡ false
    → job.pr_stack_id ≡ some stack_id
    → (stack_id == "") ≡ false
    → let promoted = maybe_promote_stack_parent stack_id now (marked store now e n job) in
      dispatch_pr h now e n (some job) store
      ≡ (promoted.0, processed marked_merged job.id, promoted.1)
unfolding dispatch_pr after_dispatch
closed_pr h now e n job store ty ac me open_still sid named =
    rw (closed_dispatch h now e n job store ty ac me open_still, sid, named)

incomplete_keeps :
    (stack_id : String) (now : ℕ) (store : JobStore)
    → all_stack_children_merged store stack_id ≡ false
    → maybe_promote_stack_parent stack_id now store ≡ (store, none)
unfolding maybe_promote_stack_parent
incomplete_keeps stack_id now store incomplete = rw incomplete

-- The row of the id is merged.
abbrev pub IsMerged : JobStore → String → Type 0
IsMerged store job_id = (r : JobRecord) × (load store job_id ≡ some r) × (r.status ≡ merged)

stacked :
    (stack_id : String) (r : JobRecord) → r.pr_stack_id ≡ some stack_id → in_stack stack_id r ≡ true
stacked stack_id r h = rw (h, ==_refl stack_id)

other_way : (a b : String) → (b == a) ≡ false → (a == b) ≡ false
other_way a b h = ground (arith, h, string_eq.same_iff a b, string_eq.same_iff b a)

other_id :
    (store : JobStore) (job parent : JobRecord)
    → find_id job.id store.rows ≡ some job
    → find_id parent.id store.rows ≡ some parent
    → 1 ≤ job.stack_position
    → parent.stack_position ≡ 0
    → (job.id == parent.id) ≡ false
other_id store job parent f g child zero = elim (Bool-cases (job.id == parent.id)) [
  | inr e ↦ e
  | inl e ↦
      let q : job.id ≡ parent.id = (string_eq.same_iff job.id parent.id).0 e in
      let same : job ≡ parent =
        some_injective (sym f ∙ ap (λ (k : String). find_id k store.rows) q ∙ g) in
      absurd (omega (arith, child, zero, ap (λ (r : JobRecord). r.stack_position) same))
]

-- A stack has one parent, an open job at position 0, and the event that the pull request of one of its
-- children is closed and merged comes, where this child is open and ids are keys. Then the child is merged.
-- If every other child is merged, the parent is merged too, and the promotion is reported with its id; and
-- if one is not, nothing is promoted, and the parent is as it was.
pub closing_promotes :
    (h : WebhookHandler) (now : ℕ) (e : WebhookEvent) (n : ℕ) (store : JobStore)
    {job parent : JobRecord} {stack_id : String}
    → IsKeyed store.rows
    → e.event_type ≡ "pull_request"
    → e.action ≡ some "closed"
    → e.pr_merged ≡ true
    → numbers_of e ≡ n ∷ []
    → find_pr n store.rows ≡ some job
    → is_terminal job.status ≡ false
    → job.pr_stack_id ≡ some stack_id
    → (stack_id == "") ≡ false
    → 1 ≤ job.stack_position
    → load store parent.id ≡ some parent
    → parent.pr_stack_id ≡ some stack_id
    → parent.stack_position ≡ 0
    → is_terminal parent.status ≡ false
    → All (IsOnly stack_id parent.id) store.rows
    → let o = dispatch_event h now e store in
      IsMerged o.store job.id
      × (any (waits stack_id job.id) store.rows ≡ false
          → IsMerged o.store parent.id
            × ((p : Promotion) × (o.promoted_parent ≡ some p) × (p.parent_job_id ≡ parent.id)))
      × (any (waits stack_id job.id) store.rows ≡ true
          → (o.promoted_parent ≡ none) × (load o.store parent.id ≡ some parent))
unfolding update_row promotion_of
closing_promotes h now e n store {job} {parent} {stack_id} keyed ty ac me ns f open_still sid named
      child there in_it zero parent_open only =
    let store1 = marked store now e n job in
    let rows = find_jobs_by_stack_id store1 stack_id in
    let u = merged_update e n job in
    let v = status_update merged true (total_cost rows) none in
    let keyed1 = update_rows-IsKeyed job.id now u store.rows keyed in
    let found_job : find_id job.id store.rows ≡ some job =
      subst (OnSome (Found store.rows)) f
        (find_pr-holds (Found store.rows) n store.rows (IsKeyed-Found store.rows keyed)) in
    let apart = other_id store job parent found_job there child zero in
    let job1 = find_id-update_rows job.id now u store.rows found_job in
    let parent1 = find_id-update_rows_other parent.id job.id now u store.rows apart ∙ there in
    let par =
      find_parent-only store1 stack_id parent (IsKeyed-Found store1.rows keyed1) parent1
        (stacked stack_id parent in_it) zero
        (update_rows-IsOnly stack_id parent.id job.id now u store.rows only) in
    let complete =
      all_merged-waits store stack_id now u job parent refl job1 (stacked stack_id job sid) child
        parent1 (stacked stack_id parent in_it) zero in
    let closed =
      dispatch_single h now e n store ns f
      ∙ ap (outcome_of n) (closed_pr h now e n job store ty ac me open_still sid named) in
    let report = λ (r : JobStore × Option Promotion).
      outcome_of n (r.0, processed marked_merged job.id, r.1) in
    let promoted = λ (none_waits : any (waits stack_id job.id) store.rows ≡ false).
      closed
      ∙ ap report (
          complete_promotes stack_id now store1 (complete ∙ ap (λ (b : Bool). not b) none_waits) par
            parent_open) in
    let kept = λ (some_waits : any (waits stack_id job.id) store.rows ≡ true).
      closed
      ∙ ap report
          (incomplete_keeps stack_id now store1 (complete ∙ ap (λ (b : Bool). not b) some_waits)) in
    (
      elim (Bool-cases (any (waits stack_id job.id) store.rows)) [
        | inl w ↦
            subst (λ (o : Outcome). IsMerged o.store job.id) (sym (kept w))
              (update_row now u job, job1, refl)
        | inr w ↦
            subst (λ (o : Outcome). IsMerged o.store job.id) (sym (promoted w))
              (
                update_row now u job,
                find_id-update_rows_other job.id parent.id now v store1.rows
                      (other_way parent.id job.id apart)
                    ∙ job1,
                refl,
              )
      ],
      λ w.
          subst
            (λ (o : Outcome).
              IsMerged o.store parent.id
              × ((p : Promotion) × (o.promoted_parent ≡ some p) × (p.parent_job_id ≡ parent.id)))
            (sym (promoted w))
            (
              (
                update_row now v parent,
                find_id-update_rows parent.id now v store1.rows parent1,
                refl,
              ),
              (promotion_of stack_id parent rows, refl, refl),
            ),
      λ w.
          subst
            (λ (o : Outcome). (o.promoted_parent ≡ none) × (load o.store parent.id ≡ some parent))
            (sym (kept w)) (refl, parent1),
    )
