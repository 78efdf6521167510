-- ===== src/Agents/Webhooks/Tests.antt =====
-- A stack of one child, pull request 7, and its parent.
use harness_solomon.Base.{
  ℕ, ◌≡◌, refl, true, false, none, some, Option, [], ◌∷◌, ◌++◌, ◌≤◌, any, arith, string_eq, nat_eq,
}
use harness_solomon.Base.Text.{codes, strip, lstrip, is_space, partition}
use harness_solomon.Agents.Jobs.{
  JobRecord, JobStore, NewJob, merged, pr_open, load, find_id, find_pr, new_row,
}
use harness_solomon.Agents.Webhooks.Dispatch.{
  WebhookEvent, WebhookHandler, ignored, already_terminal,
}
use harness_solomon.Agents.Webhooks.Stack.{dispatch_event, Promotion}
use harness_solomon.Agents.Webhooks.Inbound.{Outside, Request, handle_raw, is_duplicate}
use harness_solomon.Agents.Webhooks.Accepted.{is_accepted}
use harness_solomon.Agents.Webhooks.Once.{acceptances, accepted_once}
use harness_solomon.Agents.Webhooks.Race.{handle_raw-accepts}
use harness_solomon.Agents.Webhooks.Terminal.{dispatch_event-terminal}
use harness_solomon.Agents.Webhooks.Stacks.{review_merge_strands}
use harness_solomon.Agents.Webhooks.Complete.{waits}
use harness_solomon.Agents.Webhooks.Closing.{IsMerged, closing_promotes}

abbrev new_job : Option ℕ → ℕ → NewJob
new_job pr_number position = record {
  worktree_id = "w1";
  model = "m";
  prompt = "p";
  status = pr_open;
  repo = some "r";
  pr_mode = "ready";
  target_branch = none;
  pr_url = none;
  pr_number = pr_number;
  pr_stack_id = some "s";
  stack_position = position;
  stack_size = 1;
  depends_on_pr_number = none;
  stack_repos = none;
}

abbrev parent : JobRecord
parent = new_row "p" 1 (new_job none 0)

abbrev child : JobRecord
child = new_row "c" 2 (new_job (some 7) 1)

abbrev store : JobStore
store = record { rows = parent ∷ child ∷ [] }

abbrev handler : WebhookHandler
handler = record { merger = some (λ repo n. true); auto_merger = none }

abbrev approval : WebhookEvent
approval = record {
  delivery_id = "d1";
  event_type = "pull_request_review";
  action = some "submitted";
  pr_number = some 7;
  pr_numbers = 7 ∷ [];
  pr_url = none;
  head_sha = none;
  conclusion = none;
  review_state = some "approved";
  pr_merged = false;
}

abbrev closing : WebhookEvent
closing = record approval {
  event_type = "pull_request";
  action = some "closed";
  review_state = none;
  pr_merged = true;
}

finds_child : find_pr 7 store.rows ≡ some child
unfolding find_pr
finds_child = refl

review_merge_strands_example :
    ((dispatch_event handler 5 approval store).promoted_parent ≡ none)
    × (dispatch_event handler 6 closing (dispatch_event handler 5 approval store).store ≡ record {
      store = (dispatch_event handler 5 approval store).store;
      dispatched_to = (7, ignored already_terminal) ∷ [];
      promoted_parent = none;
    })
review_merge_strands_example =
    review_merge_strands handler 5 6 approval closing 7 store refl refl refl refl finds_child refl
      refl refl

parent_there : load store "p" ≡ some parent
unfolding find_id
parent_there = refl

closing_promotes_example :
    let o = dispatch_event handler 6 closing store in
    IsMerged o.store "c"
    × (any (waits "s" "c") store.rows ≡ false
        → IsMerged o.store "p"
          × ((p : Promotion) × (o.promoted_parent ≡ some p) × (p.parent_job_id ≡ "p")))
    × (any (waits "s" "c") store.rows ≡ true
        → (o.promoted_parent ≡ none) × (load o.store "p" ≡ some parent))
closing_promotes_example =
    closing_promotes handler 6 closing 7 store (refl, (refl, tt)) refl refl refl refl finds_child
      refl refl refl (omega arith) parent_there refl refl refl
      ((λ _ _. refl), ((λ _ z. absurd (omega (arith, z))), tt))

abbrev ended_store : JobStore
ended_store = record { rows = parent ∷ record child { status = merged } ∷ [] }

ended_child : load ended_store "c" ≡ some (record child { status = merged })
unfolding find_id
ended_child = refl

dispatch_event-terminal_example :
    load (dispatch_event handler 6 closing ended_store).store "c"
    ≡ some (record child { status = merged })
dispatch_event-terminal_example =
    dispatch_event-terminal handler 6 closing ended_store "c" (refl, (refl, tt)) ended_child refl

abbrev outside : Outside
outside = record { hexdigest = λ secret body. secret ++ body; parse = λ t body. some closing }

abbrev request : Request
request = record {
  body = codes "b";
  signature = some (codes " SHA256=kb ");
  event_type = "pull_request";
  delivery_id = "d1";
  meanwhile = [];
}

accepted_once_example : acceptances outside (codes "k") "d1" [] (request ∷ request ∷ []) ≤ 1
unfolding is_duplicate
accepted_once_example = accepted_once outside (codes "k") "d1" [] (request ∷ request ∷ [])

-- Another delivery is recorded meanwhile.
abbrev raced_request : Request
raced_request = record request { meanwhile = ("d2", "push", none) ∷ [] }

handle_raw-accepts_example : is_accepted (handle_raw outside (codes "k") [] raced_request).1 ≡ true
unfolding strip lstrip is_space partition
handle_raw-accepts_example = handle_raw-accepts outside (codes "k") [] raced_request refl
