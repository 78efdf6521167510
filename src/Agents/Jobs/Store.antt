-- ===== src/Agents/Jobs/Store.antt =====
-- harness/agents/jobs.py: JobStore. The table is the list of its rows, in the order in which they were
-- inserted. A job's id comes from `uuid4` and the time from the clock, so both are arguments; times are
-- numbers in the order of their ISO texts, and costs whole units. Of two newest rows, whose order SQLite
-- leaves open, the one inserted first is taken.
use harness_solomon.Base.{
  ℕ, ◌+◌, String, Bool, true, false, Option, none, some, List, [], ◌∷◌, ◌++◌, map, ltb, leb, ◌==◌,
  nat_eq, string_eq, ◌&&◌, keep, take, if◌then◌else◌,
}
use harness_solomon.Base.Sort.{sort_by}
use harness_solomon.Agents.Jobs.Record.{
  JobStatus, status_of, is_running, is_merged, JobRecord, JobStore, cancelled,
}

-- `WHERE id = ?`.
unfoldable pub find_id : String → List JobRecord → Option JobRecord
find_id job_id [] = none
find_id job_id (r ∷ rs) = if r.id == job_id then some r else find_id job_id rs

-- `load`.
abbrev pub load : JobStore → String → Option JobRecord
load store job_id = find_id job_id store.rows

abbrev pub is_none {ℓ} : {A : Type ℓ} → Option A → Bool
is_none none = true
is_none (some a) = false

-- The keyword arguments of `create`.
pub record NewJob : Type 0 where
  pub worktree_id : String
  pub model : String
  pub prompt : String
  pub status : JobStatus
  pub repo : Option String
  pub pr_mode : String
  pub target_branch : Option String
  pub pr_url : Option String
  pub pr_number : Option ℕ
  pub pr_stack_id : Option String
  pub stack_position : ℕ
  pub stack_size : ℕ
  pub depends_on_pr_number : Option ℕ
  pub stack_repos : Option (List String)

abbrev pub new_row : String → ℕ → NewJob → JobRecord
new_row job_id now j = record {
  id = job_id;
  worktree_id = j.worktree_id;
  status = j.status;
  started_at = now;
  finished_at = none;
  cost = 0;
  error = none;
  model = j.model;
  prompt = j.prompt;
  result_text = none;
  repo = j.repo;
  pr_url = j.pr_url;
  pr_number = j.pr_number;
  target_branch = j.target_branch;
  pr_mode = j.pr_mode;
  pr_stack_id = j.pr_stack_id;
  stack_position = j.stack_position;
  stack_size = j.stack_size;
  depends_on_pr_number = j.depends_on_pr_number;
  stack_repos = j.stack_repos;
}

-- `create`; `none` is the IntegrityError of an id that is there.
unfoldable pub create : JobStore → String → ℕ → NewJob → Option JobStore
unfolding find_id
create store job_id now j =
    if is_none (load store job_id)
    then some (record { rows = store.rows ++ new_row job_id now j ∷ [] })
    else none

-- The arguments of `update_status`.
pub record Update : Type 0 where
  pub status : JobStatus
  pub cost : Option ℕ
  pub error : Option String
  pub finished : Bool
  pub pr_url : Option String
  pub pr_number : Option ℕ
  pub result_text : Option String

abbrev pub or_keep {ℓ} : {A : Type ℓ} → Option A → A → A
or_keep none a = a
or_keep (some b) a = b

abbrev pub or_old {ℓ} : {A : Type ℓ} → Option A → Option A → Option A
or_old none o = o
or_old (some b) o = some b

unfoldable pub update_row : ℕ → Update → JobRecord → JobRecord
update_row now u r = record r {
  status = u.status;
  cost = or_keep u.cost r.cost;
  error = or_old u.error r.error;
  pr_url = or_old u.pr_url r.pr_url;
  pr_number = or_old u.pr_number r.pr_number;
  result_text = or_old u.result_text r.result_text;
  finished_at = if u.finished then some now else r.finished_at;
}

unfoldable pub update_rows : String → ℕ → Update → List JobRecord → List JobRecord
unfolding update_row
update_rows job_id now u [] = []
update_rows job_id now u (r ∷ rs) =
    (if r.id == job_id then update_row now u r else r) ∷ update_rows job_id now u rs

-- `update_status` with a status that is known.
abbrev pub update : JobStore → String → ℕ → Update → JobStore
update store job_id now u = record { rows = update_rows job_id now u store.rows }

-- `update_status` with the text of a status; `none` is the ValueError.
unfoldable pub update_status : JobStore → String → String → ℕ → Update → Option JobStore
unfolding status_of update_rows
update_status store job_id status now u = elim (status_of status) [
  | none ↦ none
  | some s ↦ some (update store job_id now (record u { status = s }))
]

abbrev pub has_pr : ℕ → JobRecord → Bool
has_pr n r = elim r.pr_number [ none ↦ false | some m ↦ m == n ]

abbrev pub newer : JobRecord → Option JobRecord → JobRecord
newer r none = r
newer r (some q) = if ltb r.started_at q.started_at then q else r

-- `WHERE pr_number = ? ORDER BY started_at DESC LIMIT 1`.
unfoldable pub find_pr : ℕ → List JobRecord → Option JobRecord
find_pr n [] = none
find_pr n (r ∷ rs) = let rest = find_pr n rs in if has_pr n r then some (newer r rest) else rest

-- `find_job_by_pr_number`.
abbrev pub find_job_by_pr_number : JobStore → ℕ → Option JobRecord
find_job_by_pr_number store n = find_pr n store.rows

abbrev pub in_stack : String → JobRecord → Bool
in_stack stack_id r = elim r.pr_stack_id [ none ↦ false | some s ↦ s == stack_id ]

-- `ORDER BY stack_position ASC, started_at ASC`.
abbrev pub by_position : JobRecord → JobRecord → Bool
by_position r q =
    if ltb r.stack_position q.stack_position
    then true
    else if ltb q.stack_position r.stack_position
    then false
    else leb r.started_at q.started_at

-- `find_jobs_by_stack_id`.
unfoldable pub find_jobs_by_stack_id : JobStore → String → List JobRecord
unfolding sort_by
find_jobs_by_stack_id store stack_id = sort_by by_position (keep (in_stack stack_id) store.rows)

-- `SUM(CASE WHEN ... THEN 1 ELSE 0 END)` over the rows of a stack.
abbrev pub count_rows : (JobRecord → Bool) → List JobRecord → ℕ
count_rows p [] = 0
count_rows p (r ∷ rs) = (if p r then 1 else 0) + count_rows p rs

-- `all_stack_children_merged`.
unfoldable pub all_stack_children_merged : JobStore → String → Bool
all_stack_children_merged store stack_id =
    let rows = keep (in_stack stack_id) store.rows in
    let orch_count = count_rows (λ r. r.stack_position == 0) rows in
    let child_count = count_rows (λ r. leb 1 r.stack_position) rows in
    let child_merged = count_rows (λ r. leb 1 r.stack_position && is_merged r.status) rows in
    leb 1 orch_count && leb 1 child_count && child_merged == child_count

-- `list_recent`, for `n` from 0 up.
unfoldable pub list_recent : JobStore → ℕ → List JobRecord
unfolding sort_by
list_recent store n = take n (sort_by (λ r q. leb q.started_at r.started_at) store.rows)

abbrev pub cancel : ℕ → JobRecord → JobRecord
cancel now r = record r {
  status = cancelled;
  finished_at = some now;
  error = some "process restarted";
}

-- `recover_running`, with the ids of the jobs that it cancels.
unfoldable pub recover_running : JobStore → ℕ → JobStore × List String
recover_running store now = (
  record { rows = map (λ r. if is_running r.status then cancel now r else r) store.rows },
  map (λ r. r.id) (keep (λ r. is_running r.status) store.rows),
)
