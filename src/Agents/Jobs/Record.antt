-- ===== src/Agents/Jobs/Record.antt =====
-- harness/agents/jobs.py: the rows of the table of merge jobs, and the arguments of its operations.
use harness_solomon.Base.{
  ℕ, String, Bool, true, false, Option, none, some, List, [], ◌∷◌, ◌==◌, nat_eq, string_eq,
  if◌then◌else◌,
}

pub data JobStatus : Type 0 where
  queued running_code running_review verifying pr_creating pr_open pr_waiting_checks : JobStatus
  pr_waiting_review merging_pr pr_auto_merge_enabled merged failed timeout cancelled : JobStatus

-- The text in the column.
unfoldable pub value : JobStatus → String
value queued = "queued"
value running_code = "running_code"
value running_review = "running_review"
value verifying = "verifying"
value pr_creating = "pr_creating"
value pr_open = "pr_open"
value pr_waiting_checks = "pr_waiting_checks"
value pr_waiting_review = "pr_waiting_review"
value merging_pr = "merging_pr"
value pr_auto_merge_enabled = "pr_auto_merge_enabled"
value merged = "merged"
value failed = "failed"
value timeout = "timeout"
value cancelled = "cancelled"

abbrev pub job_statuses : List JobStatus
job_statuses =
    queued ∷ running_code ∷ running_review ∷ verifying ∷ pr_creating ∷ pr_open ∷ pr_waiting_checks
    ∷ pr_waiting_review ∷ merging_pr ∷ pr_auto_merge_enabled ∷ merged ∷ failed ∷ timeout ∷ cancelled
    ∷ []

find_status : String → List JobStatus → Option JobStatus
unfolding value
find_status s [] = none
find_status s (j ∷ js) = if value j == s then some j else find_status s js

-- `status in JOB_STATUSES`, with the status that it names.
unfoldable pub status_of : String → Option JobStatus
unfolding find_status
status_of s = find_status s job_statuses

-- `status in _RUNNING_STATUSES`.
abbrev pub is_running : JobStatus → Bool
is_running merged = false
is_running failed = false
is_running timeout = false
is_running cancelled = false
is_running _ = true

abbrev pub is_merged : JobStatus → Bool
is_merged merged = true
is_merged _ = false

pub record JobRecord : Type 0 where
  pub id : String
  pub worktree_id : String
  pub status : JobStatus
  pub started_at : ℕ
  pub finished_at : Option ℕ
  pub cost : ℕ
  pub error : Option String
  pub model : String
  pub prompt : String
  pub result_text : Option String
  pub repo : Option String
  pub pr_url : Option String
  pub pr_number : Option ℕ
  pub target_branch : Option String
  pub pr_mode : String
  pub pr_stack_id : Option String
  pub stack_position : ℕ
  pub stack_size : ℕ
  pub depends_on_pr_number : Option ℕ
  pub stack_repos : Option (List String)

pub record JobStore : Type 0 where
  pub rows : List JobRecord
