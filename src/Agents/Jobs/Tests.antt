-- ===== src/Agents/Jobs/Tests.antt =====
-- A store with one job that ended and one in flight.
use harness_solomon.Base.{◌≡◌, refl, true, none, some, [], ◌∷◌, any, All, ◌==◌, string_eq}
use harness_solomon.Agents.Jobs.Record.{JobStatus, JobStore, merged, cancelled, pr_open}
use harness_solomon.Agents.Jobs.Store.{NewJob, load, find_id, new_row, recover_running}
use harness_solomon.Agents.Jobs.Recovery.{Ended, recover_running_lem}

abbrev new_job : JobStatus → NewJob
new_job status = record {
  worktree_id = "w1";
  model = "m";
  prompt = "p";
  status = status;
  repo = none;
  pr_mode = "off";
  target_branch = none;
  pr_url = none;
  pr_number = none;
  pr_stack_id = none;
  stack_position = 0;
  stack_size = 1;
  depends_on_pr_number = none;
  stack_repos = none;
}

abbrev store : JobStore
store = record { rows = new_row "a" 1 (new_job merged) ∷ new_row "b" 2 (new_job pr_open) ∷ [] }

second_job : load store "b" ≡ some (new_row "b" 2 (new_job pr_open))
unfolding find_id
second_job = refl

recover_running_lem_example :
    All (λ r. Ended r.status) (recover_running store 9).0.rows
    × (Ended pr_open
        → load (recover_running store 9).0 "b" ≡ some (new_row "b" 2 (new_job pr_open)))
    × (¬ Ended pr_open
        → (load (recover_running store 9).0 "b"
            ≡ some (record (new_row "b" 2 (new_job pr_open)) {
              status = cancelled;
              finished_at = some 9;
              error = some "process restarted";
            }))
          × (any (λ i. i == "b") (recover_running store 9).1 ≡ true))
recover_running_lem_example = recover_running_lem store 9 "b" second_job
