-- ===== src/Agents/PrSplit/Tests.antt =====
-- Plans of a diff of three files in two directories.
use harness_solomon.Base.{
  ℕ, ◌≤◌, ◌≡◌, refl, max, true, none, some, List, [], ◌∷◌, ◌==◌, any, All, length, String,
  string_eq, nat_eq, arith,
}
use harness_solomon.Base.Text.{Text, text_eq, codes, partition}
use harness_solomon.Base.Dict.{Dict, get, put}
use harness_solomon.Base.Sort.{insert_by, sort_by}
use harness_solomon.Base.Decimal.{decimal}
use harness_solomon.Agents.PrSplit.Group.{
  distinct, split_by_count, split_by_directory, split_by_size, bucket_all, top, loc, balance,
  append_at, add_at, deal,
}
use harness_solomon.Agents.PrSplit.Plan.{
  SplitSlice, Request, returns, directory, resolve_strategy, ceil_div, ceil_slices, clamp_slices,
  group_files, make_slice, number, slices, slices_of, groups_of, plan_splits, changed_files,
}
use harness_solomon.Agents.PrSplit.Exact.{planned, once, plan_splits-once}
use harness_solomon.Agents.PrSplit.Dropped.{plan_splits-drops}
use harness_solomon.Agents.PrSplit.Balance.{Spread, split_by_size-Spread}
use harness_solomon.Agents.PrSplit.Stack.{plan_splits-length}

abbrev diff : List Text
diff = codes "src/b" ∷ codes "docs/a" ∷ codes "src/a" ∷ codes "docs/a" ∷ []

abbrev request : String → ℕ → Request
request strategy max_slices = record {
  diff_files = diff;
  strategy = strategy;
  worktree_id = codes "w1";
  task = codes "fix";
  n_slices = none;
  max_files_per_slice = 2;
  min_slices = 1;
  max_slices = max_slices;
  file_locs = [];
}

changed : changed_files (request "auto" 8) ≡ codes "docs/a" ∷ codes "src/a" ∷ codes "src/b" ∷ []
unfolding distinct sort_by insert_by
changed = refl

by_directory :
    split_by_directory (changed_files (request "auto" 8))
    ≡ (codes "docs/a" ∷ []) ∷ (codes "src/a" ∷ codes "src/b" ∷ []) ∷ []
unfolding distinct sort_by insert_by split_by_directory bucket_all top partition get put
by_directory = refl

auto_is_directory :
    resolve_strategy "auto" (length (changed_files (request "auto" 8))) 2 ≡ some directory
unfolding distinct sort_by insert_by resolve_strategy
auto_is_directory = refl

plan_splits-once_example :
    (ss : List SplitSlice) × (plan_splits (request "auto" 8) ≡ returns ss)
    × ((f : Text) → planned f ss ≡ once f diff)
plan_splits-once_example =
    plan_splits-once (request "auto" 8) directory auto_is_directory (omega arith)
      (λ e. rw by_directory (omega arith))

-- One slice is allowed.
plan_splits-drops_example :
    (ss : List SplitSlice) × (f : Text) × (plan_splits (request "auto" 1) ≡ returns ss)
    × (any (λ g. g == f) diff ≡ true)
    × (planned f ss ≡ 0)
plan_splits-drops_example =
    plan_splits-drops (request "auto" 1) auto_is_directory (rw by_directory (omega arith))

abbrev two_slices : List SplitSlice
two_slices =
    record {
      position = 0;
      files = codes "docs/a" ∷ codes "src/b" ∷ [];
      branch_name = codes "harness/w1/step-0";
      title = codes "harness: fix (step 1/2)";
    }
    ∷ record {
      position = 1;
      files = codes "src/a" ∷ [];
      branch_name = codes "harness/w1/step-1";
      title = codes "harness: fix (step 2/2)";
    }
    ∷ []

by_count : plan_splits (request "files" 8) ≡ returns two_slices
unfolding plan_splits distinct sort_by insert_by resolve_strategy groups_of group_files ceil_slices
    ceil_div clamp_slices split_by_count deal append_at slices_of slices number make_slice decimal
by_count = refl

plan_splits-length_example : (1 ≤ length two_slices) × (length two_slices ≤ max 1 (max 8 1))
plan_splits-length_example = plan_splits-length (request "files" 8) two_slices by_count

abbrev locs : Dict Text ℕ
locs = (codes "a", 100) ∷ (codes "b", 50) ∷ (codes "c", 50) ∷ (codes "d", 10) ∷ []

abbrev four : List Text
four = codes "a" ∷ codes "b" ∷ codes "c" ∷ codes "d" ∷ []

-- The example of the docstring: the third file goes to the second slice.
by_size :
    split_by_size four 2 locs ≡ (codes "a" ∷ codes "d" ∷ []) ∷ (codes "b" ∷ codes "c" ∷ []) ∷ []
unfolding split_by_size balance loc get sort_by insert_by append_at add_at
by_size = refl

light : All (λ f. loc locs f ≤ 100) four
unfolding loc get
light = (omega arith, (omega arith, (omega arith, (omega arith, tt))))

split_by_size-Spread_example :
    Spread locs 100 (split_by_size four 2 locs) (split_by_size four 2 locs)
split_by_size-Spread_example = split_by_size-Spread 100 locs four 2 light
