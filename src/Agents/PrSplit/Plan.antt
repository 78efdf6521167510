-- ===== src/Agents/PrSplit/Plan.antt =====
-- harness/agents/pr_split.py: plan_splits. Counts are numbers from 0 up (`max(1, n)` makes no
-- difference between 0 and less), and the ceiling of a quotient is exact, as Python's is below
-- 2 ^ 53.
use harness_solomon.Base.{
  ℕ, zero, suc, ◌+◌, ◌/◌, min, max, String, Option, none, some, List, [], ◌∷◌, ◌++◌, leb, ◌==◌,
  nat_eq, string_eq, if◌then◌else◌, take, length,
}
use harness_solomon.Base.Text.{Text, text_eq, codes}
use harness_solomon.Base.Dict.{Dict}
use harness_solomon.Base.Sort.{sort_by}
use harness_solomon.Base.Decimal.{decimal}
use harness_solomon.Agents.PrSplit.Group.{
  sorted, distinct, split_by_count, split_by_directory, split_by_size, is_filled,
}

pub record SplitSlice : Type 0 where
  pub position : ℕ
  pub files : List Text
  pub branch_name : Text
  pub title : Text

pub data Strategy : Type 0 where
  files directory size : Strategy

-- What `plan_splits` raises: ValueError, or ZeroDivisionError from `n_files / max_files_per_slice`.
pub data PlanError : Type 0 where
  unknown_strategy zero_division : PlanError

pub data Planned {ℓ} (A : Type ℓ) : Type ℓ where
  returns : A → Planned A
  raises : PlanError → Planned A

-- `_resolve_strategy`; `none` is the ValueError.
unfoldable pub resolve_strategy : String → ℕ → ℕ → Option Strategy
resolve_strategy strategy n_files max_files_per_slice =
    if strategy == "files"
    then some files
    else if strategy == "directory"
    then some directory
    else if strategy == "size"
    then some size
    else if strategy == "auto"
    then if leb n_files max_files_per_slice then some files else some directory
    else none

-- `math.ceil(a / b)`; `none` is the ZeroDivisionError.
unfoldable pub ceil_div : ℕ → ℕ → Option ℕ
ceil_div a zero = none
ceil_div a (suc b) = some ((a + b) / suc b)

unfoldable pub clamp_slices : ℕ → ℕ → ℕ → ℕ → ℕ
clamp_slices n n_files min_slices max_slices =
    max (min (min n max_slices) n_files) (min min_slices n_files)

-- `_ceil_slices`.
unfoldable pub ceil_slices : ℕ → ℕ → Option ℕ → ℕ → ℕ → Option ℕ
unfolding ceil_div clamp_slices
ceil_slices n_files max_files_per_slice (some n) min_slices max_slices =
    some (clamp_slices (max 1 n) n_files min_slices max_slices)
ceil_slices n_files max_files_per_slice none min_slices max_slices =
    elim (ceil_div n_files max_files_per_slice) [
      | none ↦ none
      | some n ↦ some (clamp_slices (max 1 n) n_files min_slices max_slices)
    ]

-- `_clamp`.
abbrev pub clamp : ℕ → ℕ → ℕ → ℕ
clamp n lo hi = max lo (min n hi)

-- `_make_slice`, with the sorting of `__post_init__`.
unfoldable pub make_slice : ℕ → List Text → Text → Text → ℕ → SplitSlice
unfolding sort_by decimal
make_slice position fs worktree_id task slice_total = record {
  position = position;
  files = sorted (sorted fs);
  branch_name = codes "harness/" ++ worktree_id ++ codes "/step-" ++ decimal position;
  title =
      codes "harness: "
      ++ take 80 task
      ++ codes " (step "
      ++ decimal (position + 1)
      ++ codes "/"
      ++ decimal slice_total
      ++ codes ")";
}

abbrev pub or_no_changes : Text → Text
or_no_changes [] = codes "(no changes)"
or_no_changes (c ∷ s) = c ∷ s

-- `_empty_slice`.
unfoldable pub empty_slice : Text → Text → SplitSlice
empty_slice worktree_id task = record {
  position = 0;
  files = [];
  branch_name = codes "harness/" ++ worktree_id ++ codes "/step-0";
  title = codes "harness: " ++ or_no_changes (take 80 task) ++ codes " (step 1/1)";
}

abbrev pub split_into : (ℕ → List (List Text)) → Option ℕ → Planned (List (List Text))
split_into split none = raises zero_division
split_into split (some n) = returns (split n)

-- The branch of `plan_splits` for each strategy.
unfoldable pub group_files :
    Strategy → List Text → Option ℕ → ℕ → ℕ → ℕ → Dict Text ℕ → Planned (List (List Text))
unfolding ceil_slices split_by_count split_by_directory split_by_size
group_files files fs n_slices max_files_per_slice min_slices max_slices file_locs =
    split_into (split_by_count fs)
      (ceil_slices (length fs) max_files_per_slice n_slices min_slices max_slices)
group_files directory fs n_slices max_files_per_slice min_slices max_slices file_locs =
    let groups = split_by_directory fs in returns (take (clamp (length groups) 1 max_slices) groups)
group_files size fs n_slices max_files_per_slice min_slices max_slices file_locs =
    split_into (λ n. split_by_size fs n file_locs)
      (ceil_slices (length fs) max_files_per_slice n_slices min_slices max_slices)

-- `enumerate(groups)` from this position on.
unfoldable pub number : ℕ → List (List Text) → Text → Text → ℕ → List SplitSlice
unfolding make_slice
number i [] worktree_id task total = []
number i (g ∷ gs) worktree_id task total =
    make_slice i g worktree_id task total ∷ number (suc i) gs worktree_id task total

unfoldable pub slices : List (List Text) → List Text → Text → Text → List SplitSlice
unfolding number make_slice
slices [] fs worktree_id task = make_slice 0 fs worktree_id task 1 ∷ []
slices (g ∷ []) fs worktree_id task = make_slice 0 g worktree_id task 1 ∷ []
slices (g ∷ h ∷ gs) fs worktree_id task =
    number 0 (g ∷ h ∷ gs) worktree_id task (length (g ∷ h ∷ gs))

unfoldable pub slices_of :
    Planned (List (List Text)) → List Text → Text → Text → Planned (List SplitSlice)
unfolding slices
slices_of (raises e) fs worktree_id task = raises e
slices_of (returns groups) fs worktree_id task = returns (slices groups fs worktree_id task)

-- The arguments of `plan_splits`.
pub record Request : Type 0 where
  pub diff_files : List Text
  pub strategy : String
  pub worktree_id : Text
  pub task : Text
  pub n_slices : Option ℕ
  pub max_files_per_slice : ℕ
  pub min_slices : ℕ
  pub max_slices : ℕ
  pub file_locs : Dict Text ℕ

-- `sorted(set(diff_files))`.
abbrev pub changed_files : Request → List Text
changed_files q = sorted (distinct q.diff_files)

abbrev pub groups_by : Request → Option Strategy → Planned (List (List Text))
groups_by q none = raises unknown_strategy
groups_by q (some s) =
    group_files s (changed_files q) q.n_slices q.max_files_per_slice q.min_slices q.max_slices
      q.file_locs

unfoldable pub groups_of : Request → Planned (List (List Text))
unfolding resolve_strategy group_files
groups_of q =
    groups_by q (resolve_strategy q.strategy (length (changed_files q)) q.max_files_per_slice)

-- `plan_splits`.
unfoldable pub plan_splits : Request → Planned (List SplitSlice)
unfolding groups_of slices_of empty_slice
plan_splits q =
    if is_filled q.diff_files
    then slices_of (groups_of q) (changed_files q) q.worktree_id q.task
    else returns (empty_slice q.worktree_id q.task ∷ [])
