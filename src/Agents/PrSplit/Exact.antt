-- ===== src/Agents/PrSplit/Exact.antt =====
-- What a plan contains.
use harness_solomon.Base.{
  ℕ, zero, suc, ◌+◌, ◌/◌, ◌≤◌, ◌<◌, max, ◌≡◌, refl, ap, ◌∙◌, true, Option, none, some, List, [],
  ◌∷◌, map, ◌⊎◌, inl, inr, ◌==◌, if◌then◌else◌, any, length, take, arith,
}
use harness_solomon.Base.Text.{Text, text_eq}
use harness_solomon.Base.Sort.{text_leb, times, times-sort_by}
use harness_solomon.Agents.PrSplit.Group.{
  sorted, distinct, split_by_count, split_by_directory, split_by_size, is_filled,
}
use harness_solomon.Agents.PrSplit.Plan.{
  SplitSlice, Strategy, files, directory, size, returns, resolve_strategy, ceil_div, ceil_slices,
  group_files, make_slice, number, slices, slices_of, split_into, groups_by, Request, changed_files,
  groups_of, plan_splits, empty_slice, clamp, clamp_slices,
}
use harness_solomon.Agents.PrSplit.Partition.{
  placed, placed-split_by_count, placed-split_by_size, times-distinct,
}
use harness_solomon.Agents.PrSplit.Directories.{placed-split_by_directory}

-- How often the file stands in the slices.
abbrev pub planned : Text → List SplitSlice → ℕ
planned f ss = placed f (map (λ s. s.files) ss)

pub times-make_slice :
    (f : Text) (i : ℕ) (g w t : Text) (total : ℕ) (fs : List Text)
    → times f (make_slice i fs w t total).files ≡ times f fs
unfolding make_slice
times-make_slice f i g w t total fs =
    times-sort_by text_leb f (sorted fs) ∙ times-sort_by text_leb f fs

pub planned-number :
    (f : Text) (i : ℕ) (gs : List (List Text)) (w t : Text) (total : ℕ)
    → planned f (number i gs w t total) ≡ placed f gs
unfolding number
planned-number f i [] w t total = refl
planned-number f i (g ∷ gs) w t total =
    omega (arith, times-make_slice f i [] w t total g, planned-number f (suc i) gs w t total)

-- An empty grouping is replaced by the files themselves.
pub planned-slices :
    (f : Text) (gs : List (List Text)) (fs : List Text) (w t : Text)
    → placed f gs ≡ times f fs
    → planned f (slices gs fs w t) ≡ times f fs
unfolding slices
planned-slices f [] fs w t h = omega (arith, times-make_slice f 0 [] w t 1 fs)
planned-slices f (g ∷ []) fs w t h = omega (arith, times-make_slice f 0 [] w t 1 g)
planned-slices f (g ∷ k ∷ gs) fs w t h =
    planned-number f 0 (g ∷ k ∷ gs) w t (length (g ∷ k ∷ gs)) ∙ h

take-all : (n : ℕ) (gs : List (List Text)) → length gs ≤ n → take n gs ≡ gs
take-all zero [] h = refl
take-all zero (g ∷ gs) h = ground arith
take-all (suc n) [] h = refl
take-all (suc n) (g ∷ gs) h = ap (λ k. g ∷ k) (take-all n gs (omega arith))

ceil_slices-some :
    (n per least most : ℕ) (asked : Option ℕ)
    → 0 < per
    → (k : ℕ) × (ceil_slices n per asked least most ≡ some k)
unfolding ceil_slices ceil_div
ceil_slices-some n zero least most asked h = ground arith
ceil_slices-some n (suc per) least most none h =
    (clamp_slices (max 1 ((n + per) / suc per)) n least most, refl)
ceil_slices-some n (suc per) least most (some a) h = (clamp_slices (max 1 a) n least most, refl)

-- The groups of a strategy hold each file as often as the diff does.
group_files-placed :
    (s : Strategy) (q : Request)
    → 0 < q.max_files_per_slice
    → (s ≡ directory → length (split_by_directory (changed_files q)) ≤ max 1 q.max_slices)
    → (gs : List (List Text)) × (group_files s
          (changed_files q)
          q.n_slices
          q.max_files_per_slice
          q.min_slices
          q.max_slices
          q.file_locs
        ≡ returns gs)
      × ((f : Text) → placed f gs ≡ times f (changed_files q))
unfolding group_files
group_files-placed files q h fits =
    let fs = changed_files q in
    let (k, e) =
      ceil_slices-some (length fs) q.max_files_per_slice q.min_slices q.max_slices q.n_slices h in
    (split_by_count fs k, ap (split_into (split_by_count fs)) e, λ f. placed-split_by_count f fs k)
group_files-placed directory q h fits =
    let fs = changed_files q in
    let gs = split_by_directory fs in
    let n = clamp (length gs) 1 q.max_slices in
    (
      take n gs,
      refl,
      λ f. rw (take-all n gs (omega (arith, fits refl))) (placed-split_by_directory f fs),
    )
group_files-placed size q h fits =
    let fs = changed_files q in
    let (k, e) =
      ceil_slices-some (length fs) q.max_files_per_slice q.min_slices q.max_slices q.n_slices h in
    (
      split_by_size fs k q.file_locs,
      ap (split_into (λ n. split_by_size fs n q.file_locs)) e,
      λ f. placed-split_by_size f fs k q.file_locs,
    )

pub is_filled-cases : (fs : List Text) → (is_filled fs ≡ true) ⊎ (fs ≡ [])
is_filled-cases [] = inr refl
is_filled-cases (f ∷ fs) = inl refl

-- 1 for a file of the list and 0 for another.
abbrev pub once : Text → List Text → ℕ
once f fs = if any (λ g. g == f) fs then 1 else 0

pub changed-once : (f : Text) (q : Request) → times f (changed_files q) ≡ once f q.diff_files
changed-once f q = times-sort_by text_leb f (distinct q.diff_files) ∙ times-distinct f q.diff_files

-- Of a known strategy, with room for a file in a slice and, for a plan by directories, at most as many
-- directories as slices are allowed, `plan_splits` gives slices in which each file of the diff stands
-- once, and no other file.
pub plan_splits-once :
    (q : Request) (s : Strategy)
    → resolve_strategy q.strategy (length (changed_files q)) q.max_files_per_slice ≡ some s
    → 0 < q.max_files_per_slice
    → (s ≡ directory → length (split_by_directory (changed_files q)) ≤ max 1 q.max_slices)
    → (ss : List SplitSlice) × (plan_splits q ≡ returns ss)
      × ((f : Text) → planned f ss ≡ once f q.diff_files)
unfolding plan_splits groups_of slices_of empty_slice
plan_splits-once q s e room fits =
    let (gs, same, each) = group_files-placed s q room fits in
    let found = ap (groups_by q) e ∙ same in
    elim (is_filled-cases q.diff_files) [
      | inl full ↦ (
        slices gs (changed_files q) q.worktree_id q.task,
        rw (full, found),
        λ f. planned-slices f gs (changed_files q) q.worktree_id q.task (each f) ∙ changed-once f q,
      )
      | inr e0 ↦ (empty_slice q.worktree_id q.task ∷ [], rw e0, λ f. rw e0)
    ]
