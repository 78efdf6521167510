-- ===== src/Agents/PrSplit/Branches.antt =====
-- The slices of a plan are numbered from 0, sorted, and on branches of their own.
use harness_solomon.Base.{
  ℕ, suc, ◌<◌, ◌≡◌, ◌≢◌, refl, sym, subst, ◌∙◌, List, [], ◌∷◌, ◌++◌, inl, inr, Bool-cases, All,
  length, arith,
}
use harness_solomon.Base.Text.{Text, codes}
use harness_solomon.Base.Sort.{text_leb, text_leb-total, IsSortedBy, sort_by-IsSortedBy}
use harness_solomon.Base.Decimal.{decimal, decimal-injective}
use harness_solomon.Agents.PrSplit.Group.{sorted, is_filled}
use harness_solomon.Agents.PrSplit.Plan.{
  SplitSlice, Planned, returns, raises, make_slice, number, slices, slices_of, Request,
  changed_files, groups_of, plan_splits, empty_slice,
}
use harness_solomon.Agents.PrSplit.Stack.{plan_splits-full, plan_splits-bare, returns_injective}

-- Slices at the positions from `i` on, the files of each in order, and no two on one branch.
abbrev pub IsStack : ℕ → List SplitSlice → Type 0
IsStack i [] = Unit
IsStack i (s ∷ ss) =
    (s.position ≡ i)
    × IsSortedBy text_leb s.files
    × All (λ t. s.branch_name ≢ t.branch_name) ss
    × IsStack (suc i) ss

append_cancel : (p s t : Text) → p ++ s ≡ p ++ t → s ≡ t
append_cancel [] s t e = e
append_cancel (c ∷ p) s t e = append_cancel p s t cc

abbrev branch : Text → ℕ → Text
branch w i = codes "harness/" ++ w ++ codes "/step-" ++ decimal i

branch-injective : (w : Text) (i j : ℕ) → branch w i ≡ branch w j → i ≡ j
branch-injective w i j e =
    decimal-injective i j
      (append_cancel (codes "harness/" ++ w ++ codes "/step-") (decimal i) (decimal j) e)

make_slice-branch_name :
    (i : ℕ) (fs : List Text) (w t : Text) (total : ℕ)
    → (make_slice i fs w t total).branch_name ≡ branch w i
unfolding make_slice
make_slice-branch_name i fs w t total = refl

make_slice-position :
    (i : ℕ) (fs : List Text) (w t : Text) (total : ℕ) → (make_slice i fs w t total).position ≡ i
unfolding make_slice
make_slice-position i fs w t total = refl

make_slice-IsSortedBy :
    (i : ℕ) (fs : List Text) (w t : Text) (total : ℕ)
    → IsSortedBy text_leb (make_slice i fs w t total).files
unfolding make_slice
make_slice-IsSortedBy i fs w t total = sort_by-IsSortedBy text_leb text_leb-total (sorted fs)

-- No later slice is on the branch of slice `i`.
branches_after :
    (i j : ℕ) (gs : List (List Text)) (w t : Text) (total : ℕ)
    → i < j
    → All (λ s. branch w i ≢ s.branch_name) (number j gs w t total)
unfolding number
branches_after i j [] w t total h = tt
branches_after i j (g ∷ gs) w t total h = (
  λ e. absurd (
      let same = branch-injective w i j (e ∙ make_slice-branch_name j g w t total) in ground arith),
  branches_after i (suc j) gs w t total (omega arith),
)

number-IsStack :
    (i : ℕ) (gs : List (List Text)) (w t : Text) (total : ℕ) → IsStack i (number i gs w t total)
unfolding number
number-IsStack i [] w t total = tt
number-IsStack i (g ∷ gs) w t total = (
  make_slice-position i g w t total,
  make_slice-IsSortedBy i g w t total,
  subst (λ b. All (λ s. b ≢ s.branch_name) (number (suc i) gs w t total))
      (sym (make_slice-branch_name i g w t total))
      (branches_after i (suc i) gs w t total (omega arith)),
  number-IsStack (suc i) gs w t total,
)

one-IsStack : (fs : List Text) (w t : Text) → IsStack 0 (make_slice 0 fs w t 1 ∷ [])
one-IsStack fs w t = (make_slice-position 0 fs w t 1, make_slice-IsSortedBy 0 fs w t 1, tt, tt)

slices-IsStack :
    (gs : List (List Text)) (fs : List Text) (w t : Text) → IsStack 0 (slices gs fs w t)
unfolding slices
slices-IsStack [] fs w t = one-IsStack fs w t
slices-IsStack (g ∷ []) fs w t = one-IsStack g w t
slices-IsStack (g ∷ h ∷ gs) fs w t = number-IsStack 0 (g ∷ h ∷ gs) w t (length (g ∷ h ∷ gs))

slices_of-IsStack :
    (gs : Planned (List (List Text))) (ss : List SplitSlice) (fs : List Text) (w t : Text)
    → slices_of gs fs w t ≡ returns ss
    → IsStack 0 ss
unfolding slices_of
slices_of-IsStack (raises error) ss fs w t e = absurd cc
slices_of-IsStack (returns gs) ss fs w t e =
    subst (IsStack 0) (returns_injective e) (slices-IsStack gs fs w t)

empty-IsStack : (w t : Text) → IsStack 0 (empty_slice w t ∷ [])
unfolding empty_slice
empty-IsStack w t = (refl, tt, tt, tt)

-- The slices of a plan stand at the positions 0, 1 and so on, the files of each are in order, and no
-- two of them are on one branch.
pub plan_splits-IsStack :
    (q : Request) (ss : List SplitSlice) → plan_splits q ≡ returns ss → IsStack 0 ss
plan_splits-IsStack q ss e = elim (Bool-cases (is_filled q.diff_files)) [
  | inl full ↦
      slices_of-IsStack (groups_of q) ss (changed_files q) q.worktree_id q.task
        (sym (plan_splits-full q full) ∙ e)
  | inr bare ↦
      subst (IsStack 0) (returns_injective (sym (plan_splits-bare q bare) ∙ e))
        (empty-IsStack q.worktree_id q.task)
]
