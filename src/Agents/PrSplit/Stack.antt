-- ===== src/Agents/PrSplit/Stack.antt =====
-- The shape of a plan: how many slices, in which order, and on which branches.
use harness_solomon.Base.{
  ℕ, zero, suc, ◌+◌, ◌/◌, ◌%◌, ◌≤◌, max, ◌≡◌, refl, sym, ap, ◌∙◌, true, false, Option, none, some,
  List, [], ◌∷◌, inl, inr, Bool-cases, length, length-take-le, arith,
}
use harness_solomon.Base.Text.{Text}
use harness_solomon.Base.Dict.{Dict}
use harness_solomon.Base.Sort.{sort_by}
use harness_solomon.Agents.PrSplit.Group.{
  empty_buckets, append_at, deal, is_filled, filled, split_by_count, split_by_directory, heavier,
  index, least, add_at, zeros, loc, balance, split_by_size,
}
use harness_solomon.Agents.PrSplit.Plan.{
  SplitSlice, Strategy, files, directory, size, Planned, returns, raises, resolve_strategy,
  ceil_div, ceil_slices, clamp_slices, clamp, split_into, group_files, groups_by, number, slices,
  slices_of, Request, changed_files, groups_of, plan_splits, empty_slice,
}
use harness_solomon.Agents.PrSplit.Partition.{length-append_at, length-empty_buckets}

-- What holds of the result, if there is one.
abbrev Returned {ℓ} : {A : Type ℓ} → (A → Type 0) → Planned A → Type 0
Returned P (raises e) = Unit
Returned P (returns a) = P a

pub returns_injective {ℓ} : {A : Type ℓ} {a b : A} → returns a ≡ returns b → a ≡ b
returns_injective e = cc

length-filled : (gs : List (List Text)) → length (filled gs) ≤ length gs
length-filled [] = omega arith
length-filled ([] ∷ gs) = omega (arith, length-filled gs)
length-filled ((f ∷ g) ∷ gs) = omega (arith, length-filled gs)

length-deal :
    (n i : ℕ) (fs : List Text) (gs : List (List Text)) → length (deal n i fs gs) ≡ length gs
unfolding deal
length-deal n i [] gs = refl
length-deal n i (f ∷ fs) gs =
    length-deal n (suc i) fs (append_at (i % n) f gs) ∙ length-append_at f (i % n) gs

length-balance :
    (locs : Dict Text ℕ) (fs : List Text) (gs : List (List Text)) (ts : List ℕ)
    → length (balance locs fs gs ts).0 ≡ length gs
unfolding balance
length-balance locs [] gs ts = refl
length-balance locs (f ∷ fs) gs ts =
    let i = index (least ts) ts in
    length-balance locs fs (append_at i f gs) (add_at i (loc locs f) ts) ∙ length-append_at f i gs

length-split_by_count : (fs : List Text) (n : ℕ) → length (split_by_count fs n) ≤ max 1 n
unfolding split_by_count
length-split_by_count fs n =
    let gs = deal n 0 fs (empty_buckets n) in
    ground (arith, length-filled gs, length-deal n 0 fs (empty_buckets n), length-empty_buckets n)

length-split_by_size :
    (fs : List Text) (n : ℕ) (locs : Dict Text ℕ) → length (split_by_size fs n locs) ≤ max 1 n
unfolding split_by_size
length-split_by_size fs n locs =
    let ordered = sort_by (heavier locs) fs in
    ground (
      arith,
      length-filled (balance locs ordered (empty_buckets n) (zeros n)).0,
      length-balance locs ordered (empty_buckets n) (zeros n),
      length-empty_buckets n,
      length-split_by_count fs n,
    )

clamp_slices-le : (n m lo hi : ℕ) → clamp_slices n m lo hi ≤ max hi lo
unfolding clamp_slices
clamp_slices-le n m lo hi = omega arith

split_into-short :
    (split : ℕ → List (List Text)) (n per lo hi : ℕ) (asked : Option ℕ)
    → ((k : ℕ) → length (split k) ≤ max 1 k)
    → Returned
        (λ gs. length gs ≤ max 1 (max hi lo))
        (split_into split (ceil_slices n per asked lo hi))
unfolding ceil_slices ceil_div
split_into-short split n per lo hi (some a) h =
    let k = clamp_slices (max 1 a) n lo hi in omega (arith, h k, clamp_slices-le (max 1 a) n lo hi)
split_into-short split n zero lo hi none h = tt
split_into-short split n (suc per) lo hi none h =
    let a = max 1 ((n + per) / suc per) in
    omega (arith, h (clamp_slices a n lo hi), clamp_slices-le a n lo hi)

groups_by-short :
    (q : Request) (s : Option Strategy)
    → Returned (λ gs. length gs ≤ max 1 (max q.max_slices q.min_slices)) (groups_by q s)
unfolding group_files
groups_by-short q none = tt
groups_by-short q (some files) =
    let fs = changed_files q in
    split_into-short (split_by_count fs) (length fs) q.max_files_per_slice q.min_slices q.max_slices
      q.n_slices (length-split_by_count fs)
groups_by-short q (some directory) =
    let gs = split_by_directory (changed_files q) in
    let n = clamp (length gs) 1 q.max_slices in omega (arith, length-take-le n gs)
groups_by-short q (some size) =
    let fs = changed_files q in
    split_into-short (λ n. split_by_size fs n q.file_locs) (length fs) q.max_files_per_slice
      q.min_slices q.max_slices q.n_slices (λ n. length-split_by_size fs n q.file_locs)

length-number :
    (i : ℕ) (gs : List (List Text)) (w t : Text) (total : ℕ)
    → length (number i gs w t total) ≡ length gs
unfolding number
length-number i [] w t total = refl
length-number i (g ∷ gs) w t total = ap suc (length-number (suc i) gs w t total)

length-slices :
    (gs : List (List Text)) (fs : List Text) (w t : Text)
    → (1 ≤ length (slices gs fs w t)) × (length (slices gs fs w t) ≤ max 1 (length gs))
unfolding slices
length-slices [] fs w t = (omega arith, omega arith)
length-slices (g ∷ []) fs w t = (omega arith, omega arith)
length-slices (g ∷ h ∷ gs) fs w t =
    let n = length-number 0 (g ∷ h ∷ gs) w t (length (g ∷ h ∷ gs)) in
    (omega (arith, n), omega (arith, n))

slices_of-length :
    (gs : Planned (List (List Text))) (ss : List SplitSlice) (fs : List Text) (w t : Text) (n : ℕ)
    → Returned (λ gs. length gs ≤ max 1 n) gs
    → slices_of gs fs w t ≡ returns ss
    → (1 ≤ length ss) × (length ss ≤ max 1 n)
unfolding slices_of
slices_of-length (raises error) ss fs w t n h e = absurd cc
slices_of-length (returns gs) ss fs w t n h e =
    let same : slices gs fs w t ≡ ss = cc in
    let (least_one, most) = length-slices gs fs w t in
    rw (sym same) (omega (arith, least_one), omega (arith, most, h))

pub plan_splits-full :
    (q : Request)
    → is_filled q.diff_files ≡ true
    → plan_splits q ≡ slices_of (groups_of q) (changed_files q) q.worktree_id q.task
unfolding plan_splits
plan_splits-full q full = rw full

pub plan_splits-bare :
    (q : Request)
    → is_filled q.diff_files ≡ false
    → plan_splits q ≡ returns (empty_slice q.worktree_id q.task ∷ [])
unfolding plan_splits
plan_splits-bare q bare = rw bare

-- A plan has at least one slice, and at most as many as `max_slices` and `min_slices` say, whichever
-- is more (but one slice if both are 0).
pub plan_splits-length :
    (q : Request) (ss : List SplitSlice)
    → plan_splits q ≡ returns ss
    → (1 ≤ length ss) × (length ss ≤ max 1 (max q.max_slices q.min_slices))
unfolding groups_of
plan_splits-length q ss e = elim (Bool-cases (is_filled q.diff_files)) [
  | inl full ↦
      let s = resolve_strategy q.strategy (length (changed_files q)) q.max_files_per_slice in
      slices_of-length (groups_of q) ss (changed_files q) q.worktree_id q.task
        (max q.max_slices q.min_slices) (groups_by-short q s) (sym (plan_splits-full q full) ∙ e)
  | inr bare ↦
      let same : empty_slice q.worktree_id q.task ∷ [] ≡ ss =
        returns_injective (sym (plan_splits-bare q bare) ∙ e) in
      rw (sym same) (omega arith, omega arith)
]
