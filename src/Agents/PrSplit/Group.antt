-- ===== src/Agents/PrSplit/Group.antt =====
-- harness/agents/pr_split.py: the ways to group the files of a diff. A path is the list of its code
-- points.
use harness_solomon.Base.{
  ℕ, zero, suc, ◌+◌, ◌%◌, min, Bool, true, false, Option, none, some, List, [], ◌∷◌, ◌++◌, map, ltb,
  leb, ◌==◌, nat_eq, string_eq, if◌then◌else◌, any, keep,
}
use harness_solomon.Base.Text.{Text, text_eq, codes, partition}
use harness_solomon.Base.Dict.{Dict, get, put}
use harness_solomon.Base.Sort.{text_leb, sort_by}

-- `sorted(files)`.
abbrev pub sorted : List Text → List Text
sorted = sort_by text_leb

-- `set(files)`, in whatever order.
unfoldable pub distinct : List Text → List Text
distinct [] = []
distinct (f ∷ fs) = let rest = distinct fs in if any (λ g. g == f) fs then rest else f ∷ rest

-- `[[] for _ in range(n)]`.
abbrev pub empty_buckets : ℕ → List (List Text)
empty_buckets zero = []
empty_buckets (suc n) = [] ∷ empty_buckets n

-- `out[i].append(f)`.
unfoldable pub append_at : ℕ → Text → List (List Text) → List (List Text)
append_at i f [] = []
append_at zero f (g ∷ gs) = (g ++ f ∷ []) ∷ gs
append_at (suc i) f (g ∷ gs) = g ∷ append_at i f gs

-- The loop of `_split_by_count`, from the file with this index on.
unfoldable pub deal : ℕ → ℕ → List Text → List (List Text) → List (List Text)
unfolding append_at
deal n i [] out = out
deal n i (f ∷ fs) out = deal n (suc i) fs (append_at (i % n) f out)

abbrev pub is_filled : List Text → Bool
is_filled [] = false
is_filled (f ∷ fs) = true

-- `[g for g in out if g]`.
abbrev pub filled : List (List Text) → List (List Text)
filled = keep is_filled

-- `_split_by_count`.
unfoldable pub split_by_count : List Text → ℕ → List (List Text)
unfolding deal
split_by_count fs n = if leb n 1 then fs ∷ [] else filled (deal n 0 fs (empty_buckets n))

-- The first component of a path, or the bucket of the files at the root.
unfoldable pub top : Text → Text
unfolding partition
top f = elim (partition 47 f) [ none ↦ codes "(root)" | some (before, after) ↦ before ]

-- `sorted(keys, key=lambda k: (k != "(root)", k))`.
abbrev pub root_first : Text → Text → Bool
root_first j k =
    if j == codes "(root)"
    then if k == codes "(root)" then text_leb j k else true
    else if k == codes "(root)"
    then false
    else text_leb j k

abbrev pub or_empty : Option (List Text) → List Text
or_empty none = []
or_empty (some fs) = fs

-- The loop that fills `buckets`.
unfoldable pub bucket_all : List Text → Dict Text (List Text) → Dict Text (List Text)
unfolding top get put
bucket_all [] buckets = buckets
bucket_all (f ∷ fs) buckets =
    bucket_all fs (put (top f) (or_empty (get (top f) buckets) ++ f ∷ []) buckets)

abbrev pub keys : Dict Text (List Text) → List Text
keys = map λ e. e.0

-- `_split_by_directory`.
unfoldable pub split_by_directory : List Text → List (List Text)
unfolding bucket_all sort_by get
split_by_directory fs =
    let buckets = bucket_all fs [] in
    map (λ k. sorted (or_empty (get k buckets))) (sort_by root_first (keys buckets))

-- `file_locs.get(f, 0)`.
abbrev pub or_zero : Option ℕ → ℕ
or_zero none = 0
or_zero (some n) = n

unfoldable pub loc : Dict Text ℕ → Text → ℕ
unfolding get
loc file_locs f = or_zero (get f file_locs)

-- The order of the keys `(-file_locs.get(f, 0), f)`.
abbrev pub heavier : Dict Text ℕ → Text → Text → Bool
heavier file_locs f g =
    if ltb (loc file_locs g) (loc file_locs f)
    then true
    else if ltb (loc file_locs f) (loc file_locs g)
    then false
    else text_leb f g

-- `min(totals)`.
abbrev pub least : List ℕ → ℕ
least [] = 0
least (t ∷ []) = t
least (t ∷ u ∷ ts) = min t (least (u ∷ ts))

-- `totals.index(t)`.
abbrev pub index : ℕ → List ℕ → ℕ
index t [] = 0
index t (u ∷ ts) = if u == t then 0 else suc (index t ts)

-- `totals[i] += w`.
unfoldable pub add_at : ℕ → ℕ → List ℕ → List ℕ
add_at i w [] = []
add_at zero w (t ∷ ts) = (t + w) ∷ ts
add_at (suc i) w (t ∷ ts) = t ∷ add_at i w ts

abbrev pub zeros : ℕ → List ℕ
zeros zero = []
zeros (suc n) = 0 ∷ zeros n

-- The loop of `_split_by_size`: the buckets and the totals that it ends with.
unfoldable pub balance :
    Dict Text ℕ → List Text → List (List Text) → List ℕ → List (List Text) × List ℕ
unfolding append_at add_at
balance file_locs [] buckets totals = (buckets, totals)
balance file_locs (f ∷ fs) buckets totals =
    let idx = index (least totals) totals in
    balance file_locs fs (append_at idx f buckets) (add_at idx (loc file_locs f) totals)

abbrev pub is_empty : Dict Text ℕ → Bool
is_empty [] = true
is_empty (e ∷ es) = false

-- `_split_by_size`.
unfoldable pub split_by_size : List Text → ℕ → Dict Text ℕ → List (List Text)
unfolding split_by_count balance sort_by
split_by_size fs n file_locs =
    if leb n 1
    then fs ∷ []
    else if is_empty file_locs
    then split_by_count fs n
    else filled (balance file_locs (sort_by (heavier file_locs) fs) (empty_buckets n) (zeros n)).0
