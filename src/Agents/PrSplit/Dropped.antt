-- ===== src/Agents/PrSplit/Dropped.antt =====
-- The directory strategy with more directories than slices are allowed.
use harness_solomon.Base.{
  ℕ, zero, suc, ◌+◌, ◌≤◌, ◌<◌, max, ◌≡◌, refl, ap, ◌∙◌, true, some, List, [], ◌∷◌, ◌++◌, map, ◌≢◌,
  inl, inr, ◌==◌, ==_refl, any, All, length, take, arith,
}
use harness_solomon.Base.Text.{Text, text_eq}
use harness_solomon.Base.Dict.{Dict, get, put}
use harness_solomon.Base.Sort.{insert_by, sort_by, text_leb, All-sort_by}
use harness_solomon.Agents.PrSplit.Group.{
  sorted, top, or_empty, is_filled, keys, root_first, bucket_all, split_by_directory,
}
use harness_solomon.Agents.PrSplit.Plan.{
  SplitSlice, returns, directory, resolve_strategy, groups_by, slices, slices_of, clamp, Request,
  changed_files, groups_of, plan_splits,
}
use harness_solomon.Agents.PrSplit.Partition.{placed}
use harness_solomon.Agents.PrSplit.Directories.{bucket_of, among, placed-split_by_directory}
use harness_solomon.Agents.PrSplit.Exact.{
  once, changed-once, is_filled-cases, planned, planned-number, times-make_slice,
}

abbrev Filled : List Text → Type 0
Filled g = is_filled g ≡ true

append-Filled : (g : List Text) (f : Text) → Filled (g ++ f ∷ [])
append-Filled [] f = refl
append-Filled (h ∷ g) f = refl

put-Filled :
    (k : Text) (g : List Text) (m : Dict Text (List Text))
    → Filled g
    → All (λ e. Filled e.1) m
    → All (λ e. Filled e.1) (put k g m)
unfolding put
put-Filled k g [] h hs = (h, tt)
put-Filled k g ((j, w) ∷ m) h hs = ground (arith, put-Filled k g m h)

bucket_all-Filled :
    (fs : List Text) (m : Dict Text (List Text))
    → All (λ e. Filled e.1) m
    → All (λ e. Filled e.1) (bucket_all fs m)
unfolding bucket_all
bucket_all-Filled [] m h = h
bucket_all-Filled (f ∷ fs) m h =
    let old = or_empty (get (top f) m) in
    bucket_all-Filled fs (put (top f) (old ++ f ∷ []) m)
      (put-Filled (top f) (old ++ f ∷ []) m (append-Filled old f) h)

insert_by-Filled : (f : Text) (g : List Text) → Filled (insert_by text_leb f g)
unfolding insert_by
insert_by-Filled f [] = refl
insert_by-Filled f (h ∷ g) = ground arith

sorted-Filled : (g : List Text) → Filled g → Filled (sorted g)
unfolding sort_by
sorted-Filled [] h = h
sorted-Filled (f ∷ g) h = insert_by-Filled f (sort_by text_leb g)

get-Filled :
    (k : Text) (m : Dict Text (List Text))
    → All (λ e. Filled e.1) m
    → among k (keys m) ≡ true
    → Filled (or_empty (get k m))
unfolding get
get-Filled k [] h a = ground arith
get-Filled k ((j, g) ∷ m) h a = ground (arith, get-Filled k m)

All-among : (P : Text → Type 0) (ks : List Text) → ((k : Text) → among k ks ≡ true → P k) → All P ks
All-among P [] h = tt
All-among P (k ∷ ks) h = (h k (rw (==_refl k)), All-among P ks (λ j a. h j (ground arith)))

All-map :
    (group : Text → List Text) (ks : List Text)
    → All (λ k. Filled (group k)) ks
    → All Filled (map group ks)
All-map group [] h = tt
All-map group (k ∷ ks) h = (h.0, All-map group ks h.1)

split_by_directory-Filled : (fs : List Text) → All Filled (split_by_directory fs)
unfolding split_by_directory
split_by_directory-Filled fs =
    let m = bucket_all fs [] in
    All-map (bucket_of m) (sort_by root_first (keys m)) (
      All-sort_by root_first (λ k. Filled (bucket_of m k)) (keys m)
        (All-among (λ k. Filled (bucket_of m k)) (keys m)
          λ k a.
            sorted-Filled (or_empty (get k m)) (get-Filled k m (bucket_all-Filled fs [] tt) a)))

-- A file of a group that is cut off.
cut_file :
    (n : ℕ) (gs : List (List Text))
    → All Filled gs
    → n < length gs
    → (f : Text) × (placed f (take n gs) + 1 ≤ placed f gs)
cut_file n [] h longer = absurd (ground arith)
cut_file zero ([] ∷ gs) h longer = absurd (ground arith)
cut_file zero ((f ∷ g) ∷ gs) h longer = (f, let own = ==_refl f in ground arith)
cut_file (suc n) (g ∷ gs) h longer =
    let (f, less) = cut_file n gs h.1 (omega arith) in (f, omega (arith, less))

once-le : (f : Text) (fs : List Text) → once f fs ≤ 1
once-le f fs = ground arith

once-pos : (f : Text) (fs : List Text) → 0 < once f fs → any (λ g. g == f) fs ≡ true
once-pos f fs h = ground arith

no_once : (f : Text) (fs : List Text) → fs ≡ [] → any (λ g. g == f) fs ≢ true
no_once f [] h a = ground arith
no_once f (g ∷ fs) h a = absurd cc

length-take : (n : ℕ) (gs : List (List Text)) → n ≤ length gs → length (take n gs) ≡ n
length-take zero gs h = refl
length-take (suc n) [] h = absurd (ground arith)
length-take (suc n) (g ∷ gs) h = ap suc (length-take n gs (omega arith))

planned-groups :
    (f : Text) (gs : List (List Text)) (fs : List Text) (w t : Text)
    → 0 < length gs
    → planned f (slices gs fs w t) ≡ placed f gs
unfolding slices
planned-groups f [] fs w t h = absurd (ground arith)
planned-groups f (g ∷ []) fs w t h = omega (arith, times-make_slice f 0 [] w t 1 g)
planned-groups f (g ∷ k ∷ gs) fs w t h = planned-number f 0 (g ∷ k ∷ gs) w t (length (g ∷ k ∷ gs))

-- A plan by directories with more directories than slices are allowed loses a file: one of the diff
-- that stands in no slice.
pub plan_splits-drops :
    (q : Request)
    → resolve_strategy q.strategy (length (changed_files q)) q.max_files_per_slice ≡ some directory
    → max 1 q.max_slices < length (split_by_directory (changed_files q))
    → (ss : List SplitSlice) × (f : Text) × (plan_splits q ≡ returns ss)
      × (any (λ g. g == f) q.diff_files ≡ true)
      × (planned f ss ≡ 0)
unfolding plan_splits groups_of slices_of
plan_splits-drops q e many =
    let fs = changed_files q in
    let gs = split_by_directory fs in
    let n = clamp (length gs) 1 q.max_slices in
    let (f, less) = cut_file n gs (split_by_directory-Filled fs) (omega (arith, many)) in
    let all = placed-split_by_directory f fs ∙ changed-once f q in
    let none_left : placed f (take n gs) ≡ 0 = omega (arith, less, all, once-le f q.diff_files) in
    let full : 0 < length (take n gs) =
      omega (arith, length-take n gs (omega (arith, many)), many) in
    let stands = once-pos f q.diff_files (omega (arith, less, all)) in
    let found : groups_of q ≡ returns (take n gs) = ap (groups_by q) e in
    elim (is_filled-cases q.diff_files) [
      | inl some_file ↦ (
        slices (take n gs) fs q.worktree_id q.task,
        f,
        rw (some_file, found),
        stands,
        planned-groups f (take n gs) fs q.worktree_id q.task full ∙ none_left,
      )
      | inr no_file ↦ absurd (no_once f q.diff_files no_file stands)
    ]
