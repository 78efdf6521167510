-- ===== src/Agents/Webhooks/Complete.antt =====
-- When the children of a stack are merged, and which row is the parent.
use harness_solomon.Base.{
  ℕ, ◌≤◌, ◌<◌, String, Bool, true, false, Option, none, some, List, [], ◌∷◌, ◌≡◌, refl, ap, ◌∙◌,
  keep, All-keep, sym, any, All, ◌&&◌, not, leb, ◌==◌, nat_eq, nat_beq_iff, string_eq, if-ind, inl,
  inr, Bool-cases, OnSome, arith,
}
use harness_solomon.Base.Sort.{insert_by, sort_by, All-sort_by}
use harness_solomon.Agents.Jobs.{
  JobStatus, merged, JobRecord, JobStore, Update, is_merged, find_id, in_stack, by_position,
  count_rows, find_jobs_by_stack_id, all_stack_children_merged, update_row, update_rows, update,
}
use harness_solomon.Agents.Webhooks.Stack.{find_parent}
use harness_solomon.Agents.Webhooks.Terminal.{find_parent-holds}
use harness_solomon.Agents.Jobs.Keys.{Found, some_injective}

abbrev pub has_merged : JobStatus → Bool
has_merged merged = true
has_merged _ = false

has_merged-is_merged : (s : JobStatus) → is_merged s ≡ has_merged s
has_merged-is_merged s = ground arith

-- A child of the stack, other than the job, that is not merged.
abbrev pub waits : String → String → JobRecord → Bool
waits stack_id job_id r =
    in_stack stack_id r
    && leb 1 r.stack_position
    && not (r.id == job_id)
    && not (has_merged r.status)

module _ (stack_id job_id : String) (now : ℕ) (u : Update) (made : u.status ≡ merged) where
  children : List JobRecord → ℕ
  children rs = count_rows (λ r. leb 1 r.stack_position) (keep (in_stack stack_id) rs)

  merged_children : List JobRecord → ℕ
  merged_children rs =
      count_rows (λ r. leb 1 r.stack_position && is_merged r.status) (keep (in_stack stack_id) rs)

  -- How many children are merged once the job is.
  abbrev Counted : List JobRecord → Type 0
  Counted rs =
      let rs' = update_rows job_id now u rs in
      (merged_children rs' ≤ children rs')
      × (any (waits stack_id job_id) rs ≡ false → merged_children rs' ≡ children rs')
      × (any (waits stack_id job_id) rs ≡ true → merged_children rs' < children rs')

  counted : (rs : List JobRecord) → Counted rs
  unfolding update_rows update_row children merged_children
  counted [] = (omega arith, λ _. refl, λ h. absurd cc)
  counted (r ∷ rs) = ground (arith, counted rs, made)

-- A row that an id finds is counted.
count_rows-found :
    (p : JobRecord → Bool) (stack_id k : String) (rs : List JobRecord) (r : JobRecord)
    → find_id k rs ≡ some r
    → in_stack stack_id r ≡ true
    → p r ≡ true
    → 1 ≤ count_rows p (keep (in_stack stack_id) rs)
unfolding find_id
count_rows-found p stack_id k [] r h i q = absurd cc
count_rows-found p stack_id k (s ∷ rs) r h i q = elim (Bool-cases (s.id == k)) [
  | inl e ↦
      let same = some_injective (rw e at h) in
      rw (ap (in_stack stack_id) same ∙ i, ap p same ∙ q) (omega arith)
  | inr e ↦
      let rest = count_rows-found p stack_id k rs r (rw e at h) i q in
      if-ind (λ (l : List JobRecord). 1 ≤ count_rows p l) (in_stack stack_id s)
        (λ _. omega (arith, rest)) (λ _. rest)
]

module _ (p : JobRecord → Bool) where
  count_rows-insert_by :
      (r : JobRecord) (rs : List JobRecord)
      → count_rows p (insert_by by_position r rs) ≡ count_rows p (r ∷ rs)
  unfolding insert_by
  count_rows-insert_by r [] = refl
  count_rows-insert_by r (q ∷ rs) =
      if-ind (λ (l : List JobRecord). count_rows p l ≡ count_rows p (r ∷ q ∷ rs)) (by_position r q)
        (λ _. refl) (λ _. omega (arith, count_rows-insert_by r rs))

  count_rows-sort_by :
      (rs : List JobRecord) → count_rows p (sort_by by_position rs) ≡ count_rows p rs
  unfolding sort_by
  count_rows-sort_by [] = refl
  count_rows-sort_by (r ∷ rs) =
      count_rows-insert_by r (sort_by by_position rs) ∙ omega (arith, count_rows-sort_by rs)

-- What `find_parent` gives.
abbrev IsParent : List JobRecord → Option JobRecord → Type 0
IsParent rs none = count_rows (λ r. r.stack_position == 0) rs ≡ 0
IsParent rs (some p) = p.stack_position ≡ 0

IsParent-cons :
    (r : JobRecord) (rs : List JobRecord) (o : Option JobRecord)
    → (r.stack_position == 0) ≡ false
    → IsParent rs o
    → IsParent (r ∷ rs) o
IsParent-cons r rs none e h = rw (e, h) refl
IsParent-cons r rs (some p) e h = h

find_parent-IsParent : (rs : List JobRecord) → IsParent rs (find_parent rs)
unfolding find_parent
find_parent-IsParent [] = refl
find_parent-IsParent (r ∷ rs) =
    if-ind (IsParent (r ∷ rs)) (r.stack_position == 0) (λ e. (nat_beq_iff r.stack_position 0).0 e)
      (λ e. IsParent-cons r rs (find_parent rs) e (find_parent-IsParent rs))

keep-in_stack :
    (stack_id : String) (rs : List JobRecord)
    → All (λ r. in_stack stack_id r ≡ true) (keep (in_stack stack_id) rs)
keep-in_stack stack_id [] = tt
keep-in_stack stack_id (r ∷ rs) =
    if-ind (All (λ r. in_stack stack_id r ≡ true)) (in_stack stack_id r)
      (λ e. (e, keep-in_stack stack_id rs)) (λ _. keep-in_stack stack_id rs)

-- A row at position 0 of the stack has this id.
abbrev pub IsOnly : String → String → JobRecord → Type 0
IsOnly stack_id parent_id r = in_stack stack_id r ≡ true → r.stack_position ≡ 0 → r.id ≡ parent_id

pub update_rows-IsOnly :
    (stack_id parent_id job_id : String) (now : ℕ) (u : Update) (rs : List JobRecord)
    → All (IsOnly stack_id parent_id) rs
    → All (IsOnly stack_id parent_id) (update_rows job_id now u rs)
unfolding update_rows update_row
update_rows-IsOnly stack_id parent_id job_id now u [] h = tt
update_rows-IsOnly stack_id parent_id job_id now u (r ∷ rs) (h, hs) = (
  if-ind (IsOnly stack_id parent_id) (r.id == job_id) (λ _. h) (λ _. h),
  update_rows-IsOnly stack_id parent_id job_id now u rs hs,
)

pub find_parent-only :
    (store : JobStore) (stack_id : String) (parent : JobRecord)
    → All (Found store.rows) store.rows
    → find_id parent.id store.rows ≡ some parent
    → in_stack stack_id parent ≡ true
    → parent.stack_position ≡ 0
    → All (IsOnly stack_id parent.id) store.rows
    → find_parent (find_jobs_by_stack_id store stack_id) ≡ some parent
unfolding find_jobs_by_stack_id
find_parent-only store stack_id parent keyed h i z only =
    let kept = keep (in_stack stack_id) store.rows in
    let jobs = sort_by by_position kept in
    go (find_parent jobs) (find_parent-IsParent jobs)
      (find_parent-holds (Found store.rows) jobs (
        All-sort_by by_position (Found store.rows) kept
          (All-keep (Found store.rows) (in_stack stack_id) store.rows keyed)))
      (find_parent-holds (IsOnly stack_id parent.id) jobs (
        All-sort_by by_position (IsOnly stack_id parent.id) kept
          (All-keep (IsOnly stack_id parent.id) (in_stack stack_id) store.rows only)))
      (find_parent-holds (λ r. in_stack stack_id r ≡ true) jobs
        (All-sort_by by_position (λ r. in_stack stack_id r ≡ true) kept
          (keep-in_stack stack_id store.rows)))
  where
    go :
        (o : Option JobRecord)
        → IsParent (sort_by by_position (keep (in_stack stack_id) store.rows)) o
        → OnSome (Found store.rows) o
        → OnSome (IsOnly stack_id parent.id) o
        → OnSome (λ r. in_stack stack_id r ≡ true) o
        → o ≡ some parent
    go none c f u j = absurd (
        omega (
          arith,
          c,
          count_rows-sort_by (λ r. r.stack_position == 0) (keep (in_stack stack_id) store.rows),
          count_rows-found (λ r. r.stack_position == 0) stack_id parent.id store.rows parent h i
              ((nat_beq_iff parent.stack_position 0).1 z),
        ))
    go (some p) c f u j = sym f ∙ ap (λ (k : String). find_id k store.rows) (u j c) ∙ h

-- Whether all children are merged when the job is: if none waits.
pub all_merged-waits :
    (store : JobStore) (stack_id : String) (now : ℕ) (u : Update) (job parent : JobRecord)
    → u.status ≡ merged
    → find_id job.id (update store job.id now u).rows ≡ some (update_row now u job)
    → in_stack stack_id job ≡ true
    → 1 ≤ job.stack_position
    → find_id parent.id (update store job.id now u).rows ≡ some parent
    → in_stack stack_id parent ≡ true
    → parent.stack_position ≡ 0
    → all_stack_children_merged (update store job.id now u) stack_id
      ≡ not (any (waits stack_id job.id) store.rows)
unfolding all_stack_children_merged update_row update_rows children merged_children
all_merged-waits store stack_id now u job parent made hj ij pj hp ip zp =
    let rows = (update store job.id now u).rows in
    let one_parent =
      count_rows-found (λ r. r.stack_position == 0) stack_id parent.id rows parent hp ip
        ((nat_beq_iff parent.stack_position 0).1 zp) in
    let one_child =
      count_rows-found (λ r. leb 1 r.stack_position) stack_id job.id rows (update_row now u job) hj
        ij (leb_of job.stack_position pj) in
    counts (count_rows (λ r. r.stack_position == 0) (keep (in_stack stack_id) rows))
      (children stack_id job.id now u made rows) (merged_children stack_id job.id now u made rows)
      (any (waits stack_id job.id) store.rows) one_parent (unfold children in one_child)
      (counted stack_id job.id now u made store.rows)
  where
    leb_of : (n : ℕ) → 1 ≤ n → leb 1 n ≡ true
    leb_of n h = ground arith

    counts :
        (orch all_children done : ℕ) (b : Bool)
        → 1 ≤ orch
        → 1 ≤ all_children
        → (done ≤ all_children)
          × (b ≡ false → done ≡ all_children)
          × (b ≡ true → done < all_children)
        → (leb 1 orch && leb 1 all_children && done == all_children) ≡ not b
    counts orch all_children done b h k c = grind (arith, nat_beq_iff done all_children, h, k, c)
