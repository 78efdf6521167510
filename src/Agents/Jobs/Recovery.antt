-- ===== src/Agents/Jobs/Recovery.antt =====
-- What a restart leaves, and that ids stay keys whatever is done to the store.
use harness_solomon.Base.{
  ℕ, String, true, false, Option, none, some, List, [], ◌∷◌, map, ◌≡◌, refl, ap, ◌∙◌, ◌==◌,
  string_eq, inl, inr, ◌⊎◌, Bool-cases, any, if◌then◌else◌, if-ind, All, keep,
}
use harness_solomon.Agents.Jobs.Record.{
  JobStatus, queued, running_code, running_review, verifying, pr_creating, pr_open,
  pr_waiting_checks, pr_waiting_review, merging_pr, pr_auto_merge_enabled, merged, failed, timeout,
  cancelled, JobRecord, JobStore, is_running,
}
use harness_solomon.Agents.Jobs.Store.{
  NewJob, Update, is_none, cancel, load, find_id, create, new_row, update, update_rows,
  recover_running,
}
use harness_solomon.Agents.Jobs.Keys.{
  IsKeyed, has_id, has_id-find_id, append-IsKeyed, update_rows-IsKeyed, some_injective,
}

abbrev recovered : ℕ → JobRecord → JobRecord
recovered now r = if is_running r.status then cancel now r else r

recovered-stopped : (now : ℕ) (r : JobRecord) → is_running (recovered now r).status ≡ false
recovered-stopped now r =
    if-ind (λ (q : JobRecord). is_running q.status ≡ false) (is_running r.status) (λ e. refl)
      (λ e. e)

recovered-id : (now : ℕ) (r : JobRecord) → (recovered now r).id ≡ r.id
recovered-id now r =
    if-ind (λ (q : JobRecord). q.id ≡ r.id) (is_running r.status) (λ e. refl) (λ e. refl)

map-stopped :
    (now : ℕ) (rs : List JobRecord)
    → All (λ r. is_running r.status ≡ false) (map (recovered now) rs)
map-stopped now [] = tt
map-stopped now (r ∷ rs) = (recovered-stopped now r, map-stopped now rs)

find_id-recovered :
    (now : ℕ) (k : String) (rs : List JobRecord) {job : JobRecord}
    → find_id k rs ≡ some job
    → find_id k (map (recovered now) rs) ≡ some (recovered now job)
unfolding find_id
find_id-recovered now k [] h = absurd cc
find_id-recovered now k (r ∷ rs) {job} h = elim (Bool-cases (r.id == k)) [
  | inl e ↦
      rw (recovered-id now r, e) (ap (λ q. some (recovered now q)) (some_injective (rw e at h)))
  | inr e ↦ rw (recovered-id now r, e) (find_id-recovered now k rs (rw e at h))
]

running_listed :
    (k : String) (rs : List JobRecord) {job : JobRecord}
    → find_id k rs ≡ some job
    → is_running job.status ≡ true
    → any (λ i. i == k) (map (λ r. r.id) (keep (λ r. is_running r.status) rs)) ≡ true
unfolding find_id
running_listed k [] h run = absurd cc
running_listed k (r ∷ rs) {job} h run = elim (Bool-cases (r.id == k)) [
  | inl e ↦
      let same = ap (λ q. is_running q.status) (some_injective (rw e at h)) ∙ run in rw (same, e)
  | inr e ↦
      let rest = running_listed k rs (rw e at h) run in
      if-ind (λ (qs : List JobRecord). any (λ i. i == k) (map (λ q. q.id) qs) ≡ true)
        (is_running r.status) (λ b. rw (e, rest)) (λ b. rest)
]

-- The statuses of a job that has ended.
abbrev pub Ended : JobStatus → Type 0
Ended s = (s ≡ merged) ⊎ ((s ≡ failed) ⊎ ((s ≡ timeout) ⊎ (s ≡ cancelled)))

stopped-Ended : (s : JobStatus) → is_running s ≡ false → Ended s
stopped-Ended merged h = inl refl
stopped-Ended failed h = inr (inl refl)
stopped-Ended timeout h = inr (inr (inl refl))
stopped-Ended cancelled h = inr (inr (inr refl))
stopped-Ended queued h = absurd cc
stopped-Ended running_code h = absurd cc
stopped-Ended running_review h = absurd cc
stopped-Ended verifying h = absurd cc
stopped-Ended pr_creating h = absurd cc
stopped-Ended pr_open h = absurd cc
stopped-Ended pr_waiting_checks h = absurd cc
stopped-Ended pr_waiting_review h = absurd cc
stopped-Ended merging_pr h = absurd cc
stopped-Ended pr_auto_merge_enabled h = absurd cc

Ended-stopped : (s : JobStatus) → Ended s → is_running s ≡ false
Ended-stopped s (inl e) = ap is_running e
Ended-stopped s (inr (inl e)) = ap is_running e
Ended-stopped s (inr (inr (inl e))) = ap is_running e
Ended-stopped s (inr (inr (inr e))) = ap is_running e

unended_runs : (s : JobStatus) → ¬ Ended s → is_running s ≡ true
unended_runs s n = elim (Bool-cases (is_running s)) [
  | inl e ↦ e
  | inr e ↦ absurd (n (stopped-Ended s e))
]

map-Ended :
    (rows : List JobRecord)
    → All (λ r. is_running r.status ≡ false) rows
    → All (λ r. Ended r.status) rows
map-Ended [] h = tt
map-Ended (r ∷ rows) (h, hs) = (stopped-Ended r.status h, map-Ended rows hs)

-- After a restart every job is merged, failed, timed out or cancelled. A job that had ended so is as it
-- was; any other has the status cancelled, the time of the restart as the time it finished and the error
-- "process restarted", is as it was otherwise, and its id is among those returned.
pub recover_running_lem :
    (store : JobStore) (now : ℕ) (job_id : String) {job : JobRecord}
    → load store job_id ≡ some job
    → let (after, ids) = recover_running store now in
      All (λ r. Ended r.status) after.rows
      × (Ended job.status → load after job_id ≡ some job)
      × (¬ Ended job.status
          → (load after job_id
              ≡ some (record job {
                status = cancelled;
                finished_at = some now;
                error = some "process restarted";
              }))
            × (any (λ i. i == job_id) ids ≡ true))
unfolding recover_running
recover_running_lem store now job_id {job} h =
    let kept = find_id-recovered now job_id store.rows h in
    (
      map-Ended (map (recovered now) store.rows) (map-stopped now store.rows),
      λ e. kept ∙ ap (λ b. some (if b then cancel now job else job)) (Ended-stopped job.status e),
      λ n. (
        kept ∙ ap (λ b. some (if b then cancel now job else job)) (unended_runs job.status n),
        running_listed job_id store.rows h (unended_runs job.status n),
      ),
    )

-- What is done to a store: rows are added, updated by id, and cancelled by a restart.
pub data Call : Type 0 where
  creates : String → ℕ → NewJob → Call
  updates : String → ℕ → Update → Call
  restarts : ℕ → Call

abbrev pub or_same : JobStore → Option JobStore → JobStore
or_same store none = store
or_same store (some s) = s

pub step : JobStore → Call → JobStore
unfolding create update_rows recover_running
step store (creates job_id now j) = or_same store (create store job_id now j)
step store (updates job_id now u) = update store job_id now u
step store (restarts now) = (recover_running store now).0

pub run : JobStore → List Call → JobStore
unfolding step
run store [] = store
run store (c ∷ calls) = run (step store c) calls

has_id-recovered :
    (now : ℕ) (k : String) (rs : List JobRecord) → has_id k (map (recovered now) rs) ≡ has_id k rs
has_id-recovered now k [] = refl
has_id-recovered now k (r ∷ rs) = rw (recovered-id now r, has_id-recovered now k rs)

map-recovered-IsKeyed :
    (now : ℕ) (rs : List JobRecord) → IsKeyed rs → IsKeyed (map (recovered now) rs)
map-recovered-IsKeyed now [] h = tt
map-recovered-IsKeyed now (r ∷ rs) h =
    (rw (recovered-id now r, has_id-recovered now r.id rs) h.0, map-recovered-IsKeyed now rs h.1)

step-IsKeyed : (store : JobStore) (c : Call) → IsKeyed store.rows → IsKeyed (step store c).rows
unfolding step create recover_running
step-IsKeyed store (creates job_id now j) h = elim (Bool-cases (is_none (load store job_id))) [
  | inl e ↦
      rw e (append-IsKeyed store.rows (new_row job_id now j) h (has_id-find_id job_id store.rows e))
  | inr e ↦ rw e h
]
step-IsKeyed store (updates job_id now u) h = update_rows-IsKeyed job_id now u store.rows h
step-IsKeyed store (restarts now) h = map-recovered-IsKeyed now store.rows h

-- Where ids are keys they stay so, whatever jobs are created under whatever ids, updated, or cancelled
-- by a restart.
pub run-IsKeyed :
    (store : JobStore) (calls : List Call) → IsKeyed store.rows → IsKeyed (run store calls).rows
unfolding run
run-IsKeyed store [] h = h
run-IsKeyed store (c ∷ calls) h = run-IsKeyed (step store c) calls (step-IsKeyed store c h)
