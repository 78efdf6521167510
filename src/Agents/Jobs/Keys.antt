-- ===== src/Agents/Jobs/Keys.antt =====
-- The id of a job is a key: every row is found by its id.
use harness_solomon.Base.{
  ℕ, String, Bool, true, false, Option, none, some, List, [], ◌∷◌, ◌++◌, ◌≡◌, refl, ap, ◌∙◌, ◌==◌,
  string_eq, ==_refl, inl, inr, Bool-cases, if-ind, OnSome, ◌≢◌, ltb, any, All, arith,
}
use harness_solomon.Agents.Jobs.Record.{JobRecord}
use harness_solomon.Agents.Jobs.Store.{
  Update, is_none, find_id, update_row, update_rows, has_pr, newer, find_pr,
}

abbrev pub has_id : String → List JobRecord → Bool
has_id job_id = any λ r. r.id == job_id

-- No two rows have one id.
abbrev pub IsKeyed : List JobRecord → Type 0
IsKeyed [] = Unit
IsKeyed (r ∷ rs) = (has_id r.id rs ≡ false) × IsKeyed rs

pub has_id-find_id :
    (job_id : String) (rs : List JobRecord)
    → is_none (find_id job_id rs) ≡ true
    → has_id job_id rs ≡ false
unfolding find_id
has_id-find_id job_id [] h = refl
has_id-find_id job_id (r ∷ rs) h = ground (arith, has_id-find_id job_id rs)

has_id-append :
    (job_id : String) (rs : List JobRecord) (r : JobRecord)
    → has_id job_id rs ≡ false
    → (r.id == job_id) ≡ false
    → has_id job_id (rs ++ r ∷ []) ≡ false
has_id-append job_id [] r h e = ground arith
has_id-append job_id (q ∷ rs) r h e = ground (arith, has_id-append job_id rs r)

pub append-IsKeyed :
    (rs : List JobRecord) (r : JobRecord)
    → IsKeyed rs
    → has_id r.id rs ≡ false
    → IsKeyed (rs ++ r ∷ [])
append-IsKeyed [] r k h = (refl, tt)
append-IsKeyed (q ∷ rs) r k h = ground (
  arith,
  append-IsKeyed rs r,
  has_id-append q.id rs r,
  string_eq.same_iff q.id r.id,
  string_eq.same_iff r.id q.id,
)

has_id-update_rows :
    (k job_id : String) (now : ℕ) (u : Update) (rs : List JobRecord)
    → has_id k (update_rows job_id now u rs) ≡ has_id k rs
unfolding update_rows update_row
has_id-update_rows k job_id now u [] = refl
has_id-update_rows k job_id now u (r ∷ rs) = ground (arith, has_id-update_rows k job_id now u rs)

pub update_rows-IsKeyed :
    (job_id : String) (now : ℕ) (u : Update) (rs : List JobRecord)
    → IsKeyed rs
    → IsKeyed (update_rows job_id now u rs)
unfolding update_rows update_row
update_rows-IsKeyed job_id now u [] k = tt
update_rows-IsKeyed job_id now u (r ∷ rs) k =
    ground (arith, update_rows-IsKeyed job_id now u rs, has_id-update_rows r.id job_id now u rs)

-- The row is the one that its id finds.
abbrev pub Found : List JobRecord → JobRecord → Type 0
Found rows r = find_id r.id rows ≡ some r

Found-later :
    (r : JobRecord) (rows rs : List JobRecord)
    → has_id r.id rs ≡ false
    → All (Found rows) rs
    → All (Found (r ∷ rows)) rs
unfolding find_id
Found-later r rows [] h f = tt
Found-later r rows (q ∷ rs) h f =
    ground
      (arith, Found-later r rows rs, string_eq.same_iff q.id r.id, string_eq.same_iff r.id q.id)

pub IsKeyed-Found : (rs : List JobRecord) → IsKeyed rs → All (Found rs) rs
unfolding find_id
IsKeyed-Found [] k = tt
IsKeyed-Found (r ∷ rs) (h, k) = (rw (==_refl r.id), Found-later r rs rs h (IsKeyed-Found rs k))

module _ (P : JobRecord → Type 0) where
  newer-holds : (r : JobRecord) (o : Option JobRecord) → P r → OnSome P o → P (newer r o)
  newer-holds r none p h = p
  newer-holds r (some q) p h = if-ind P (ltb r.started_at q.started_at) (λ e. h) (λ e. p)

  -- A row found by its pull request is one of the rows.
  pub find_pr-holds : (n : ℕ) (rs : List JobRecord) → All P rs → OnSome P (find_pr n rs)
  unfolding find_pr
  find_pr-holds n [] h = tt
  find_pr-holds n (r ∷ rs) h =
      let rest = find_pr-holds n rs h.1 in
      if-ind (OnSome P) (has_pr n r) (λ e. newer-holds r (find_pr n rs) h.0 rest) (λ e. rest)

pub find_id-update_rows_other :
    (k job_id : String) (now : ℕ) (u : Update) (rs : List JobRecord)
    → (job_id == k) ≡ false
    → find_id k (update_rows job_id now u rs) ≡ find_id k rs
unfolding find_id update_rows update_row
find_id-update_rows_other k job_id now u [] h = refl
find_id-update_rows_other k job_id now u (r ∷ rs) h = ground (
  arith,
  find_id-update_rows_other k job_id now u rs,
  string_eq.same_iff r.id job_id,
  string_eq.same_iff r.id k,
  string_eq.same_iff job_id k,
)

pub some_injective : {q r : JobRecord} → Path (Option JobRecord) (some q) (some r) → q ≡ r
some_injective e = cc

pub find_id-update_rows :
    (job_id : String) (now : ℕ) (u : Update) (rs : List JobRecord) {r : JobRecord}
    → find_id job_id rs ≡ some r
    → find_id job_id (update_rows job_id now u rs) ≡ some (update_row now u r)
unfolding find_id update_rows update_row
find_id-update_rows job_id now u [] h = absurd cc
find_id-update_rows job_id now u (q ∷ rs) {r} h = elim (Bool-cases (q.id == job_id)) [
  | inl e ↦ rw (e, e) (ap (λ k. some (update_row now u k)) (some_injective (rw e at h)))
  | inr e ↦ rw (e, e) (find_id-update_rows job_id now u rs (rw e at h))
]

-- An update of one job leaves each job that is apart from it alone.
pub find_id-update_apart :
    (k : String) (now : ℕ) (u : Update) (rs : List JobRecord) (job t : JobRecord)
    → Found rs job
    → find_id k rs ≡ some t
    → job.status ≢ t.status
    → find_id k (update_rows job.id now u rs) ≡ some t
find_id-update_apart k now u rs job t f h apart = elim (Bool-cases (job.id == k)) [
  | inl e ↦ absurd (apart (same_status ((string_eq.same_iff job.id k).0 e)))
  | inr e ↦ find_id-update_rows_other k job.id now u rs e ∙ h
]
  where
    same_status : job.id ≡ k → job.status ≡ t.status
    same_status e = cc
