-- ===== src/Agents/Webhooks/Lookup.antt =====
-- Which job a pull request finds after an update.
use harness_solomon.Base.{
  ℕ, String, Bool, true, false, Option, none, some, List, [], ◌∷◌, ◌≡◌, refl, ap, ◌∙◌, inl, inr,
  Bool-cases, if◌then◌else◌, ltb, ◌==◌, nat_eq, string_eq, ==_refl, arith,
}
use harness_solomon.Agents.Jobs.{JobRecord, Update, find_pr, newer, has_pr, update_row, update_rows}

-- The row after an update of `job_id`.
abbrev updated : String → ℕ → Update → JobRecord → JobRecord
updated job_id now u r = if r.id == job_id then update_row now u r else r

abbrev updated_some : String → ℕ → Update → Option JobRecord → Option JobRecord
updated_some job_id now u none = none
updated_some job_id now u (some r) = some (updated job_id now u r)

updated-started_at :
    (job_id : String) (now : ℕ) (u : Update) (r : JobRecord)
    → (updated job_id now u r).started_at ≡ r.started_at
unfolding update_row
updated-started_at job_id now u r = ground arith

has_pr-updated :
    (n : ℕ) (job_id : String) (now : ℕ) (u : Update) (r : JobRecord)
    → u.pr_number ≡ none
    → has_pr n (updated job_id now u r) ≡ has_pr n r
unfolding update_row
has_pr-updated n job_id now u r h = elim (Bool-cases (r.id == job_id)) [
  | inl e ↦ rw (e, h)
  | inr e ↦ rw e
]

newer-updated :
    (job_id : String) (now : ℕ) (u : Update) (r : JobRecord) (o : Option JobRecord)
    → newer (updated job_id now u r) (updated_some job_id now u o)
      ≡ updated job_id now u (newer r o)
newer-updated job_id now u r none = refl
newer-updated job_id now u r (some q) =
    rw (updated-started_at job_id now u r, updated-started_at job_id now u q)
      (elim (Bool-cases (ltb r.started_at q.started_at)) [ inl e ↦ rw e | inr e ↦ rw e ])

-- An update that sets no pull request number does not change which job a number finds.
find_pr-update_rows :
    (n : ℕ) (job_id : String) (now : ℕ) (u : Update) (rs : List JobRecord)
    → u.pr_number ≡ none
    → find_pr n (update_rows job_id now u rs) ≡ updated_some job_id now u (find_pr n rs)
unfolding find_pr update_rows
find_pr-update_rows n job_id now u [] h = refl
find_pr-update_rows n job_id now u (r ∷ rs) h =
    let q = updated job_id now u r in
    ap (λ k. if has_pr n q then some (newer q k) else k) (find_pr-update_rows n job_id now u rs h)
    ∙ ap
        (λ b.
          if b
          then some (newer q (updated_some job_id now u (find_pr n rs)))
          else updated_some job_id now u (find_pr n rs))
        (has_pr-updated n job_id now u r h)
    ∙ ap (λ k. if has_pr n r then some k else updated_some job_id now u (find_pr n rs))
        (newer-updated job_id now u r (find_pr n rs))
    ∙ updated_if (has_pr n r)
  where
    updated_if :
        (b : Bool)
        → (if b
            then some (updated job_id now u (newer r (find_pr n rs)))
            else updated_some job_id now u (find_pr n rs))
          ≡ updated_some job_id now u (if b then some (newer r (find_pr n rs)) else find_pr n rs)
    updated_if true = refl
    updated_if false = refl

pub find_pr-update_found :
    (n : ℕ) (now : ℕ) (u : Update) (rs : List JobRecord) {job : JobRecord}
    → u.pr_number ≡ none
    → find_pr n rs ≡ some job
    → find_pr n (update_rows job.id now u rs) ≡ some (update_row now u job)
find_pr-update_found n now u rs {job} h e =
    find_pr-update_rows n job.id now u rs h ∙ ap (updated_some job.id now u) e ∙ rw (==_refl job.id)
