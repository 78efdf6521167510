-- ===== src/Agents/RepoLocks/Exclusion.antt =====
-- harness/agents/repo_locks.py: one task at a time in each repository, and none is held up by others.
use harness_solomon.Base.{
  ℕ, String, true, List, [], ◌∷◌, nat_eq, nat_beq_iff, string_eq, ==_refl, if◌then◌else◌, ◌≡◌, refl,
  ap, ◌∙◌, ◌⊎◌, inl, inr, Bool-cases, arith,
}
use harness_solomon.Agents.RepoLocks.{
  Phase, outside, proxied, waiting, inside, System, wakes, Step, woken, Reach,
}
use harness_solomon.Agents.RepoLocks.Owners.{is_inside, is_waiting, count, Reach-Owned}
use harness_solomon.Agents.RepoLocks.Registry.{uses, Reach-Keyed}

uses_inside : {p : Phase} {k : String} {i : ℕ} → p ≡ inside k i → uses k i p ≡ true
uses_inside {k} {i} e = ap (uses k i) e ∙ rw (==_refl k, ==_refl i) refl

uses_waiting : {p : Phase} {k : String} {i : ℕ} → p ≡ waiting k i → uses k i p ≡ true
uses_waiting {k} {i} e = ap (uses k i) e ∙ rw (==_refl k, ==_refl i) refl

-- While the registry is not closed, no two tasks are inside the lock of one repository.
pub mutual_exclusion :
    {s : System} {t u : ℕ} {k : String} {i j : ℕ}
    → Reach s
    → s.phase t ≡ inside k i
    → s.phase u ≡ inside k j
    → t ≡ u
mutual_exclusion {s} {t} {u} {k} {i} {j} r e f =
    let n = Reach-Keyed r in
    let a = n.named t k i (uses_inside e) in
    let b = n.named u k j (uses_inside f) in
    grind (arith, a, b, nat_beq_iff j i, nat_beq_iff i i, (Reach-Owned r).one t u i)

waits_for : (i : ℕ) (p : Phase) → is_waiting i p ≡ true → (k : String) × (p ≡ waiting k i)
waits_for i outside h = absurd cc
waits_for i (proxied key lock) h = absurd cc
waits_for i (waiting key lock) h = (key, ap (waiting key) ((nat_beq_iff lock i).0 h))
waits_for i (inside key lock) h = absurd cc

is_in : (i : ℕ) (p : Phase) → is_inside i p ≡ true → (k : String) × (p ≡ inside k i)
is_in i outside h = absurd cc
is_in i (proxied key lock) h = absurd cc
is_in i (waiting key lock) h = absurd cc
is_in i (inside key lock) h = (key, ap (inside key) ((nat_beq_iff lock i).0 h))

first_waiter : (t : ℕ) (us : List ℕ) → count t us ≡ 1 → (u : ℕ) × (rest : List ℕ) × (us ≡ u ∷ rest)
first_waiter t [] h = absurd (omega (arith, h))
first_waiter t (u ∷ rest) h = (u, rest, refl)

-- While the registry is not closed, a task that waits for the lock of a repository is held up only by a
-- task that is inside the lock of the same repository; when none is, the first task of the queue, which
-- waits for the same repository, can be woken.
pub no_deadlock :
    {s : System} {t : ℕ} {k : String} {i : ℕ}
    → Reach s
    → s.phase t ≡ waiting k i
    → ((u : ℕ) × (s.phase u ≡ inside k i))
      ⊎ ((u : ℕ) × (rest : List ℕ) × (s.phase u ≡ waiting k i) × Step s (wakes s u k i rest))
no_deadlock {s} {t} {k} {i} r e =
    let n = Reach-Keyed r in
    let o = Reach-Owned r in
    elim (Bool-cases (s.locked i)) [
      | inl taken ↦
          let (u, h) = o.owner i taken in
          let (j, f) = is_in i (s.phase u) h in
          let same : j ≡ k =
            n.single j k i (n.named u j i (uses_inside f)) (n.named t k i (uses_waiting e)) in
          inl (u, f ∙ ap (λ (l : String). inside l i) same)
      | inr free ↦
          let (u, rest, q) = first_waiter t (s.waiters i) (
            o.queued t i
            ∙ ap (λ (p : Phase). if is_waiting i p then 1 else 0) e
            ∙ rw (==_refl i) refl) in
          let (j, f) = waits_for i (s.phase u) (stands_first u rest q) in
          let same : j ≡ k =
            n.single j k i (n.named u j i (uses_waiting f)) (n.named t k i (uses_waiting e)) in
          let g : s.phase u ≡ waiting k i = f ∙ ap (λ (l : String). waiting l i) same in
          inr (u, rest, g, woken u g free q)
    ]
  where
    stands_first :
        (u : ℕ) (rest : List ℕ) → s.waiters i ≡ u ∷ rest → is_waiting i (s.phase u) ≡ true
    stands_first u rest q = ground (arith, (Reach-Owned r).queued u i, ap (count u) q, ==_refl u)
