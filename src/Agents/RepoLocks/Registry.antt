-- ===== src/Agents/RepoLocks/Registry.antt =====
-- harness/agents/repo_locks.py: each lock stands for one repository.
use harness_solomon.Base.{
  ℕ, suc, ◌<◌, String, Bool, true, false, Option, none, some, List, [], ◌∷◌, ◌++◌, ◌==◌, nat_eq,
  nat_beq_iff, string_eq, ◌&&◌, not, ◌≡◌, refl, ap, ◌∙◌, keep, arith,
}
use harness_solomon.Base.Dict.{get, put, get-put}
use harness_solomon.Agents.RepoLocks.{
  Phase, outside, proxied, waiting, inside, System, update, lock_of, makes_proxy, Step, makes,
  enters, queues, woken, cancelled, leaves, Reach, start, later,
}

-- The task uses the lock for the key.
abbrev pub uses : String → ℕ → Phase → Bool
uses k i outside = false
uses k i (proxied key lock) = key == k && lock == i
uses k i (waiting key lock) = key == k && lock == i
uses k i (inside key lock) = key == k && lock == i

-- The registry: each lock stands for one key, and the tasks use the locks of their keys.
pub record Keyed (s : System) : Type 0 where
  pub below : (k : String) (i : ℕ) → get k s.registry ≡ some i → i < s.next
  pub single :
      (j k : String) (i : ℕ) → get j s.registry ≡ some i → get k s.registry ≡ some i → j ≡ k
  pub named : (t : ℕ) (k : String) (i : ℕ) → uses k i (s.phase t) ≡ true → get k s.registry ≡ some i

-- A task takes a phase that uses no other lock.
moves-Keyed :
    (s : System) (task : ℕ) (p : Phase) (locked : ℕ → Bool) (waiters : ℕ → List ℕ)
    → Keyed s
    → ((k : String) (i : ℕ) → uses k i p ≡ true → uses k i (s.phase task) ≡ true)
    → Keyed (record s { locked = locked; waiters = waiters; phase = update s.phase task p })
moves-Keyed s task p locked waiters n h = record {
  below = n.below;
  single = n.single;
  named = λ t k i u. grind (arith, nat_beq_iff task t, n.named t k i, n.named task k i, h k i);
}

-- A lock that is new is the lock of its key alone.
adds-Keyed :
    (s : System) (task : ℕ) (key : String)
    → Keyed s
    → get key s.registry ≡ none
    → Keyed (record s {
      registry = put key s.next s.registry;
      next = suc s.next;
      phase = update s.phase task (proxied key s.next);
    })
adds-Keyed s task key n e = record {
  below = λ k i h. grind (arith, get-put key k s.next s.registry, n.below k i);
  single = λ j k i h l. grind (
    arith,
    get-put key j s.next s.registry,
    get-put key k s.next s.registry,
    n.below j i,
    n.below k i,
    n.single j k i,
    string_eq.same_iff key j,
    string_eq.same_iff key k,
  );
  named = λ t k i h. grind (
    arith,
    get-put key k s.next s.registry,
    nat_beq_iff task t,
    nat_beq_iff s.next i,
    n.named t k i,
    string_eq.same_iff key k,
  );
}

makes-Keyed : (s : System) (task : ℕ) (key : String) → Keyed s → Keyed (makes_proxy s task key)
unfolding makes_proxy
makes-Keyed s task key n = found (get key s.registry) refl
  where
    found :
        (o : Option ℕ)
        → get key s.registry ≡ o
        → let (s', lock) = lock_of s key o in
          Keyed (record s' { phase = update s'.phase task (proxied key lock) })
    found none e = adds-Keyed s task key n e
    found (some lock) e = record {
      below = n.below;
      single = n.single;
      named = λ t k i h.
          grind (
            arith,
            nat_beq_iff task t,
            nat_beq_iff lock i,
            n.named t k i,
            string_eq.same_iff key k,
          );
    }

Step-Keyed : {s t : System} → Step s t → Keyed s → Keyed t
Step-Keyed {s} (makes task key e) n = makes-Keyed s task key n
Step-Keyed {s} (enters task {key} {lock} e free idle) n =
    moves-Keyed s task (inside key lock) (update s.locked lock true) s.waiters n
      (λ k i h. ap (uses k i) e ∙ h)
Step-Keyed {s} (queues task {key} {lock} e busy) n =
    moves-Keyed s task (waiting key lock) s.locked
      (update s.waiters lock (s.waiters lock ++ task ∷ [])) n (λ k i h. ap (uses k i) e ∙ h)
Step-Keyed {s} (woken task {key} {lock} {rest} e free q) n =
    moves-Keyed s task (inside key lock) (update s.locked lock true) (update s.waiters lock rest) n
      (λ k i h. ap (uses k i) e ∙ h)
Step-Keyed {s} (cancelled task {key} {lock} e) n =
    moves-Keyed s task outside s.locked
      (update s.waiters lock (keep (λ t. not (t == task)) (s.waiters lock))) n (λ k i h. absurd cc)
Step-Keyed {s} (leaves task {key} {lock} e) n =
    moves-Keyed s task outside (update s.locked lock false) s.waiters n (λ k i h. absurd cc)

pub Reach-Keyed : {s : System} → Reach s → Keyed s
unfolding get
Reach-Keyed start = record {
  below = λ k i h. absurd cc;
  single = λ j k i h l. absurd cc;
  named = λ t k i h. absurd cc;
}
Reach-Keyed (later r step) = Step-Keyed step (Reach-Keyed r)
