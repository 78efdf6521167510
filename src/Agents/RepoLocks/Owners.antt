-- ===== src/Agents/RepoLocks/Owners.antt =====
-- harness/agents/repo_locks.py: the locks and their queues.
use harness_solomon.Base.{
  ℕ, suc, ◌+◌, String, Bool, true, false, Option, none, some, List, [], ◌∷◌, ◌++◌, ◌==◌, nat_eq,
  nat_beq_iff, string_eq, ==_refl, not, if◌then◌else◌, ◌≡◌, refl, ap, ◌∙◌, inl, inr, Bool-cases,
  keep, arith,
}
use harness_solomon.Base.Dict.{Dict, get, put}
use harness_solomon.Agents.RepoLocks.{
  Phase, outside, proxied, waiting, inside, System, update, lock_of, makes_proxy, acquires, waits,
  wakes, cancels, releases, Step, makes, enters, queues, woken, cancelled, leaves, Reach, start,
  later,
}

abbrev pub is_inside : ℕ → Phase → Bool
is_inside i outside = false
is_inside i (proxied key lock) = false
is_inside i (waiting key lock) = false
is_inside i (inside key lock) = lock == i

abbrev pub is_waiting : ℕ → Phase → Bool
is_waiting i outside = false
is_waiting i (proxied key lock) = false
is_waiting i (waiting key lock) = lock == i
is_waiting i (inside key lock) = false

abbrev pub count : ℕ → List ℕ → ℕ
count t [] = 0
count t (u ∷ us) = (if u == t then 1 else 0) + count t us

-- The locks: a lock is taken exactly if a task is inside, and there is one; and a task waits exactly if
-- it stands in the queue, once.
pub record Owned (s : System) : Type 0 where
  pub held : (t i : ℕ) → is_inside i (s.phase t) ≡ true → s.locked i ≡ true
  pub one : (t u i : ℕ) → is_inside i (s.phase t) ≡ true → is_inside i (s.phase u) ≡ true → t ≡ u
  pub owner : (i : ℕ) → s.locked i ≡ true → (t : ℕ) × (is_inside i (s.phase t) ≡ true)
  pub queued : (t i : ℕ) → count t (s.waiters i) ≡ (if is_waiting i (s.phase t) then 1 else 0)

-- A task that moves and was not inside leaves the owner of a lock as it was.
owner_stays :
    (phase : ℕ → Phase) (task i : ℕ) (p : Phase)
    → is_inside i (phase task) ≡ false
    → (t : ℕ) × (is_inside i (phase t) ≡ true)
    → (t : ℕ) × (is_inside i (update phase task p t) ≡ true)
owner_stays phase task i p e (t, h) = (t, grind (arith, nat_beq_iff task t))

-- A task gets a lock that is free.
owner_gets :
    (locked : ℕ → Bool) (phase : ℕ → Phase) (task i lock : ℕ) (key : String)
    → is_inside i (phase task) ≡ false
    → (locked i ≡ true → (t : ℕ) × (is_inside i (phase t) ≡ true))
    → update locked lock true i ≡ true
    → (t : ℕ) × (is_inside i (update phase task (inside key lock) t) ≡ true)
owner_gets locked phase task i lock key e owner h = elim (Bool-cases (lock == i)) [
  | inl same ↦ (task, ground (arith, same, ==_refl task))
  | inr other ↦ owner_stays phase task i (inside key lock) e (owner (ground (arith, h, other)))
]

acquires-Owned :
    (s : System) (task : ℕ) (key : String) (lock : ℕ)
    → Owned s
    → s.phase task ≡ proxied key lock
    → s.locked lock ≡ false
    → Owned (acquires s task key lock)
acquires-Owned s task key lock o e free = record {
  held = λ t i h. grind (arith, nat_beq_iff, o.held t i);
  one = λ t u i h k. grind (arith, nat_beq_iff, o.held t i, o.held u i, o.one t u i);
  owner = λ i h. owner_gets s.locked s.phase task i lock key (ap (is_inside i) e) (o.owner i) h;
  queued = λ t i. grind (arith, nat_beq_iff, o.queued t i);
}

count-append : (t : ℕ) (us vs : List ℕ) → count t (us ++ vs) ≡ count t us + count t vs
count-append t [] vs = omega arith
count-append t (u ∷ us) vs = omega (arith, count-append t us vs)

count-keep :
    (t u : ℕ) (us : List ℕ)
    → count t (keep (λ v. not (v == u)) us) ≡ (if u == t then 0 else count t us)
count-keep t u [] = ground arith
count-keep t u (v ∷ us) =
    ground (arith, count-keep t u us, nat_beq_iff v u, nat_beq_iff v t, nat_beq_iff u t)

waits-Owned :
    (s : System) (task : ℕ) (key : String) (lock : ℕ)
    → Owned s
    → s.phase task ≡ proxied key lock
    → Owned (waits s task key lock)
waits-Owned s task key lock o e = record {
  held = λ t i h. grind (arith, nat_beq_iff, o.held t i);
  one = λ t u i h k. grind (arith, nat_beq_iff, o.one t u i);
  owner = λ i h. owner_stays s.phase task i (waiting key lock) (ap (is_inside i) e) (o.owner i h);
  queued =
      λ t i. grind (arith, nat_beq_iff, o.queued t i, count-append t (s.waiters lock) (task ∷ []));
}

wakes-Owned :
    (s : System) (task : ℕ) (key : String) (lock : ℕ) (rest : List ℕ)
    → Owned s
    → s.phase task ≡ waiting key lock
    → s.locked lock ≡ false
    → s.waiters lock ≡ task ∷ rest
    → Owned (wakes s task key lock rest)
wakes-Owned s task key lock rest o e free q = record {
  held = λ t i h. grind (arith, nat_beq_iff, o.held t i);
  one = λ t u i h k. grind (arith, nat_beq_iff, o.held t i, o.held u i, o.one t u i);
  owner = λ i h. owner_gets s.locked s.phase task i lock key (ap (is_inside i) e) (o.owner i) h;
  queued = λ t i. grind (arith, nat_beq_iff, o.queued t i, o.queued task lock, ap (count t) q);
}

cancels-Owned :
    (s : System) (task : ℕ) (key : String) (lock : ℕ)
    → Owned s
    → s.phase task ≡ waiting key lock
    → Owned (cancels s task lock)
cancels-Owned s task key lock o e = record {
  held = λ t i h. grind (arith, nat_beq_iff, o.held t i);
  one = λ t u i h k. grind (arith, nat_beq_iff, o.one t u i);
  owner = λ i h. owner_stays s.phase task i outside (ap (is_inside i) e) (o.owner i h);
  queued = λ t i. grind (arith, nat_beq_iff, o.queued t i, count-keep t task (s.waiters lock));
}

releases-Owned :
    (s : System) (task : ℕ) (key : String) (lock : ℕ)
    → Owned s
    → s.phase task ≡ inside key lock
    → Owned (releases s task lock)
releases-Owned s task key lock o e = record {
  held = λ t i h. grind (arith, nat_beq_iff, o.held t i, o.one t task i);
  one = λ t u i h k. grind (arith, nat_beq_iff, o.one t u i);
  owner = λ i h. elim (Bool-cases (lock == i)) [
    | inl same ↦ absurd (ground (arith, h, same))
    | inr other ↦
        owner_stays s.phase task i outside (ap (is_inside i) e ∙ other)
          (o.owner i (ground (arith, h, other)))
  ];
  queued = λ t i. grind (arith, nat_beq_iff, o.queued t i);
}

-- A task gets a proxy; the registry does not count.
proxied-Owned :
    (s : System) (task : ℕ) (key : String) (lock : ℕ) (registry : Dict String ℕ) (next : ℕ)
    → Owned s
    → s.phase task ≡ outside
    → Owned (record s {
      registry = registry;
      next = next;
      phase = update s.phase task (proxied key lock);
    })
proxied-Owned s task key lock registry next o e = record {
  held = λ t i h. grind (arith, nat_beq_iff, o.held t i);
  one = λ t u i h k. grind (arith, nat_beq_iff, o.one t u i);
  owner = λ i h. owner_stays s.phase task i (proxied key lock) (ap (is_inside i) e) (o.owner i h);
  queued = λ t i. grind (arith, nat_beq_iff, o.queued t i);
}

makes-Owned :
    (s : System) (task : ℕ) (key : String)
    → Owned s
    → s.phase task ≡ outside
    → Owned (makes_proxy s task key)
unfolding makes_proxy
makes-Owned s task key o e = found (get key s.registry)
  where
    found :
        (r : Option ℕ)
        → let (s', lock) = lock_of s key r in
          Owned (record s' { phase = update s'.phase task (proxied key lock) })
    found none = proxied-Owned s task key s.next (put key s.next s.registry) (suc s.next) o e
    found (some lock) = proxied-Owned s task key lock s.registry s.next o e

Step-Owned : {s t : System} → Step s t → Owned s → Owned t
Step-Owned {s} (makes task key e) o = makes-Owned s task key o e
Step-Owned {s} (enters task {key} {lock} e free idle) o = acquires-Owned s task key lock o e free
Step-Owned {s} (queues task {key} {lock} e busy) o = waits-Owned s task key lock o e
Step-Owned {s} (woken task {key} {lock} {rest} e free q) o =
    wakes-Owned s task key lock rest o e free q
Step-Owned {s} (cancelled task {key} {lock} e) o = cancels-Owned s task key lock o e
Step-Owned {s} (leaves task {key} {lock} e) o = releases-Owned s task key lock o e

pub Reach-Owned : {s : System} → Reach s → Owned s
Reach-Owned start = record {
  held = λ t i h. absurd cc;
  one = λ t u i h k. absurd cc;
  owner = λ i h. absurd cc;
  queued = λ t i. refl;
}
Reach-Owned (later r step) = Step-Owned step (Reach-Owned r)
