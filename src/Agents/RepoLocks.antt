-- ===== src/Agents/RepoLocks.antt =====
-- harness/agents/repo_locks.py: RepoLockRegistry, with tasks that use it in any order. A key stands for
-- the resolved path of a repository, and a number for a lock object. A lock is an asyncio.Lock: it is
-- taken at once if it is free and nobody waits, and given to the waiters in their order.
pub mod Owners
pub mod Registry
pub mod Exclusion
mod Tests
use harness_solomon.Base.{
  ℕ, suc, String, Bool, true, false, Option, none, some, List, [], ◌∷◌, ◌++◌, ◌==◌, nat_eq,
  string_eq, not, if◌then◌else◌, ◌≡◌, keep, map,
}
use harness_solomon.Base.Dict.{Dict, get, put}

-- Where a task is: outside; with the proxy of `lock_for`; in `__aenter__`, waiting for the lock; or
-- inside the `async with`.
pub data Phase : Type 0 where
  outside : Phase
  proxied : String → ℕ → Phase
  waiting : String → ℕ → Phase
  inside : String → ℕ → Phase

-- The registry, with the number of the next lock object; the locks; and the tasks.
pub record System : Type 0 where
  pub registry : Dict String ℕ
  pub next : ℕ
  pub locked : ℕ → Bool
  pub waiters : ℕ → List ℕ
  pub phase : ℕ → Phase

abbrev pub update {ℓ} : {A : Type ℓ} → (ℕ → A) → ℕ → A → ℕ → A
update f i a j = if i == j then a else f j

abbrev pub init : System
init = record {
  registry = [];
  next = 0;
  locked = λ i. false;
  waiters = λ i. [];
  phase = λ t. outside;
}

-- The lookup that `lock_for` and `get` share: the lock of the key, made on first touch.
abbrev pub lock_of : System → String → Option ℕ → System × ℕ
lock_of s key none = (record s { registry = put key s.next s.registry; next = suc s.next }, s.next)
lock_of s key (some lock) = (s, lock)

unfoldable pub lock_for : System → String → System × ℕ
unfolding get put
lock_for s key = lock_of s key (get key s.registry)

-- `_AsyncContextManagerProxy` is made.
unfoldable pub makes_proxy : System → ℕ → String → System
unfolding lock_for
makes_proxy s task key =
    let (s', lock) = lock_for s key in record s' { phase = update s'.phase task (proxied key lock) }

-- `await self._lock.acquire()` of a lock that is free, of one that is not, and of a waiter that is woken.
abbrev pub acquires : System → ℕ → String → ℕ → System
acquires s task key lock = record s {
  locked = update s.locked lock true;
  phase = update s.phase task (inside key lock);
}

abbrev pub waits : System → ℕ → String → ℕ → System
waits s task key lock = record s {
  waiters = update s.waiters lock (s.waiters lock ++ task ∷ []);
  phase = update s.phase task (waiting key lock);
}

abbrev pub wakes : System → ℕ → String → ℕ → List ℕ → System
wakes s task key lock rest = record s {
  locked = update s.locked lock true;
  waiters = update s.waiters lock rest;
  phase = update s.phase task (inside key lock);
}

-- A waiter is cancelled.
abbrev pub cancels : System → ℕ → ℕ → System
cancels s task lock = record s {
  waiters = update s.waiters lock (keep (λ t. not (t == task)) (s.waiters lock));
  phase = update s.phase task outside;
}

-- `self._lock.release()`.
abbrev pub releases : System → ℕ → ℕ → System
releases s task lock = record s {
  locked = update s.locked lock false;
  phase = update s.phase task outside;
}

-- `aclose`.
abbrev pub closes : System → System
closes s = record s { registry = [] }

-- One step of the loop that does not close the registry.
pub data Step (s : System) : System → Type 0 where
  makes : (task : ℕ) (key : String) → s.phase task ≡ outside → Step s (makes_proxy s task key)
  enters :
      (task : ℕ) {key : String} {lock : ℕ}
      → s.phase task ≡ proxied key lock
      → s.locked lock ≡ false
      → s.waiters lock ≡ []
      → Step s (acquires s task key lock)
  queues :
      (task : ℕ) {key : String} {lock : ℕ}
      → s.phase task ≡ proxied key lock
      → (s.locked lock ≡ false → ¬ (s.waiters lock ≡ []))
      → Step s (waits s task key lock)
  woken :
      (task : ℕ) {key : String} {lock : ℕ} {rest : List ℕ}
      → s.phase task ≡ waiting key lock
      → s.locked lock ≡ false
      → s.waiters lock ≡ task ∷ rest
      → Step s (wakes s task key lock rest)
  cancelled :
      (task : ℕ) {key : String} {lock : ℕ}
      → s.phase task ≡ waiting key lock
      → Step s (cancels s task lock)
  leaves :
      (task : ℕ) {key : String} {lock : ℕ}
      → s.phase task ≡ inside key lock
      → Step s (releases s task lock)

-- What the tasks make of the registry.
pub data Reach : System → Type 0 where
  start : Reach init
  later : {s t : System} → Reach s → Step s t → Reach t
