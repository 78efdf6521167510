-- ===== src/Agents/RepoLocks/Tests.antt =====
-- One task is inside the lock of a repository, and another waits for it.
use harness_solomon.Base.{ℕ, List, ◌⊎◌, ◌≡◌, refl}
use harness_solomon.Base.Dict.{get, put}
use harness_solomon.Agents.RepoLocks.{
  waiting, inside, System, init, lock_for, makes_proxy, acquires, waits, wakes, Step, makes, enters,
  queues, Reach, start, later,
}
use harness_solomon.Agents.RepoLocks.Exclusion.{mutual_exclusion, no_deadlock}

abbrev entered : System
unfolding makes_proxy
entered = acquires (makes_proxy init 0 "r") 0 "r" 0

abbrev held_up : System
unfolding makes_proxy
held_up = waits (makes_proxy entered 1 "r") 1 "r" 0

held_up-Reach : Reach held_up
unfolding makes_proxy lock_for get put
held_up-Reach =
    later
      (later (later (later start (makes 0 "r" refl)) (enters 0 refl refl refl)) (makes 1 "r" refl))
      (queues 1 refl (λ e. absurd cc))

mutual_exclusion_example : ◌≡◌ {A = ℕ} 0 0
unfolding makes_proxy lock_for get put
mutual_exclusion_example =
    mutual_exclusion {t = 0} {u = 0} {k = "r"} {i = 0} {j = 0} held_up-Reach refl refl

no_deadlock_example :
    ((u : ℕ) × (held_up.phase u ≡ inside "r" 0))
    ⊎ ((u : ℕ) × (rest : List ℕ) × (held_up.phase u ≡ waiting "r" 0)
        × Step held_up (wakes held_up u "r" 0 rest))
unfolding makes_proxy lock_for get put
no_deadlock_example = no_deadlock {t = 1} held_up-Reach refl
