-- ===== src/Hooks/Breaker/Cycle.antt =====
-- The life of a circuit: it trips at the threshold, stays shut for the cooldown, and lets one
-- probe through.
use harness_solomon.Base.{
  ℕ, suc, ◌+◌, ◌≤◌, ◌<◌, ◌≡◌, refl, true, List, [], ◌∷◌, any, length, leb, arith, if◌then◌else◌,
}
use harness_solomon.Hooks.Breaker.{
  CircuitBreaker, CircuitDecision, closed, opened, half_open, allow, skip, new_circuit, check,
  record_failure, record_success,
}

-- What holds of a circuit between calls.
pub record IsSound (b : CircuitBreaker) : Type 0 where
  pub usable : 0 < b.threshold
  pub below : b.state ≡ closed → b.failure_count < b.threshold
  pub probing : b.probe_taken ≡ true → b.state ≡ half_open

pub data Call : Type 0 where
  checks fails : ℕ → Call
  succeeds : Call

unfoldable pub step : CircuitBreaker → Call → CircuitBreaker
step b (checks now) = (check b now).0
step b (fails now) = record_failure b now
step b succeeds = record_success b

unfoldable pub run : CircuitBreaker → List Call → CircuitBreaker
run b [] = b
run b (c ∷ calls) = run (step b c) calls

step-IsSound : (b : CircuitBreaker) (c : Call) → IsSound b → IsSound (step b c)
unfolding step check record_failure record_success
step-IsSound b (checks now) s = ground arith
step-IsSound b (fails now) s = ground arith
step-IsSound b succeeds s = ground arith

run-IsSound : (b : CircuitBreaker) (calls : List Call) → IsSound b → IsSound (run b calls)
unfolding run
run-IsSound b [] s = s
run-IsSound b (c ∷ calls) s = run-IsSound (step b c) calls (step-IsSound b c s)

-- Whatever calls a new circuit has seen, while it is closed it has counted fewer failures than its
-- threshold, and a probe is out only while it is half open.
pub run-new-IsSound :
    (threshold cooldown_s : ℕ) (calls : List Call)
    → 0 < threshold
    → IsSound (run (new_circuit threshold cooldown_s) calls)
unfolding new_circuit
run-new-IsSound threshold cooldown_s calls h =
    run-IsSound (new_circuit threshold cooldown_s) calls
      (record { usable = h; below = λ _. h; probing = λ e. cc })

-- Consecutive failures, at the times given.
abbrev pub failures : CircuitBreaker → List ℕ → CircuitBreaker
failures b [] = b
failures b (t ∷ ts) = failures (record_failure b t) ts

failures-opened :
    (b : CircuitBreaker) (ts : List ℕ) → b.state ≡ opened → (failures b ts).state ≡ opened
unfolding record_failure
failures-opened b [] e = e
failures-opened b (t ∷ ts) e = failures-opened (record_failure b t) ts (ground arith)

pub failures-closed :
    (b : CircuitBreaker) (ts : List ℕ)
    → b.state ≡ closed
    → b.failure_count + length ts < b.threshold
    → ((failures b ts).state ≡ closed)
      × ((failures b ts).failure_count ≡ b.failure_count + length ts)
unfolding record_failure
failures-closed b [] e h = ground arith
failures-closed b (t ∷ ts) e h = ground (arith, failures-closed (record_failure b t) ts)

failures-reach :
    (b : CircuitBreaker) (ts : List ℕ)
    → b.state ≡ closed
    → b.failure_count < b.threshold
    → b.threshold ≤ b.failure_count + length ts
    → (failures b ts).state ≡ opened
unfolding record_failure
failures-reach b [] e s h = absurd (omega arith)
failures-reach b (t ∷ ts) e s h =
    ground (arith, failures-opened (record_failure b t) ts, failures-reach (record_failure b t) ts)

-- A row of failures opens a closed circuit exactly if these, with the ones already counted, reach
-- the threshold; below it the circuit stays closed and has counted them all.
pub failures_trip :
    (b : CircuitBreaker) (ts : List ℕ)
    → IsSound b
    → b.state ≡ closed
    → (b.threshold ≤ b.failure_count + length ts → (failures b ts).state ≡ opened)
      × (b.failure_count + length ts < b.threshold
          → ((failures b ts).state ≡ closed)
            × ((failures b ts).failure_count ≡ b.failure_count + length ts))
failures_trip b ts s e = (failures-reach b ts e (s.below e), failures-closed b ts e)

-- The number of checks, at the times given, that allow the call.
abbrev pub count_allow : CircuitDecision → ℕ → ℕ
count_allow allow n = suc n
count_allow (skip reason) n = n

pub probes : CircuitBreaker → List ℕ → ℕ
probes b [] = 0
probes b (t ∷ ts) = let (b', decision) = check b t in count_allow decision (probes b' ts)

probes_taken :
    (b : CircuitBreaker) (ts : List ℕ)
    → b.state ≡ half_open
    → b.probe_taken ≡ true
    → probes b ts ≡ 0
unfolding probes check
probes_taken b [] e p = refl
probes_taken b (t ∷ ts) e p = ground (arith, probes_taken b ts e p)

-- While no outcome is recorded, an open circuit lets exactly one call through if some check comes
-- when the cooldown is over, and none otherwise, whatever checks are made at whatever times.
pub probes_one :
    (b : CircuitBreaker) (ts : List ℕ)
    → IsSound b
    → b.state ≡ opened
    → probes b ts ≡ (if any (leb (b.opened_at + b.cooldown_s)) ts then 1 else 0)
unfolding probes check
probes_one b [] s e = refl
probes_one b (t ∷ ts) s e = ground (
  arith,
  probes_one b ts s e,
  probes_taken (record b { state = half_open; probe_taken = true }) ts refl refl,
)
