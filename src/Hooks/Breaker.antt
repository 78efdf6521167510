-- ===== src/Hooks/Breaker.antt =====
-- harness/hooks/rate_limit.py: CircuitBreaker and HookCircuitBreaker. Times are whole ticks of the
-- monotonic clock.
pub mod Cycle
pub mod PerHook
mod Tests
use harness_solomon.Base.{
  ℕ, ◌+◌, String, Bool, true, false, Option, none, some, List, [], ◌∷◌, ltb, leb, string_eq,
  if◌then◌else◌,
}
use harness_solomon.Base.Dict.{Dict, get, put}

pub data CircuitState : Type 0 where
  closed opened half_open : CircuitState

pub data CircuitSkipReason : Type 0 where
  circuit_open circuit_half_open : CircuitSkipReason

pub data CircuitDecision : Type 0 where
  allow : CircuitDecision
  skip : CircuitSkipReason → CircuitDecision

-- `probe_taken` is the attribute `_probe_taken`, false until it is set.
pub record CircuitBreaker : Type 0 where
  pub threshold : ℕ
  pub cooldown_s : ℕ
  pub state : CircuitState
  pub failure_count : ℕ
  pub opened_at : ℕ
  pub probe_taken : Bool

unfoldable pub new_circuit : ℕ → ℕ → CircuitBreaker
new_circuit threshold cooldown_s = record {
  threshold = threshold;
  cooldown_s = cooldown_s;
  state = closed;
  failure_count = 0;
  opened_at = 0;
  probe_taken = false;
}

-- `current - opened_at >= cooldown_s`, for times in any order.
check_state_transition : CircuitBreaker → ℕ → CircuitBreaker
check_state_transition b current = elim b.state [
  | opened ↦ if leb (b.opened_at + b.cooldown_s) current then record b { state = half_open } else b
  | _ ↦ b
]

decide : CircuitBreaker → CircuitBreaker × CircuitDecision
decide b = elim b.state [
  | closed ↦ (b, allow)
  | half_open ↦
      if b.probe_taken
      then (b, skip circuit_half_open)
      else (record b { probe_taken = true }, allow)
  | opened ↦ (b, skip circuit_open)
]

unfoldable pub check : CircuitBreaker → ℕ → CircuitBreaker × CircuitDecision
unfolding check_state_transition decide
check b current = decide (check_state_transition b current)

count_failure : CircuitBreaker → ℕ → CircuitBreaker
count_failure b current =
    let counted = record b { failure_count = b.failure_count + 1 } in
    elim b.state [
      | closed ↦
          if leb b.threshold (b.failure_count + 1)
          then record counted { state = opened; opened_at = current }
          else counted
      | _ ↦ counted
    ]

unfoldable pub record_failure : CircuitBreaker → ℕ → CircuitBreaker
unfolding count_failure
record_failure b current = elim b.state [
  | half_open ↦ record b { state = opened; opened_at = current; probe_taken = false }
  | _ ↦ count_failure b current
]

unfoldable pub record_success : CircuitBreaker → CircuitBreaker
record_success b = elim b.state [
  | half_open ↦ record b { state = closed; failure_count = 0; probe_taken = false }
  | _ ↦ if ltb 0 b.failure_count then record b { failure_count = 0 } else b
]

pub record HookCircuitBreaker : Type 0 where
  pub threshold : ℕ
  pub cooldown_s : ℕ
  pub circuits : Dict String CircuitBreaker

abbrev or_new : HookCircuitBreaker → Option CircuitBreaker → CircuitBreaker
or_new h none = new_circuit h.threshold h.cooldown_s
or_new h (some b) = b

-- `_get_or_create`; the circuit that it makes is stored by the call that follows.
unfoldable pub get_or_create : HookCircuitBreaker → String → CircuitBreaker
unfolding new_circuit
get_or_create h hook_id = or_new h (get hook_id h.circuits)

pub store : HookCircuitBreaker → String → CircuitBreaker → HookCircuitBreaker
store h hook_id b = record h { circuits = put hook_id b h.circuits }

unfoldable pub check_hook : HookCircuitBreaker → String → ℕ → HookCircuitBreaker × CircuitDecision
unfolding get_or_create store
check_hook h hook_id now =
    let (b, decision) = check (get_or_create h hook_id) now in (store h hook_id b, decision)

unfoldable pub hook_failure : HookCircuitBreaker → String → ℕ → HookCircuitBreaker
unfolding get_or_create store
hook_failure h hook_id now = store h hook_id (record_failure (get_or_create h hook_id) now)

unfoldable pub hook_success : HookCircuitBreaker → String → HookCircuitBreaker
unfolding get_or_create store
hook_success h hook_id = store h hook_id (record_success (get_or_create h hook_id))
