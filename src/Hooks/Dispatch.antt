-- ===== src/Hooks/Dispatch.antt =====
-- harness/hooks/runner.py: HookRunner, and how it dispatches one hook: the limiter, the circuit and
-- the transport.
use harness_solomon.Base.{ℕ, String, Bool, true, Option, none, some, leb, string_eq, if◌then◌else◌}
use harness_solomon.Hooks.Context.{
  Fields, HookContext, allow, HookError, rate_limited, circuit_circuit_open, circuit_half_open,
  no_callable, no_router, wrong_type, raised, timeout_after, has_error, HookDecision,
}
use harness_solomon.Hooks.Bucket.{HookRateLimiter}
use harness_solomon.Hooks.Bucket
use harness_solomon.Hooks.Breaker.{
  HookCircuitBreaker, CircuitSkipReason, circuit_open, skip, check_hook, hook_failure, hook_success,
}
use harness_solomon.Hooks.Breaker
use harness_solomon.Hooks.Registry.{HookSpec, HookRegistry, builtin, llm}

pub record HookRunner : Type 0 where
  pub registry : HookRegistry
  pub default_timeout_ms : ℕ
  pub max_per_event : ℕ
  pub max_recursion_depth : ℕ
  pub fail_open : Bool
  pub global_filter : String
  pub has_llm_router : Bool
  pub rate_limiter : Option HookRateLimiter
  pub circuit_breaker : Option HookCircuitBreaker

-- How the call of a builtin hook's function ends.
pub data Outcome : Type 0 where
  returns : HookDecision → Outcome
  returns_other raises : String → Outcome
  times_out : Outcome

-- What the runner gets from outside: the hooks' functions, the transports to other processes
-- (subprocess.py, http.py, llm_hook.py), `str` of a dict, `validate_payload`, whose schemas are
-- pydantic's and which gives a payload back whatever happens, the units in one token, and what the clock
-- reads when a hook's bucket is made and used, and its circuit checked and told the outcome.
pub record World : Type 0 where
  pub call : String → HookContext → Outcome
  pub transport : HookSpec → HookContext → ℕ → HookDecision
  pub str_dict : Fields → String
  pub validate : String → Fields → Fields
  pub one_token : ℕ
  pub made : HookSpec → ℕ
  pub read : HookSpec → ℕ
  pub checked : HookSpec → ℕ
  pub recorded : HookSpec → ℕ

abbrev pub allow_with : String → HookError → HookDecision
allow_with hook_id e = record { decision = allow; hook_id = hook_id; payload = none; error = e }

-- `_invoke_builtin`.
unfoldable pub invoke_builtin : World → HookSpec → HookContext → ℕ → HookDecision
invoke_builtin w spec context timeout_ms = elim spec.callable [
  | none ↦ allow_with spec.hook_id no_callable
  | some name ↦ elim (w.call name context) [
    | returns d ↦ record d { hook_id = spec.hook_id }
    | returns_other type ↦ allow_with spec.hook_id (wrong_type type)
    | raises e ↦ allow_with spec.hook_id (raised e)
    | times_out ↦ allow_with spec.hook_id (timeout_after timeout_ms)
  ]
]

-- `spec.timeout_ms or default`.
abbrev pub timeout_of : HookRunner → Option ℕ → ℕ
timeout_of r none = r.default_timeout_ms
timeout_of r (some t) = if leb t 0 then r.default_timeout_ms else t

-- The transport of `_dispatch_one`.
unfoldable pub invoke : World → HookRunner → HookSpec → HookContext → HookDecision
unfolding invoke_builtin
invoke w r spec context =
    let timeout = timeout_of r spec.timeout_ms in
    elim spec.transport [
      | builtin ↦ invoke_builtin w spec context timeout
      | llm ↦
          if r.has_llm_router
          then w.transport spec context timeout
          else allow_with spec.hook_id no_router
      | _ ↦ w.transport spec context timeout
    ]

abbrev skip_error : CircuitSkipReason → HookError
skip_error circuit_open = circuit_circuit_open
skip_error Breaker.circuit_half_open = circuit_half_open

-- Whether the limiter lets the hook through.
unfoldable pub limited : World → HookRunner → HookSpec → HookRunner × Bool
limited w r spec = elim r.rate_limiter [
  | none ↦ (r, true)
  | some l ↦
      let (l', ok) = Bucket.check w.one_token l spec.hook_id none (w.made spec) (w.read spec) in
      (record r { rate_limiter = some l' }, ok)
]

unfoldable pub checked_circuit :
    World → HookRunner → HookSpec → HookRunner × Breaker.CircuitDecision
checked_circuit w r spec = elim r.circuit_breaker [
  | none ↦ (r, Breaker.allow)
  | some h ↦
      let (h', decision) = check_hook h spec.hook_id (w.checked spec) in
      (record r { circuit_breaker = some h' }, decision)
]

feedback : World → HookRunner → HookSpec → HookError → HookRunner
feedback w r spec error = elim r.circuit_breaker [
  | none ↦ r
  | some h ↦ record r {
    circuit_breaker = some (
        if has_error error
        then hook_failure h spec.hook_id (w.recorded spec)
        else hook_success h spec.hook_id);
  }
]

unfoldable pub after_circuit :
    World
    → HookSpec
    → HookContext
    → HookRunner
    → Breaker.CircuitDecision
    → HookDecision × HookRunner
unfolding feedback invoke
after_circuit w spec context r (skip reason) = (allow_with spec.hook_id (skip_error reason), r)
after_circuit w spec context r Breaker.allow =
    let result = invoke w r spec context in (result, feedback w r spec result.error)

-- `_dispatch_one`.
unfoldable pub dispatch_one :
    World → HookRunner → HookSpec → HookContext → HookDecision × HookRunner
unfolding limited checked_circuit after_circuit
dispatch_one w r spec context =
    let (r1, ok) = limited w r spec in
    let (r2, decision) = checked_circuit w r1 spec in
    if ok
    then after_circuit w spec context r2 decision
    else (allow_with spec.hook_id rate_limited, r1)
