-- ===== src/Hooks/Runner/Tests.antt =====
-- A runner with two hooks of one event.
use harness_solomon.Base.{
  ◌≡◌, ◌≢◌, refl, true, false, none, some, List, String, [], ◌∷◌, string_eq, arith,
}
use harness_solomon.Base.Dict.{get, put}
use harness_solomon.Hooks.Context.{
  stop, HookContext, end, Decision, allow, block, modify, HookDecision, no_error, raised,
}
use harness_solomon.Hooks.Registry.{HookSpec, builtin}
use harness_solomon.Hooks.Bucket.{HookRateLimiter, check, consume, refill}
use harness_solomon.Hooks.Breaker
use harness_solomon.Hooks.Breaker.{check_hook, HookCircuitBreaker, get_or_create}
use harness_solomon.Hooks.Dispatch.{
  World, HookRunner, raises, limited, invoke, invoke_builtin, dispatch_one, allow_with,
}
use harness_solomon.Hooks.Runner.{aggregate, fire_impl, allowed}
use harness_solomon.Hooks.Runner.Aggregate.{aggregate_lem, modify_undoes_block}
use harness_solomon.Hooks.Runner.Guards.{nested, fire_impl-reentrant}
use harness_solomon.Hooks.Runner.Breaking.{dispatches, armed, AllFailing, CutOff, cut_off}

abbrev spec : String → HookSpec
spec hook_id = record {
  hook_id = hook_id;
  event = stop;
  transport = builtin;
  enabled = true;
  timeout_ms = none;
  priority = 10;
  matcher = "";
  callable = some "check";
  script_path = "";
  url = "";
  headers = [];
  model = "";
  prompt = "";
}

abbrev broken : World
broken = record {
  call = λ name c. raises "broken";
  transport = λ s c timeout. allow_with s.hook_id no_error;
  str_dict = λ fs. "";
  validate = λ event fs. fs;
  one_token = 1;
  made = λ s. 0;
  read = λ s. 0;
  checked = λ s. 100;
  recorded = λ s. 100;
}

abbrev runner : HookRunner
runner = record {
  registry = record { specs = (stop, spec "lint" ∷ spec "audit" ∷ []) ∷ [] };
  default_timeout_ms = 5000;
  max_per_event = 10;
  max_recursion_depth = 3;
  fail_open = true;
  global_filter = "";
  has_llm_router = false;
  rate_limiter = none;
  circuit_breaker = none;
}

abbrev context : HookContext
context = record {
  event = "Stop";
  session_id = "s1";
  agent_id = "a1";
  payload = end;
  request_id = "r1";
  recursion_depth = 0;
  event_stack = [];
}

abbrev circuits : HookCircuitBreaker
circuits = record { threshold = 2; cooldown_s = 30; circuits = [] }

-- A limiter of ten tokens.
abbrev limiter : HookRateLimiter
limiter = record { capacity = 10; refill_per_sec = 1; buckets = [] }

lint_fails :
    AllFailing (broken ∷ broken ∷ []) (armed runner (some limiter) circuits) (spec "lint") context
unfolding invoke invoke_builtin limited dispatch_one get_or_create get check consume refill
    check_hook Breaker.check put
lint_fails = ((refl, refl), ((refl, refl), tt))

cut_off_example :
    CutOff broken
      (dispatch_one broken
        (dispatches (broken ∷ []) (armed runner (some limiter) circuits) (spec "lint") context)
        (spec "lint")
        context).1
      (spec "lint")
      context
unfolding get_or_create get dispatches
cut_off_example =
    cut_off (broken ∷ []) broken broken runner (some limiter) circuits (spec "lint") context
      (lint_fails.0, tt) lint_fails.1.0 refl refl (omega arith)

abbrev decided : String → Decision → HookDecision
decided hook_id d = record { decision = d; hook_id = hook_id; payload = none; error = no_error }

abbrev hooks : List HookSpec
hooks = spec "lint" ∷ spec "audit" ∷ []

abbrev block_then_modify : List HookDecision
block_then_modify = decided "lint" block ∷ decided "audit" modify ∷ []

abbrev IsName : String → Type 0
IsName s = s ≢ ""

named : IsName "lint" × IsName "audit"
named = (λ e. absurd cc, λ e. absurd cc)

aggregate_lem_example : aggregate true end hooks block_then_modify ≡ record {
  final_decision = modify;
  decisions = block_then_modify;
  final_payload = end;
  blocked_by = "lint";
}
aggregate_lem_example = aggregate_lem true end hooks block_then_modify (named.0, (named.1, tt)) refl

modify_undoes_block_example :
    ((aggregate true end hooks block_then_modify).final_decision ≡ modify)
    × ((aggregate true end hooks block_then_modify).blocked_by ≡ "lint")
modify_undoes_block_example =
    modify_undoes_block true end hooks block_then_modify ((spec "lint", decided "lint" block) ∷ [])
      [] (spec "audit", decided "audit" modify) refl (named.0, (named.1, tt)) named.0 refl tt

abbrev one_failed : List HookDecision
one_failed = decided "lint" allow ∷ allow_with "audit" (raised "broken") ∷ []

fire_impl-reentrant_example :
    fire_impl broken runner (nested context ("SessionEnd" ∷ "Stop" ∷ [])) ≡ some (allowed, runner)
fire_impl-reentrant_example = fire_impl-reentrant broken runner context ("SessionEnd" ∷ [])
