-- ===== src/Hooks/Breaker/Tests.antt =====
-- A circuit that opens after three failures and stays open for thirty ticks.
use harness_solomon.Base.{◌≡◌, refl, ℕ, false, List, [], ◌∷◌, string_eq, arith}
use harness_solomon.Hooks.Breaker.{
  CircuitBreaker, HookCircuitBreaker, closed, opened, get_or_create,
}
use harness_solomon.Hooks.Breaker.Cycle.{IsSound, fails, succeeds, run, probes, probes_one}
use harness_solomon.Hooks.Breaker.PerHook.{run_hooks, calls_of, get_or_create-run_hooks}

abbrev counted_one : CircuitBreaker
counted_one = record {
  threshold = 3;
  cooldown_s = 30;
  state = closed;
  failure_count = 1;
  opened_at = 0;
  probe_taken = false;
}

counted_one-IsSound : IsSound counted_one
counted_one-IsSound = record {
  usable = omega arith;
  below = λ e. omega arith;
  probing = λ e. absurd cc;
}

abbrev late : List ℕ
late = 7 ∷ 8 ∷ []

abbrev tripped : CircuitBreaker
tripped = record counted_one { state = opened; failure_count = 3; opened_at = 8 }

tripped-IsSound : IsSound tripped
tripped-IsSound = record { usable = omega arith; below = λ e. absurd cc; probing = λ e. absurd cc }

-- The cooldown is over at tick 38.
probes_one_example : probes tripped (20 ∷ 38 ∷ 39 ∷ []) ≡ 1
probes_one_example = probes_one tripped (20 ∷ 38 ∷ 39 ∷ []) tripped-IsSound refl

abbrev circuits : HookCircuitBreaker
circuits = record { threshold = 3; cooldown_s = 30; circuits = [] }

get_or_create-run_hooks_example :
    get_or_create
      (run_hooks circuits (("lint", fails 1) ∷ ("audit", succeeds) ∷ ("lint", fails 2) ∷ []))
      "lint"
    ≡ run
        (get_or_create circuits "lint")
        (calls_of "lint" (("lint", fails 1) ∷ ("audit", succeeds) ∷ ("lint", fails 2) ∷ []))
get_or_create-run_hooks_example =
    get_or_create-run_hooks circuits
      (("lint", fails 1) ∷ ("audit", succeeds) ∷ ("lint", fails 2) ∷ []) "lint"
