-- ===== src/Hooks/Breaker/PerHook.antt =====
-- HookCircuitBreaker: each hook has a circuit of its own.
use harness_solomon.Base.{
  ◌≡◌, refl, ap, ◌∙◌, String, Bool, true, false, some, List, [], ◌∷◌, string_eq, ◌==◌,
  if◌then◌else◌, Bool-cases, inl, inr,
}
use harness_solomon.Base.Dict.{get, get-put}
use harness_solomon.Hooks.Breaker.{
  CircuitBreaker, HookCircuitBreaker, or_new, get_or_create, store, check_hook, hook_failure,
  hook_success,
}
use harness_solomon.Hooks.Breaker.Cycle.{Call, checks, fails, succeeds, step, run}

unfoldable pub step_hook : HookCircuitBreaker → String × Call → HookCircuitBreaker
step_hook h (hook_id, checks now) = (check_hook h hook_id now).0
step_hook h (hook_id, fails now) = hook_failure h hook_id now
step_hook h (hook_id, succeeds) = hook_success h hook_id

pub run_hooks : HookCircuitBreaker → List (String × Call) → HookCircuitBreaker
run_hooks h [] = h
run_hooks h (c ∷ calls) = run_hooks (step_hook h c) calls

-- The calls for one hook.
pub calls_of : String → List (String × Call) → List Call
calls_of hook_id [] = []
calls_of hook_id ((j, c) ∷ calls) =
    if j == hook_id then c ∷ calls_of hook_id calls else calls_of hook_id calls

pub store-get_or_create :
    (h : HookCircuitBreaker) (j hook_id : String) (b : CircuitBreaker)
    → get_or_create (store h j b) hook_id ≡ (if j == hook_id then b else get_or_create h hook_id)
unfolding get_or_create store
store-get_or_create h j hook_id b =
    ap (or_new h) (get-put j hook_id b h.circuits) ∙ or_new-if (j == hook_id)
  where
    or_new-if :
        (t : Bool)
        → or_new h (if t then some b else get hook_id h.circuits)
          ≡ (if t then b else or_new h (get hook_id h.circuits))
    or_new-if true = refl
    or_new-if false = refl

step_hook-store :
    (h : HookCircuitBreaker) (j : String) (c : Call)
    → step_hook h (j, c) ≡ store h j (step (get_or_create h j) c)
unfolding step_hook step check_hook hook_failure hook_success
step_hook-store h j (checks now) = refl
step_hook-store h j (fails now) = refl
step_hook-store h j succeeds = refl

-- The circuit of one hook is what its own calls make of it, whatever other hooks do in between.
pub get_or_create-run_hooks :
    (h : HookCircuitBreaker) (calls : List (String × Call)) (hook_id : String)
    → get_or_create (run_hooks h calls) hook_id
      ≡ run (get_or_create h hook_id) (calls_of hook_id calls)
unfolding run_hooks run calls_of
get_or_create-run_hooks h [] hook_id = refl
get_or_create-run_hooks h ((j, c) ∷ calls) hook_id =
    get_or_create-run_hooks (step_hook h (j, c)) calls hook_id
    ∙ rw (step_hook-store h j c, store-get_or_create h j hook_id (step (get_or_create h j) c))
        (elim (Bool-cases (j == hook_id)) [
          | inl e ↦ rw e (
              ap (λ k. run (step (get_or_create h k) c) (calls_of hook_id calls))
                ((string_eq.same_iff j hook_id).0 e))
          | inr e ↦ rw e
        ])
