-- ===== src/Hooks/Runner/Breaking.antt =====
-- A hook that keeps failing is cut off.
use harness_solomon.Base.{
  ℕ, suc, ◌+◌, ◌≤◌, ◌<◌, ◌≡◌, refl, ap, ◌∙◌, String, true, Option, none, some, List, [], ◌∷◌,
  string_eq, ==_refl, length, arith, sym, subst, inl, inr, Bool-cases, if◌then◌else◌,
}
use harness_solomon.Hooks.Context.{HookContext, has_error, circuit_circuit_open, rate_limited}
use harness_solomon.Hooks.Registry.{HookSpec}
use harness_solomon.Hooks.Breaker.{
  HookCircuitBreaker, CircuitBreaker, CircuitDecision, closed, opened, get_or_create, store, check,
  check_hook, hook_failure, record_failure, allow, skip, circuit_open,
}
use harness_solomon.Hooks.Breaker.PerHook.{store-get_or_create}
use harness_solomon.Hooks.Dispatch.{World, HookRunner, invoke, limited, dispatch_one, allow_with}
use harness_solomon.Hooks.Bucket.{HookRateLimiter}
use harness_solomon.Hooks.Bucket

-- One hook dispatched again and again, each time in a world of its own.
unfoldable pub dispatches : List World → HookRunner → HookSpec → HookContext → HookRunner
dispatches [] r s c = r
dispatches (w ∷ ws) r s c = dispatches ws (dispatch_one w r s c).1 s c

-- The runner with this rate limiter, or none, and this breaker.
abbrev pub armed : HookRunner → Option HookRateLimiter → HookCircuitBreaker → HookRunner
armed r l h = record r { rate_limiter = l; circuit_breaker = some h }

-- The limiter lets the hook through, and its function or transport gives an error.
abbrev pub Failing : World → HookRunner → HookSpec → HookContext → Type 0
Failing w r s c = ((limited w r s).1 ≡ true) × (has_error (invoke w r s c).error ≡ true)

-- So it goes in all dispatches, one after another.
abbrev pub AllFailing : List World → HookRunner → HookSpec → HookContext → Type 0
AllFailing [] r s c = Unit
AllFailing (w ∷ ws) r s c = Failing w r s c × AllFailing ws (dispatch_one w r s c).1 s c

check-closed : (b : CircuitBreaker) (now : ℕ) → b.state ≡ closed → check b now ≡ (b, allow)
unfolding check
check-closed b now e = ground arith

check-opened :
    (b : CircuitBreaker) (now : ℕ)
    → b.state ≡ opened
    → now < b.opened_at + b.cooldown_s
    → (check b now).1 ≡ skip circuit_open
unfolding check
check-opened b now e h = ground arith

-- What the limiter makes of a dispatch.
limiter_after : World → Option HookRateLimiter → HookSpec → Option HookRateLimiter
limiter_after w none s = none
limiter_after w (some l) s =
    some (Bucket.check w.one_token l s.hook_id none (w.made s) (w.read s)).0

store_self :
    (h : HookCircuitBreaker) (hook_id : String) (b : CircuitBreaker)
    → get_or_create (store h hook_id b) hook_id ≡ b
store_self h hook_id b = rw (store-get_or_create h hook_id hook_id b, ==_refl hook_id)

-- What a failing dispatch makes of the breaker.
failed : World → HookCircuitBreaker → HookSpec → HookCircuitBreaker
failed w h s = hook_failure (check_hook h s.hook_id (w.checked s)).0 s.hook_id (w.recorded s)

dispatch_one-failed :
    (w : World) (r : HookRunner) (l : Option HookRateLimiter) (h : HookCircuitBreaker)
    (s : HookSpec) (c : HookContext)
    → Failing w (armed r l h) s c
    → (get_or_create h s.hook_id).state ≡ closed
    → (dispatch_one w (armed r l h) s c).1 ≡ armed r (limiter_after w l s) (failed w h s)
unfolding dispatch_one failed check_hook limited limiter_after invoke
dispatch_one-failed w r none h s c (p, f) e =
    rw (check-closed (get_or_create h s.hook_id) (w.checked s) e) (rw f)
dispatch_one-failed w r (some l) h s c (p, f) e =
    rw (check-closed (get_or_create h s.hook_id) (w.checked s) e, p) (rw f)

failed-circuit :
    (w : World) (h : HookCircuitBreaker) (s : HookSpec)
    → (get_or_create h s.hook_id).state ≡ closed
    → get_or_create (failed w h s) s.hook_id
      ≡ record_failure (get_or_create h s.hook_id) (w.recorded s)
unfolding failed hook_failure check_hook
failed-circuit w h s e =
    let h1 = (check_hook h s.hook_id (w.checked s)).0 in
    let b = get_or_create h s.hook_id in
    let unchanged =
      store_self h s.hook_id (check b (w.checked s)).0
      ∙ ap (λ (k : CircuitBreaker × CircuitDecision). k.0) (check-closed b (w.checked s) e) in
    store_self h1 s.hook_id (record_failure (get_or_create h1 s.hook_id) (w.recorded s))
    ∙ ap (λ k. record_failure k (w.recorded s)) unchanged

record_failure-cooldown_s :
    (b : CircuitBreaker) (now : ℕ) → (record_failure b now).cooldown_s ≡ b.cooldown_s
unfolding record_failure
record_failure-cooldown_s b now = ground arith

-- A failure that leaves more to go.
record_failure-below :
    (b : CircuitBreaker) (now n : ℕ)
    → b.state ≡ closed
    → b.failure_count + suc (suc n) ≡ b.threshold
    → ((record_failure b now).state ≡ closed)
      × ((record_failure b now).failure_count + suc n ≡ (record_failure b now).threshold)
unfolding record_failure
record_failure-below b now n e h = ground arith

-- The failure that reaches it.
record_failure-reaching :
    (b : CircuitBreaker) (now : ℕ)
    → b.state ≡ closed
    → b.threshold ≤ b.failure_count + 1
    → ((record_failure b now).state ≡ opened) × ((record_failure b now).opened_at ≡ now)
unfolding record_failure
record_failure-reaching b now e h = ground arith

-- The hook is not called: its circuit is open, or the limiter holds it back.
abbrev pub CutOff : World → HookRunner → HookSpec → HookContext → Type 0
CutOff w r s c =
    (dispatch_one w r s c).0
    ≡ allow_with s.hook_id (if (limited w r s).1 then circuit_circuit_open else rate_limited)

-- A dispatch while the circuit is open.
dispatch_open :
    (w : World) (r : HookRunner) (l : Option HookRateLimiter) (h : HookCircuitBreaker)
    (s : HookSpec) (c : HookContext)
    → (get_or_create h s.hook_id).state ≡ opened
    → w.checked s < (get_or_create h s.hook_id).opened_at + (get_or_create h s.hook_id).cooldown_s
    → CutOff w (armed r l h) s c
unfolding dispatch_one check_hook limited
dispatch_open w r none h s c e early =
    rw (check-opened (get_or_create h s.hook_id) (w.checked s) e early)
dispatch_open w r (some l) h s c e early =
    let q = check-opened (get_or_create h s.hook_id) (w.checked s) e early in
    elim (Bool-cases (Bucket.check w.one_token l s.hook_id none (w.made s) (w.read s)).1) [
      | inl p ↦ rw (q, p) refl
      | inr p ↦ rw (q, p) refl
    ]

-- The dispatch behind the failure that opens the circuit.
dispatch_after_last :
    (last now : World) (r : HookRunner) (l : Option HookRateLimiter) (h : HookCircuitBreaker)
    (s : HookSpec) (c : HookContext)
    → Failing last (armed r l h) s c
    → (get_or_create h s.hook_id).state ≡ closed
    → (get_or_create h s.hook_id).threshold ≤ (get_or_create h s.hook_id).failure_count + 1
    → now.checked s < last.recorded s + (get_or_create h s.hook_id).cooldown_s
    → CutOff now (dispatch_one last (armed r l h) s c).1 s c
dispatch_after_last last now r l h s c f e full early =
    let b = get_or_create h s.hook_id in
    let q = failed-circuit last h s e in
    let (is_open, at) = record_failure-reaching b (last.recorded s) e full in
    let same = record_failure-cooldown_s b (last.recorded s) in
    subst (λ (k : HookRunner). CutOff now k s c) (sym (dispatch_one-failed last r l h s c f e))
      (dispatch_open now r (limiter_after last l s) (failed last h s) s c (rw q is_open)
        (rw (q, at, same) early))

-- A hook's circuit is closed and `ws` and `last` are as many dispatches, in each of which the limiter, if
-- there is one, lets the hook through and the hook fails, as bring it to its threshold. Then the next
-- dispatch, before the cooldown from the last failure is over, does not call the hook: it gives `allow`
-- with the error that the circuit is open, or that the rate is limited if the limiter holds it back.
pub cut_off :
    (ws : List World) (last now : World) (r : HookRunner) (l : Option HookRateLimiter)
    (h : HookCircuitBreaker) (s : HookSpec) (c : HookContext)
    → AllFailing ws (armed r l h) s c
    → Failing last (dispatches ws (armed r l h) s c) s c
    → (get_or_create h s.hook_id).state ≡ closed
    → (get_or_create h s.hook_id).failure_count + suc (length ws)
      ≡ (get_or_create h s.hook_id).threshold
    → now.checked s < last.recorded s + (get_or_create h s.hook_id).cooldown_s
    → CutOff now (dispatch_one last (dispatches ws (armed r l h) s c) s c).1 s c
unfolding dispatches
cut_off [] last now r l h s c fs f e exact early =
    dispatch_after_last last now r l h s c f e (omega (arith, exact)) early
cut_off (w ∷ ws) last now r l h s c (f0, fs) f e exact early =
    let b = get_or_create h s.hook_id in
    let q = failed-circuit w h s e in
    let below = record_failure-below b (w.recorded s) (length ws) e exact in
    let same = record_failure-cooldown_s b (w.recorded s) in
    let step = dispatch_one-failed w r l h s c f0 e in
    subst (λ (k : HookRunner). CutOff now (dispatch_one last (dispatches ws k s c) s c).1 s c)
      (sym step)
      (cut_off ws last now r (limiter_after w l s) (failed w h s) s c
        (subst (λ (k : HookRunner). AllFailing ws k s c) step fs)
        (subst (λ (k : HookRunner). Failing last (dispatches ws k s c) s c) step f) (rw q below.0)
        (rw q below.1) (rw (q, same) early))
