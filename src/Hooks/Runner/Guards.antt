-- ===== src/Hooks/Runner/Guards.antt =====
-- When hooks run at all, and how many of them.
use harness_solomon.Base.{
  ℕ, ◌+◌, ◌≤◌, ◌≡◌, refl, String, Bool, true, some, List, [], ◌∷◌, ◌++◌, arith, ◌==◌, ◌&&◌, ◌||◌,
  string_eq, ==_refl, any, length,
}
use harness_solomon.Base.Text.{codes}
use harness_solomon.Hooks.Filter.{matches_filter_chain}
use harness_solomon.Hooks.Context.{HookContext, with_event}
use harness_solomon.Hooks.Registry.{HookSpec}
use harness_solomon.Hooks.Dispatch.{World, HookRunner}
use harness_solomon.Hooks.Runner.{fired, allowed, in_stack, fire_impl}

-- The context of a hook that fires the events given, each from inside the one before.
pub nested : HookContext → List String → HookContext
nested c [] = c
nested c (e ∷ es) = nested (with_event c e) es

nested-depth :
    (c : HookContext) (es : List String)
    → (nested c es).recursion_depth ≡ c.recursion_depth + length es
unfolding nested with_event
nested-depth c [] = omega arith
nested-depth c (e ∷ es) = omega (arith, nested-depth (with_event c e) es)

any-append : (p : String → Bool) (xs ys : List String) → any p xs ≡ true → any p (xs ++ ys) ≡ true
any-append p [] ys h = cc
any-append p (x ∷ xs) ys h = ground (arith, any-append p xs ys)

any-last :
    (p : String → Bool) (xs : List String) (x : String) → p x ≡ true → any p (xs ++ x ∷ []) ≡ true
any-last p [] x h = rw h
any-last p (y ∷ xs) x h = ground (arith, any-last p xs x h)

nested-stack :
    (c : HookContext) (es : List String) (s : String)
    → in_stack s c.event_stack ≡ true
    → in_stack s (nested c es).event_stack ≡ true
unfolding nested with_event
nested-stack c [] s h = h
nested-stack c (e ∷ es) s h =
    nested-stack (with_event c e) es s (any-append _ c.event_stack (c.event ∷ []) h)

nested-last :
    (c : HookContext) (es : List String) (s : String)
    → in_stack s (nested c (es ++ s ∷ [])).event_stack
      ≡ in_stack s ((nested c es).event_stack ++ (nested c es).event ∷ [])
unfolding nested with_event
nested-last c [] s = refl
nested-last c (e ∷ es) s = nested-last (with_event c e) es s

nested-event :
    (c : HookContext) (es : List String) (s : String) → (nested c (es ++ s ∷ [])).event ≡ s
unfolding nested with_event
nested-event c [] s = refl
nested-event c (e ∷ es) s = nested-event (with_event c e) es s

nested-reenters :
    (c : HookContext) (es : List String)
    → in_stack c.event (nested c (es ++ c.event ∷ [])).event_stack ≡ true
nested-reenters c [] =
    rw (nested-last c [] c.event)
      (unfold nested in any-last _ c.event_stack c.event (==_refl c.event))
nested-reenters c (e ∷ es) = rw (nested-last c (e ∷ es) c.event) (
    any-append _ (nested c (e ∷ es)).event_stack ((nested c (e ∷ es)).event ∷ []) (
      unfold nested with_event in
      nested-stack (with_event c e) es c.event
        (any-last _ c.event_stack c.event (==_refl c.event))))

-- An event that is fired from inside itself, directly or through others, runs no hook.
pub fire_impl-reentrant :
    (w : World) (r : HookRunner) (c : HookContext) (es : List String)
    → fire_impl w r (nested c (es ++ c.event ∷ [])) ≡ some (allowed, r)
unfolding fire_impl
fire_impl-reentrant w r c es = ground (arith, nested-reenters c es, nested-event c es c.event)

-- An event that is nested as deep as the runner allows runs no hook.
pub fire_impl-too_deep :
    (w : World) (r : HookRunner) (c : HookContext) (es : List String)
    → r.max_recursion_depth ≤ c.recursion_depth + length es
    → fire_impl w r (nested c es) ≡ some (allowed, r)
unfolding fire_impl
fire_impl-too_deep w r c es h = ground (arith, nested-depth c es)

-- The hook is enabled, and its filter, unless it is empty, and that of the runner accept the event.
abbrev pub wants : World → HookRunner → HookContext → HookSpec → Bool
wants w r c s =
    s.enabled
    && (s.matcher == "" || matches_filter_chain w.str_dict (codes s.matcher) (fired c))
    && matches_filter_chain w.str_dict (codes r.global_filter) (fired c)

-- The transports name the hook in the decision that they give.
abbrev pub NamesHook : World → Type 0
NamesHook w =
    (s : HookSpec) (c : HookContext) (timeout : ℕ) → (w.transport s c timeout).hook_id ≡ s.hook_id
