-- ===== src/Hooks/Registry/Order.antt =====
-- The order in which a registry keeps the hooks of an event.
use harness_solomon.Base.{
  ℕ, ◌≤◌, ◌≡◌, refl, ap, ◌∙◌, String, Bool, true, false, none, some, List, [], ◌∷◌, ◌++◌, map, leb,
  ◌==◌, string_eq, any, arith, ==_refl, sym, if◌then◌else◌, Bool-cases, inl, inr, All,
}
use harness_solomon.Base.Dict.{get, get-put}
use harness_solomon.Hooks.Context.{EventType, event_eq}
use harness_solomon.Hooks.Registry.{
  HookSpec, HookRegistry, for_event, replace, insert, sort, added, register, or_nil,
}

abbrev pub ids : List HookSpec → List String
ids = map λ s. s.hook_id

abbrev pub has_id : String → List HookSpec → Bool
has_id hook_id = any λ s. s.hook_id == hook_id

-- Each priority is at most the next ones.
abbrev pub IsSorted : List HookSpec → Type 0
IsSorted [] = Unit
IsSorted (s ∷ ss) = All (λ t. s.priority ≤ t.priority) ss × IsSorted ss

for_event-register :
    (r : HookRegistry) (spec : HookSpec) (e : EventType)
    → for_event (register r spec) e
      ≡ (if spec.event == e then added spec (for_event r spec.event) else for_event r e)
unfolding register for_event
for_event-register r spec e =
    ap or_nil (get-put spec.event e (added spec (or_nil (get spec.event r.specs))) r.specs)
    ∙ or_nil-if (spec.event == e)
  where
    or_nil-if :
        (t : Bool)
        → or_nil (if t then some (added spec (or_nil (get spec.event r.specs))) else get e r.specs)
          ≡ (if t then added spec (or_nil (get spec.event r.specs)) else or_nil (get e r.specs))
    or_nil-if true = refl
    or_nil-if false = refl

insert-All :
    (n : ℕ) (x : HookSpec) (ys : List HookSpec)
    → n ≤ x.priority
    → All (λ t. n ≤ t.priority) ys
    → All (λ t. n ≤ t.priority) (insert x ys)
unfolding insert
insert-All n x [] h hs = (h, tt)
insert-All n x (y ∷ ys) h hs = ground (arith, insert-All n x ys h hs.1)

All-le :
    (m n : ℕ) (ys : List HookSpec)
    → m ≤ n
    → All (λ t. n ≤ t.priority) ys
    → All (λ t. m ≤ t.priority) ys
All-le m n [] h hs = tt
All-le m n (y ∷ ys) h hs = (omega arith, All-le m n ys h hs.1)

insert-IsSorted : (x : HookSpec) (ys : List HookSpec) → IsSorted ys → IsSorted (insert x ys)
unfolding insert
insert-IsSorted x [] s = (tt, tt)
insert-IsSorted x (y ∷ ys) s = elim (Bool-cases (leb x.priority y.priority)) [
  | inl e ↦ rw e ((ground arith, All-le x.priority y.priority ys (ground arith) s.0), s)
  | inr e ↦ rw e (insert-All y.priority x ys (ground arith) s.0, insert-IsSorted x ys s.1)
]

sort-IsSorted : (ss : List HookSpec) → IsSorted (sort ss)
unfolding sort
sort-IsSorted [] = tt
sort-IsSorted (s ∷ ss) = insert-IsSorted s (sort ss) (sort-IsSorted ss)

replace-none :
    (spec : HookSpec) (ss : List HookSpec) → has_id spec.hook_id ss ≡ false → replace spec ss ≡ none
unfolding replace
replace-none spec [] h = refl
replace-none spec (s ∷ ss) h = ground (arith, replace-none spec ss)

for_event-register_self :
    (r : HookRegistry) (spec : HookSpec)
    → for_event (register r spec) spec.event ≡ added spec (for_event r spec.event)
for_event-register_self r spec = rw (for_event-register r spec spec.event, ==_refl spec.event)

-- Registering a hook under a new id leaves the hooks of its event sorted by priority.
pub register-IsSorted :
    (r : HookRegistry) (spec : HookSpec)
    → has_id spec.hook_id (for_event r spec.event) ≡ false
    → IsSorted (for_event (register r spec) spec.event)
unfolding added
register-IsSorted r spec h =
    rw (for_event-register_self r spec, added, replace-none spec (for_event r spec.event) h)
      (sort-IsSorted (for_event r spec.event ++ spec ∷ []))

replace-ids :
    (spec : HookSpec) (ss : List HookSpec)
    → has_id spec.hook_id ss ≡ true
    → (ss' : List HookSpec) × (replace spec ss ≡ some ss') × (ids ss' ≡ ids ss)
unfolding replace
replace-ids spec [] h = cc
replace-ids spec (s ∷ ss) h = elim (Bool-cases (s.hook_id == spec.hook_id)) [
  | inl e ↦ (
    spec ∷ ss,
    rw e,
    ap (λ k. k ∷ ids ss) (sym ((string_eq.same_iff s.hook_id spec.hook_id).0 e)),
  )
  | inr e ↦
      let (ss', q, same) = replace-ids spec ss (rw e at h) in
      (s ∷ ss', rw (e, q), ap (λ ks. s.hook_id ∷ ks) same)
]

-- Registering a hook under an id that is there keeps every hook of the event in its place, whatever
-- the new priority.
pub register-ids :
    (r : HookRegistry) (spec : HookSpec)
    → has_id spec.hook_id (for_event r spec.event) ≡ true
    → ids (for_event (register r spec) spec.event) ≡ ids (for_event r spec.event)
unfolding added
register-ids r spec h =
    let (ss', q, same) = replace-ids spec (for_event r spec.event) h in
    rw (for_event-register_self r spec, added, q) same
