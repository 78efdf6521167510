-- ===== src/Hooks/Runner/Aggregate.antt =====
-- What the runner makes of the decisions of its hooks.
use text.Mathlib.TextEquality.{eq_iff}
use harness_solomon.Base.{
  ◌≡◌, ◌≢◌, refl, ap, ◌∙◌, String, Bool, true, false, not, ◌&&◌, List, [], ◌∷◌, ◌++◌, string_eq,
  any, arith, All,
}
use harness_solomon.Hooks.Context.{Fields, Decision, allow, block, modify, HookDecision, has_error}
use harness_solomon.Hooks.Registry.{HookSpec}
use harness_solomon.Hooks.Runner.{
  Running, started, combine, combine_all, payload_or, zip, fail_closed, aggregate,
}

abbrev Results : Type 0
Results = List (HookSpec × HookDecision)

-- The last decision that is no `allow`, or the one given.
abbrev pub last_active : Decision → Results → Decision
last_active d [] = d
last_active d ((s, r) ∷ rs) = elim r.decision [
  | allow ↦ last_active d rs
  | block ↦ last_active block rs
  | modify ↦ last_active modify rs
]

-- The id of the first hook that blocks.
abbrev pub first_blocker : Results → String
first_blocker [] = ""
first_blocker ((s, r) ∷ rs) = elim r.decision [ block ↦ s.hook_id | _ ↦ first_blocker rs ]

-- The last payload of a hook that modifies, or the one given.
abbrev pub last_payload : Fields → Results → Fields
last_payload p [] = p
last_payload p ((s, r) ∷ rs) = elim r.decision [
  | modify ↦ last_payload (payload_or r.payload p) rs
  | _ ↦ last_payload p rs
]

abbrev pub IsNamed : Results → Type 0
IsNamed = All λ r. r.0.hook_id ≢ ""

combine_all-blocked :
    (a : Running) (rs : Results)
    → a.blocked_by ≢ ""
    → combine_all a rs ≡ record {
      final_decision = last_active a.final_decision rs;
      final_payload = last_payload a.final_payload rs;
      blocked_by = a.blocked_by;
    }
unfolding combine_all combine
combine_all-blocked a [] b = refl
combine_all-blocked a ((s, r) ∷ rs) b =
    ground (arith, eq_iff a.blocked_by "", combine_all-blocked (combine a (s, r)) rs)

combine_all_lem :
    (a : Running) (rs : Results)
    → a.blocked_by ≡ ""
    → IsNamed rs
    → combine_all a rs ≡ record {
      final_decision = last_active a.final_decision rs;
      final_payload = last_payload a.final_payload rs;
      blocked_by = first_blocker rs;
    }
unfolding combine_all combine
combine_all_lem a [] b n = ground arith
combine_all_lem a ((s, r) ∷ rs) b n = ground (
  arith,
  eq_iff a.blocked_by "",
  combine_all-blocked (combine a (s, r)) rs,
  combine_all_lem (combine a (s, r)) rs,
)

-- While no failure counts, the event gets the decision of the last hook that did not allow it, the
-- payload of the last hook that gave one, and the id of the first hook that blocked it.
pub aggregate_lem :
    (fail_open : Bool) (payload : Fields) (ss : List HookSpec) (ds : List HookDecision)
    → IsNamed (zip ss ds)
    → (not fail_open && any (λ d. has_error d.error) ds) ≡ false
    → aggregate fail_open payload ss ds ≡ record {
      final_decision = last_active allow (zip ss ds);
      decisions = ds;
      final_payload = last_payload payload (zip ss ds);
      blocked_by = first_blocker (zip ss ds);
    }
unfolding aggregate fail_closed
aggregate_lem fail_open payload ss ds n ok =
    rw (ok, combine_all_lem (started payload) (zip ss ds) refl n)

last_active-append :
    (d : Decision) (xs ys : Results) → last_active d (xs ++ ys) ≡ last_active (last_active d xs) ys
last_active-append d [] ys = refl
last_active-append d ((s, r) ∷ xs) ys = ground (
  arith,
  last_active-append d xs ys,
  last_active-append block xs ys,
  last_active-append modify xs ys,
)

last_active-no_block :
    (ys : Results) → All (λ q. q.1.decision ≢ block) ys → last_active modify ys ≡ modify
last_active-no_block [] h = refl
last_active-no_block ((s, r) ∷ ys) h = ground (arith, last_active-no_block ys h.1)

last_active-modify :
    (d : Decision) (r : HookSpec × HookDecision) (ys : Results)
    → r.1.decision ≡ modify
    → All (λ q. q.1.decision ≢ block) ys
    → last_active d (r ∷ ys) ≡ modify
last_active-modify d (s, r) ys m h = rw m (last_active-no_block ys h)

first_blocker-append :
    (xs ys : Results) → first_blocker xs ≢ "" → first_blocker (xs ++ ys) ≡ first_blocker xs
first_blocker-append [] ys h = absurd (h refl)
first_blocker-append ((s, r) ∷ xs) ys h = ground (arith, first_blocker-append xs ys)

fail_closed-modify :
    (fail_open : Bool) (ds : List HookDecision) (a : Running)
    → a.final_decision ≡ modify
    → fail_closed fail_open ds a ≡ a
unfolding fail_closed
fail_closed-modify fail_open ds a m = ground arith

-- A hook that modifies the payload, with none that blocks behind it, undoes every block before it:
-- the event is not blocked, though the aggregate names the hook that blocked it.
pub modify_undoes_block :
    (fail_open : Bool) (payload : Fields) (ss : List HookSpec) (ds : List HookDecision)
    (xs ys : Results) (r : HookSpec × HookDecision)
    → zip ss ds ≡ xs ++ r ∷ ys
    → IsNamed (zip ss ds)
    → first_blocker xs ≢ ""
    → r.1.decision ≡ modify
    → All (λ q. q.1.decision ≢ block) ys
    → ((aggregate fail_open payload ss ds).final_decision ≡ modify)
      × ((aggregate fail_open payload ss ds).blocked_by ≡ first_blocker xs)
unfolding aggregate
modify_undoes_block fail_open payload ss ds xs ys r e n b m h =
    let a = combine_all (started payload) (zip ss ds) in
    let meaning = combine_all_lem (started payload) (zip ss ds) refl n in
    let modified =
      ap (λ (k : Running). k.final_decision) meaning
      ∙ ap (last_active allow) e
      ∙ last_active-append allow xs (r ∷ ys)
      ∙ last_active-modify (last_active allow xs) r ys m h in
    let blocker =
      ap (λ (k : Running). k.blocked_by) meaning
      ∙ ap first_blocker e
      ∙ first_blocker-append xs (r ∷ ys) b in
    rw (fail_closed-modify fail_open ds a modified) (modified, blocker)

fail_closed-error :
    (ds : List HookDecision) (a : Running)
    → any (λ d. has_error d.error) ds ≡ true
    → (fail_closed false ds a).final_decision ≢ allow
unfolding fail_closed
fail_closed-error ds a h = ground arith

-- Without `fail_open`, an event is never allowed when one of its hooks has failed.
pub fail_closed_lem :
    (payload : Fields) (ss : List HookSpec) (ds : List HookDecision)
    → any (λ d. has_error d.error) ds ≡ true
    → (aggregate false payload ss ds).final_decision ≢ allow
unfolding aggregate
fail_closed_lem payload ss ds h = fail_closed-error ds (combine_all (started payload) (zip ss ds)) h
