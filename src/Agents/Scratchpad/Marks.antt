-- ===== src/Agents/Scratchpad/Marks.antt =====
-- harness/agents/scratchpad_store.py: `mark_done` and the list of the steps.
use harness_solomon.Base.{
  ℕ, Bool, true, Option, none, some, List, [], ◌∷◌, ◌==◌, nat_eq, string_eq, ◌&&◌, if-ind, keep,
  map, ◌≡◌, refl, ap, ◌∙◌, sym, String, arith,
}
use harness_solomon.Base.Dict.{Dict, get, put}
use harness_solomon.Base.Sort.{insert_by, sort_by}
use harness_solomon.Agents.Scratchpad.{ScratchpadStore}
use harness_solomon.Agents.Scratchpad.Plan.{
  PlanStatus, pending, PlanStep, PlanSteps, step_visible, is_earlier, list_plan_steps, marked,
  step_agent, mark_found, mark_done,
}

module _ {ℓ} {A : Type ℓ} (f : A → A) where
  map-keep :
      (p : A → Bool)
      → ((x : A) → p (f x) ≡ p x)
      → (xs : List A) → map f (keep p xs) ≡ keep p (map f xs)
  map-keep p same [] = refl
  map-keep p same (x ∷ xs) = ground (arith, same x, map-keep p same xs)

  module _ (le : A → A → Bool) (same : (x y : A) → le (f x) (f y) ≡ le x y) where
    map-insert_by :
        (x : A) (ys : List A) → map f (insert_by le x ys) ≡ insert_by le (f x) (map f ys)
    unfolding insert_by
    map-insert_by x [] = refl
    map-insert_by x (y ∷ ys) = ground (arith, same x y, map-insert_by x ys)

    map-sort_by : (xs : List A) → map f (sort_by le xs) ≡ sort_by le (map f xs)
    unfolding sort_by
    map-sort_by [] = refl
    map-sort_by (x ∷ xs) =
        map-insert_by x (sort_by le xs) ∙ ap (insert_by le (f x)) (map-sort_by xs)

-- A step without what `mark_done` sets.
abbrev pub unmarked : PlanStep → PlanStep
unmarked = marked pending 0

abbrev steps_of : Dict ℕ PlanStep → List PlanStep
steps_of = map (λ (e : ℕ × PlanStep). e.1)

put-unmarked :
    (i : ℕ) (p q : PlanStep) (rows : Dict ℕ PlanStep)
    → unmarked q ≡ unmarked p
    → get i rows ≡ some p
    → map unmarked (steps_of (put i q rows)) ≡ map unmarked (steps_of rows)
unfolding get put
put-unmarked i p q [] same h = absurd cc
put-unmarked i p q ((j, r) ∷ rows) same h = ground (arith, same, h, put-unmarked i p q rows same)

step_agent-unmarked :
    (a : Option String) (p : PlanStep) → step_agent a (unmarked p) ≡ step_agent a p
step_agent-unmarked none p = refl
step_agent-unmarked (some a) p = refl

-- The list of all steps, unmarked.
listed :
    (s : ScratchpadStore) (t : PlanSteps)
    → map unmarked (list_plan_steps s none t)
      ≡ sort_by is_earlier
          (keep (λ (p : PlanStep). step_visible s p && true) (map unmarked (steps_of t.rows)))
unfolding list_plan_steps
listed s t =
    map-sort_by unmarked is_earlier (λ x y. refl)
      (keep (λ (p : PlanStep). step_visible s p && true) (steps_of t.rows))
    ∙ ap (sort_by is_earlier) (
        map-keep unmarked (λ (p : PlanStep). step_visible s p && true)
          (λ x.
            ap (λ (b : Bool). ((x.session_id == s.session_id) && b) && true)
              (step_agent-unmarked s.agent_id x))
          (steps_of t.rows))

mark_found-rows :
    (s : ScratchpadStore) (i : ℕ) (status : PlanStatus) (now : ℕ) (t : PlanSteps)
    (o : Option PlanStep)
    → get i t.rows ≡ o
    → map unmarked (steps_of (mark_found s i status now o t).0.rows)
      ≡ map unmarked (steps_of t.rows)
unfolding mark_found
mark_found-rows s i status now t none h = refl
mark_found-rows s i status now t (some p) h =
    if-ind
      (λ (r : PlanSteps × Option PlanStep).
        map unmarked (steps_of r.0.rows) ≡ map unmarked (steps_of t.rows))
      (step_visible s p) (λ _. put-unmarked i p (marked status now p) t.rows refl h) (λ _. refl)

-- Calls of `mark_done`, each by a store of its own.
pub mark_all : List (ScratchpadStore × ℕ × PlanStatus × ℕ) → PlanSteps → PlanSteps
mark_all [] t = t
mark_all ((s, step_id, status, now) ∷ calls) t = mark_all calls (mark_done s step_id status now t).0

mark_all-rows :
    (calls : List (ScratchpadStore × ℕ × PlanStatus × ℕ)) (t : PlanSteps)
    → map unmarked (steps_of (mark_all calls t).rows) ≡ map unmarked (steps_of t.rows)
unfolding mark_all mark_done
mark_all-rows [] t = refl
mark_all-rows ((s, step_id, status, now) ∷ calls) t =
    mark_all-rows calls (mark_done s step_id status now t).0
    ∙ mark_found-rows s step_id status now t (get step_id t.rows) refl

-- Whatever steps are marked, by whatever stores, each store lists the same steps as before, in the same
-- order, and but for their status and the time of the update they are unchanged.
pub mark_all-listed :
    (calls : List (ScratchpadStore × ℕ × PlanStatus × ℕ)) (s : ScratchpadStore) (t : PlanSteps)
    → map unmarked (list_plan_steps s none (mark_all calls t))
      ≡ map unmarked (list_plan_steps s none t)
mark_all-listed calls s t =
    listed s (mark_all calls t)
    ∙ ap
        (λ (ps : List PlanStep).
          sort_by is_earlier (keep (λ (p : PlanStep). step_visible s p && true) ps))
        (mark_all-rows calls t)
    ∙ sym (listed s t)
