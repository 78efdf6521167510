-- ===== src/Agents/Scratchpad/Plan.antt =====
-- harness/agents/scratchpad_store.py: the steps of the plans, and the count of all rows.
use harness_solomon.Base.{
  ℕ, suc, ◌+◌, String, Bool, true, false, Option, none, some, List, [], ◌∷◌, ◌++◌, ltb, leb, ◌==◌,
  nat_eq, string_eq, ◌&&◌, ◌||◌, if◌then◌else◌, length, keep, map,
}
use harness_solomon.Base.Text.{Text}
use harness_solomon.Base.Dict.{Dict, get, put}
use harness_solomon.Base.Sort.{sort_by}
use harness_solomon.Agents.Scratchpad.{Note, Notes, ScratchpadStore, agent_is, is_visible}

pub data PlanStatus : Type 0 where
  pending in_progress done blocked : PlanStatus

pub record PlanStep : Type 0 where
  pub id : ℕ
  pub session_id : String
  pub agent_id : Option String
  pub description : Text
  pub status : PlanStatus
  pub deps : List ℕ
  pub created_at : ℕ
  pub updated_at : ℕ

pub record PlanSteps : Type 0 where
  pub rows : Dict ℕ PlanStep
  pub next_id : ℕ

abbrev pub status_eq : PlanStatus → PlanStatus → Bool
status_eq pending pending = true
status_eq in_progress in_progress = true
status_eq done done = true
status_eq blocked blocked = true
status_eq _ _ = false

abbrev pub has_status : Option PlanStatus → PlanStep → Bool
has_status none p = true
has_status (some status) p = status_eq p.status status

-- `_where_agent`, for a step.
abbrev pub step_agent : Option String → PlanStep → Bool
step_agent none p = true
step_agent (some a) p = agent_is a p.agent_id

abbrev pub step_visible : ScratchpadStore → PlanStep → Bool
step_visible s p = p.session_id == s.session_id && step_agent s.agent_id p

-- `add_plan_step`.
unfoldable pub add_plan_step :
    ScratchpadStore → ℕ → Text → List ℕ → PlanSteps → PlanSteps × PlanStep
add_plan_step s now description deps t =
    let step : PlanStep = record {
      id = t.next_id;
      session_id = s.session_id;
      agent_id = s.agent_id;
      description = description;
      status = pending;
      deps = deps;
      created_at = now;
      updated_at = now;
    } in
    (record { rows = t.rows ++ (t.next_id, step) ∷ []; next_id = suc t.next_id }, step)

abbrev pub is_earlier : PlanStep → PlanStep → Bool
is_earlier p q = ltb p.created_at q.created_at || p.created_at == q.created_at && leb p.id q.id

-- `list_plan_steps`.
unfoldable pub list_plan_steps : ScratchpadStore → Option PlanStatus → PlanSteps → List PlanStep
unfolding sort_by
list_plan_steps s status t =
    sort_by is_earlier
      (keep (λ p. step_visible s p && has_status status p) (map (λ (e : ℕ × PlanStep). e.1) t.rows))

abbrev pub marked : PlanStatus → ℕ → PlanStep → PlanStep
marked status now p = record p { status = status; updated_at = now }

unfoldable pub mark_found :
    ScratchpadStore → ℕ → PlanStatus → ℕ → Option PlanStep → PlanSteps → PlanSteps × Option PlanStep
unfolding put
mark_found s step_id status now none t = (t, none)
mark_found s step_id status now (some p) t =
    if step_visible s p
    then (record t { rows = put step_id (marked status now p) t.rows }, some (marked status now p))
    else (t, none)

-- `mark_done`, with the step that it returns.
unfoldable pub mark_done :
    ScratchpadStore → ℕ → PlanStatus → ℕ → PlanSteps → PlanSteps × Option PlanStep
unfolding mark_found get
mark_done s step_id status now t = mark_found s step_id status now (get step_id t.rows) t

-- `count`.
unfoldable pub count : ScratchpadStore → Notes → PlanSteps → ℕ
count s t u =
    length (keep (λ (e : ℕ × Note). is_visible s e.1) t.rows)
    + length (keep (λ (e : ℕ × PlanStep). step_visible s e.1) u.rows)
