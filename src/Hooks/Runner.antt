-- ===== src/Hooks/Runner.antt =====
-- harness/hooks/runner.py: how HookRunner fires an event. Metrics, logs, the audit sink and the
-- plugins, none of which changes the result, are left out.
-- The tasks of `asyncio.gather` run one after another here, in the order in which they start: the
-- hooks of one event have ids of their own, and so share neither a bucket nor a circuit.
pub mod Aggregate
pub mod Guards
pub mod Breaking
mod Tests
use harness_solomon.Base.{
  ℕ, suc, String, Bool, true, not, ◌&&◌, Option, none, some, List, [], ◌∷◌, leb, ◌==◌, string_eq,
  any, if◌then◌else◌,
}
use harness_solomon.Base.Text.{codes}
use harness_solomon.Hooks.Context.{
  EventType, event_of, Fields, end, field, HookContext, Decision, allow, block, modify, has_error,
  with_payload, HookDecision, HookAggregate,
}
use harness_solomon.Hooks.Filter.{Fired, matches_filter_chain}
use harness_solomon.Hooks.Registry.{HookSpec, for_event}
use harness_solomon.Hooks.Dispatch.{HookRunner, World, dispatch_one}

abbrev pub fired : HookContext → Fired
fired c = record {
  event = c.event;
  session_id = c.session_id;
  agent_id = c.agent_id;
  payload = c.payload;
  request_id = c.request_id;
}

-- Whether the loop that collects the hooks takes this one. An empty matcher is not consulted.
pub takes : World → HookRunner → HookContext → HookSpec → Bool
takes w r context s =
    s.enabled
    && (if s.matcher == ""
        then true
        else matches_filter_chain w.str_dict (codes s.matcher) (fired context))
    && matches_filter_chain w.str_dict (codes r.global_filter) (fired context)

-- The loop itself, with the number of hooks that it has taken.
pub collect_matching : World → HookRunner → HookContext → ℕ → List HookSpec → List HookSpec
unfolding takes
collect_matching w r context n [] = []
collect_matching w r context n (s ∷ ss) =
    let rest = collect_matching w r context n ss in
    let next = collect_matching w r context (suc n) ss in
    if takes w r context s then s ∷ (if leb r.max_per_event (suc n) then [] else next) else rest

-- `asyncio.gather`.
pub gather : World → HookRunner → HookContext → List HookSpec → List HookDecision × HookRunner
unfolding dispatch_one
gather w r context [] = ([], r)
gather w r context (s ∷ ss) =
    let (d, r') = dispatch_one w r s context in
    let (ds, last) = gather w r' context ss in (d ∷ ds, last)

pub record Running : Type 0 where
  pub final_decision : Decision
  pub final_payload : Fields
  pub blocked_by : String

-- `r.output["payload"]` if it is there and not empty.
abbrev pub payload_or : Option Fields → Fields → Fields
payload_or none p = p
payload_or (some end) p = p
payload_or (some (field k v fs)) p = field k v fs

-- One round of the loop over the results.
pub combine : Running → HookSpec × HookDecision → Running
combine a (s, r) = elim r.decision [
  | block ↦ record a {
    final_decision = block;
    blocked_by = if a.blocked_by == "" then s.hook_id else a.blocked_by;
  }
  | modify ↦ record a {
    final_decision = modify;
    final_payload = payload_or r.payload a.final_payload;
  }
  | allow ↦ a
]

pub combine_all : Running → List (HookSpec × HookDecision) → Running
unfolding combine
combine_all a [] = a
combine_all a (r ∷ rs) = combine_all (combine a r) rs

abbrev pub zip : List HookSpec → List HookDecision → List (HookSpec × HookDecision)
zip [] ds = []
zip (s ∷ ss) [] = []
zip (s ∷ ss) (d ∷ ds) = (s, d) ∷ zip ss ds

abbrev pub started : Fields → Running
started payload = record { final_decision = allow; final_payload = payload; blocked_by = "" }

abbrev first_id : List HookDecision → String
first_id [] = ""
first_id (d ∷ ds) = d.hook_id

-- Without `fail_open` a hook that failed blocks an event that would be allowed.
pub fail_closed : Bool → List HookDecision → Running → Running
fail_closed fail_open ds a =
    if not fail_open && any (λ d. has_error d.error) ds
    then elim a.final_decision [
      | allow ↦ record a { final_decision = block; blocked_by = first_id ds }
      | _ ↦ a
    ]
    else a

pub aggregate : Bool → Fields → List HookSpec → List HookDecision → HookAggregate
unfolding combine_all fail_closed
aggregate fail_open payload ss ds =
    let a = fail_closed fail_open ds (combine_all (started payload) (zip ss ds)) in
    record {
      final_decision = a.final_decision;
      decisions = ds;
      final_payload = a.final_payload;
      blocked_by = a.blocked_by;
    }

abbrev pub allowed : HookAggregate
allowed = record { final_decision = allow; decisions = []; final_payload = end; blocked_by = "" }

abbrev pub in_stack : String → List String → Bool
in_stack event = any λ e. e == event

pub dispatch_event : World → HookRunner → HookContext → EventType → HookAggregate × HookRunner
unfolding collect_matching gather aggregate for_event
dispatch_event w r context e = elim (collect_matching w r context 0 (for_event r.registry e)) [
  | [] ↦ (allowed, r)
  | s ∷ ss ↦
      let (ds, r') = gather w r context (s ∷ ss) in
      (aggregate r.fail_open context.payload (s ∷ ss) ds, r')
]

-- `_fire_impl`; `none` is the ValueError of an event with no such name.
pub fire_impl : World → HookRunner → HookContext → Option (HookAggregate × HookRunner)
unfolding dispatch_event event_of
fire_impl w r context =
    if leb r.max_recursion_depth context.recursion_depth
    then some (allowed, r)
    else if in_stack context.event context.event_stack
    then some (allowed, r)
    else elim (event_of context.event) [
      | none ↦ none
      | some e ↦ some (dispatch_event w r context e)
    ]

-- `fire`.
pub fire : World → HookRunner → HookContext → Option (HookAggregate × HookRunner)
unfolding fire_impl with_payload
fire w r context = fire_impl w r (with_payload context (w.validate context.event context.payload))

-- The context that `safe_fire` builds.
abbrev pub new_context : String → String → String → Fields → String → HookContext
new_context event session_id agent_id payload request_id = record {
  event = event;
  session_id = session_id;
  agent_id = agent_id;
  payload = payload;
  request_id = request_id;
  recursion_depth = 0;
  event_stack = [];
}

-- `safe_fire`: whatever the runner raises allows the operation.
pub safe_fire :
    World → HookRunner → String → String → String → Fields → String → Decision × HookRunner
unfolding fire
safe_fire w r event session_id agent_id payload request_id =
    elim (fire w r (new_context event session_id agent_id payload request_id)) [
      | none ↦ (allow, r)
      | some (a, r') ↦ (a.final_decision, r')
    ]
