-- ===== src/Hooks/Registry.antt =====
-- harness/hooks/registry.py: HookSpec and HookRegistry. The lock makes each operation one step.
-- `parse_spec` and the singleton of the command line are left out; a builtin hook's function is
-- known by its name, and priorities are numbers from 0 up.
pub mod Order
mod Tests
use harness_solomon.Base.{
  ℕ, suc, String, Bool, true, false, Option, none, some, List, [], ◌∷◌, ◌++◌, leb, ◌==◌, string_eq,
  any, if◌then◌else◌,
}
use harness_solomon.Base.Dict.{Dict, get, put}
use harness_solomon.Hooks.Context.{EventType, event_eq}

pub data HookTransport : Type 0 where
  builtin subprocess http llm : HookTransport

pub record HookSpec : Type 0 where
  pub hook_id : String
  pub event : EventType
  pub transport : HookTransport
  pub enabled : Bool
  pub timeout_ms : Option ℕ
  pub priority : ℕ
  pub matcher : String
  pub callable : Option String
  pub script_path : String
  pub url : String
  pub headers : Dict String String
  pub model : String
  pub prompt : String

pub record HookRegistry : Type 0 where
  pub specs : Dict EventType (List HookSpec)

abbrev or_nil : Option (List HookSpec) → List HookSpec
or_nil none = []
or_nil (some xs) = xs

-- `for_event`.
unfoldable pub for_event : HookRegistry → EventType → List HookSpec
for_event r e = or_nil (get e r.specs)

-- The first spec with the id replaced, or `none` where no spec has it.
unfoldable pub replace : HookSpec → List HookSpec → Option (List HookSpec)
replace spec [] = none
replace spec (s ∷ ss) =
    let rest = replace spec ss in
    if s.hook_id == spec.hook_id
    then some (spec ∷ ss)
    else elim rest [ none ↦ none | some ss' ↦ some (s ∷ ss') ]

-- `sort(key=lambda s: s.priority)`, which keeps the order of equal priorities.
unfoldable pub insert : HookSpec → List HookSpec → List HookSpec
insert x [] = x ∷ []
insert x (y ∷ ys) = if leb x.priority y.priority then x ∷ y ∷ ys else y ∷ insert x ys

unfoldable pub sort : List HookSpec → List HookSpec
unfolding insert
sort [] = []
sort (x ∷ xs) = insert x (sort xs)

unfoldable pub added : HookSpec → List HookSpec → List HookSpec
unfolding replace sort
added spec existing = elim (replace spec existing) [
  | none ↦ sort (existing ++ spec ∷ [])
  | some replaced ↦ replaced
]

unfoldable pub register : HookRegistry → HookSpec → HookRegistry
unfolding added for_event
register r spec = record r { specs = put spec.event (added spec (for_event r spec.event)) r.specs }

-- The list without its first spec with the id.
remove_first : String → List HookSpec → Option (List HookSpec)
remove_first hook_id [] = none
remove_first hook_id (s ∷ ss) =
    let rest = remove_first hook_id ss in
    if s.hook_id == hook_id then some ss else elim rest [ none ↦ none | some ss' ↦ some (s ∷ ss') ]

remove_from : String → Dict EventType (List HookSpec) → Option (Dict EventType (List HookSpec))
unfolding remove_first
remove_from hook_id [] = none
remove_from hook_id ((e, ss) ∷ m) =
    let rest = remove_from hook_id m in
    elim (remove_first hook_id ss) [
      | some ss' ↦ some ((e, ss') ∷ m)
      | none ↦ elim rest [ none ↦ none | some m' ↦ some ((e, ss) ∷ m') ]
    ]

unfoldable pub unregister : HookRegistry → String → HookRegistry × Bool
unfolding remove_from
unregister r hook_id = elim (remove_from hook_id r.specs) [
  | none ↦ (r, false)
  | some m ↦ (record r { specs = m }, true)
]

find_spec : String → List HookSpec → Option HookSpec
find_spec hook_id [] = none
find_spec hook_id (s ∷ ss) = if s.hook_id == hook_id then some s else find_spec hook_id ss

find_in : String → Dict EventType (List HookSpec) → Option HookSpec
unfolding find_spec
find_in hook_id [] = none
find_in hook_id ((e, ss) ∷ m) = elim (find_spec hook_id ss) [
  | some s ↦ some s
  | none ↦ find_in hook_id m
]

unfoldable pub get_spec : HookRegistry → String → Option HookSpec
unfolding find_in
get_spec r hook_id = find_in hook_id r.specs

abbrev or_same : List HookSpec → Option (List HookSpec) → List HookSpec
or_same ss none = ss
or_same ss (some ss') = ss'

-- The spec that is found is written back, changed, into the list of its own event.
unfoldable pub set_enabled : HookRegistry → String → Bool → HookRegistry × Bool
unfolding get_spec for_event replace
set_enabled r hook_id enabled = elim (get_spec r hook_id) [
  | none ↦ (r, false)
  | some s ↦
      let ss = for_event r s.event in
      (
        record r {
          specs = put s.event (or_same ss (replace (record s { enabled = enabled }) ss)) r.specs;
        },
        true,
      )
]

collect : Dict EventType (List HookSpec) → List HookSpec
collect [] = []
collect ((e, ss) ∷ m) = ss ++ collect m

unfoldable pub all_specs : HookRegistry → List HookSpec
unfolding collect
all_specs r = collect r.specs
