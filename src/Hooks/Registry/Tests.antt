-- ===== src/Hooks/Registry/Tests.antt =====
-- Three hooks of one event.
use harness_solomon.Base.{◌≡◌, ==_refl, true, String, ℕ, none, [], ◌∷◌, string_eq}
use harness_solomon.Base.Dict.{get}
use harness_solomon.Hooks.Context.{stop, event_eq}
use harness_solomon.Hooks.Registry.{HookSpec, HookRegistry, builtin, for_event, register}
use harness_solomon.Hooks.Registry.Order.{ids, register-ids}

abbrev spec : String → ℕ → HookSpec
spec hook_id priority = record {
  hook_id = hook_id;
  event = stop;
  transport = builtin;
  enabled = true;
  timeout_ms = none;
  priority = priority;
  matcher = "";
  callable = none;
  script_path = "";
  url = "";
  headers = [];
  model = "";
  prompt = "";
}

abbrev two_hooks : HookRegistry
two_hooks = record { specs = (stop, spec "lint" 10 ∷ spec "audit" 50 ∷ []) ∷ [] }

stop_hooks : for_event two_hooks stop ≡ spec "lint" 10 ∷ spec "audit" 50 ∷ []
unfolding for_event get
stop_hooks = rw (==_refl stop)

-- The hook with the last turn keeps the first place.
register-ids_example :
    ids (for_event (register two_hooks (spec "lint" 90)) stop) ≡ ids (for_event two_hooks stop)
register-ids_example = register-ids two_hooks (spec "lint" 90) (rw stop_hooks)
