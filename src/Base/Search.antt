-- ===== src/Base/Search.antt =====
-- Python's `in`, `find` and `split` of str with a longer pattern.
use mathlib.Core.Bool.{Bool, true, false}
use mathlib.Core.Option.{Option, none, some}
use mathlib.Core.List.{[], ◌∷◌}
use harness_solomon.Base.Tests.{◌==◌, nat_eq, if◌then◌else◌}
use harness_solomon.Base.Text.{Text}

-- `s.startswith(prefix)`.
unfoldable pub starts_with : Text → Text → Bool
starts_with [] s = true
starts_with (p ∷ ps) [] = false
starts_with (p ∷ ps) (c ∷ s) = if p == c then starts_with ps s else false

-- `s[s.find(part):]`, or `none` if `part` does not occur.
unfoldable pub find_text : Text → Text → Option Text
unfolding starts_with
find_text part [] = if starts_with part [] then some [] else none
find_text part (c ∷ s) =
    let later = find_text part s in if starts_with part (c ∷ s) then some (c ∷ s) else later

-- `s.split(sep, 1)[0]`.
unfoldable pub before : Text → Text → Text
unfolding starts_with
before sep [] = []
before sep (c ∷ s) = let rest = before sep s in if starts_with sep (c ∷ s) then [] else c ∷ rest
