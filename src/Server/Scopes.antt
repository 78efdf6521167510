-- ===== src/Server/Scopes.antt =====
-- harness/server/auth/scopes.py. A set of scopes is a list of them, of which only the members count.
-- `lower` is that of ASCII and of the one other character, the Kelvin sign, whose lower case is ASCII.
-- The descriptions are left out.
pub mod RoundTrip
mod Tests
use harness_solomon.Base.{
  ℕ, ◌+◌, String, Bool, true, false, Option, none, some, List, [], ◌∷◌, ◌++◌, map, leb, ◌&&◌, ◌==◌,
  HasEq, nat_eq, any, keep, if◌then◌else◌, ◌≡◌, ◌↔◌, refl, sym, ap, ◌∙◌, arith,
}
use harness_solomon.Base.Text.{
  Text, codes, strip, split, lstrip, is_space, text_beq, text_beq_iff, text_eq,
}
use harness_solomon.Base.Sort.{sort_by, text_leb}

pub data Scope : Type 0 where
  agents_read agents_write agents_pr memory_read : Scope
  memory_write sessions_read sessions_write observability_read : Scope
  elicitation_read elicitation_write webhook_admin privacy_read : Scope
  privacy_write hooks_admin plugins_admin plugins_read : Scope

-- The value of the enum.
abbrev pub value : Scope → String
value agents_read = "agents.read"
value agents_write = "agents.write"
value agents_pr = "agents.pr"
value memory_read = "memory.read"
value memory_write = "memory.write"
value sessions_read = "sessions.read"
value sessions_write = "sessions.write"
value observability_read = "observability.read"
value elicitation_read = "elicitation.read"
value elicitation_write = "elicitation.write"
value webhook_admin = "webhooks.admin"
value privacy_read = "privacy.read"
value privacy_write = "privacy.write"
value hooks_admin = "hooks.admin"
value plugins_admin = "plugins.admin"
value plugins_read = "plugins.read"

abbrev pub text_of : Scope → Text
text_of s = codes (value s)

-- `ALL_SCOPES`.
abbrev pub all_scopes : List Scope
all_scopes =
    agents_read ∷ agents_write ∷ agents_pr ∷ memory_read ∷ memory_write ∷ sessions_read
    ∷ sessions_write ∷ observability_read ∷ elicitation_read ∷ elicitation_write ∷ webhook_admin
    ∷ privacy_read ∷ privacy_write ∷ hooks_admin ∷ plugins_admin ∷ plugins_read ∷ []

abbrev pub find_scope : Text → List Scope → Option Scope
find_scope name [] = none
find_scope name (s ∷ ss) = if text_of s == name then some s else find_scope name ss

-- `Scope(name)`; `none` is the ValueError.
abbrev pub scope_of : Text → Option Scope
scope_of name = find_scope name all_scopes

abbrev pub lower_code : ℕ → ℕ
lower_code c = if leb 65 c && leb c 90 then c + 32 else if c == 8490 then 107 else c

-- `raw.strip().lower()`.
abbrev pub name_of : Text → Text
unfolding strip
name_of raw = map lower_code (strip raw)

abbrev pub add_scope : Option Scope → Option (List Scope) → Option (List Scope)
add_scope none rest = none
add_scope (some s) none = none
add_scope (some s) (some ss) = some (s ∷ ss)

abbrev pub parse_name : Text → Option (List Scope) → Option (List Scope)
parse_name [] rest = rest
parse_name (c ∷ name) rest = add_scope (scope_of (c ∷ name)) rest

-- The loop of `parse_scopes`.
unfoldable pub parse_names : List Text → Option (List Scope)
unfolding strip
parse_names [] = some []
parse_names (raw ∷ raws) = parse_name (name_of raw) (parse_names raws)

-- `not text.strip()`.
unfoldable pub is_blank : Text → Bool
unfolding is_space
is_blank [] = true
is_blank (c ∷ s) = elim (is_space c) [ true ↦ is_blank s | false ↦ false ]

-- `parse_scopes`; `none` is the ValueError.
unfoldable pub parse_scopes : Text → Option (List Scope)
unfolding parse_names split is_blank
parse_scopes text = if is_blank text then some [] else parse_names (split b',' text)

-- How the code reads the value of a scope, alone or after a space.
pub scope_facts :
    (s : Scope)
    → (name_of (text_of s) ≡ text_of s)
      × (name_of (32 ∷ text_of s) ≡ text_of s)
      × (scope_of (text_of s) ≡ some s)
      × (split b',' (text_of s) ≡ text_of s ∷ [])
      × (split b',' (32 ∷ text_of s) ≡ (32 ∷ text_of s) ∷ [])
unfolding strip split lstrip is_space
scope_facts agents_read = (refl, refl, refl, refl, refl)
scope_facts agents_write = (refl, refl, refl, refl, refl)
scope_facts agents_pr = (refl, refl, refl, refl, refl)
scope_facts memory_read = (refl, refl, refl, refl, refl)
scope_facts memory_write = (refl, refl, refl, refl, refl)
scope_facts sessions_read = (refl, refl, refl, refl, refl)
scope_facts sessions_write = (refl, refl, refl, refl, refl)
scope_facts observability_read = (refl, refl, refl, refl, refl)
scope_facts elicitation_read = (refl, refl, refl, refl, refl)
scope_facts elicitation_write = (refl, refl, refl, refl, refl)
scope_facts webhook_admin = (refl, refl, refl, refl, refl)
scope_facts privacy_read = (refl, refl, refl, refl, refl)
scope_facts privacy_write = (refl, refl, refl, refl, refl)
scope_facts hooks_admin = (refl, refl, refl, refl, refl)
scope_facts plugins_admin = (refl, refl, refl, refl, refl)
scope_facts plugins_read = (refl, refl, refl, refl, refl)

some_scope : {s t : Scope} → Path (Option Scope) (some s) (some t) → s ≡ t
some_scope e = cc

abbrev pub same_scope : Scope → Scope → Bool
same_scope s t = text_beq (text_of s) (text_of t)

pub same_scope_iff : (s t : Scope) → (same_scope s t ≡ true) ↔ (s ≡ t)
same_scope_iff s t =
    let e = text_beq_iff (text_of s) (text_of t) in
    (
      λ h. some_scope (sym (scope_facts s).2 ∙ ap scope_of (e.0 h) ∙ (scope_facts t).2),
      λ h. e.1 (ap text_of h),
    )

instance abbrev pub scope_eq : HasEq Scope
scope_eq = record { same = same_scope; same_iff = same_scope_iff }

-- `s in scopes`.
abbrev pub member : Scope → List Scope → Bool
member s = any λ t. t == s

-- `set(scopes)`, in the order of the enum.
abbrev pub set_of : List Scope → List Scope
set_of scopes = keep (λ s. member s scopes) all_scopes

abbrev pub includes_all : List Scope → List Scope → Bool
includes_all [] scopes = true
includes_all (s ∷ ss) scopes = member s scopes && includes_all ss scopes

-- `", ".join(values)`.
abbrev pub join : List Scope → Text
join [] = []
join (s ∷ []) = text_of s
join (s ∷ t ∷ ss) = text_of s ++ b',' ∷ 32 ∷ join (t ∷ ss)

abbrev pub by_value : Scope → Scope → Bool
by_value s t = text_leb (text_of s) (text_of t)

-- `format_scopes`.
unfoldable pub format_scopes : List Scope → Text
unfolding sort_by
format_scopes scopes =
    if includes_all all_scopes scopes then codes "*" else join (sort_by by_value (set_of scopes))

-- `has_scope`.
unfoldable pub has_scope : List Scope → List Scope → Bool
has_scope token_scopes [] = true
has_scope token_scopes (r ∷ rs) = any (λ s. member s token_scopes) (r ∷ rs)
