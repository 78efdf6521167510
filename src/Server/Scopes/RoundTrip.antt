-- ===== src/Server/Scopes/RoundTrip.antt =====
-- harness/server/auth/scopes.py: what `format_scopes` prints, `parse_scopes` reads again, unless it
-- is the star.
use harness_solomon.Base.{
  Bool, true, false, Option, none, some, List, [], ◌∷◌, ◌++◌, map, ◌==◌, keep, if◌then◌else◌, ◌≡◌,
  refl, ap, sym, ◌∙◌, arith, nat_eq, Bool-cases, inl, inr,
}
use harness_solomon.Base.Text.{Text, strip, split, split-append, is_space, text_eq, cons_head}
use harness_solomon.Base.Sort.{sort_by, insert_by}
use harness_solomon.Server.Scopes.{
  Scope, agents_read, agents_write, agents_pr, memory_read, memory_write, sessions_read,
  sessions_write, observability_read, elicitation_read, elicitation_write, webhook_admin,
  privacy_read, privacy_write, hooks_admin, plugins_admin, plugins_read, text_of, all_scopes,
  parse_name, parse_names, parse_scopes, is_blank, scope_facts, same_scope_iff, scope_eq, member,
  set_of, includes_all, join, by_value, format_scopes, add_scope,
}

-- A value after a space, as it stands behind a comma.
abbrev spaced : Scope → Text
spaced s = 32 ∷ text_of s

parse_name-text_of :
    (s : Scope) (rest : Option (List Scope)) → parse_name (text_of s) rest ≡ add_scope (some s) rest
parse_name-text_of agents_read rest = refl
parse_name-text_of agents_write rest = refl
parse_name-text_of agents_pr rest = refl
parse_name-text_of memory_read rest = refl
parse_name-text_of memory_write rest = refl
parse_name-text_of sessions_read rest = refl
parse_name-text_of sessions_write rest = refl
parse_name-text_of observability_read rest = refl
parse_name-text_of elicitation_read rest = refl
parse_name-text_of elicitation_write rest = refl
parse_name-text_of webhook_admin rest = refl
parse_name-text_of privacy_read rest = refl
parse_name-text_of privacy_write rest = refl
parse_name-text_of hooks_admin rest = refl
parse_name-text_of plugins_admin rest = refl
parse_name-text_of plugins_read rest = refl

member-all_scopes : (s : Scope) → member s all_scopes ≡ true
member-all_scopes agents_read = refl
member-all_scopes agents_write = refl
member-all_scopes agents_pr = refl
member-all_scopes memory_read = refl
member-all_scopes memory_write = refl
member-all_scopes sessions_read = refl
member-all_scopes sessions_write = refl
member-all_scopes observability_read = refl
member-all_scopes elicitation_read = refl
member-all_scopes elicitation_write = refl
member-all_scopes webhook_admin = refl
member-all_scopes privacy_read = refl
member-all_scopes privacy_write = refl
member-all_scopes hooks_admin = refl
member-all_scopes plugins_admin = refl
member-all_scopes plugins_read = refl

parse_names-spaced : (ss : List Scope) → parse_names (map spaced ss) ≡ some ss
unfolding parse_names
parse_names-spaced [] = refl
parse_names-spaced (s ∷ ss) =
    ap (λ name. parse_name name (parse_names (map spaced ss))) (scope_facts s).1
    ∙ parse_name-text_of s (parse_names (map spaced ss))
    ∙ ap (add_scope (some s)) (parse_names-spaced ss)

split-join : (s : Scope) (ss : List Scope) → split b',' (join (s ∷ ss)) ≡ text_of s ∷ map spaced ss
unfolding split
split-join s [] = (scope_facts s).3
split-join s (t ∷ ss) =
    split-append b',' (text_of s) (32 ∷ join (t ∷ ss))
    ∙ ap (λ parts. parts ++ split b',' (32 ∷ join (t ∷ ss))) (scope_facts s).3
    ∙ ap (λ parts. text_of s ∷ cons_head 32 parts) (split-join t ss)

append_nil : (s : Text) → s ++ [] ≡ s
append_nil [] = refl
append_nil (c ∷ s) = ap (λ t. c ∷ t) (append_nil s)

is_blank-text_of : (s : Scope) (t : Text) → is_blank (text_of s ++ t) ≡ false
unfolding is_blank is_space
is_blank-text_of agents_read t = refl
is_blank-text_of agents_write t = refl
is_blank-text_of agents_pr t = refl
is_blank-text_of memory_read t = refl
is_blank-text_of memory_write t = refl
is_blank-text_of sessions_read t = refl
is_blank-text_of sessions_write t = refl
is_blank-text_of observability_read t = refl
is_blank-text_of elicitation_read t = refl
is_blank-text_of elicitation_write t = refl
is_blank-text_of webhook_admin t = refl
is_blank-text_of privacy_read t = refl
is_blank-text_of privacy_write t = refl
is_blank-text_of hooks_admin t = refl
is_blank-text_of plugins_admin t = refl
is_blank-text_of plugins_read t = refl

is_blank-join : (s : Scope) (ss : List Scope) → is_blank (join (s ∷ ss)) ≡ false
is_blank-join s [] = ap is_blank (sym (append_nil (text_of s))) ∙ is_blank-text_of s []
is_blank-join s (t ∷ ss) = is_blank-text_of s (b',' ∷ 32 ∷ join (t ∷ ss))

parse_scopes-join : (ss : List Scope) → parse_scopes (join ss) ≡ some ss
unfolding parse_scopes split parse_names is_blank
parse_scopes-join [] = refl
parse_scopes-join (s ∷ ss) =
    ap (λ b. if b then some [] else parse_names (split b',' (join (s ∷ ss)))) (is_blank-join s ss)
    ∙ ap parse_names (split-join s ss)
    ∙ ap (λ name. parse_name name (parse_names (map spaced ss))) (scope_facts s).0
    ∙ parse_name-text_of s (parse_names (map spaced ss))
    ∙ ap (add_scope (some s)) (parse_names-spaced ss)

member-insert_by :
    (s t : Scope) (ss : List Scope) → member s (insert_by by_value t ss) ≡ member s (t ∷ ss)
unfolding insert_by
member-insert_by s t [] = refl
member-insert_by s t (u ∷ ss) = ground (arith, member-insert_by s t ss)

pub member-sort_by : (s : Scope) (ss : List Scope) → member s (sort_by by_value ss) ≡ member s ss
unfolding sort_by
member-sort_by s [] = refl
member-sort_by s (t ∷ ss) =
    ground (arith, member-insert_by s t (sort_by by_value ss), member-sort_by s ss)

member-keep :
    (s : Scope) (p : Scope → Bool) (ss : List Scope)
    → member s (keep p ss) ≡ (if p s then member s ss else false)
member-keep s p [] = ground arith
member-keep s p (t ∷ ss) = elim (Bool-cases (t == s)) [
  | inl e ↦
      let same : t ≡ s = (same_scope_iff t s).0 e in ground (arith, member-keep s p ss, ap p same)
  | inr e ↦ ground (arith, member-keep s p ss)
]

if_same : (b : Bool) → (if b then true else false) ≡ b
if_same true = refl
if_same false = refl

pub member-set_of : (s : Scope) (ss : List Scope) → member s (set_of ss) ≡ member s ss
member-set_of s ss =
    member-keep s (λ (t : Scope). member t ss) all_scopes
    ∙ ap (λ found. if member s ss then found else false) (member-all_scopes s)
    ∙ if_same (member s ss)

-- Whether a scope is among those read.
abbrev pub is_read : Scope → Option (List Scope) → Option Bool
is_read s none = none
is_read s (some ss) = some (member s ss)

-- What is printed of some scopes is read as the same set; only of all of them it is the star, which
-- `parse_scopes` refuses.
pub parse_scopes-format_scopes :
    (s : Scope) (ss : List Scope)
    → is_read s (parse_scopes (format_scopes ss))
      ≡ (if includes_all all_scopes ss then none else some (member s ss))
unfolding parse_scopes parse_names format_scopes split strip is_blank is_space
parse_scopes-format_scopes s ss = elim (Bool-cases (includes_all all_scopes ss)) [
  | inl e ↦ rw e
  | inr e ↦ rw (
    e,
    parse_scopes-join (sort_by by_value (set_of ss)),
    member-sort_by s (set_of ss),
    member-set_of s ss,
  )
]
