-- ===== src/Server/Scopes/Tests.antt =====
-- harness/server/auth/scopes.py: tests.
use harness_solomon.Base.{true, none, some, [], ◌∷◌, ◌≡◌, refl}
use harness_solomon.Base.Text.{codes, split, strip, is_space, lstrip}
use harness_solomon.Base.Sort.{sort_by, insert_by}
use harness_solomon.Server.Scopes.{
  agents_read, memory_write, all_scopes, parse_names, parse_scopes, is_blank, format_scopes,
  has_scope,
}
use harness_solomon.Server.Scopes.RoundTrip.{is_read, parse_scopes-format_scopes}

parses : parse_scopes (codes "AGENTS.read,, memory.write ") ≡ some (agents_read ∷ memory_write ∷ [])
unfolding parse_scopes parse_names split strip lstrip is_space is_blank
parses = refl

refuses : parse_scopes (codes "agents.read, foo.bar") ≡ none
unfolding parse_scopes parse_names split strip lstrip is_space is_blank
refuses = refl

prints : format_scopes (memory_write ∷ agents_read ∷ []) ≡ codes "agents.read, memory.write"
unfolding format_scopes sort_by insert_by
prints = refl

prints_all : format_scopes all_scopes ≡ codes "*"
unfolding format_scopes
prints_all = refl

asks : has_scope (memory_write ∷ []) (agents_read ∷ memory_write ∷ []) ≡ true
unfolding has_scope
asks = refl

parse_scopes-format_scopes_example :
    is_read agents_read (parse_scopes (format_scopes (memory_write ∷ agents_read ∷ []))) ≡ some true
parse_scopes-format_scopes_example =
    parse_scopes-format_scopes agents_read (memory_write ∷ agents_read ∷ [])
