-- ===== src/Server/Tokens/Csv.antt =====
-- harness/server/auth/tokens.py: the scopes as they stand in a row. Every set of scopes fits the column
-- and is read back from it.
use harness_solomon.Base.{
  ℕ, suc, ◌+◌, ◌≤◌, Bool, false, List, [], ◌∷◌, ◌++◌, map, keep, ◌==◌, nat_eq, length,
  length-append, if◌then◌else◌, ◌≡◌, refl, ap, ◌∙◌, arith,
}
use harness_solomon.Base.Text.{Text, codes, strip, split, split-append, is_space, lstrip, text_eq}
use harness_solomon.Base.Sort.{sort_by, insert_by}
use harness_solomon.Server.Scopes.{
  Scope, agents_read, agents_write, agents_pr, memory_read, memory_write, sessions_read,
  sessions_write, observability_read, elicitation_read, elicitation_write, webhook_admin,
  privacy_read, privacy_write, hooks_admin, plugins_admin, plugins_read, text_of, all_scopes,
  scope_facts, scope_eq, member, set_of, by_value,
}
use harness_solomon.Server.Scopes.RoundTrip.{member-sort_by, member-set_of}
use harness_solomon.Server.Tokens.{csv, scopes_csv, known_name, known_names, stored_scopes}

text_facts :
    (s : Scope) (t : Text) (rest : List Scope)
    → (known_name (strip (text_of s)) rest ≡ s ∷ rest)
      × ((text_of s ++ t == codes "*") ≡ false)
      × ((text_of s == codes "*") ≡ false)
unfolding strip lstrip is_space
text_facts agents_read t rest = (refl, refl, refl)
text_facts agents_write t rest = (refl, refl, refl)
text_facts agents_pr t rest = (refl, refl, refl)
text_facts memory_read t rest = (refl, refl, refl)
text_facts memory_write t rest = (refl, refl, refl)
text_facts sessions_read t rest = (refl, refl, refl)
text_facts sessions_write t rest = (refl, refl, refl)
text_facts observability_read t rest = (refl, refl, refl)
text_facts elicitation_read t rest = (refl, refl, refl)
text_facts elicitation_write t rest = (refl, refl, refl)
text_facts webhook_admin t rest = (refl, refl, refl)
text_facts privacy_read t rest = (refl, refl, refl)
text_facts privacy_write t rest = (refl, refl, refl)
text_facts hooks_admin t rest = (refl, refl, refl)
text_facts plugins_admin t rest = (refl, refl, refl)
text_facts plugins_read t rest = (refl, refl, refl)

known_names-text_of : (ss : List Scope) → known_names (map text_of ss) ≡ ss
unfolding known_names
known_names-text_of [] = refl
known_names-text_of (s ∷ ss) =
    (text_facts s [] (known_names (map text_of ss))).0
    ∙ ap (λ rest. s ∷ rest) (known_names-text_of ss)

split-csv : (s : Scope) (ss : List Scope) → split b',' (csv (s ∷ ss)) ≡ map text_of (s ∷ ss)
unfolding csv
split-csv s [] = (scope_facts s).3
split-csv s (t ∷ ss) =
    split-append b',' (text_of s) (csv (t ∷ ss))
    ∙ ap (λ parts. parts ++ split b',' (csv (t ∷ ss))) (scope_facts s).3
    ∙ ap (λ parts. text_of s ∷ parts) (split-csv t ss)

csv_no_star : (s : Scope) (ss : List Scope) → (csv (s ∷ ss) == codes "*") ≡ false
unfolding csv
csv_no_star s [] = (text_facts s [] []).2
csv_no_star s (t ∷ ss) = (text_facts s (b',' ∷ csv (t ∷ ss)) []).1

stored_scopes-csv : (ss : List Scope) → stored_scopes (csv ss) ≡ ss
unfolding stored_scopes csv known_names split strip lstrip is_space
stored_scopes-csv [] = refl
stored_scopes-csv (s ∷ ss) =
    ap (λ b. if b then all_scopes else known_names (split b',' (csv (s ∷ ss)))) (csv_no_star s ss)
    ∙ ap known_names (split-csv s ss)
    ∙ known_names-text_of (s ∷ ss)

-- The scopes that a row has are those that it was written with.
pub member-stored_scopes :
    (s : Scope) (ss : List Scope) → member s (stored_scopes (scopes_csv ss)) ≡ member s ss
unfolding scopes_csv
member-stored_scopes s ss =
    ap (member s) (stored_scopes-csv (sort_by by_value (set_of ss)))
    ∙ member-sort_by s (set_of ss)
    ∙ member-set_of s ss

-- The room that scopes take, with a comma for each.
room : List Scope → ℕ
room [] = 0
room (s ∷ ss) = suc (length (text_of s)) + room ss

length-csv : (ss : List Scope) → length (csv ss) ≤ room ss
unfolding csv room
length-csv [] = omega arith
length-csv (s ∷ []) = omega arith
length-csv (s ∷ t ∷ ss) =
    omega (arith, length-append (text_of s) (b',' ∷ csv (t ∷ ss)), length-csv (t ∷ ss))

room-insert_by : (s : Scope) (ss : List Scope) → room (insert_by by_value s ss) ≡ room (s ∷ ss)
unfolding room insert_by
room-insert_by s [] = refl
room-insert_by s (t ∷ ss) = ground (arith, room-insert_by s ss)

room-sort_by : (ss : List Scope) → room (sort_by by_value ss) ≡ room ss
unfolding room sort_by
room-sort_by [] = refl
room-sort_by (s ∷ ss) = omega (arith, room-insert_by s (sort_by by_value ss), room-sort_by ss)

room-keep : (p : Scope → Bool) (ss : List Scope) → room (keep p ss) ≤ room ss
unfolding room
room-keep p [] = omega arith
room-keep p (s ∷ ss) = ground (arith, room-keep p ss)

room-all_scopes : room all_scopes ≡ 224
unfolding room
room-all_scopes = refl

pub scopes_csv_fits : (ss : List Scope) → length (scopes_csv ss) ≤ 224
unfolding scopes_csv
scopes_csv_fits ss = omega (
  arith,
  length-csv (sort_by by_value (set_of ss)),
  room-sort_by (set_of ss),
  room-keep (λ (s : Scope). member s ss) all_scopes,
  room-all_scopes,
)
