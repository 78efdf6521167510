-- ===== src/Server/Tokens/Answers.antt =====
-- harness/server/auth/deps.py: what a request is answered depends on the column of scopes found.
use harness_solomon.Base.{
  ℕ, Bool, true, false, Option, none, some, List, [], ◌∷◌, nat_eq, if◌then◌else◌, ◌≡◌, refl, sym,
  ap, ◌∙◌,
}
use harness_solomon.Base.Text.{Text, text_eq, partition}
use harness_solomon.Server.Scopes.{Scope, scope_eq, has_scope}
use harness_solomon.Server.Tokens.{
  TokenRow, TokenRecord, select_active, stamp_last_used, stored_scopes, record_from_raw, stamp,
  refreshed, load_by_hash, lookup,
}
use harness_solomon.Server.Tokens.Access.{
  Access, opened, granted, unauthorized, forbidden, bearer, grant, check_scope, get_current_token,
  require_scope,
}
use harness_solomon.Server.Tokens.Active.{column, active, active-stamp}

abbrev pub scopes_of_record : Option TokenRecord → Option (List Scope)
scopes_of_record none = none
scopes_of_record (some t) = some t.scopes

unfoldable pub read_scopes : Option Text → Option (List Scope)
unfolding stored_scopes
read_scopes none = none
read_scopes (some c) = some (stored_scopes c)

scopes-load_by_hash :
    (h : Text) (rows : List TokenRow)
    → scopes_of_record (load_by_hash rows h) ≡ read_scopes (active h rows)
unfolding read_scopes select_active
scopes-load_by_hash h rows = by_row (select_active h rows)
  where
    by_row :
        (o : Option TokenRow)
        → scopes_of_record (elim o [ none ↦ none | some r ↦ some (record_from_raw r) ])
          ≡ read_scopes (column o)
    by_row none = refl
    by_row (some r) = refl

scopes-refreshed :
    (t : TokenRecord) (o : Option TokenRecord)
    → scopes_of_record o ≡ some t.scopes
    → scopes_of_record (refreshed t o) ≡ some t.scopes
scopes-refreshed t none e = refl
scopes-refreshed t (some u) e = e

scopes-stamp :
    (rows : List TokenRow) (h : Text) (now : ℕ) (stamps : Bool) (o : Option TokenRecord)
    → scopes_of_record o ≡ read_scopes (active h rows)
    → scopes_of_record (stamp rows h now stamps o).1 ≡ read_scopes (active h rows)
scopes-stamp rows h now stamps none e = e
scopes-stamp rows h now false (some t) e = e
scopes-stamp rows h now true (some t) e =
    let rows' = stamp_last_used h now rows in
    scopes-refreshed t (load_by_hash rows' h)
      (scopes-load_by_hash h rows' ∙ ap read_scopes (active-stamp h h now rows) ∙ sym e)
    ∙ e

pub scopes-lookup :
    (hash_token : Text → Text) (rows : List TokenRow) (c : ℕ) (plaintext : Text) (now : ℕ)
    (stamps : Bool)
    → scopes_of_record (lookup hash_token rows (c ∷ plaintext) now stamps).1
      ≡ read_scopes (active (hash_token (c ∷ plaintext)) rows)
unfolding lookup
scopes-lookup hash_token rows c plaintext now stamps =
    let h = hash_token (c ∷ plaintext) in
    scopes-stamp rows h now stamps (load_by_hash rows h) (scopes-load_by_hash h rows)

abbrev pub is_granted : Access → Bool
is_granted opened = true
is_granted unauthorized = false
is_granted forbidden = false
is_granted (granted t) = true

pub grant-none :
    (required : List Scope) (o : Option TokenRecord)
    → scopes_of_record o ≡ none
    → check_scope true required (grant o) ≡ unauthorized
grant-none required none e = refl
grant-none required (some t) e = absurd cc

pub grant-some :
    (required scopes : List Scope) (o : Option TokenRecord)
    → scopes_of_record o ≡ some scopes
    → is_granted (check_scope true required (grant o)) ≡ has_scope scopes required
grant-some required scopes none e = absurd cc
grant-some required scopes (some t) e =
    if_granted (has_scope t.scopes required) t ∙ ap (λ ss. has_scope ss required) (some_scopes e)
  where
    if_granted : (b : Bool) (t : TokenRecord) → is_granted (if b then granted t else forbidden) ≡ b
    if_granted true t = refl
    if_granted false t = refl

    some_scopes : Path (Option (List Scope)) (some t.scopes) (some scopes) → t.scopes ≡ scopes
    some_scopes e = cc

-- Behind a header with a token, `require_scope` asks what `lookup` finds.
pub require_scope-bearer :
    (hash_token : Text → Text) (required : List Scope) (rows : List TokenRow)
    (authorization plaintext : Text) (now : ℕ) (stamps : Bool)
    → bearer authorization ≡ some plaintext
    → (require_scope hash_token true required rows (some authorization) now stamps).1
      ≡ check_scope true required (grant (lookup hash_token rows plaintext now stamps).1)
unfolding require_scope get_current_token bearer partition
require_scope-bearer hash_token required rows [] plaintext now stamps e = absurd cc
require_scope-bearer hash_token required rows (c ∷ authorization) plaintext now stamps e = rw e
