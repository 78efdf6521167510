-- ===== src/Server/Tokens.antt =====
-- harness/server/auth/tokens.py and db.py: the table of tokens. The digest `hash_token`, the random
-- plaintexts and the times are arguments. Each call is one step.
pub mod Access
pub mod Active
pub mod Answers
pub mod Csv
pub mod Fits
pub mod Granted
pub mod Lifetime
mod Tests
use harness_solomon.Base.{
  ℕ, String, Bool, true, false, Option, none, some, List, [], ◌∷◌, ◌++◌, map, keep, any, not, ◌&&◌,
  ◌==◌, nat_eq, HasEq, ltb, length, if◌then◌else◌,
}
use harness_solomon.Base.Text.{Text, codes, strip, split, text_eq}
use harness_solomon.Base.Sort.{sort_by}
use harness_solomon.Server.Scopes.{
  Scope, all_scopes, scope_of, parse_scopes, is_blank, text_of, by_value, set_of,
}

-- A row of auth_tokens.
pub record TokenRow : Type 0 where
  pub token_hash : Text
  pub label : Text
  pub scopes : Text
  pub created_at : ℕ
  pub last_used_at : Option ℕ
  pub revoked_at : Option ℕ

pub record TokenRecord : Type 0 where
  pub token_hash : Text
  pub label : Text
  pub scopes : List Scope
  pub created_at : ℕ
  pub last_used_at : Option ℕ
  pub revoked_at : Option ℕ

-- What `create` raises.
pub data TokenError : Type 0 where
  empty_label bad_default bad_hash scopes_too_long hash_taken row_vanished : TokenError

pub data Created : Type 0 where
  created : Text → TokenRecord → Created
  failed : TokenError → Created

abbrev pub is_active : TokenRow → Bool
is_active r = elim r.revoked_at [ none ↦ true | some t ↦ false ]

-- `select_active_token`.
unfoldable pub select_active : Text → List TokenRow → Option TokenRow
select_active h [] = none
select_active h (r ∷ rs) = if r.token_hash == h && is_active r then some r else select_active h rs

-- `stamp_last_used`.
unfoldable pub stamp_last_used : Text → ℕ → List TokenRow → List TokenRow
stamp_last_used h now [] = []
stamp_last_used h now (r ∷ rs) =
    (if r.token_hash == h then record r { last_used_at = some now } else r)
    ∷ stamp_last_used h now rs

-- `revoke_token`, with whether a row was updated.
unfoldable pub revoke_token : Text → ℕ → List TokenRow → List TokenRow × Bool
revoke_token h now [] = ([], false)
revoke_token h now (r ∷ rs) =
    let (rest, updated) = revoke_token h now rs in
    if r.token_hash == h && is_active r
    then (record r { revoked_at = some now } ∷ rest, true)
    else (r ∷ rest, updated)

-- `list_active_tokens`: the newest first.
unfoldable pub list_active_tokens : List TokenRow → List TokenRow
unfolding sort_by
list_active_tokens rows = sort_by (λ q r. not (ltb q.created_at r.created_at)) (keep is_active rows)

-- `has_any_active_token`.
abbrev pub has_any_active_token : List TokenRow → Bool
has_any_active_token rows = any is_active rows

-- `",".join(values)`.
unfoldable pub csv : List Scope → Text
csv [] = []
csv (s ∷ []) = text_of s
csv (s ∷ t ∷ ss) = text_of s ++ b',' ∷ csv (t ∷ ss)

-- The scopes of a new row: the values in order.
unfoldable pub scopes_csv : List Scope → Text
unfolding csv sort_by
scopes_csv scopes = csv (sort_by by_value (set_of scopes))

abbrev pub add_known : Option Scope → List Scope → List Scope
add_known none rest = rest
add_known (some s) rest = s ∷ rest

abbrev pub known_name : Text → List Scope → List Scope
known_name [] rest = rest
known_name (c ∷ name) rest = add_known (scope_of (c ∷ name)) rest

-- The loop of `_record_from_raw`: an unknown name is skipped.
unfoldable pub known_names : List Text → List Scope
unfolding strip
known_names [] = []
known_names (raw ∷ raws) = known_name (strip raw) (known_names raws)

unfoldable pub stored_scopes : Text → List Scope
unfolding known_names split
stored_scopes raw = if raw == codes "*" then all_scopes else known_names (split b',' raw)

-- `_record_from_raw`.
abbrev pub record_from_raw : TokenRow → TokenRecord
record_from_raw r = record {
  token_hash = r.token_hash;
  label = r.label;
  scopes = stored_scopes r.scopes;
  created_at = r.created_at;
  last_used_at = r.last_used_at;
  revoked_at = r.revoked_at;
}

-- `_load_by_hash`.
abbrev pub load_by_hash : List TokenRow → Text → Option TokenRecord
load_by_hash rows h = elim (select_active h rows) [
  | none ↦ none
  | some r ↦ some (record_from_raw r)
]

abbrev pub has_hash : Text → List TokenRow → Bool
has_hash h = any λ r. r.token_hash == h

abbrev pub new_row : Text → Text → Text → ℕ → TokenRow
new_row h label scopes now = record {
  token_hash = h;
  label = label;
  scopes = scopes;
  created_at = now;
  last_used_at = none;
  revoked_at = none;
}

-- `insert_token`.
abbrev pub insert_token : List TokenRow → TokenRow → List TokenRow × Option TokenError
insert_token rows r =
    if not (length r.token_hash == 64)
    then (rows, some bad_hash)
    else if ltb 256 (length r.scopes)
    then (rows, some scopes_too_long)
    else if has_hash r.token_hash rows
    then (rows, some hash_taken)
    else (rows ++ r ∷ [], none)

abbrev pub loaded : Text → Option TokenRecord → Created
loaded plaintext none = failed row_vanished
loaded plaintext (some t) = created plaintext t

abbrev pub or_default : Text → Option (List Scope) → Option (List Scope)
or_default default_scopes none = parse_scopes default_scopes
or_default default_scopes (some scopes) = some scopes

module _ (hash_token : Text → Text) (default_scopes : Text) where
  abbrev pub after_insert : Text → List TokenRow × Option TokenError → List TokenRow × Created
  after_insert plaintext (rows, some e) = (rows, failed e)
  after_insert plaintext (rows, none) =
      (rows, loaded plaintext (load_by_hash rows (hash_token plaintext)))

  abbrev pub create_with :
      List TokenRow → Text → Option (List Scope) → Text → ℕ → List TokenRow × Created
  create_with rows label none plaintext now = (rows, failed bad_default)
  create_with rows label (some scopes) plaintext now =
      after_insert plaintext
        (insert_token rows (new_row (hash_token plaintext) (strip label) (scopes_csv scopes) now))

  -- `create`, whose `plaintext` is that of `_gen_token_plaintext`.
  unfoldable pub create :
      List TokenRow → Text → Option (List Scope) → Text → ℕ → List TokenRow × Created
  unfolding strip scopes_csv stored_scopes select_active is_blank parse_scopes
  create rows label scopes plaintext now =
      if is_blank label
      then (rows, failed empty_label)
      else create_with rows label (or_default default_scopes scopes) plaintext now

-- The two reads and the write of `lookup`; `stamps` is whether the write goes well.
abbrev pub refreshed : TokenRecord → Option TokenRecord → Option TokenRecord
refreshed t none = some t
refreshed t (some u) = some u

abbrev pub stamp :
    List TokenRow → Text → ℕ → Bool → Option TokenRecord → List TokenRow × Option TokenRecord
stamp rows h now stamps none = (rows, none)
stamp rows h now false (some t) = (rows, some t)
stamp rows h now true (some t) =
    let rows' = stamp_last_used h now rows in (rows', refreshed t (load_by_hash rows' h))

-- `lookup`.
unfoldable pub lookup :
    (Text → Text) → List TokenRow → Text → ℕ → Bool → List TokenRow × Option TokenRecord
unfolding select_active stored_scopes stamp_last_used
lookup hash_token rows [] now stamps = (rows, none)
lookup hash_token rows (c ∷ plaintext) now stamps =
    let h = hash_token (c ∷ plaintext) in stamp rows h now stamps (load_by_hash rows h)
