-- ===== src/Server/Tokens/Access.antt =====
-- harness/server/auth/deps.py: which request passes `require_scope`. The token store is there.
use harness_solomon.Base.{
  ℕ, Bool, true, false, Option, none, some, List, [], ◌∷◌, map, not, ◌&&◌, ◌==◌, nat_eq,
  if◌then◌else◌,
}
use harness_solomon.Base.Text.{Text, codes, strip, partition, text_eq}
use harness_solomon.Server.Scopes.{Scope, lower_code, is_blank, has_scope}
use harness_solomon.Server.Tokens.{TokenRow, TokenRecord, lookup}

-- What a dependency answers: no token in open mode, a token, or the status 401 or 403.
pub data Access : Type 0 where
  opened unauthorized forbidden : Access
  granted : TokenRecord → Access

-- The token of the header: `Bearer` in any case, a space, and the rest.
unfoldable pub bearer : Text → Option Text
unfolding partition is_blank strip
bearer authorization = elim (partition 32 authorization) [
  | none ↦ none
  | some (scheme, rest) ↦
      if map lower_code scheme == codes "bearer" && not (is_blank rest)
      then some (strip rest)
      else none
]

abbrev pub grant : Option TokenRecord → Access
grant none = unauthorized
grant (some t) = granted t

abbrev pub check_bearer :
    (Text → Text) → List TokenRow → Option Text → ℕ → Bool → List TokenRow × Access
check_bearer hash_token rows none now stamps = (rows, unauthorized)
check_bearer hash_token rows (some plaintext) now stamps =
    let (rows', t) = lookup hash_token rows plaintext now stamps in (rows', grant t)

abbrev pub check_header :
    (Text → Text) → List TokenRow → Option Text → ℕ → Bool → List TokenRow × Access
check_header hash_token rows none now stamps = (rows, unauthorized)
check_header hash_token rows (some []) now stamps = (rows, unauthorized)
check_header hash_token rows (some (c ∷ authorization)) now stamps =
    check_bearer hash_token rows (bearer (c ∷ authorization)) now stamps

-- `get_current_token`.
unfoldable pub get_current_token :
    (Text → Text) → Bool → List TokenRow → Option Text → ℕ → Bool → List TokenRow × Access
unfolding bearer lookup
get_current_token hash_token false rows authorization now stamps = (rows, opened)
get_current_token hash_token true rows authorization now stamps =
    check_header hash_token rows authorization now stamps

-- `_dep` behind `get_current_token`; without a token it fails closed.
abbrev pub check_scope : Bool → List Scope → Access → Access
check_scope false required token = token
check_scope true required opened = unauthorized
check_scope true required unauthorized = unauthorized
check_scope true required forbidden = forbidden
check_scope true required (granted t) = if has_scope t.scopes required then granted t else forbidden

-- `require_scope`.
unfoldable pub require_scope :
    (Text → Text)
    → Bool
    → List Scope
    → List TokenRow
    → Option Text
    → ℕ
    → Bool
    → List TokenRow × Access
unfolding get_current_token has_scope
require_scope hash_token auth_required required rows authorization now stamps =
    let (rows', token) = get_current_token hash_token auth_required rows authorization now stamps in
    (rows', check_scope auth_required required token)
