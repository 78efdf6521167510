-- ===== src/Server/Tokens/Fits.antt =====
-- harness/server/auth/tokens.py: `create` never fails for the length of its scopes.
use harness_solomon.Base.{
  ℕ, Bool, true, false, Option, none, some, List, nat_eq, ltb→lt, length, if-ind, ◌≡◌, refl, arith,
}
use harness_solomon.Base.Text.{Text, text_eq, strip}
use harness_solomon.Server.Scopes.{Scope, is_blank}
use harness_solomon.Server.Tokens.{
  TokenRow, TokenRecord, TokenError, empty_label, bad_default, bad_hash, scopes_too_long,
  hash_taken, row_vanished, Created, failed, new_row, scopes_csv, insert_token, create_with,
  after_insert, create, or_default, load_by_hash, loaded,
}
use harness_solomon.Server.Tokens.Csv.{scopes_csv_fits}

abbrev is_long : Option TokenError → Bool
is_long (some scopes_too_long) = true
is_long _ = false

abbrev pub failed_long : Created → Bool
failed_long (failed scopes_too_long) = true
failed_long _ = false

loaded_short :
    (plaintext : Text) (o : Option TokenRecord) → failed_long (loaded plaintext o) ≡ false
loaded_short plaintext none = refl
loaded_short plaintext (some t) = refl

insert_token_short :
    (rows : List TokenRow) (h label : Text) (scopes : List Scope) (now : ℕ)
    → is_long (insert_token rows (new_row h label (scopes_csv scopes) now)).1 ≡ false
insert_token_short rows h label scopes now =
    ground (arith, scopes_csv_fits scopes, ltb→lt 256 (length (scopes_csv scopes)))

after_insert_short :
    (hash_token : Text → Text) (default_scopes plaintext : Text)
    (o : List TokenRow × Option TokenError)
    → is_long o.1 ≡ false
    → failed_long (after_insert hash_token default_scopes plaintext o).1 ≡ false
after_insert_short hash_token default_scopes plaintext (rows, none) h =
    loaded_short plaintext (load_by_hash rows (hash_token plaintext))
after_insert_short hash_token default_scopes plaintext (rows, some empty_label) h = refl
after_insert_short hash_token default_scopes plaintext (rows, some bad_default) h = refl
after_insert_short hash_token default_scopes plaintext (rows, some bad_hash) h = refl
after_insert_short hash_token default_scopes plaintext (rows, some scopes_too_long) h = h
after_insert_short hash_token default_scopes plaintext (rows, some hash_taken) h = refl
after_insert_short hash_token default_scopes plaintext (rows, some row_vanished) h = refl

create_with_short :
    (hash_token : Text → Text) (default_scopes : Text) (rows : List TokenRow) (label : Text)
    (scopes : Option (List Scope)) (plaintext : Text) (now : ℕ)
    → failed_long (create_with hash_token default_scopes rows label scopes plaintext now).1 ≡ false
unfolding strip
create_with_short hash_token default_scopes rows label none plaintext now = refl
create_with_short hash_token default_scopes rows label (some scopes) plaintext now =
    let h = hash_token plaintext in
    after_insert_short hash_token default_scopes plaintext
      (insert_token rows (new_row h (strip label) (scopes_csv scopes) now))
      (insert_token_short rows h (strip label) scopes now)

-- Whatever scopes a token is created with, they are not too long for their column.
pub create_fits :
    (hash_token : Text → Text) (default_scopes : Text) (rows : List TokenRow) (label : Text)
    (scopes : Option (List Scope)) (plaintext : Text) (now : ℕ)
    → failed_long (create hash_token default_scopes rows label scopes plaintext now).1 ≡ false
unfolding create
create_fits hash_token default_scopes rows label scopes plaintext now =
    if-ind (λ (o : List TokenRow × Created). failed_long o.1 ≡ false) (is_blank label) (λ e. refl)
      (λ e.
        create_with_short hash_token default_scopes rows label (or_default default_scopes scopes)
          plaintext now)
