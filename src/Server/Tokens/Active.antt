-- ===== src/Server/Tokens/Active.antt =====
-- harness/server/auth/db.py: the column of scopes that is found for a digest, after each write.
use harness_solomon.Base.{
  ℕ, true, false, Option, none, some, List, [], ◌∷◌, ◌++◌, ◌&&◌, ◌==◌, nat_eq, ◌≡◌, refl, arith,
}
use harness_solomon.Base.Text.{Text, text_eq, text_beq_iff}
use harness_solomon.Server.Scopes.{scope_eq}
use harness_solomon.Server.Tokens.{
  TokenRow, is_active, select_active, stamp_last_used, revoke_token, has_hash,
}

abbrev pub column : Option TokenRow → Option Text
column none = none
column (some r) = some r.scopes

-- The column of scopes that is found for a digest.
abbrev pub active : Text → List TokenRow → Option Text
unfolding select_active
active h rows = column (select_active h rows)

pub active-append :
    (h c : Text) (rows : List TokenRow) (r : TokenRow)
    → active h rows ≡ some c
    → active h (rows ++ r ∷ []) ≡ some c
unfolding select_active
active-append h c [] r e = absurd cc
active-append h c (q ∷ rows) r e = ground (arith, active-append h c rows r)

pub active-append_new :
    (h : Text) (rows : List TokenRow) (r : TokenRow)
    → has_hash h rows ≡ false
    → (r.token_hash == h && is_active r) ≡ true
    → active h (rows ++ r ∷ []) ≡ some r.scopes
unfolding select_active
active-append_new h [] r e f = rw f
active-append_new h (q ∷ rows) r e f = ground (arith, active-append_new h rows r)

pub active-append_other :
    (h : Text) (rows : List TokenRow) (r : TokenRow)
    → (r.token_hash == h) ≡ false
    → active h (rows ++ r ∷ []) ≡ active h rows
unfolding select_active
active-append_other h [] r e = ground arith
active-append_other h (q ∷ rows) r e = ground (arith, active-append_other h rows r)

pub active-stamp :
    (h k : Text) (now : ℕ) (rows : List TokenRow)
    → active h (stamp_last_used k now rows) ≡ active h rows
unfolding select_active stamp_last_used
active-stamp h k now [] = refl
active-stamp h k now (r ∷ rows) = ground (arith, active-stamp h k now rows)

pub active-revoke_other :
    (h k : Text) (now : ℕ) (rows : List TokenRow)
    → (k == h) ≡ false
    → active h (revoke_token k now rows).0 ≡ active h rows
unfolding select_active revoke_token
active-revoke_other h k now [] e = refl
active-revoke_other h k now (r ∷ rows) e = ground (
  arith,
  active-revoke_other h k now rows,
  text_beq_iff r.token_hash k,
  text_beq_iff r.token_hash h,
  text_beq_iff k h,
)

pub active-revoke_none :
    (h k : Text) (now : ℕ) (rows : List TokenRow)
    → active h rows ≡ none
    → active h (revoke_token k now rows).0 ≡ none
unfolding select_active revoke_token
active-revoke_none h k now [] e = refl
active-revoke_none h k now (r ∷ rows) e = ground (arith, active-revoke_none h k now rows)

pub has_hash-stamp :
    (h k : Text) (now : ℕ) (rows : List TokenRow)
    → has_hash h (stamp_last_used k now rows) ≡ has_hash h rows
unfolding stamp_last_used
has_hash-stamp h k now [] = refl
has_hash-stamp h k now (r ∷ rows) = ground (arith, has_hash-stamp h k now rows)

pub has_hash-revoke :
    (h k : Text) (now : ℕ) (rows : List TokenRow)
    → has_hash h (revoke_token k now rows).0 ≡ has_hash h rows
unfolding revoke_token
has_hash-revoke h k now [] = refl
has_hash-revoke h k now (r ∷ rows) = ground (arith, has_hash-revoke h k now rows)

pub has_hash-append :
    (h : Text) (rows : List TokenRow) (r : TokenRow)
    → has_hash h rows ≡ true
    → has_hash h (rows ++ r ∷ []) ≡ true
has_hash-append h [] r e = absurd cc
has_hash-append h (q ∷ rows) r e = ground (arith, has_hash-append h rows r)

-- At most one row of the digest is active.
pub active-revoke_same :
    (h : Text) (now : ℕ) (rows : List TokenRow) → active h (revoke_token h now rows).0 ≡ none
unfolding select_active revoke_token
active-revoke_same h now [] = refl
active-revoke_same h now (r ∷ rows) = ground (arith, active-revoke_same h now rows)
