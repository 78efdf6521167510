-- ===== src/Server/Tokens/Granted.antt =====
-- harness/server/auth: from its creation until it is revoked a token grants its scopes, and never after.
use harness_solomon.Base.{
  ℕ, Bool, true, false, none, some, List, [], ◌∷◌, ◌++◌, any, not, ◌==◌, nat_eq, nat_beq_iff,
  ==_refl, ltb, ltb→lt, length, All, ◌≡◌, refl, sym, ap, ◌∙◌, arith, Bool-cases, inl, inr,
}
use harness_solomon.Base.Text.{Text, text_eq, text_beq_iff, strip}
use harness_solomon.Server.Scopes.{Scope, is_blank, member, scope_eq, has_scope}
use harness_solomon.Server.Tokens.{
  TokenRow, stamp_last_used, revoke_token, has_hash, new_row, scopes_csv, stored_scopes, create,
  lookup,
}
use harness_solomon.Server.Tokens.Access.{unauthorized, bearer, require_scope}
use harness_solomon.Server.Tokens.Active.{
  column, active, active-append, active-append_new, active-append_other, active-stamp,
  active-revoke_other, active-revoke_none, active-revoke_same, has_hash-stamp, has_hash-revoke,
  has_hash-append,
}
use harness_solomon.Server.Tokens.Answers.{
  read_scopes, scopes-lookup, is_granted, grant-none, grant-some, require_scope-bearer,
}
use harness_solomon.Server.Tokens.Csv.{member-stored_scopes, scopes_csv_fits}
use harness_solomon.Server.Tokens.Lifetime.{Call, run, run_keeps, revokes_hash}

All-true :
    {ok : Call → Bool}
    → ((c : Call) → ok c ≡ true)
    → (calls : List Call) → All (λ c. ok c ≡ true) calls
All-true h [] = tt
All-true h (c ∷ calls) = (h c, All-true h calls)

All-spared :
    (h : Text) (calls : List Call)
    → any (revokes_hash h) calls ≡ false
    → All (λ c. not (revokes_hash h c) ≡ true) calls
All-spared h [] e = tt
All-spared h (c ∷ calls) e = ground (arith, All-spared h calls)

-- Active rows of a digest keep their scopes in any calls that do not revoke it.
active-run :
    (hash_token : Text → Text) (default_scopes h column : Text) (rows : List TokenRow)
    (calls : List Call)
    → any (revokes_hash h) calls ≡ false
    → active h rows ≡ some column
    → active h (run hash_token default_scopes rows calls) ≡ some column
unfolding revoke_token stamp_last_used
active-run hash_token default_scopes h column rows calls spared e =
    run_keeps (λ rows. active h rows ≡ some column) (λ c. not (revokes_hash h c))
      (λ rows r p new. active-append h column rows r p)
      (λ rows k now p. active-stamp h k now rows ∙ p)
      (λ rows k now ok p. active-revoke_other h k now rows (not_true (k == h) ok) ∙ p) hash_token
      default_scopes rows calls (All-spared h calls spared) e
  where
    not_true : (b : Bool) → not b ≡ true → b ≡ false
    not_true true e = absurd cc
    not_true false e = refl

-- A digest that is there and not active stays so.
revoked-run :
    (hash_token : Text → Text) (default_scopes h : Text) (rows : List TokenRow) (calls : List Call)
    → has_hash h rows ≡ true
    → active h rows ≡ none
    → active h (run hash_token default_scopes rows calls) ≡ none
unfolding revoke_token stamp_last_used
revoked-run hash_token default_scopes h rows calls known e =
    (run_keeps (λ rows. (active h rows ≡ none) × (has_hash h rows ≡ true)) (λ c. true) added
      (λ rows k now p. (active-stamp h k now rows ∙ p.0, has_hash-stamp h k now rows ∙ p.1))
      (λ rows k now ok p. (active-revoke_none h k now rows p.0, has_hash-revoke h k now rows ∙ p.1))
      hash_token default_scopes rows calls (All-true (λ c. refl) calls) (e, known)).0
  where
    apart :
        (rows : List TokenRow) (k : Text)
        → k ≡ h
        → has_hash h rows ≡ true
        → has_hash k rows ≡ false
        → Path Bool true false
    apart rows k e f g = sym f ∙ ap (λ k. has_hash k rows) (sym e) ∙ g

    added :
        (rows : List TokenRow) (r : TokenRow)
        → (active h rows ≡ none) × (has_hash h rows ≡ true)
        → has_hash r.token_hash rows ≡ false
        → (active h (rows ++ r ∷ []) ≡ none) × (has_hash h (rows ++ r ∷ []) ≡ true)
    added rows r (a, k) new = elim (Bool-cases (r.token_hash == h)) [
      | inl e ↦
          let clash = apart rows r.token_hash ((text_beq_iff r.token_hash h).0 e) k new in absurd cc
      | inr e ↦ (active-append_other h rows r e ∙ a, has_hash-append h rows r k)
    ]

active-create :
    (hash_token : Text → Text) (default_scopes : Text) (rows : List TokenRow) (label : Text)
    (scopes : List Scope) (plaintext : Text) (now : ℕ)
    → is_blank label ≡ false
    → length (hash_token plaintext) ≡ 64
    → has_hash (hash_token plaintext) rows ≡ false
    → active
        (hash_token plaintext)
        (create hash_token default_scopes rows label (some scopes) plaintext now).0
      ≡ some (scopes_csv scopes)
unfolding create strip
active-create hash_token default_scopes rows label scopes plaintext now named hashed new =
    let h = hash_token plaintext in
    let fits : ltb 256 (length (scopes_csv scopes)) ≡ false =
      ground (arith, scopes_csv_fits scopes, ltb→lt 256 (length (scopes_csv scopes))) in
    rw (named, (nat_beq_iff (length h) 64).1 hashed, fits, new)
      (active-append_new h rows (new_row h (strip label) (scopes_csv scopes) now) new
        (rw (==_refl h)))

any-same :
    {A : Type 0} (p q : A → Bool) → ((x : A) → p x ≡ q x) → (xs : List A) → any p xs ≡ any q xs
any-same p q e [] = refl
any-same p q e (x ∷ xs) = rw (e x, any-same p q e xs)

has_scope-same :
    (ss ts required : List Scope)
    → ((s : Scope) → member s ss ≡ member s ts)
    → has_scope ss required ≡ has_scope ts required
unfolding has_scope
has_scope-same ss ts [] e = refl
has_scope-same ss ts (r ∷ required) e =
    any-same (λ (s : Scope). member s ss) (λ (s : Scope). member s ts) e (r ∷ required)

-- Where authentication is required: created with scopes, under a label that is not blank and with a new
-- digest of 64 characters, a token is granted what `has_scope` says of these scopes, whatever calls
-- come before the request, as long as none of them revokes it.
pub created_grants :
    (hash_token : Text → Text) (default_scopes : Text) (rows : List TokenRow) (label : Text)
    (scopes : List Scope) (c : ℕ) (plaintext : Text) (created_at : ℕ) (calls : List Call)
    (required : List Scope) (authorization : Text) (now : ℕ) (stamps : Bool)
    → is_blank label ≡ false
    → length (hash_token (c ∷ plaintext)) ≡ 64
    → has_hash (hash_token (c ∷ plaintext)) rows ≡ false
    → any (revokes_hash (hash_token (c ∷ plaintext))) calls ≡ false
    → bearer authorization ≡ some (c ∷ plaintext)
    → is_granted
        (require_scope hash_token true required
          (run hash_token default_scopes
            (create hash_token default_scopes rows label (some scopes) (c ∷ plaintext) created_at).0
            calls)
          (some authorization)
          now
          stamps).1
      ≡ has_scope scopes required
unfolding read_scopes
created_grants hash_token default_scopes rows label scopes c plaintext created_at calls required
      authorization now stamps named hashed new spared header =
    let h = hash_token (c ∷ plaintext) in
    let start =
      (create hash_token default_scopes rows label (some scopes) (c ∷ plaintext) created_at).0 in
    let later = run hash_token default_scopes start calls in
    let found = active-run hash_token default_scopes h (scopes_csv scopes) start calls spared (
      active-create hash_token default_scopes rows label scopes (c ∷ plaintext) created_at named
        hashed new) in
    ap is_granted (
      require_scope-bearer hash_token required later authorization (c ∷ plaintext) now stamps
        header)
    ∙ grant-some required (stored_scopes (scopes_csv scopes))
        (lookup hash_token later (c ∷ plaintext) now stamps).1
        (scopes-lookup hash_token later c plaintext now stamps ∙ ap read_scopes found)
    ∙ has_scope-same (stored_scopes (scopes_csv scopes)) scopes required
        (λ s. member-stored_scopes s scopes)

-- Where authentication is required: once a token that is in the table is revoked, every request with it
-- gets 401, whatever calls come in between, even those that create a token of the same plaintext.
pub revoked_refused :
    (hash_token : Text → Text) (default_scopes : Text) (rows : List TokenRow) (c : ℕ)
    (plaintext : Text) (revoked_at : ℕ) (calls : List Call) (required : List Scope)
    (authorization : Text) (now : ℕ) (stamps : Bool)
    → has_hash (hash_token (c ∷ plaintext)) rows ≡ true
    → bearer authorization ≡ some (c ∷ plaintext)
    → (require_scope hash_token true required
        (run hash_token default_scopes
          (revoke_token (hash_token (c ∷ plaintext)) revoked_at rows).0
          calls)
        (some authorization)
        now
        stamps).1
      ≡ unauthorized
unfolding read_scopes
revoked_refused hash_token default_scopes rows c plaintext revoked_at calls required authorization
      now stamps known header =
    let h = hash_token (c ∷ plaintext) in
    let start = (revoke_token h revoked_at rows).0 in
    let later = run hash_token default_scopes start calls in
    let gone =
      revoked-run hash_token default_scopes h start calls
        (has_hash-revoke h h revoked_at rows ∙ known) (active-revoke_same h revoked_at rows) in
    require_scope-bearer hash_token required later authorization (c ∷ plaintext) now stamps header
    ∙ grant-none required (lookup hash_token later (c ∷ plaintext) now stamps).1
        (scopes-lookup hash_token later c plaintext now stamps ∙ ap read_scopes gone)
