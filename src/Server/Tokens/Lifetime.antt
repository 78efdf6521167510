-- ===== src/Server/Tokens/Lifetime.antt =====
-- harness/server/auth/tokens.py: what any calls of the store do to the tokens of one digest.
use harness_solomon.Base.{
  ℕ, Bool, true, false, Option, none, some, List, [], ◌∷◌, ◌++◌, not, ◌==◌, nat_eq, ltb, length,
  if-ind, All, ◌≡◌,
}
use harness_solomon.Base.Text.{Text, text_eq, strip}
use harness_solomon.Server.Scopes.{Scope, is_blank}
use harness_solomon.Server.Tokens.{
  TokenRow, TokenRecord, TokenError, Created, stamp_last_used, revoke_token, has_hash, new_row,
  scopes_csv, insert_token, after_insert, create_with, create, or_default, stamp, load_by_hash,
  lookup,
}

pub data Call : Type 0 where
  creates : Text → Option (List Scope) → Text → ℕ → Call
  looks_up : Text → ℕ → Bool → Call
  revokes : Text → ℕ → Call

module _ (hash_token : Text → Text) (default_scopes : Text) where
  unfoldable pub step : List TokenRow → Call → List TokenRow
  unfolding create lookup revoke_token
  step rows (creates label scopes plaintext now) =
      (create hash_token default_scopes rows label scopes plaintext now).0
  step rows (looks_up plaintext now stamps) = (lookup hash_token rows plaintext now stamps).0
  step rows (revokes h now) = (revoke_token h now rows).0

  unfoldable pub run : List TokenRow → List Call → List TokenRow
  unfolding step
  run rows [] = rows
  run rows (c ∷ calls) = run (step rows c) calls

abbrev pub revokes_hash : Text → Call → Bool
revokes_hash h (creates label scopes plaintext now) = false
revokes_hash h (looks_up plaintext now stamps) = false
revokes_hash h (revokes k now) = k == h

-- A property of rows that new rows of new digests, stamps and revocations keep.
module _ (P : List TokenRow → Type 0) where
  insert_token_keeps :
      (rows : List TokenRow) (r : TokenRow)
      → P rows
      → (has_hash r.token_hash rows ≡ false → P (rows ++ r ∷ []))
      → P (insert_token rows r).0
  insert_token_keeps rows r p added =
      if-ind (λ (o : List TokenRow × Option TokenError). P o.0) (not (length r.token_hash == 64))
        (λ e. p)
        (λ e.
          if-ind (λ (o : List TokenRow × Option TokenError). P o.0) (ltb 256 (length r.scopes))
            (λ e. p)
            (λ e.
              if-ind (λ (o : List TokenRow × Option TokenError). P o.0) (has_hash r.token_hash rows)
                (λ e. p) added))

  after_insert-rows :
      (hash_token : Text → Text) (default_scopes plaintext : Text)
      (o : List TokenRow × Option TokenError)
      → P o.0
      → P (after_insert hash_token default_scopes plaintext o).0
  after_insert-rows hash_token default_scopes plaintext (rows, none) p = p
  after_insert-rows hash_token default_scopes plaintext (rows, some e) p = p

  create_with_keeps :
      (hash_token : Text → Text) (default_scopes : Text) (rows : List TokenRow) (label : Text)
      (scopes : Option (List Scope)) (plaintext : Text) (now : ℕ)
      → P rows
      → ((r : TokenRow) → has_hash r.token_hash rows ≡ false → P (rows ++ r ∷ []))
      → P (create_with hash_token default_scopes rows label scopes plaintext now).0
  unfolding strip
  create_with_keeps hash_token default_scopes rows label none plaintext now p added = p
  create_with_keeps hash_token default_scopes rows label (some scopes) plaintext now p added =
      let r : TokenRow = new_row (hash_token plaintext) (strip label) (scopes_csv scopes) now in
      after_insert-rows hash_token default_scopes plaintext (insert_token rows r)
        (insert_token_keeps rows r p (added r))

  create_keeps :
      (hash_token : Text → Text) (default_scopes : Text) (rows : List TokenRow) (label : Text)
      (scopes : Option (List Scope)) (plaintext : Text) (now : ℕ)
      → P rows
      → ((r : TokenRow) → has_hash r.token_hash rows ≡ false → P (rows ++ r ∷ []))
      → P (create hash_token default_scopes rows label scopes plaintext now).0
  unfolding create
  create_keeps hash_token default_scopes rows label scopes plaintext now p added =
      if-ind (λ (o : List TokenRow × Created). P o.0) (is_blank label) (λ e. p)
        (λ e.
          create_with_keeps hash_token default_scopes rows label (or_default default_scopes scopes)
            plaintext now p added)

  stamp-rows :
      (rows : List TokenRow) (h : Text) (now : ℕ) (stamps : Bool) (o : Option TokenRecord)
      → P rows
      → P (stamp_last_used h now rows)
      → P (stamp rows h now stamps o).0
  stamp-rows rows h now stamps none p q = p
  stamp-rows rows h now false (some t) p q = p
  stamp-rows rows h now true (some t) p q = q

  lookup_keeps :
      (hash_token : Text → Text) (rows : List TokenRow) (plaintext : Text) (now : ℕ) (stamps : Bool)
      → P rows
      → ((h : Text) → P (stamp_last_used h now rows))
      → P (lookup hash_token rows plaintext now stamps).0
  unfolding lookup
  lookup_keeps hash_token rows [] now stamps p q = p
  lookup_keeps hash_token rows (c ∷ plaintext) now stamps p q =
      let h = hash_token (c ∷ plaintext) in
      stamp-rows rows h now stamps (load_by_hash rows h) p (q h)

  module _ (ok : Call → Bool)
      (added : (rows : List TokenRow) (r : TokenRow)
        → P rows
        → has_hash r.token_hash rows ≡ false
        → P (rows ++ r ∷ []))
      (stamped : (rows : List TokenRow) (h : Text) (now : ℕ)
        → P rows
        → P (stamp_last_used h now rows))
      (revoked : (rows : List TokenRow) (h : Text) (now : ℕ)
        → ok (revokes h now) ≡ true
        → P rows
        → P (revoke_token h now rows).0)
      (hash_token : Text → Text) (default_scopes : Text) where
    step_keeps :
        (rows : List TokenRow) (c : Call)
        → ok c ≡ true
        → P rows
        → P (step hash_token default_scopes rows c)
    unfolding step
    step_keeps rows (creates label scopes plaintext now) h p =
        create_keeps hash_token default_scopes rows label scopes plaintext now p
          (λ r. added rows r p)
    step_keeps rows (looks_up plaintext now stamps) h p =
        lookup_keeps hash_token rows plaintext now stamps p (λ k. stamped rows k now p)
    step_keeps rows (revokes k now) h p = revoked rows k now h p

    pub run_keeps :
        (rows : List TokenRow) (calls : List Call)
        → All (λ c. ok c ≡ true) calls
        → P rows
        → P (run hash_token default_scopes rows calls)
    unfolding run
    run_keeps rows [] h p = p
    run_keeps rows (c ∷ calls) (h, hs) p =
        run_keeps (step hash_token default_scopes rows c) calls hs (step_keeps rows c h p)
