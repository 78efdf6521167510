-- ===== src/Agents/Webhooks/Signature.antt =====
-- When a signature is right.
use harness_solomon.Base.{
  ℕ, ◌≡◌, refl, subst, ◌∙◌, Bool, true, false, Option, none, some, [], ◌∷◌, ◌++◌, ◌==◌, nat_eq,
  ◌&&◌, not, any, if◌then◌else◌, if-ind, inl, inr, Bool-cases, arith,
}
use harness_solomon.Base.Text.{Text, codes, strip, partition, text_eq, text_beq_iff}
use harness_solomon.Agents.Webhooks.Inbound.{
  VerifyError, missing_secret, missing_signature, bad_signature, not_ascii, lower, is_blank,
  is_ascii, compare_digest, verify_github_signature,
}

abbrev pub is_some {ℓ} : {A : Type ℓ} → Option A → Bool
is_some none = false
is_some (some a) = true

-- The scheme before the first "=" of the stripped header is "sha256" in any case, and behind it stands the
-- digest of the body under the secret, which is not empty.
abbrev pub is_signed : (Text → Text → Text) → Text → Text → Option Text → Bool
is_signed hexdigest secret body none = false
is_signed hexdigest secret body (some header) = elim (partition b'=' (strip header)) [
  | none ↦ false
  | some (scheme, digest) ↦
      not (is_blank secret) && codes "sha256" == lower scheme && hexdigest secret body == digest
]

abbrev no_equals : Text → Bool
no_equals s = not (any (λ c. c == b'=') s)

split_equals :
    (p q d e : Text)
    → no_equals p ≡ true
    → no_equals q ≡ true
    → ((q ++ b'=' ∷ e) == (p ++ b'=' ∷ d)) ≡ ((q == p) && (e == d))
split_equals [] [] d e h k = refl
split_equals [] (b ∷ q) d e h k = ground arith
split_equals (a ∷ p) [] d e h k = ground arith
split_equals (a ∷ p) (b ∷ q) d e h k = ground (arith, split_equals p q d e)

unsplit_other : (q e s : Text) → no_equals s ≡ true → ((q ++ b'=' ∷ e) == s) ≡ false
unsplit_other [] e [] h = refl
unsplit_other [] e (c ∷ s) h = ground arith
unsplit_other (b ∷ q) e [] h = refl
unsplit_other (b ∷ q) e (c ∷ s) h = ground (arith, unsplit_other q e s)

lower-no_equals : (s : Text) → no_equals s ≡ true → no_equals (lower s) ≡ true
lower-no_equals [] h = refl
lower-no_equals (c ∷ s) h = ground (arith, lower-no_equals s)

-- What `partition` leaves before the separator has none.
abbrev Splits : Text → Option (Text × Text) → Type 0
Splits s none = no_equals s ≡ true
Splits s (some (scheme, digest)) = (no_equals scheme ≡ true) × (is_blank s ≡ false)

Splits-cons :
    (c : ℕ) (s : Text) (o : Option (Text × Text))
    → (c == b'=') ≡ false
    → Splits s o
    → Splits (c ∷ s) (elim o [ none ↦ none | some (scheme, digest) ↦ some (c ∷ scheme, digest) ])
Splits-cons c s none ne h = ground arith
Splits-cons c s (some (scheme, digest)) ne (h, b) = (ground arith, refl)

partition-Splits : (s : Text) → Splits s (partition b'=' s)
unfolding partition
partition-Splits [] = refl
partition-Splits (c ∷ s) =
    if-ind (λ (o : Option (Text × Text)). Splits (c ∷ s) o) (c == b'=') (λ _. (refl, refl))
      (λ ne. Splits-cons c s (partition b'=' s) ne (partition-Splits s))

module _ (digest_of secret : Text) (ascii : is_ascii digest_of ≡ true) where
  -- A comparison of which the right side is ASCII when it holds.
  compared :
      (sig : Text)
      → is_some (compare_digest (codes "sha256" ++ b'=' ∷ digest_of) sig)
        ≡ not ((codes "sha256" ++ b'=' ∷ digest_of) == sig)
  unfolding compare_digest
  compared sig = elim (Bool-cases ((codes "sha256" ++ b'=' ∷ digest_of) == sig)) [
    | inl e ↦
        let q = (text_beq_iff (codes "sha256" ++ b'=' ∷ digest_of) sig).0 e in
        rw (e, subst (λ (t : Text). is_ascii t ≡ true) q ascii) refl
    | inr e ↦ rw e (either (is_ascii sig))
  ]
    where
      either :
          (b : Bool)
          → is_some {A = VerifyError} (if b then some bad_signature else some not_ascii) ≡ true
      either true = refl
      either false = refl

  -- The check of a stripped header that is split.
  abbrev check_split : Text → Option (Text × Text) → Option VerifyError
  unfolding compare_digest
  check_split s o =
      if is_blank s
      then some missing_signature
      else compare_digest (codes "sha256" ++ b'=' ∷ digest_of)
          (elim o [ none ↦ s | some (scheme, digest) ↦ lower scheme ++ b'=' ∷ digest ])

  check_split-lem :
      (s : Text) (o : Option (Text × Text))
      → Splits s o
      → (not (is_blank secret) && not (is_some (check_split s o))) ≡ (elim o as (λ _. Bool) [
        | none ↦ false
        | some (scheme, digest) ↦
            not (is_blank secret) && codes "sha256" == lower scheme && digest_of == digest
      ])
  unfolding check_split
  check_split-lem s none h =
      if-ind (λ (v : Option VerifyError). (not (is_blank secret) && not (is_some v)) ≡ false)
        (is_blank s) (λ _. never (is_blank secret))
        (λ _.
          rw (compared s, unsplit_other (codes "sha256") digest_of s h) (never (is_blank secret)))
    where
      never : (b : Bool) → (not b && false) ≡ false
      never true = refl
      never false = refl
  check_split-lem s (some (scheme, digest)) (h, filled) =
      rw
        (
          filled,
          compared (lower scheme ++ b'=' ∷ digest),
          split_equals (lower scheme) (codes "sha256") digest digest_of (lower-no_equals scheme h)
              refl,
        )
        (twice (is_blank secret) (codes "sha256" == lower scheme) (digest_of == digest))
    where
      twice : (b c d : Bool) → (not b && not (not (c && d))) ≡ (not b && c && d)
      twice b c d = ground arith

pub verify-is_signed :
    (hexdigest : Text → Text → Text) (body : Text) (signature : Option Text) (secret : Text)
    → is_ascii (hexdigest secret body) ≡ true
    → not (is_some (verify_github_signature hexdigest body signature secret))
      ≡ is_signed hexdigest secret body signature
unfolding verify_github_signature
verify-is_signed hexdigest body none secret ascii =
    if-ind (λ (v : Option VerifyError). not (is_some v) ≡ false) (is_blank secret) (λ _. refl)
      (λ _. refl)
verify-is_signed hexdigest body (some header) secret ascii =
    guarded (is_blank secret)
    ∙ check_split-lem (hexdigest secret body) secret ascii (strip header)
        (partition b'=' (strip header)) (partition-Splits (strip header))
  where
    guarded :
        (b : Bool)
        → not (
            is_some (
              if b
              then some missing_secret
              else check_split
                  (hexdigest secret body)
                  secret
                  ascii
                  (strip header)
                  (partition b'=' (strip header))))
          ≡ (not b
              && not (
                  is_some (
                    check_split
                      (hexdigest secret body)
                      secret
                      ascii
                      (strip header)
                      (partition b'=' (strip header)))))
    guarded true = refl
    guarded false = refl
