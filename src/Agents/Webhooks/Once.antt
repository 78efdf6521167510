-- ===== src/Agents/Webhooks/Once.antt =====
-- Each delivery is accepted once.
use harness_solomon.Base.{
  ℕ, ◌+◌, ◌≤◌, ◌≡◌, refl, sym, ap, ◌∙◌, String, Bool, true, false, List, [], ◌∷◌, ◌==◌, string_eq,
  ◌⊎◌, inl, inr, Bool-cases, if◌then◌else◌, arith,
}
use harness_solomon.Base.Text.{Text, text_eq}
use harness_solomon.Agents.Webhooks.Inbound.{
  verify_github_signature, StoredEvent, is_duplicate, Request, Outside, after_verify, handle_raw,
}
use harness_solomon.Agents.Webhooks.Accepted.{
  is_accepted, after_verify_keeps, after_verify_accepted,
}

-- The requests of a delivery that are accepted.
pub acceptances : Outside → Text → String → List StoredEvent → List Request → ℕ
acceptances o secret d rows [] = 0
acceptances o secret d rows (q ∷ qs) =
    let (rows', handled) = handle_raw o secret rows q in
    (if q.delivery_id == d then (if is_accepted handled then 1 else 0) else 0)
    + acceptances o secret d rows' qs

keeps :
    (o : Outside) (secret : Text) (d : String) (rows : List StoredEvent) (q : Request)
    → is_duplicate rows d ≡ true
    → is_duplicate (handle_raw o secret rows q).0 d ≡ true
unfolding handle_raw
keeps o secret d rows q =
    after_verify_keeps o d rows q (verify_github_signature o.hexdigest q.body q.signature secret)

accepted_fresh :
    (o : Outside) (secret : Text) (d : String) (rows : List StoredEvent) (q : Request)
    → (q.delivery_id == d) ≡ true
    → is_accepted (handle_raw o secret rows q).1 ≡ true
    → (is_duplicate rows d ≡ false) × (is_duplicate (handle_raw o secret rows q).0 d ≡ true)
unfolding handle_raw
accepted_fresh o secret d rows q same h =
    let v = verify_github_signature o.hexdigest q.body q.signature secret in
    let e = (string_eq.same_iff q.delivery_id d).0 same in
    let (ok, fresh, there) = after_verify_accepted o rows q v h in
    (
      ap (is_duplicate rows) (sym e) ∙ fresh,
      ap (is_duplicate (after_verify o rows q v).0) (sym e) ∙ there,
    )

-- What one request adds to the count.
counted : Bool → Bool → ℕ
counted same ok = if same then (if ok then 1 else 0) else 0

counted-cases :
    (same ok : Bool) → (counted same ok ≡ 0) ⊎ ((counted same ok ≡ 1) × (same ≡ true) × (ok ≡ true))
unfolding counted
counted-cases true true = inr (refl, refl, refl)
counted-cases true false = inl refl
counted-cases false ok = inl refl

acceptances-counted :
    (o : Outside) (secret : Text) (d : String) (rows : List StoredEvent) (q : Request)
    (qs : List Request)
    → acceptances o secret d rows (q ∷ qs)
      ≡ counted (q.delivery_id == d) (is_accepted (handle_raw o secret rows q).1)
        + acceptances o secret d (handle_raw o secret rows q).0 qs
unfolding acceptances counted
acceptances-counted o secret d rows q qs = refl

not_both : {b : Bool} → b ≡ true → b ≡ false → ⊥
not_both h e = absurd cc

acceptances_none :
    (o : Outside) (secret : Text) (d : String) (rows : List StoredEvent) (qs : List Request)
    → is_duplicate rows d ≡ true
    → acceptances o secret d rows qs ≡ 0
unfolding acceptances
acceptances_none o secret d rows [] h = refl
acceptances_none o secret d rows (q ∷ qs) h =
    let rest =
      acceptances_none o secret d (handle_raw o secret rows q).0 qs (keeps o secret d rows q h) in
    elim (counted-cases (q.delivery_id == d) (is_accepted (handle_raw o secret rows q).1)) [
      | inl zero ↦ omega (arith, acceptances-counted o secret d rows q qs, zero, rest)
      | inr (one, same, ok) ↦ absurd (not_both h (accepted_fresh o secret d rows q same ok).0)
    ]

acceptances-le :
    (o : Outside) (secret : Text) (d : String) (rows : List StoredEvent) (qs : List Request)
    → acceptances o secret d rows qs ≤ 1
unfolding acceptances
acceptances-le o secret d rows [] = omega arith
acceptances-le o secret d rows (q ∷ qs) =
    let rows' = (handle_raw o secret rows q).0 in
    elim (counted-cases (q.delivery_id == d) (is_accepted (handle_raw o secret rows q).1)) [
      | inl zero ↦ omega (
        arith,
        acceptances-counted o secret d rows q qs,
        zero,
        acceptances-le o secret d rows' qs,
      )
      | inr (one, same, ok) ↦
          let rest =
            acceptances_none o secret d rows' qs (accepted_fresh o secret d rows q same ok).1 in
          omega (arith, acceptances-counted o secret d rows q qs, one, rest)
    ]

-- However often a delivery is sent, in whatever order with others, and whatever other requests record
-- while it is checked, it is accepted at most once, and not at all if it was recorded before.
pub accepted_once :
    (o : Outside) (secret : Text) (d : String) (rows : List StoredEvent) (qs : List Request)
    → acceptances o secret d rows qs ≤ (if is_duplicate rows d then 0 else 1)
accepted_once o secret d rows qs = elim (Bool-cases (is_duplicate rows d)) [
  | inl e ↦ rw e (omega (arith, acceptances_none o secret d rows qs e))
  | inr e ↦ rw e (acceptances-le o secret d rows qs)
]
