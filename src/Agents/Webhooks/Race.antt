-- ===== src/Agents/Webhooks/Race.antt =====
-- Which requests are accepted.
use harness_solomon.Base.{
  ◌≡◌, refl, sym, ap, ◌∙◌, String, Bool, true, false, Option, none, some, List, [], ◌∷◌, ◌==◌,
  string_eq, inl, inr, Bool-cases, if◌then◌else◌, any, not, ◌&&◌, ◌||◌,
}
use harness_solomon.Base.Text.{Text}
use harness_solomon.Agents.Webhooks.Dispatch.{WebhookEvent}
use harness_solomon.Agents.Webhooks.Inbound.{
  is_ascii, verify_github_signature, VerifyError, StoredEvent, is_duplicate, record_event, Request,
  record_others, Outside, recorded, parsed, after_verify, handle_raw,
}
use harness_solomon.Agents.Webhooks.Signature.{is_some, is_signed, verify-is_signed}
use harness_solomon.Agents.Webhooks.Accepted.{is_accepted, is_duplicate-record_event}

-- Whether the others record the delivery of the request.
abbrev pub is_raced : String → List (String × String × Option String) → Bool
is_raced d = any λ other. other.0 == d

is_duplicate-raced :
    (d : String) (rows : List StoredEvent) (others : List (String × String × Option String))
    → is_duplicate (record_others rows others) d ≡ (is_raced d others || is_duplicate rows d)
unfolding record_others
is_duplicate-raced d rows [] = refl
is_duplicate-raced d rows ((i, t, a) ∷ others) =
    is_duplicate-raced d (record_event rows i t a).0 others
    ∙ ap (λ b. is_raced d others || b) (is_duplicate-record_event d rows i t a)
    ∙ regroup (is_raced d others) (i == d) (is_duplicate rows d)
  where
    regroup : (a b c : Bool) → (a || (if b then true else c)) ≡ ((if b then true else a) || c)
    regroup true true c = refl
    regroup true false c = refl
    regroup false true c = refl
    regroup false false c = refl

is_accepted-record_event :
    (event : WebhookEvent) (rows : List StoredEvent) (d t : String) (a : Option String)
    → is_accepted (recorded event (record_event rows d t a)).1 ≡ not (is_duplicate rows d)
unfolding record_event
is_accepted-record_event event rows d t a = elim (Bool-cases (is_duplicate rows d)) [
  | inl e ↦ rw e
  | inr e ↦ rw e
]

or_true : (b : Bool) → not (b || true) ≡ false
or_true true = refl
or_true false = refl

and_false : (b : Bool) → (b && false) ≡ false
and_false true = refl
and_false false = refl

parsed-accepts :
    (rows : List StoredEvent) (q : Request) (p : Option WebhookEvent)
    → is_accepted (parsed rows q p).1
      ≡ (is_some p && not (is_raced q.delivery_id q.meanwhile || is_duplicate rows q.delivery_id))
parsed-accepts rows q none = refl
parsed-accepts rows q (some event) =
    is_accepted-record_event (record event { delivery_id = q.delivery_id })
      (record_others rows q.meanwhile) q.delivery_id q.event_type event.action
    ∙ ap (λ b. not b) (is_duplicate-raced q.delivery_id rows q.meanwhile)

after_verify-accepts :
    (o : Outside) (rows : List StoredEvent) (q : Request) (v : Option VerifyError)
    → is_accepted (after_verify o rows q v).1 ≡ (
        not (is_some v)
        && (is_some (o.parse q.event_type q.body)
            && not (is_raced q.delivery_id q.meanwhile || is_duplicate rows q.delivery_id)))
after_verify-accepts o rows q (some e) = refl
after_verify-accepts o rows q none = elim (Bool-cases (is_duplicate rows q.delivery_id)) [
  | inl e ↦
      let p = is_some (o.parse q.event_type q.body) in
      rw e (sym (ap (λ b. p && b) (or_true (is_raced q.delivery_id q.meanwhile)) ∙ and_false p))
  | inr e ↦
      let p = o.parse q.event_type q.body in
      rw e (
        parsed-accepts rows q p
        ∙ ap (λ b. is_some p && not (is_raced q.delivery_id q.meanwhile || b)) e)
]

-- A request is accepted exactly if the scheme of its stripped signature header is "sha256" in any case and
-- the rest the digest of the body under the secret, which is not empty, its payload is understood, and
-- its delivery is neither in the table nor recorded by another request meanwhile; digests are ASCII.
pub handle_raw-accepts :
    (o : Outside) (secret : Text) (rows : List StoredEvent) (q : Request)
    → is_ascii (o.hexdigest secret q.body) ≡ true
    → is_accepted (handle_raw o secret rows q).1 ≡ (
        is_signed o.hexdigest secret q.body q.signature
        && (is_some (o.parse q.event_type q.body)
            && not (
                is_raced q.delivery_id q.meanwhile
                || any (λ r. r.delivery_id == q.delivery_id) rows)))
unfolding handle_raw is_duplicate
handle_raw-accepts o secret rows q ascii =
    after_verify-accepts o rows q (verify_github_signature o.hexdigest q.body q.signature secret)
    ∙ ap
        (λ (b : Bool).
          b
          && (is_some (o.parse q.event_type q.body)
              && not (
                  is_raced q.delivery_id q.meanwhile
                  || any (λ r. r.delivery_id == q.delivery_id) rows)))
        (verify-is_signed o.hexdigest q.body q.signature secret ascii)
