-- ===== src/Agents/Webhooks/Accepted.antt =====
-- What the handling of a request does to the table of deliveries.
use harness_solomon.Base.{
  ℕ, ◌≡◌, refl, sym, ap, ◌∙◌, String, Bool, true, false, Option, none, some, List, [], ◌∷◌, ◌++◌,
  ◌==◌, string_eq, inl, inr, Bool-cases, if◌then◌else◌, if-ind, arith, ==_refl,
}
use harness_solomon.Base.Text.{text_eq}
use harness_solomon.Agents.Webhooks.Dispatch.{WebhookEvent}
use harness_solomon.Agents.Webhooks.Inbound.{
  VerifyError, StoredEvent, is_duplicate, record_event, Request, Handled, accepted, record_others,
  Outside, recorded, parsed, after_verify,
}

abbrev pub is_accepted : Handled → Bool
is_accepted (accepted event) = true
is_accepted _ = false

any-append_here :
    (d : String) (rows : List StoredEvent) (r : StoredEvent)
    → is_duplicate (rows ++ r ∷ []) d ≡ (if r.delivery_id == d then true else is_duplicate rows d)
unfolding is_duplicate
any-append_here d [] r = refl
any-append_here d (q ∷ rows) r = ground (arith, any-append_here d rows r)

-- A delivery that is recorded stays so, and one that is being recorded is recorded.
pub is_duplicate-record_event :
    (d : String) (rows : List StoredEvent) (delivery_id event_type : String)
    (action : Option String)
    → is_duplicate (record_event rows delivery_id event_type action).0 d
      ≡ (if delivery_id == d then true else is_duplicate rows d)
unfolding record_event
is_duplicate-record_event d rows delivery_id event_type action =
    elim (Bool-cases (is_duplicate rows delivery_id)) [
      | inl e ↦ rw e (already e)
      | inr e ↦ rw e (any-append_here d rows _)
    ]
  where
    already :
        is_duplicate rows delivery_id ≡ true
        → is_duplicate rows d ≡ (if delivery_id == d then true else is_duplicate rows d)
    already e = elim (Bool-cases (delivery_id == d)) [
      | inl same ↦
          rw same (ap (is_duplicate rows) (sym ((string_eq.same_iff delivery_id d).0 same)) ∙ e)
      | inr other ↦ rw other
    ]

is_duplicate-record_others :
    (d : String) (rows : List StoredEvent) (others : List (String × String × Option String))
    → is_duplicate rows d ≡ true
    → is_duplicate (record_others rows others) d ≡ true
unfolding record_others
is_duplicate-record_others d rows [] h = h
is_duplicate-record_others d rows ((i, t, a) ∷ others) h =
    is_duplicate-record_others d (record_event rows i t a).0 others (
      is_duplicate-record_event d rows i t a
      ∙ rw h (if-ind (λ b. b ≡ true) (i == d) (λ e. refl) (λ e. refl)))

recorded-store :
    (event : WebhookEvent) (r : List StoredEvent × Option ℕ) → (recorded event r).0 ≡ r.0
recorded-store event (rows, none) = refl
recorded-store event (rows, some i) = refl

parsed_keeps :
    (d : String) (rows : List StoredEvent) (q : Request) (p : Option WebhookEvent)
    → is_duplicate rows d ≡ true
    → is_duplicate (parsed rows q p).0 d ≡ true
parsed_keeps d rows q none h = is_duplicate-record_others d rows q.meanwhile h
parsed_keeps d rows q (some event) h =
    let others = record_others rows q.meanwhile in
    ap (λ k. is_duplicate k d)
      (recorded-store (record event { delivery_id = q.delivery_id })
        (record_event others q.delivery_id q.event_type event.action))
    ∙ is_duplicate-record_event d others q.delivery_id q.event_type event.action
    ∙ rw (is_duplicate-record_others d rows q.meanwhile h)
        (if-ind (λ b. b ≡ true) (q.delivery_id == d) (λ e. refl) (λ e. refl))

pub after_verify_keeps :
    (o : Outside) (d : String) (rows : List StoredEvent) (q : Request) (v : Option VerifyError)
    → is_duplicate rows d ≡ true
    → is_duplicate (after_verify o rows q v).0 d ≡ true
after_verify_keeps o d rows q (some e) h = h
after_verify_keeps o d rows q none h =
    if-ind (λ (r : List StoredEvent × Handled). is_duplicate r.0 d ≡ true)
      (is_duplicate rows q.delivery_id) (λ e. h)
      (λ e. parsed_keeps d rows q (o.parse q.event_type q.body) h)

parsed_accepted :
    (rows : List StoredEvent) (q : Request) (p : Option WebhookEvent)
    → is_accepted (parsed rows q p).1 ≡ true
    → is_duplicate (parsed rows q p).0 q.delivery_id ≡ true
parsed_accepted rows q none h = absurd cc
parsed_accepted rows q (some event) h =
    let others = record_others rows q.meanwhile in
    ap (λ k. is_duplicate k q.delivery_id)
      (recorded-store (record event { delivery_id = q.delivery_id })
        (record_event others q.delivery_id q.event_type event.action))
    ∙ is_duplicate-record_event q.delivery_id others q.delivery_id q.event_type event.action
    ∙ rw (==_refl q.delivery_id)

pub after_verify_accepted :
    (o : Outside) (rows : List StoredEvent) (q : Request) (v : Option VerifyError)
    → is_accepted (after_verify o rows q v).1 ≡ true
    → (v ≡ none)
      × (is_duplicate rows q.delivery_id ≡ false)
      × (is_duplicate (after_verify o rows q v).0 q.delivery_id ≡ true)
after_verify_accepted o rows q (some e) h = absurd cc
after_verify_accepted o rows q none h = elim (Bool-cases (is_duplicate rows q.delivery_id)) [
  | inl e ↦ absurd (no_duplicate (rw e at h))
  | inr e ↦ (refl, e, rw e (parsed_accepted rows q (o.parse q.event_type q.body) (rw e at h)))
]
  where
    no_duplicate : Path Bool false true → ⊥
    no_duplicate h = cc
