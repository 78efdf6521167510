-- ===== src/Agents/Delivery/Settled.antt =====
-- harness/agents/outbound.py: what the store has of a url after a delivery, to it or to another.
use harness_solomon.Base.{
  ℕ, suc, ◌+◌, String, Bool, true, false, some, ◌==◌, string_eq, ==_refl, ◌&&◌, not, if◌then◌else◌,
  ◌≡◌, refl, ap, ◌∙◌, if-ind, arith,
}
use harness_solomon.Agents.Outbound.{OutboundWebhook, Tables, get_outbound, reset, fail_row}
use harness_solomon.Agents.Outbound.Park.{failure-row, failure-other}
use harness_solomon.Agents.Delivery.Attempts.{Outcome, delivered, gave_up, broken_off}
use harness_solomon.Agents.Delivery.Dispatcher.{
  Event, Dispatcher, StoreCall, succeeding, failing, parking_letter, World, event_kind,
  count_failed, settle,
}
use harness_solomon.Agents.Delivery.Budget.{is_delivered, is_refused}
use harness_solomon.Agents.Delivery.Rows.{
  letters_in, letters, enqueue-letters, enqueue-row, success-row, success-other, success-dlq,
  failure-dlq,
}

-- No call of the store for the url raises.
abbrev pub Calm : World → String → Type 0
Calm w url = (c : StoreCall) → w.raises c url ≡ false

with_letter :
    (enabled same : Bool) {x y z : ℕ}
    → (enabled && true) ≡ true
    → same ≡ true
    → x ≡ y + (if same then 1 else 0)
    → y ≡ z
    → x ≡ z + (if enabled then 1 else 0)
with_letter enabled same b s h l = ground arith

no_letter :
    (enabled : Bool) {y z : ℕ}
    → (enabled && true) ≡ false
    → y ≡ z
    → y ≡ z + (if enabled then 1 else 0)
no_letter enabled b l = ground arith

module _ (w : World) (d : Dispatcher) (url : String) (e : Event) where
  -- What a failure makes of the row.
  abbrev pub failed_row : OutboundWebhook → OutboundWebhook
  failed_row row = (fail_row d.auto_disable_threshold (w.now url) (w.later url) row).0

  count_failed-row :
      (t : Tables) {row : OutboundWebhook}
      → Calm w url
      → get_outbound t url ≡ some row
      → get_outbound (count_failed w d t url) url ≡ some (failed_row row)
  count_failed-row t {row} calm h =
      rw (calm failing) (failure-row t url d.auto_disable_threshold (w.now url) (w.later url) h).0

  count_failed-other :
      (t : Tables) (other : String)
      → (url == other) ≡ false
      → get_outbound (count_failed w d t url) other ≡ get_outbound t other
  count_failed-other t other ne =
      if-ind (λ (u : Tables). get_outbound u other ≡ get_outbound t other) (w.raises failing url)
        (λ _. refl)
        (λ _. failure-other t url other d.auto_disable_threshold (w.now url) (w.later url) ne)

  pub count_failed-dlq : (t : Tables) → (count_failed w d t url).dlq ≡ t.dlq
  count_failed-dlq t =
      if-ind (λ (u : Tables). u.dlq ≡ t.dlq) (w.raises failing url) (λ _. refl)
        (λ _. failure-dlq t url d.auto_disable_threshold (w.now url) (w.later url))

  pub settle-failed :
      (t : Tables) (o : Outcome) {row : OutboundWebhook}
      → Calm w url
      → is_refused o ≡ true
      → get_outbound t url ≡ some row
      → (get_outbound (settle w d t url e o) url ≡ some (failed_row row))
        × (letters url (settle w d t url e o) ≡ letters url t + (if d.dlq_enabled then 1 else 0))
  settle-failed t delivered calm un h = absurd cc
  settle-failed t (broken_off err) calm un h = absurd cc
  settle-failed t (gave_up last_err) {row} calm un h =
      let counted = count_failed w d t url in
      let kept = count_failed-row t calm h in
      let l : letters url counted ≡ letters url t = ap (letters_in url) (count_failed-dlq t) in
      let added =
        enqueue-letters counted url (event_kind e) e.json last_err (suc d.retries.max_retries)
          (w.now url) (w.later url) url in
      rw (calm parking_letter) (
        if-ind
          (λ (u : Tables).
            (get_outbound u url ≡ some (failed_row row))
            × (letters url u ≡ letters url t + (if d.dlq_enabled then 1 else 0)))
          (d.dlq_enabled && true)
          (λ b. (
            enqueue-row counted url (event_kind e) e.json last_err (suc d.retries.max_retries)
                (w.now url) (w.later url) url kept,
            with_letter d.dlq_enabled (url == url) b (==_refl url) added l,
          ))
          (λ b. (kept, no_letter d.dlq_enabled b l)))

  pub settle-delivered :
      (t : Tables) (o : Outcome) {row : OutboundWebhook}
      → Calm w url
      → is_delivered o ≡ true
      → get_outbound t url ≡ some row
      → (get_outbound (settle w d t url e o) url ≡ some (reset (w.now url) row))
        × ((settle w d t url e o).dlq ≡ t.dlq)
  settle-delivered t delivered calm ok h =
      rw (calm succeeding) (success-row t url (w.now url) h, success-dlq t url (w.now url))
  settle-delivered t (gave_up last_err) calm ok h = absurd cc
  settle-delivered t (broken_off err) calm ok h = absurd cc

  pub settle-broken :
      (t : Tables) (o : Outcome)
      → is_delivered o ≡ false
      → is_refused o ≡ false
      → settle w d t url e o ≡ t
  settle-broken t delivered ok un = absurd cc
  settle-broken t (gave_up last_err) ok un = absurd cc
  settle-broken t (broken_off err) ok un = refl

  pub settle-other :
      (t : Tables) (o : Outcome) (other : String) {row : OutboundWebhook}
      → (url == other) ≡ false
      → get_outbound t other ≡ some row
      → (get_outbound (settle w d t url e o) other ≡ some row)
        × (letters other (settle w d t url e o) ≡ letters other t)
  settle-other t delivered other {row} ne h =
      if-ind
        (λ (u : Tables). (get_outbound u other ≡ some row) × (letters other u ≡ letters other t))
        (w.raises succeeding url) (λ _. (h, refl))
        (λ _. (
          success-other t url other (w.now url) ne ∙ h,
          ap (letters_in other) (success-dlq t url (w.now url)),
        ))
  settle-other t (broken_off err) other ne h = (h, refl)
  settle-other t (gave_up last_err) other {row} ne h =
      let counted = count_failed w d t url in
      let kept = count_failed-other t other ne ∙ h in
      let l : letters other counted ≡ letters other t =
        ap (letters_in other) (count_failed-dlq t) in
      if-ind
        (λ (u : Tables). (get_outbound u other ≡ some row) × (letters other u ≡ letters other t))
        (d.dlq_enabled && not (w.raises parking_letter url))
        (λ _. (
          enqueue-row counted url (event_kind e) e.json last_err (suc d.retries.max_retries)
              (w.now url) (w.later url) other kept,
          enqueue-letters counted url (event_kind e) e.json last_err (suc d.retries.max_retries)
                (w.now url) (w.later url) other
              ∙ rw ne (omega (arith, l)),
        ))
        (λ _. (kept, l))
