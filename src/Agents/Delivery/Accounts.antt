-- ===== src/Agents/Delivery/Accounts.antt =====
-- harness/agents/outbound.py: what one delivery leaves in the store, and what its dead letter sends.
use harness_solomon.Base.{
  ℕ, suc, ◌+◌, String, Bool, true, false, Option, none, some, List, [], ◌∷◌, ◌++◌, nat_eq, ==_refl,
  ◌&&◌, not, if-ind, if◌then◌else◌, leb, ◌≡◌, refl, ap, ◌∙◌, length, arith,
}
use harness_solomon.Base.Text.{Text}
use harness_solomon.Agents.Outbound.{
  OutboundWebhook, DlqEntry, Tables, is_null, get_or_create_outbound, enqueue_dlq, find_dlq,
}
use harness_solomon.Agents.Delivery.Attempts.{
  Answer, Outcome, delivered, gave_up, broken_off, attempts,
}
use harness_solomon.Agents.Delivery.Dispatcher.{
  Event, Dispatcher, World, event_kind, parking_letter, count_failed, settle, deliver_one,
}
use harness_solomon.Agents.Delivery.Resend.{Resent, Reply, resend, replay_found, replay}
use harness_solomon.Agents.Delivery.Budget.{
  accepts, refuses, answers, is_refused, attempts_from-refuses,
}
use harness_solomon.Agents.Delivery.Settled.{Calm, count_failed-dlq}

-- Whether the url accepts the event within the retries.
abbrev pub accepted_by : World → Dispatcher → String → Bool
accepted_by w d url = accepts (answers (w.post url) (suc d.retries.max_retries) 0)

-- Whether it refuses it, with responses, timeouts or other HTTP errors.
abbrev pub refused_by : World → Dispatcher → String → Bool
refused_by w d url = refuses (answers (w.post url) (suc d.retries.max_retries) 0)

-- The row of a url with one failure more, parked if they are as many as the threshold.
abbrev pub one_more : ℕ → ℕ → ℕ → OutboundWebhook → OutboundWebhook
one_more threshold now later row =
    if leb threshold (row.consecutive_failures + 1) && is_null row.disabled_at
    then record row {
      consecutive_failures = row.consecutive_failures + 1;
      disabled_at = some later;
      updated_at = later;
    }
    else record row { consecutive_failures = row.consecutive_failures + 1; updated_at = now }

module _ (w : World) (d : Dispatcher) (url : String) (e : Event) (t : Tables) where
  outcome-refused :
      is_refused (attempts d.retries (w.jitter url) (w.post url)).outcome ≡ refused_by w d url
  unfolding attempts
  outcome-refused =
      attempts_from-refuses d.retries (w.jitter url) (w.post url) (suc d.retries.max_retries) 0 []

enqueue-entry :
    (t : Tables) (url kind : String) (payload last_error : Text) (attempts now failed_at : ℕ)
    → (entry : DlqEntry) × ((enqueue_dlq t url kind payload last_error attempts now failed_at).0.dlq
        ≡ t.dlq ++ entry ∷ [])
      × (entry.id ≡ suc (length t.dlq))
      × (is_null entry.replayed_at ≡ true)
      × (entry.payload ≡ payload)
unfolding enqueue_dlq get_or_create_outbound
enqueue-entry t url kind payload last_error attempts now failed_at = (_, refl, refl, refl, refl)

enabled_writes : (a r : Bool) → a ≡ true → r ≡ false → ¬ ((a && not r) ≡ false)
enabled_writes a r p q f = ground arith

-- The dead letter of a delivery that failed.
settle-letter :
    (w : World) (d : Dispatcher) (url : String) (e : Event) (t : Tables) (o : Outcome)
    → Calm w url
    → d.dlq_enabled ≡ true
    → is_refused o ≡ true
    → (entry : DlqEntry) × ((settle w d t url e o).dlq ≡ t.dlq ++ entry ∷ [])
      × (entry.id ≡ suc (length t.dlq))
      × (is_null entry.replayed_at ≡ true)
      × (entry.payload ≡ e.json)
settle-letter w d url e t delivered calm on un = absurd cc
settle-letter w d url e t (broken_off err) calm on un = absurd cc
settle-letter w d url e t (gave_up last_err) calm on un =
    let counted = count_failed w d t url in
    let q : counted.dlq ≡ t.dlq = count_failed-dlq w d url e t in
    let (entry, added, same, unset, kept) =
      enqueue-entry counted url (event_kind e) e.json last_err (suc d.retries.max_retries)
        (w.now url) (w.later url) in
    if-ind
      (λ (u : Tables).
        (entry' : DlqEntry) × (u.dlq ≡ t.dlq ++ entry' ∷ [])
        × (entry'.id ≡ suc (length t.dlq))
        × (is_null entry'.replayed_at ≡ true)
        × (entry'.payload ≡ e.json))
      (d.dlq_enabled && not (w.raises parking_letter url))
      (λ _. (
        entry,
        added ∙ ap (λ (es : List DlqEntry). es ++ entry ∷ []) q,
        same ∙ ap (λ (es : List DlqEntry). suc (length es)) q,
        unset,
        kept,
      ))
      (λ f.
        absurd
          (enabled_writes d.dlq_enabled (w.raises parking_letter url) on (calm parking_letter) f))

find_dlq-append :
    (i : ℕ) (es : List DlqEntry) (e : DlqEntry)
    → find_dlq i es ≡ none
    → e.id ≡ i
    → find_dlq i (es ++ e ∷ []) ≡ some e
unfolding find_dlq
find_dlq-append i [] e h same = rw (same, ==_refl i) refl
find_dlq-append i (f ∷ es) e h same = ground (arith, find_dlq-append i es e)

module _ (environ : Text → Option Text) (post : Resent → Answer) (meanwhile : Tables → Tables)
    (now : ℕ) where
  resend-json : (t : Tables) (entry : DlqEntry) → (resend environ t entry).json ≡ entry.payload
  unfolding resend
  resend-json t entry = refl

  -- The letter that is found is sent as it is.
  replay-sends :
      (t : Tables) (i : ℕ) (entry : DlqEntry)
      → find_dlq i t.dlq ≡ some entry
      → is_null entry.replayed_at ≡ true
      → (replay environ post meanwhile t i now).2 ≡ some (resend environ t entry)
  unfolding replay replay_found
  replay-sends t i entry h open_entry =
      ap (λ (o : Option DlqEntry). (replay_found environ post meanwhile t now o).2) h
      ∙ if-ind (λ (r : Tables × Reply × Option Resent). r.2 ≡ some (resend environ t entry))
          (is_null entry.replayed_at) (λ _. refl) (λ e. absurd (ground arith))

  -- `redact_dict` redacts what the attempts of a delivery send; but when the url refuses it, the replay of the dead
  -- letter sends the event as it was.
  pub replay_unredacted :
      (w : World) (d : Dispatcher) (url : String) (e : Event) (t : Tables)
      → Calm w url
      → d.dlq_enabled ≡ true
      → refused_by w d url ≡ true
      → find_dlq (suc (length t.dlq)) t.dlq ≡ none
      → (t' : Tables) × (r : Resent) × ((deliver_one w d (some t) url e).0 ≡ some t')
        × ((deliver_one w d (some t) url e).1.sent_json ≡ w.redact_dict e.json)
        × ((replay environ post meanwhile t' (suc (length t.dlq)) now).2 ≡ some r)
        × (r.json ≡ e.json)
  unfolding deliver_one
  replay_unredacted w d url e t calm on un fresh =
      let o = (attempts d.retries (w.jitter url) (w.post url)).outcome in
      let (entry, q, same, unset, kept) =
        settle-letter w d url e t o calm on (outcome-refused w d url e t ∙ un) in
      let t' = settle w d t url e o in
      let found : find_dlq (suc (length t.dlq)) t'.dlq ≡ some entry =
        ap (find_dlq (suc (length t.dlq))) q
        ∙ find_dlq-append (suc (length t.dlq)) t.dlq entry fresh same in
      (
        t',
        resend environ t' entry,
        refl,
        refl,
        replay-sends t' (suc (length t.dlq)) entry found unset,
        resend-json t' entry ∙ kept,
      )
