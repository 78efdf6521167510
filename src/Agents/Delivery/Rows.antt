-- ===== src/Agents/Delivery/Rows.antt =====
-- harness/agents/outbound.py: what one delivery makes of the rows and the dead letters of the urls.
use harness_solomon.Base.{
  ℕ, ◌+◌, String, false, Option, none, some, List, [], ◌∷◌, ◌++◌, ◌==◌, string_eq, ==_refl,
  if◌then◌else◌, ◌≡◌, refl, ap, ◌∙◌, arith,
}
use harness_solomon.Base.Text.{Text}
use harness_solomon.Agents.Outbound.{
  OutboundWebhook, DlqEntry, Tables, or_new, get_outbound, update_some, reset,
  record_outbound_success, get_or_create_outbound, record_outbound_failure, enqueue_dlq,
}
use harness_solomon.Agents.Outbound.Park.{get_outbound-set_outbound}

-- The dead letters of a url.
abbrev pub letters_in : String → List DlqEntry → ℕ
letters_in url [] = 0
letters_in url (e ∷ es) = (if e.url == url then 1 else 0) + letters_in url es

abbrev pub letters : String → Tables → ℕ
letters url t = letters_in url t.dlq

letters_in-append :
    (url : String) (es fs : List DlqEntry)
    → letters_in url (es ++ fs) ≡ letters_in url es + letters_in url fs
letters_in-append url [] fs = omega arith
letters_in-append url (e ∷ es) fs = omega (arith, letters_in-append url es fs)

same_row :
    (t : Tables) (url other : String) (now : ℕ) {row : OutboundWebhook}
    → get_outbound t other ≡ some row
    → (if url == other
        then some (or_new t url 1 now (get_outbound t url))
        else get_outbound t other)
      ≡ some row
same_row t url other now h = grind (arith, string_eq.same_iff url other)

module _ (t : Tables) (url kind : String) (payload last_error : Text)
    (attempts now failed_at : ℕ) where
  pub enqueue-letters :
      (other : String)
      → letters other (enqueue_dlq t url kind payload last_error attempts now failed_at).0
        ≡ letters other t + (if url == other then 1 else 0)
  unfolding enqueue_dlq get_or_create_outbound
  enqueue-letters other = letters_in-append other t.dlq _ ∙ omega arith

  pub enqueue-row :
      {row : OutboundWebhook} (other : String)
      → get_outbound t other ≡ some row
      → get_outbound (enqueue_dlq t url kind payload last_error attempts now failed_at).0 other
        ≡ some row
  unfolding enqueue_dlq get_or_create_outbound
  enqueue-row {row} other h =
      get_outbound-set_outbound t url other (or_new t url 1 now (get_outbound t url))
      ∙ same_row t url other now h

pub success-row :
    (t : Tables) (url : String) (now : ℕ) {row : OutboundWebhook}
    → get_outbound t url ≡ some row
    → get_outbound (record_outbound_success t url now) url ≡ some (reset now row)
unfolding record_outbound_success
success-row t url now {row} h =
    ap (λ (o : Option OutboundWebhook). get_outbound (update_some t url (reset now) o) url) h
    ∙ get_outbound-set_outbound t url url (reset now row)
    ∙ rw (==_refl url)

pub success-other :
    (t : Tables) (url other : String) (now : ℕ)
    → (url == other) ≡ false
    → get_outbound (record_outbound_success t url now) other ≡ get_outbound t other
unfolding record_outbound_success
success-other t url other now ne = updated (get_outbound t url)
  where
    updated :
        (o : Option OutboundWebhook)
        → get_outbound (update_some t url (reset now) o) other ≡ get_outbound t other
    updated none = refl
    updated (some w) = get_outbound-set_outbound t url other (reset now w) ∙ rw ne

pub success-dlq :
    (t : Tables) (url : String) (now : ℕ) → (record_outbound_success t url now).dlq ≡ t.dlq
unfolding record_outbound_success
success-dlq t url now = updated (get_outbound t url)
  where
    updated : (o : Option OutboundWebhook) → (update_some t url (reset now) o).dlq ≡ t.dlq
    updated none = refl
    updated (some w) = refl

pub failure-dlq :
    (t : Tables) (url : String) (threshold now later : ℕ)
    → (record_outbound_failure t url threshold now later).0.dlq ≡ t.dlq
unfolding record_outbound_failure get_or_create_outbound
failure-dlq t url threshold now later = refl
