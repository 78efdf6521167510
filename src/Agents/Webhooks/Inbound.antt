-- ===== src/Agents/Webhooks/Inbound.antt =====
-- harness/agents/webhook_handler.py: verify_github_signature and handle_raw, with the table of
-- deliveries of harness/agents/webhook_store.py. The digest of `hmac` and the parsing of the payload are
-- arguments. `lower` is that of ASCII, since no other character has a lower case in "sha256".
-- Redaction, which changes what is stored of a payload, is left out, and so is the payload.
use harness_solomon.Base.{
  ℕ, suc, ◌+◌, String, Bool, true, false, Option, none, some, List, [], ◌∷◌, ◌++◌, map, leb, ◌==◌,
  string_eq, nat_eq, ◌&&◌, any, if◌then◌else◌, length, not,
}
use harness_solomon.Base.Text.{Text, codes, strip, partition, text_eq}
use harness_solomon.Agents.Webhooks.Dispatch.{WebhookEvent}

-- What `verify_github_signature` raises: WebhookVerificationError with its reason, or the TypeError of
-- `compare_digest` for a text that is not ASCII.
pub data VerifyError : Type 0 where
  missing_secret missing_signature bad_signature not_ascii : VerifyError

abbrev pub lower_code : ℕ → ℕ
lower_code c = if leb 65 c && leb c 90 then c + 32 else c

abbrev pub lower : Text → Text
lower = map lower_code

-- The header, stripped, with its scheme in lower case.
unfoldable pub normalise : Text → Text
unfolding strip partition
normalise header = elim (partition b'=' (strip header)) [
  | none ↦ strip header
  | some (scheme, digest) ↦ lower scheme ++ b'=' ∷ digest
]

abbrev pub is_blank : Text → Bool
is_blank [] = true
is_blank (c ∷ s) = false

abbrev pub is_ascii : Text → Bool
is_ascii s = not (any (λ c. leb 128 c) s)

-- `_expected_signature`.
unfoldable pub expected_signature : (Text → Text → Text) → Text → Text → Text
expected_signature hexdigest secret body = codes "sha256=" ++ hexdigest secret body

-- `hmac.compare_digest`, the expected text being ASCII.
unfoldable pub compare_digest : Text → Text → Option VerifyError
compare_digest expected sig =
    if is_ascii sig then if expected == sig then none else some bad_signature else some not_ascii

-- `verify_github_signature`; `none` is that it returns.
unfoldable pub verify_github_signature :
    (Text → Text → Text) → Text → Option Text → Text → Option VerifyError
unfolding normalise expected_signature compare_digest strip
verify_github_signature hexdigest body none secret =
    if is_blank secret then some missing_secret else some missing_signature
verify_github_signature hexdigest body (some header) secret =
    if is_blank secret
    then some missing_secret
    else if is_blank (strip header)
    then some missing_signature
    else compare_digest (expected_signature hexdigest secret body) (normalise header)

-- A row of webhook_events.
pub record StoredEvent : Type 0 where
  pub row_id : ℕ
  pub delivery_id : String
  pub event_type : String
  pub action : Option String
  pub processed : Bool

-- `is_duplicate`.
unfoldable pub is_duplicate : List StoredEvent → String → Bool
is_duplicate rows delivery_id = any (λ r. r.delivery_id == delivery_id) rows

abbrev pub stored : List StoredEvent → String → String → Option String → StoredEvent
stored rows delivery_id event_type action = record {
  row_id = suc (length rows);
  delivery_id = delivery_id;
  event_type = event_type;
  action = action;
  processed = false;
}

-- `record_event`, with the id of the new row or `none` for a delivery that is there.
unfoldable pub record_event :
    List StoredEvent → String → String → Option String → List StoredEvent × Option ℕ
unfolding is_duplicate
record_event rows delivery_id event_type action =
    if is_duplicate rows delivery_id
    then (rows, none)
    else (rows ++ stored rows delivery_id event_type action ∷ [], some (suc (length rows)))

-- `mark_processed`.
unfoldable pub mark_processed : List StoredEvent → ℕ → List StoredEvent
mark_processed rows event_id =
    map (λ r. if r.row_id == event_id then record r { processed = true } else r) rows

-- One request, and the deliveries that other requests record while it is between its look for a
-- duplicate and its own record.
pub record Request : Type 0 where
  pub body : Text
  pub signature : Option Text
  pub event_type : String
  pub delivery_id : String
  pub meanwhile : List (String × String × Option String)

pub data Handled : Type 0 where
  rejected : VerifyError → Handled
  duplicate invalid : Handled
  accepted : WebhookEvent → Handled

unfoldable pub record_others :
    List StoredEvent → List (String × String × Option String) → List StoredEvent
unfolding record_event
record_others rows [] = rows
record_others rows ((delivery_id, event_type, action) ∷ others) =
    record_others (record_event rows delivery_id event_type action).0 others

-- The digest, and `json.loads` followed by `parse_github_payload`, where `none` is what they raise.
pub record Outside : Type 0 where
  pub hexdigest : Text → Text → Text
  pub parse : String → Text → Option WebhookEvent

abbrev pub recorded : WebhookEvent → List StoredEvent × Option ℕ → List StoredEvent × Handled
recorded event (rows, none) = (rows, duplicate)
recorded event (rows, some event_id) = (rows, accepted event)

abbrev pub parsed : List StoredEvent → Request → Option WebhookEvent → List StoredEvent × Handled
parsed rows q none = (record_others rows q.meanwhile, invalid)
parsed rows q (some event) =
    recorded (record event { delivery_id = q.delivery_id })
      (record_event (record_others rows q.meanwhile) q.delivery_id q.event_type event.action)

abbrev pub after_verify :
    Outside → List StoredEvent → Request → Option VerifyError → List StoredEvent × Handled
after_verify o rows q (some e) = (rows, rejected e)
after_verify o rows q none =
    if is_duplicate rows q.delivery_id
    then (rows, duplicate)
    else parsed rows q (o.parse q.event_type q.body)

-- `handle_raw`.
unfoldable pub handle_raw : Outside → Text → List StoredEvent → Request → List StoredEvent × Handled
unfolding verify_github_signature is_duplicate record_event record_others
handle_raw o secret rows q =
    after_verify o rows q (verify_github_signature o.hexdigest q.body q.signature secret)
