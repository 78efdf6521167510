-- ===== src/Agents/Delivery/Tests.antt =====
-- A dispatcher of two urls, one of which never accepts, and the replay of a dead letter.
use harness_solomon.Base.{
  ℕ, ◌≤◌, true, false, none, some, String, List, [], ◌∷◌, ◌==◌, string_eq, nat_eq, if◌then◌else◌,
  ◌≡◌, refl, arith,
}
use harness_solomon.Base.Text.{codes}
use harness_solomon.Agents.Outbound.{OutboundWebhook, DlqEntry, Tables, find_dlq}
use harness_solomon.Agents.Outbound.Replay.{pending}
use harness_solomon.Agents.Delivery.Attempts.{Answer, answered, timed_out, Retries, attempts}
use harness_solomon.Agents.Delivery.Dispatcher.{
  Event, Dispatcher, World, deliver_one, parse_urls, new_dispatcher,
}
use harness_solomon.Agents.Delivery.Resend.{Resent, replay}
use harness_solomon.Agents.Delivery.Budget.{is_delivered, attempts_lem}
use harness_solomon.Agents.Delivery.Accounts.{replay_unredacted}
use harness_solomon.Agents.Delivery.ResentOnce.{replays, resent_once}

abbrev retries : Retries
retries = record { max_retries = 2; backoff_initial_s = 1; backoff_max_s = 30; jitter_s = 1 }

abbrev dispatcher : Dispatcher
dispatcher = new_dispatcher ("a" ∷ "" ∷ "b" ∷ []) (codes "t") retries 2 true

-- "b" answers 503 first, and then accepts; "a" only times out.
abbrev answer : String → ℕ → Answer
answer url attempt =
    if url == "a" then timed_out [] else if attempt == 0 then answered 503 [] else answered 204 []

abbrev world : World
world = record {
  post = answer;
  jitter = λ url attempt. 1;
  redact_dict = λ json. codes "{}";
  environ = λ name. none;
  raises = λ call url. false;
  has_loop = true;
  now = λ url. 7;
  later = λ url. 8;
}

abbrev merged : Event
merged = record { kind = some "merged"; event = none; json = codes "{job}" }

abbrev row : OutboundWebhook
row = record {
  id = 1;
  url = "a";
  consecutive_failures = 0;
  disabled_at = none;
  secret_version = 1;
  created_at = 0;
  updated_at = 0;
}

abbrev tables : Tables
tables = record { webhooks = ("a", row) ∷ ("b", row) ∷ []; dlq = [] }

parsed : parse_urls (codes " a,, b ,") ≡ codes "a" ∷ codes "b" ∷ []
unfolding parse_urls
parsed = refl

attempts_lem_example :
    ((attempts retries (λ _. 1) (answer "b")).posts ≤ 3)
    × ((attempts retries (λ _. 1) (answer "b")).slept ≤ 62)
    × (is_delivered (attempts retries (λ _. 1) (answer "b")).outcome ≡ true)
attempts_lem_example = attempts_lem retries (λ _. 1) (answer "b") 1 (λ _. omega arith)

no_letter : find_dlq 1 [] ≡ none
unfolding find_dlq
no_letter = refl

-- The replay of the letter of the failed delivery.
replay_unredacted_example :
    (t' : Tables) × (r : Resent) × ((deliver_one world dispatcher (some tables) "a" merged).0
      ≡ some t')
    × ((deliver_one world dispatcher (some tables) "a" merged).1.sent_json ≡ codes "{}")
    × ((replay (λ name. none) (λ sent. answered 204 []) (λ t. t) t' 1 9).2 ≡ some r)
    × (r.json ≡ codes "{job}")
replay_unredacted_example =
    replay_unredacted (λ name. none) (λ sent. answered 204 []) (λ t. t) 9 world dispatcher "a"
      merged tables (λ call. refl) refl refl no_letter

abbrev letter : DlqEntry
letter = record {
  id = 1;
  webhook_id = 1;
  url = "a";
  event_kind = "merged";
  payload = codes "{job}";
  last_error = [];
  failed_at = 3;
  replayed_at = none;
  attempts = 3;
}

abbrev parked : Tables
parked = record tables { dlq = letter ∷ [] }

abbrev requests : List (ℕ × (Resent → Answer) × ℕ)
requests =
    (1, (λ sent. answered 500 []), 10)
    ∷ (1, (λ sent. answered 200 []), 11)
    ∷ (1, (λ sent. answered 200 []), 12)
    ∷ []

resent_once_example :
    ((replays (λ name. none) 1 parked requests).0 ≤ 1)
    × (pending 1 parked.dlq ≡ false
        → ((replays (λ name. none) 1 parked requests).0 ≡ 0)
          × ((replays (λ name. none) 1 parked requests).1 ≡ 0))
resent_once_example = resent_once (λ name. none) 1 parked requests
