-- ===== src/Elicitation/Tests.antt =====
-- harness/elicitation.py: tests.
use harness_solomon.Base.{true, none, some, List, [], ◌∷◌, ◌≡◌, refl}
use harness_solomon.Base.Text.{codes}
use harness_solomon.Elicitation.{Broker, Asked, publish, begin_wait, end_wait}
use harness_solomon.Elicitation.Events.{Event, publishes, begins, answers, ends, run}
use harness_solomon.Elicitation.First.{published_wait}

abbrev empty_broker : Broker
empty_broker = record {
  pending_questions = [];
  published_total = 0;
  answered_total = 0;
  timed_out_total = 0;
  decision_store = some [];
  publish_ts = [];
  answer_source = [];
}

abbrev ask : Asked
ask = record {
  question = codes "Run it?";
  options = "proceed" ∷ "abort" ∷ [];
  default_answer = "abort";
  timeout_s = 30000;
  session_id = "s";
  request_id = none;
}

abbrev early : List Event
early = answers "a" "proceed" "ws" ∷ publishes "b" ask 2 2 true ∷ []

abbrev late : List Event
late =
    begins "b"
    ∷ answers "b" "proceed" "ws"
    ∷ answers "a" "yes" "poll"
    ∷ answers "a" "no" "ws"
    ∷ ends "b" 7 true
    ∷ []

-- The first answer comes too early, and the third too late.
published_wait_example :
    (end_wait
      (run (begin_wait (run (publish empty_broker "a" ask 1 1 true) early) "a").0 late)
      "a"
      9
      true).1
    ≡ some "yes"
published_wait_example = published_wait "a" empty_broker ask 1 1 true early late 9 true refl refl
