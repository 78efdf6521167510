-- ===== src/Elicitation.antt =====
-- harness/elicitation.py: the broker of questions to the user. A question has one waiter, whose `wait`
-- is two steps, up to where it awaits the future and from there on. Times are milliseconds.
pub mod Counters
pub mod Events
pub mod First
mod Tests
use harness_solomon.Base.{
  ℕ, suc, ◌-◌, String, Bool, true, false, Option, none, some, List, take, string_eq,
}
use harness_solomon.Base.Text.{Text}
use harness_solomon.Base.Dict.{Dict, get, put, pop}
use harness_solomon.Decisions.{
  DecisionState, pending, answered, timed_out, DecisionStore, record_decision,
}

-- `None`, a future that is not done, and its result.
pub data Future : Type 0 where
  absent waiting : Future
  done : String → Future

pub record PendingQuestion : Type 0 where
  pub question : Text
  pub options : List String
  pub default_answer : String
  pub future : Future
  pub created_at : ℕ
  pub timeout_s : ℕ
  pub session_id : String
  pub request_id : Option String

pub record Broker : Type 0 where
  pub pending_questions : Dict String PendingQuestion
  pub published_total : ℕ
  pub answered_total : ℕ
  pub timed_out_total : ℕ
  pub decision_store : Option DecisionStore
  pub publish_ts : Dict String ℕ
  pub answer_source : Dict String String

-- The arguments of `publish`.
pub record Asked : Type 0 where
  pub question : Text
  pub options : List String
  pub default_answer : String
  pub timeout_s : ℕ
  pub session_id : String
  pub request_id : Option String

abbrev pub new_question : Asked → ℕ → PendingQuestion
new_question a now_mono = record {
  question = a.question;
  options = a.options;
  default_answer = a.default_answer;
  future = absent;
  created_at = now_mono;
  timeout_s = a.timeout_s;
  session_id = a.session_id;
  request_id = a.request_id;
}

-- `publish`, under the id that it draws.
unfoldable pub publish : Broker → String → Asked → ℕ → ℕ → Bool → Broker
unfolding put record_decision
publish b qid a now_mono now_wall records = record b {
  pending_questions = put qid (new_question a now_mono) b.pending_questions;
  publish_ts = put qid now_wall b.publish_ts;
  published_total = suc b.published_total;
  decision_store =
      record_decision records qid
        (record {
          session_id = a.session_id;
          request_id = a.request_id;
          question_preview = take 120 a.question;
          options = a.options;
          default_answer = a.default_answer;
          decision = pending;
          answer = none;
          source = none;
          latency_ms = 0;
          ts = now_wall;
        })
        b.decision_store;
}

abbrev pub opened : Future → Future
opened absent = waiting
opened waiting = waiting
opened (done value) = done value

abbrev pub wait_found : Broker → String → Option PendingQuestion → Broker × Bool
unfolding put
wait_found b qid none = (b, false)
wait_found b qid (some q) = (
  record b {
    pending_questions = put qid (record q { future = opened q.future }) b.pending_questions;
  },
  true,
)

-- `wait` up to the await of the future; false is the KeyError.
unfoldable pub begin_wait : Broker → String → Broker × Bool
unfolding wait_found get
begin_wait b qid = wait_found b qid (get qid b.pending_questions)

abbrev pub answer_future :
    Broker → String → String → String → PendingQuestion → Future → Broker × Bool
unfolding put
answer_future b qid value source q absent = (b, false)
answer_future b qid value source q (done earlier) = (b, false)
answer_future b qid value source q waiting = (
  record b {
    pending_questions = put qid (record q { future = done value }) b.pending_questions;
    answer_source = put qid source b.answer_source;
  },
  true,
)

abbrev pub answer_found : Broker → String → String → String → Option PendingQuestion → Broker × Bool
unfolding answer_future
answer_found b qid value source none = (b, false)
answer_found b qid value source (some q) = answer_future b qid value source q q.future

-- `answer`.
unfoldable pub answer : Broker → String → String → String → Broker × Bool
unfolding answer_found get
answer b qid value source = answer_found b qid value source (get qid b.pending_questions)

abbrev pub or_else {ℓ} : {A : Type ℓ} → A → Option A → A
or_else a none = a
or_else a (some x) = x

-- `_record_resolve`.
unfoldable pub record_resolve :
    Broker → String → PendingQuestion → DecisionState → String → String → ℕ → Bool → Broker
unfolding record_decision get
record_resolve b qid q decision answer source now_wall records = record b {
  decision_store =
      record_decision records qid
        (record {
          session_id = q.session_id;
          request_id = q.request_id;
          question_preview = take 120 q.question;
          options = q.options;
          default_answer = q.default_answer;
          decision = decision;
          answer = some answer;
          source = some source;
          latency_ms = now_wall - or_else now_wall (get qid b.publish_ts);
          ts = now_wall;
        })
        b.decision_store;
}

-- The `finally` of `wait`.
unfoldable pub clean_up : Broker → String → Broker
unfolding pop
clean_up b qid = record b {
  pending_questions = pop qid b.pending_questions;
  publish_ts = pop qid b.publish_ts;
  answer_source = pop qid b.answer_source;
}

abbrev pub time_out : Broker → String → PendingQuestion → ℕ → Bool → Broker × Option String
unfolding clean_up record_resolve
time_out b qid q now_wall records = (
  clean_up
      (record_resolve (record b { timed_out_total = suc b.timed_out_total }) qid q timed_out
        q.default_answer "timeout" now_wall records)
      qid,
  some q.default_answer,
)

abbrev pub resolve : Broker → String → PendingQuestion → ℕ → Bool → Future → Broker × Option String
unfolding clean_up record_resolve get time_out
resolve b qid q now_wall records (done value) = (
  clean_up
      (record_resolve (record b { answered_total = suc b.answered_total }) qid q answered value
        (or_else "ws" (get qid b.answer_source)) now_wall records)
      qid,
  some value,
)
resolve b qid q now_wall records absent = time_out b qid q now_wall records
resolve b qid q now_wall records waiting = time_out b qid q now_wall records

abbrev pub end_found : Broker → String → ℕ → Bool → Option PendingQuestion → Broker × Option String
unfolding resolve
end_found b qid now_wall records none = (b, none)
end_found b qid now_wall records (some q) = resolve b qid q now_wall records q.future

-- `wait` from where the future is done, or its time is over.
unfoldable pub end_wait : Broker → String → ℕ → Bool → Broker × Option String
unfolding end_found get
end_wait b qid now_wall records = end_found b qid now_wall records (get qid b.pending_questions)

-- A `wait` that is cancelled.
abbrev pub cancel_wait : Broker → String → Broker
unfolding clean_up
cancel_wait b qid = clean_up b qid
