-- ===== src/Decisions.antt =====
-- harness/elicitation.py: the history of decisions. The options of a row are those that its JSON text
-- stands for; times are milliseconds.
use harness_solomon.Base.{
  ℕ, min, max, String, Bool, true, false, Option, none, some, List, take, keep, not, ltb, ◌==◌,
  string_eq,
}
use harness_solomon.Base.Text.{Text}
use harness_solomon.Base.Dict.{Dict, put}
use harness_solomon.Base.Sort.{sort_by}

pub data DecisionState : Type 0 where
  pending answered timed_out : DecisionState

-- A row of elicitation_decisions; `decision_id` and `question_id` are its key.
pub record DecisionRecord : Type 0 where
  pub session_id : String
  pub request_id : Option String
  pub question_preview : Text
  pub options : List String
  pub default_answer : String
  pub decision : DecisionState
  pub answer : Option String
  pub source : Option String
  pub latency_ms : ℕ
  pub ts : ℕ

abbrev pub DecisionStore : Type 0
DecisionStore = Dict String DecisionRecord

-- `record_decision`, best effort: `records` is whether the write goes well.
unfoldable pub record_decision :
    Bool → String → DecisionRecord → Option DecisionStore → Option DecisionStore
unfolding put
record_decision records qid r none = none
record_decision false qid r (some rows) = some rows
record_decision true qid r (some rows) = some (put qid r rows)

abbrev pub of_session : Option String → DecisionRecord → Bool
of_session none r = true
of_session (some session_id) r = r.session_id == session_id

-- `query_history`: the newest first.
unfoldable pub query_history : DecisionStore → Option String → ℕ → List (String × DecisionRecord)
unfolding sort_by
query_history rows session_id limit =
    take (max 1 (min limit 10000))
      (sort_by (λ q r. not (ltb q.1.ts r.1.ts)) (keep (λ r. of_session session_id r.1) rows))
