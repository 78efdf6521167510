-- ===== src/Agents/Delivery/Attempts.antt =====
-- harness/agents/outbound.py: the loop of attempts in `_deliver_one`. What the url answers to each
-- attempt, and the jitter of each pause, are functions of the attempt; times are whole ticks.
use harness_solomon.Base.{
  ℕ, zero, suc, ◌+◌, ◌*◌, min, Bool, [], ◌++◌, ltb, leb, ◌&&◌, if◌then◌else◌, take,
}
use harness_solomon.Base.Text.{Text, codes}
use harness_solomon.Base.Decimal.{decimal}
use Prim.Native.Nat.{◌^◌}

-- What `self._client.post` does: a response, with its status and text, a TimeoutException, another
-- HTTPError, or an exception that the loop does not catch.
pub data Answer : Type 0 where
  answered : ℕ → Text → Answer
  timed_out : Text → Answer
  http_error : Text → Answer
  unexpected : Text → Answer

pub data Outcome : Type 0 where
  delivered : Outcome
  gave_up : Text → Outcome
  broken_off : Text → Outcome

pub data Verdict : Type 0 where
  final : Outcome → Verdict
  retry : Text → Verdict

-- `200 <= status < 300` and `400 <= status < 500`.
abbrev pub is_success : ℕ → Bool
is_success status = leb 200 status && ltb status 300

abbrev pub is_client_error : ℕ → Bool
is_client_error status = leb 400 status && ltb status 500

unfoldable pub http_status : ℕ → Text → Text
unfolding decimal
http_status status text = codes "http " ++ decimal status ++ codes ": " ++ take 200 text

-- One turn of the loop, with `last_err`.
unfoldable pub judge : Answer → Verdict
judge (answered status text) =
    if is_success status
    then final delivered
    else if is_client_error status
    then final (gave_up (http_status status text))
    else retry (http_status status text)
judge (timed_out e) = retry (codes "timeout: " ++ e)
judge (http_error e) = retry (codes "http_error: " ++ e)
judge (unexpected e) = final (broken_off e)

pub record Retries : Type 0 where
  pub max_retries : ℕ
  pub backoff_initial_s : ℕ
  pub backoff_max_s : ℕ
  pub jitter_s : ℕ

-- How the loop ends, after how many posts, and how long it has slept.
pub record Run : Type 0 where
  pub outcome : Outcome
  pub posts : ℕ
  pub slept : ℕ

-- The pause behind an attempt that is not the last.
unfoldable pub pause : Retries → (ℕ → ℕ) → ℕ → ℕ
pause r jitter attempt =
    let backoff = min (r.backoff_initial_s * 2 ^ attempt) r.backoff_max_s in
    if ltb attempt r.max_retries
    then if ltb 0 r.jitter_s then backoff + jitter attempt else backoff
    else 0

abbrev pub after_post : ℕ → Run → Run
after_post slept run = record {
  outcome = run.outcome;
  posts = suc run.posts;
  slept = slept + run.slept;
}

abbrev pub decided : Verdict → ℕ → (Text → Run) → Run
decided (final o) slept next = record { outcome = o; posts = 1; slept = 0 }
decided (retry e) slept next = after_post slept (next e)

-- The loop from `attempt` on, with `left` attempts to go.
unfoldable pub attempts_from : Retries → (ℕ → ℕ) → (ℕ → Answer) → ℕ → ℕ → Text → Run
unfolding judge pause
attempts_from r jitter post zero attempt last_err = record {
  outcome = gave_up last_err;
  posts = 0;
  slept = 0;
}
attempts_from r jitter post (suc left) attempt last_err =
    decided (judge (post attempt)) (pause r jitter attempt)
      (λ e. attempts_from r jitter post left (suc attempt) e)

-- `for attempt in range(self.max_retries + 1)`.
unfoldable pub attempts : Retries → (ℕ → ℕ) → (ℕ → Answer) → Run
unfolding attempts_from
attempts r jitter post = attempts_from r jitter post (suc r.max_retries) 0 []
