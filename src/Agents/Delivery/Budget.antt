-- ===== src/Agents/Delivery/Budget.antt =====
-- harness/agents/outbound.py: how the attempts of a delivery end, and what they cost at most.
use harness_solomon.Base.{
  ℕ, zero, suc, ◌+◌, ◌*◌, ◌≤◌, Bool, true, false, List, [], ◌∷◌, if◌then◌else◌, ◌≡◌, refl, arith,
}
use harness_solomon.Base.Text.{Text}
use harness_solomon.Agents.Delivery.Attempts.{
  Answer, answered, timed_out, http_error, unexpected, http_status, Outcome, delivered, gave_up,
  broken_off, Verdict, final, retry, is_success, is_client_error, judge, Retries, Run, pause,
  decided, attempts_from, attempts,
}

-- Whether the first answer that settles a delivery, if any does, accepts it.
abbrev pub accepts : List Answer → Bool
accepts [] = false
accepts (answered status text ∷ rest) =
    if is_success status then true else if is_client_error status then false else accepts rest
accepts (timed_out e ∷ rest) = accepts rest
accepts (http_error e ∷ rest) = accepts rest
accepts (unexpected e ∷ rest) = false

-- Whether they end without a success and without an exception that the loop does not catch.
abbrev pub refuses : List Answer → Bool
refuses [] = true
refuses (answered status text ∷ rest) =
    if is_success status then false else if is_client_error status then true else refuses rest
refuses (timed_out e ∷ rest) = refuses rest
refuses (http_error e ∷ rest) = refuses rest
refuses (unexpected e ∷ rest) = false

abbrev pub answers : (ℕ → Answer) → ℕ → ℕ → List Answer
answers post zero i = []
answers post (suc n) i = post i ∷ answers post n (suc i)

abbrev pub is_delivered : Outcome → Bool
is_delivered delivered = true
is_delivered (gave_up e) = false
is_delivered (broken_off e) = false

abbrev pub is_refused : Outcome → Bool
is_refused delivered = false
is_refused (gave_up e) = true
is_refused (broken_off e) = false

decided-accepts :
    (a : Answer) (slept : ℕ) (next : Text → Run) (rest : List Answer)
    → ((e : Text) → is_delivered (next e).outcome ≡ accepts rest)
    → is_delivered (decided (judge a) slept next).outcome ≡ accepts (a ∷ rest)
unfolding judge
decided-accepts (answered status text) slept next rest h =
    ground (arith, h (http_status status text))
decided-accepts (timed_out e) slept next rest h = h _
decided-accepts (http_error e) slept next rest h = h _
decided-accepts (unexpected e) slept next rest h = refl

decided-refuses :
    (a : Answer) (slept : ℕ) (next : Text → Run) (rest : List Answer)
    → ((e : Text) → is_refused (next e).outcome ≡ refuses rest)
    → is_refused (decided (judge a) slept next).outcome ≡ refuses (a ∷ rest)
unfolding judge
decided-refuses (answered status text) slept next rest h =
    ground (arith, h (http_status status text))
decided-refuses (timed_out e) slept next rest h = h _
decided-refuses (http_error e) slept next rest h = h _
decided-refuses (unexpected e) slept next rest h = refl

pub attempts_from-accepts :
    (r : Retries) (jitter : ℕ → ℕ) (post : ℕ → Answer) (left attempt : ℕ) (last_err : Text)
    → is_delivered (attempts_from r jitter post left attempt last_err).outcome
      ≡ accepts (answers post left attempt)
unfolding attempts_from
attempts_from-accepts r jitter post zero attempt last_err = refl
attempts_from-accepts r jitter post (suc left) attempt last_err =
    decided-accepts (post attempt) (pause r jitter attempt)
      (λ e. attempts_from r jitter post left (suc attempt) e) (answers post left (suc attempt))
      (λ e. attempts_from-accepts r jitter post left (suc attempt) e)

pub attempts_from-refuses :
    (r : Retries) (jitter : ℕ → ℕ) (post : ℕ → Answer) (left attempt : ℕ) (last_err : Text)
    → is_refused (attempts_from r jitter post left attempt last_err).outcome
      ≡ refuses (answers post left attempt)
unfolding attempts_from
attempts_from-refuses r jitter post zero attempt last_err = refl
attempts_from-refuses r jitter post (suc left) attempt last_err =
    decided-refuses (post attempt) (pause r jitter attempt)
      (λ e. attempts_from r jitter post left (suc attempt) e) (answers post left (suc attempt))
      (λ e. attempts_from-refuses r jitter post left (suc attempt) e)

-- A run costs at most `n` posts, and `s` ticks of sleep.
abbrev pub Costs : ℕ → ℕ → Run → Type 0
Costs n s run = (run.posts ≤ n) × (run.slept ≤ s)

decided-Costs :
    (v : Verdict) (slept n s : ℕ) (next : Text → Run)
    → ((e : Text) → Costs n s (next e))
    → Costs (suc n) (slept + s) (decided v slept next)
decided-Costs (final o) slept n s next h = (omega arith, omega arith)
decided-Costs (retry e) slept n s next h = ground (arith, h e)

pub pause-le :
    (r : Retries) (jitter : ℕ → ℕ) (attempt j : ℕ)
    → ((i : ℕ) → jitter i ≤ j)
    → pause r jitter attempt ≤ r.backoff_max_s + j
unfolding pause
pause-le r jitter attempt j h = ground (arith, h attempt)

pause-last :
    (r : Retries) (jitter : ℕ → ℕ) (attempt : ℕ)
    → r.max_retries ≤ attempt
    → pause r jitter attempt + 0 ≤ 0
unfolding pause
pause-last r jitter attempt h = ground arith

-- The attempts that are left cost a post each, and a pause each but for the last.
attempts_from-Costs :
    (r : Retries) (jitter : ℕ → ℕ) (post : ℕ → Answer) (left attempt j : ℕ) (last_err : Text)
    → ((i : ℕ) → jitter i ≤ j)
    → attempt + left ≡ r.max_retries
    → Costs
        (suc left)
        (left * (r.backoff_max_s + j))
        (attempts_from r jitter post (suc left) attempt last_err)
unfolding attempts_from
attempts_from-Costs r jitter post zero attempt j last_err h e =
    let c =
      decided-Costs (judge (post attempt)) (pause r jitter attempt) 0 0
        (λ e'. attempts_from r jitter post 0 (suc attempt) e') (λ e'. (omega arith, omega arith)) in
    (c.0, omega (arith, c.1, pause-last r jitter attempt (omega (arith, e))))
attempts_from-Costs r jitter post (suc left) attempt j last_err h e =
    let c =
      decided-Costs (judge (post attempt)) (pause r jitter attempt) (suc left)
        (left * (r.backoff_max_s + j))
        (λ e'. attempts_from r jitter post (suc left) (suc attempt) e')
        (λ e'. attempts_from-Costs r jitter post left (suc attempt) j e' h (omega (arith, e))) in
    (c.0, omega (arith, c.1, pause-le r jitter attempt j h))

-- A delivery makes at most `max_retries + 1` posts, and sleeps for at most `max_retries` pauses, each of
-- `backoff_max_s` and the jitter; it succeeds exactly if, of the answers that the url would give to so
-- many posts, the first that is a success, a client error or an exception other than an HTTPError is a
-- success.
pub attempts_lem :
    (r : Retries) (jitter : ℕ → ℕ) (post : ℕ → Answer) (j : ℕ)
    → ((i : ℕ) → jitter i ≤ j)
    → ((attempts r jitter post).posts ≤ suc r.max_retries)
      × ((attempts r jitter post).slept ≤ r.max_retries * (r.backoff_max_s + j))
      × (is_delivered (attempts r jitter post).outcome
          ≡ accepts (answers post (suc r.max_retries) 0))
unfolding attempts
attempts_lem r jitter post j h =
    let c = attempts_from-Costs r jitter post r.max_retries 0 j [] h (omega arith) in
    (c.0, c.1, attempts_from-accepts r jitter post (suc r.max_retries) 0 [])
