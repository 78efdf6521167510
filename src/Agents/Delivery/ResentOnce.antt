-- ===== src/Agents/Delivery/ResentOnce.antt =====
-- harness/server/routes/observability_admin.py: the replays of a dead letter, one after another.
use harness_solomon.Base.{
  ℕ, ◌+◌, ◌≤◌, Bool, true, false, Option, none, some, List, [], ◌∷◌, ◌==◌, nat_eq, nat_beq_iff,
  ◌&&◌, if◌then◌else◌, ◌≡◌, refl, sym, subst, if-ind, arith,
}
use harness_solomon.Base.Text.{Text}
use harness_solomon.Agents.Outbound.{DlqEntry, Tables, is_null, find_dlq, mark_dlq_replayed}
use harness_solomon.Agents.Outbound.Replay.{pending, mark_rows-pending}
use harness_solomon.Agents.Delivery.Attempts.{
  Answer, answered, timed_out, http_error, unexpected, is_success,
}
use harness_solomon.Agents.Delivery.Resend.{
  Resent, Reply, not_found, already_replayed, resent, raised, resend, after_resend, replay_found,
  replay,
}

-- The url has accepted what was sent.
abbrev pub is_accepted : Reply → Bool
is_accepted not_found = false
is_accepted already_replayed = false
is_accepted (resent replayed status) = is_success status
is_accepted raised = false

abbrev pub is_sent : Option Resent → Bool
is_sent none = false
is_sent (some r) = true

-- What `find_dlq` finds is an entry of that id.
abbrev Found : ℕ → List DlqEntry → Option DlqEntry → Type 0
Found i es none = Unit
Found i es (some e) = (e.id ≡ i) × (is_null e.replayed_at ≡ true → pending i es ≡ true)

Found-cons :
    (i : ℕ) (e : DlqEntry) (es : List DlqEntry) (o : Option DlqEntry)
    → Found i es o
    → Found i (e ∷ es) o
Found-cons i e es none h = tt
Found-cons i e es (some f) (same, h) = (same, λ n. ground (arith, h n))

find_dlq-Found : (i : ℕ) (es : List DlqEntry) → Found i es (find_dlq i es)
unfolding find_dlq
find_dlq-Found i [] = tt
find_dlq-Found i (e ∷ es) =
    if-ind (λ (o : Option DlqEntry). Found i (e ∷ es) o) (e.id == i)
      (λ same. ((nat_beq_iff e.id i).0 same, λ open_entry. ground arith))
      (λ other. Found-cons i e es (find_dlq i es) (find_dlq-Found i es))

module _ (environ : Text → Option Text) (d : ℕ) where
  -- One replay leaves pending what was, but for an entry that is accepted.
  abbrev Step : ℕ → Tables → Tables × Reply × Option Resent → Type 0
  Step i t (t', reply, sent) =
      (pending d t'.dlq ≡ (if i == d && is_accepted reply then false else pending d t.dlq))
      × ((i == d && is_accepted reply) ≡ true → pending d t.dlq ≡ true)
      × ((i == d && is_sent sent) ≡ true → pending d t.dlq ≡ true)

  -- An entry is resent.
  after_resend-Step :
      (t : Tables) (e : DlqEntry) (a : Answer) (now : ℕ)
      → pending e.id t.dlq ≡ true
      → (sent : Resent)
      → let (t', reply) = after_resend environ t e a now in Step e.id t (t', reply, some sent)
  unfolding after_resend mark_dlq_replayed
  after_resend-Step t e (answered status text) now p sent =
      ground (arith, mark_rows-pending d e.id now t.dlq, nat_beq_iff e.id d)
  after_resend-Step t e (timed_out x) now p sent = ground (arith, nat_beq_iff e.id d)
  after_resend-Step t e (http_error x) now p sent = ground (arith, nat_beq_iff e.id d)
  after_resend-Step t e (unexpected x) now p sent = ground (arith, nat_beq_iff e.id d)

  -- Nothing happens to the tables meanwhile.
  abbrev alone : Tables → Tables
  alone t = t

  replay_found-Step :
      (post : Resent → Answer) (t : Tables) (i now : ℕ) (o : Option DlqEntry)
      → Found i t.dlq o
      → Step i t (replay_found environ post alone t now o)
  unfolding replay_found
  replay_found-Step post t i now none h = ground arith
  replay_found-Step post t i now (some e) (same, h) =
      if-ind (λ (r : Tables × Reply × Option Resent). Step i t r) (is_null e.replayed_at)
        (λ open_entry.
          subst
            (λ (k : ℕ). Step k t (
              (after_resend environ t e (post (resend environ t e)) now).0,
              (after_resend environ t e (post (resend environ t e)) now).1,
              some (resend environ t e),
            ))
            same
            (after_resend-Step t e (post (resend environ t e)) now
              (subst (λ (k : ℕ). pending k t.dlq ≡ true) (sym same) (h open_entry))
              (resend environ t e)))
        (λ _. ground arith)

  -- The requests, one after another, each with what the url would answer and the time; how often the entry is accepted, and
  -- how often it is sent.
  pub replays : Tables → List (ℕ × (Resent → Answer) × ℕ) → ℕ × ℕ
  replays t [] = (0, 0)
  replays t ((i, post, now) ∷ requests) =
      let (t', reply, sent) = replay environ post alone t i now in
      let (accepted, posts) = replays t' requests in
      (
        (if i == d && is_accepted reply then 1 else 0) + accepted,
        (if i == d && is_sent sent then 1 else 0) + posts,
      )

  replay-Step :
      (post : Resent → Answer) (t : Tables) (i now : ℕ)
      → Step i t (replay environ post alone t i now)
  unfolding replay
  replay-Step post t i now =
      replay_found-Step post t i now (find_dlq i t.dlq) (find_dlq-Found i t.dlq)

  -- Whatever entries are replayed in whatever order, each request ending before the next begins, and
  -- whatever the urls answer, an entry is accepted at most once; and if it is not there, or was replayed before, it is not sent at all.
  pub resent_once :
      (t : Tables) (requests : List (ℕ × (Resent → Answer) × ℕ))
      → ((replays t requests).0 ≤ 1)
        × (pending d t.dlq ≡ false → ((replays t requests).0 ≡ 0) × ((replays t requests).1 ≡ 0))
  unfolding replays
  resent_once t [] = (omega arith, λ _. (refl, refl))
  resent_once t ((i, post, now) ∷ requests) =
      let step = replay-Step post t i now in
      let rest = resent_once (replay environ post alone t i now).0 requests in
      counted (i == d && is_accepted (replay environ post alone t i now).1)
        (i == d && is_sent (replay environ post alone t i now).2) (pending d t.dlq)
        (pending d (replay environ post alone t i now).0.dlq) step.0 step.1 step.2 rest.0 rest.1
    where
      counted :
          (accepted sent before after : Bool) {n m : ℕ}
          → after ≡ (if accepted then false else before)
          → (accepted ≡ true → before ≡ true)
          → (sent ≡ true → before ≡ true)
          → n ≤ 1
          → (after ≡ false → (n ≡ 0) × (m ≡ 0))
          → ((if accepted then 1 else 0) + n ≤ 1)
            × (before ≡ false
                → ((if accepted then 1 else 0) + n ≡ 0) × ((if sent then 1 else 0) + m ≡ 0))
      counted accepted sent before after p q r l h = ground arith
