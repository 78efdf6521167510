-- ===== src/Agents/Delivery/Unreachable.antt =====
-- harness/agents/outbound.py: a url that does not accept is served until it is parked.
use harness_solomon.Base.{
  ℕ, suc, ◌+◌, String, true, Option, none, some, List, [], ◌∷◌, ◌++◌, if◌then◌else◌, ◌≡◌,
}
use harness_solomon.Agents.Outbound.{Tables}
use harness_solomon.Agents.Delivery.Dispatcher.{Event, Dispatcher, World, Delivery}
use harness_solomon.Agents.Delivery.Budget.{refuses, answers}
use harness_solomon.Agents.Delivery.Rows.{letters}
use harness_solomon.Agents.Delivery.Settled.{Calm}
use harness_solomon.Agents.Delivery.Served.{attempted, IsFired, fired_alone}

-- Events, each fired when the deliveries of the one before have ended, with what is outside then.
pub fires : Dispatcher → Option Tables → List (World × Event) → Option Tables × List Delivery
fires d store [] = (store, [])
fires d store ((w, e) ∷ es) =
    let (store', ds) = fired_alone w d e store in
    let (rest, more) = fires d store' es in (rest, ds ++ more)

abbrev pub letters_of : String → Option Tables → ℕ
letters_of url none = 0
letters_of url (some t) = letters url t

-- An event that is fired while the url refuses all of its posts and no call of the store for it raises.
abbrev pub IsRefused : Dispatcher → String → World × Event → Type 0
IsRefused d url (w, e) =
    Calm w url
    × (refuses (answers (w.post url) (suc d.retries.max_retries) 0) ≡ true)
    × IsFired w d e

-- What the events come to: `n` deliveries to the url, each with a dead letter.
abbrev pub Comes : Dispatcher → String → ℕ → Tables → Option Tables × List Delivery → Type 0
Comes d url n t (store, ds) =
    (attempted url ds ≡ n)
    × (letters_of url store ≡ letters url t + (if d.dlq_enabled then n else 0))
