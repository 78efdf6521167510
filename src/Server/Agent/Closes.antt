-- ===== src/Server/Agent/Closes.antt =====
-- harness/server/agent/loop.py: how the events of a run end, and why.
use harness_solomon.Base.{ℕ, suc, Bool, true, false, List, [], ◌∷◌, ◌++◌, ◌≡◌, ◌⊎◌}
use harness_solomon.Base.Text.{Text, codes}
use harness_solomon.Server.Agent.Stream.{raised}
use harness_solomon.Server.Agent.Chat.{ChatMessage, Args, fails, World}
use harness_solomon.Server.Agent.Loop.{
  AgentEvent, token, assistant_message, tool_result, error, done, End, finished, capped, failed,
  aborted, Progress, Asked, replied, stream_error, raises,
}

-- The errors and the `done`s among the events.
abbrev pub closers : List AgentEvent → ℕ
closers [] = 0
closers (token t ∷ es) = closers es
closers (assistant_message content usage ∷ es) = closers es
closers (tool_result content id name args ok ∷ es) = closers es
closers (error e ∷ es) = suc (closers es)
closers (done ∷ es) = suc (closers es)

-- The events are others without an error and a `done`, and then these.
abbrev pub EndsWith : List AgentEvent → List AgentEvent → Type 0
EndsWith last es = (front : List AgentEvent) × (es ≡ front ++ last) × (closers front ≡ 0)

-- The last message is one of the assistant without tool calls.
abbrev pub EndsPlain : List ChatMessage → Type 0
EndsPlain ms =
    (front : List ChatMessage) × (m : ChatMessage) × (ms ≡ front ++ m ∷ [])
    × (m.role ≡ "assistant")
    × (m.tool_calls ≡ [])

module _ (w : World) (use_streaming : Bool) where
  -- The model or a tool has raised an exception for these messages.
  abbrev pub Raises : Text → List ChatMessage → Type 0
  Raises e ms =
      ((use_streaming ≡ false) × (w.complete ms ≡ fails e))
      ⊎ ((name : Text) × (args : Args) × (w.execute ms name args ≡ fails e))

  -- What the end is due to, and the events before the run is closed.
  abbrev IsOpen : End → List AgentEvent → List ChatMessage → Type 0
  IsOpen finished es ms = (closers es ≡ 0) × EndsPlain ms
  IsOpen capped es ms = closers es ≡ 0
  IsOpen (failed e) es ms = (closers es ≡ 0) × Raises e ms
  IsOpen aborted es ms =
      (use_streaming ≡ true) × ((e : Text) × (w.stream ms ≡ raised e) × EndsWith (error e ∷ []) es)

  abbrev Open : Progress → Type 0
  Open p = IsOpen p.end p.events p.messages

  -- What `ask` gives for these messages.
  abbrev IsAsked : List ChatMessage → List AgentEvent × Asked → Type 0
  IsAsked ms (es, replied content calls usage) = closers es ≡ 0
  IsAsked ms (es, stream_error x) =
      (use_streaming ≡ true) × ((e : Text) × (w.stream ms ≡ raised e) × EndsWith (error e ∷ []) es)
  IsAsked ms (es, raises e) = (closers es ≡ 0) × (use_streaming ≡ false) × (w.complete ms ≡ fails e)

  -- What an end is due to, and the events that it closes the run with.
  abbrev pub HasEnd : End → List AgentEvent → List ChatMessage → Type 0
  HasEnd finished es ms = EndsWith (done ∷ []) es × EndsPlain ms
  HasEnd capped es ms = EndsWith (error (codes "max iterations reached") ∷ done ∷ []) es
  HasEnd (failed e) es ms = EndsWith (error e ∷ done ∷ []) es × Raises e ms
  HasEnd aborted es ms =
      (use_streaming ≡ true) × ((e : Text) × (w.stream ms ≡ raised e) × EndsWith (error e ∷ []) es)
