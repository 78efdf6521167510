-- ===== src/Lib.antt =====
-- HarnessSolomon: a model of parts of the Python package harness, and what is proved of them.
--
-- Hooks (harness/hooks). A caller fires an event with a HookContext. HookRunner (Hooks.Runner) takes
-- the hooks that HookRegistry (Hooks.Registry) has for the event and that their filter chains
-- (Hooks.Filter) accept, dispatches each (Hooks.Dispatch) behind HookRateLimiter (Hooks.Bucket) and
-- HookCircuitBreaker (Hooks.Breaker), and aggregates the decisions. Events, payloads, contexts and
-- decisions are in Hooks.Context. `fire`, `_fire_impl`, `_dispatch_one`, `_invoke_builtin` and
-- `safe_fire` are the functions `fire`, `fire_impl`, `dispatch_one`, `invoke_builtin` and `safe_fire`;
-- the objects that they change are passed on as state. What the hooks, the other processes and the
-- clocks answer is a record, World, that each definition takes.
--
-- Agents (harness/agents). `plan_splits` (Agents.PrSplit.Plan) groups the files of a diff by one of
-- the strategies of Agents.PrSplit.Group into the slices of a stack of pull requests. What it raises
-- is a value, PlanError. JobStore (Agents.Jobs) is the table of merge jobs, a list of rows, with
-- `create`, `update_status`, the queries and `recover_running`. WebhookHandler (Agents.Webhooks)
-- takes the events of GitHub: `handle_raw` (Agents.Webhooks.Inbound) checks the signature and records
-- each delivery once, and `dispatch_event` changes the jobs of the pull requests that the event names
-- and promotes the parent of a stack. The digest, the parsing of a payload, the ids, the clock and the
-- mergers that call `gh` are arguments. Agents.Outbound is the rest of WebhookEventStore: the urls that
-- events are sent to, with their rows of failures, and the dead letters; the calls about one url are
-- taken as not overlapping. Agents.Delivery is OutboundWebhookDispatcher over it (agents/outbound.py):
-- `fire`, which adds a task, `_deliver` and `_deliver_one` are `fire`, `deliver` and `deliver_one`, and the
-- loop of attempts is in Agents.Delivery.Attempts. Deliveries of tasks that overlap are not modelled:
-- `run_tasks` runs each task to its end before the next. Agents.Delivery.Resend is the route of
-- server/routes/observability_admin.py that replays a dead letter; what other requests do to the tables
-- while it awaits the url is an argument. Agents.RepoLocks is RepoLockRegistry (agents/repo_locks.py) as a
-- relation of steps that tasks take in any order.
--
-- Agents.Scratchpad is ScratchpadStore (agents/scratchpad_store.py): the notes of the agents, with
-- `write_note`, `read_notes`, `delete_note` and `promote_note`, and in Agents.Scratchpad.Plan the steps of
-- their plans. The loop that makes room in L0 has as much fuel as there are notes, which is enough
-- (Agents.Scratchpad.Room).
--
-- Server (harness/server). Server.Scopes has the scopes of auth/scopes.py with `parse_scopes`,
-- `format_scopes` and `has_scope`. Server.Tokens is TokenStore with its table of tokens (auth/tokens.py,
-- auth/db.py); `create`, `lookup` and `revoke_token` are the calls. Server.Tokens.Access has
-- `get_current_token` and `require_scope` of auth/deps.py, which answer a request from the header and
-- the table. The digest is an argument; each call is one step.
--
-- Server.Agent is the loop between the model and the tools: AgentLoop.run (server/agent/loop.py) is `run`
-- in Server.Agent.Loop, with `iterate` for its iterations, `ask` for a call of the model and `execute_all`
-- for the tools; messages and arguments are in Server.Agent.Chat, and Server.Agent.Stream is
-- `streaming_completion` of LLMRouter (server/llm/router.py). What the model and the tools answer is a
-- function of the conversation so far, in a record World. Server.Agent.Offload is ToolOffloader
-- (server/agent/tool_offloader.py), which keeps long results in the scratchpad; the loop takes it as an
-- argument. The iterations are recursion on `max_iterations`, as in the code.
--
-- Elicitation (harness/elicitation.py) is ElicitationBroker with its pending questions over
-- ElicitationDecisionStore (Decisions): `publish`, `answer`, and `wait` in two steps, `begin_wait` up to
-- the await of the future and `end_wait` from there. Elicitation.Events has any sequence of these calls.
--
-- Context (harness/context). ContextCompactor (Context.Compactor, with `maybe_compact` and
-- `force_compact` in Context.Compactor.Calls) cuts a conversation to a window (`_sliding_window`,
-- Context.Window) and puts a summary of what is gone into it, from the cache of CompactStore
-- (Context.CompactStore) or from a row of models. Context.Idle is the trigger of
-- agents/idle_trigger.py that calls it early. The lengths of messages as JSON, the fingerprint of a
-- conversation, what the models answer and what the hook decides are a record, Outside.
--
-- Base has the shared helpers: Boolean tests and equality as an instance, lists, dicts in insertion
-- order, text as a list of code points, sorting, decimal numerals, and fnmatch.
--
-- Times are whole ticks and amounts of tokens whole units, so the rounding of floats is left out.
-- Loops are recursion on the list that they walk. `str` of a number has fuel `n + 1`, which is enough
-- since each step divides by ten (Base.Decimal). The tasks of `asyncio.gather` run one after another.
--
-- Not modelled: the other transports of hooks, their configuration files and schemas, metrics, logs and
-- audits, which only pass values on; the runners of agents, the merge queue, plugins and most routes of
-- the server, which mostly call other processes and libraries; memory and privacy; the command line.
mod Base
pub mod Agents
pub mod Context
pub mod Decisions
pub mod Elicitation
pub mod Hooks
pub mod Server
