-- ===== src/Lib.antt =====
-- The backend of the intelligent agent platform: conversations start runs of agents and of teams,
-- each run is executed in a sandbox that a separate launcher creates, tools of a certain risk wait
-- for the approval of a second person, and what happens is written to an event log that clients
-- resume from and to an audit table.
--
-- The parts and their files (sources are below backend/app/):
-- - Base, with Base/Lists: numbers, tests and list operations that all parts share.
-- - Effects: code that reads and writes a store and may raise. `transaction` is a session that
--   commits where it returns and rolls back where it raises. Its child modules have the rules to
--   reason about it: Hoare (both outcomes), Total (it returns), Inversion (what a success says),
--   Stays (what is kept where nothing is rolled back).
-- - Database: the tables (conversations/models.py, approvals/models.py, audit/models.py, the
--   revocations of runtime/run_tokens.py, and in Database/Requests what runners write) and the
--   exceptions. Identifiers, names and JSON values
--   are numbers, 0 being the empty text; times are microseconds.
-- - Audit (audit/recorder.py): `AuditRecorder.record`, once for each key.
-- - Conversations (conversations/repository.py): the log of a run, `append_event`, `list_events`
--   and the look-ups.
-- - Runtime/RunTokens (runtime/run_tokens.py): `RunTokenService` with `issue`, `verify`, `revoke`.
-- - Runtime/ScriptLifecycle (runtime/script_lifecycle.py): closing the scripts of a run that ends.
-- - Runtime/Lifecycle (runtime/run_lifecycle.py): the sessions of `SandboxRunCoordinator`; `start`
--   is `_start`, `finish` is `_finish`, `record_cleanup` is the last session of `_cleanup`, and
--   `revoke_for_terminal_run` and the two queries of the recovery are called as in the source.
-- - Runtime/Coordinator (the same source): `execute`, `recover`, `cancel` and `cleanup`, which
--   alternate these sessions with calls of the runner and readings of clocks.
-- - Runtime/TeamGraph (runtime/team_graph.py): TeamGraph/Plan has `validate_team_plan` and
--   `parallel_width`. `schedule_ready_tasks`, which tasks of a team plan
--   run next.
-- - Runtime/CheckpointStore (runtime/checkpoint_store.py): `CheckpointStore`; `save_any` is `_save`.
--   `RunnerRequestStore` is in Runtime/RunnerGateway.
-- - Runtime/DeadlineCommit (runtime/deadline_commit.py): a change of status made at the commit.
-- - Runtime/RunnerGateway (runtime/runner_gateway_service.py): what a sandbox asks of the platform.
--   Events is `append_event`, Checkpoints `save_checkpoint` and `get_latest_checkpoint`, Completion
--   `complete`; `once` is the lock of the run and the replay of a stored request that they share.
-- - Approvals (approvals/service.py, approvals/router.py): asking, approving and rejecting.
-- - Conversations/Dispatcher (conversations/dispatcher.py): the failure of an approved call.
-- - Runtime/RunStates: the states of a run as an abstract machine, and the sessions that refine it:
--   those of the lifecycle, the approvals, the runner gateway, the pause of a tool call and the
--   failure of an approved one. The pause of a script and harness.py write `run.status` too, and
--   are not among them.
-- - Tools/Summary (tools/gateway.py): `summarize`, what is stored of arguments and results.
-- - Tools/Gateway (tools/gateway.py): `ToolGateway.execute`; Terminal is how an outcome is stored,
--   with `_commit_finished` and its compensation, Execution is `execute` and `_pause_for_approval`.
-- - Identity (identity/authorization.py, audit/policy.py): permission grants and what they permit.
-- - Tests: small databases, and every result at a concrete input.
--
-- The coordinator uses the lifecycle, which uses the repository, the audit recorder, the tokens and
-- the scripts; approvals put a run back into the queue, which the coordinator starts again.
--
-- A session is atomic: its writes are seen at its end, and none of them if it raises. Between two
-- sessions of the coordinator any other session may write: `Environment.others` is an arbitrary
-- function, and so are the clocks and the answers of the runner. `ToolServices` does the same for
-- the gateway of tools, where `others` writes before each session.
--
-- Bounds and fuel: the polling loop of the coordinator takes fuel, one unit for a round, and ends
-- with `polling` where it has none left; Polling and Termination say which fuel is enough. The two
-- loops of TeamGraph/Plan take the number of the tasks as fuel; Plan/Rounds says that it is enough.
-- All other loops run over lists.
--
-- Not modelled: the contents of events, messages and audit summaries that no modelled code reads
-- back; the signature of tokens, JSON and SHA-256, which are parameters; the HTTP routes but for
-- the two that decide approvals; locks, and rows that two open sessions write at a time; the code
-- inside the sandbox, the launcher, artifacts, skills, MCP, model providers, agents, collaboration
-- and the administration of identities.
pub mod Base
pub mod Effects
pub mod Database
pub mod Audit
pub mod Conversations
pub mod Identity
pub mod Runtime
pub mod Approvals
pub mod Tools
pub mod Tests
