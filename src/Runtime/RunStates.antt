-- ===== src/Runtime/RunStates.antt =====
-- The states of a run as an abstract machine, and the sessions that act on runs, in any order: those
-- of run_lifecycle.py, the decisions on approvals, the results and events that runners report, the
-- pause of a tool call (tools/gateway.py), and the end of a run whose approved call has failed
-- (dispatcher.py). Two more places write `run.status` and are not among them: the pause of a script
-- in runner_gateway_service.py, and harness.py, which assigns a status without a test of the one
-- before.
pub mod Moves
pub mod Sessions
pub mod Decisions
pub mod Failures
pub mod Pauses
pub mod Refines
use intelligent_agent_platfo.Base.{
  ℕ, ◌≡◌, ◌⊎◌, Bool, true, false, not, Option, none, some, List, [], ◌∷◌,
}
use intelligent_agent_platfo.Effects.{Result, transaction}
use intelligent_agent_platfo.Database.{
  Text, Time, Store, AgentRun, RunStatus, queued, running, waiting_approval, ErrorCode,
  CleanupStatus, Event, is_terminal,
}
use intelligent_agent_platfo.Runtime.Lifecycle.{
  start, finish, record_cleanup, revoke_for_terminal_run,
}
use intelligent_agent_platfo.Runtime.RunnerGateway.Completion.{
  CompletionRequest, CompletionScope, complete,
}
use intelligent_agent_platfo.Runtime.RunnerGateway.Events.{EventAppendRequest, append_runner_event}
use intelligent_agent_platfo.Runtime.Lifecycle.Frame.{is_verdict}
use intelligent_agent_platfo.Tools.Gateway.{Tool, ToolCall, ToolExecutionContext, ToolServices}
use intelligent_agent_platfo.Tools.Gateway.Execution.{request_approval}
use intelligent_agent_platfo.Conversations.Dispatcher.{fail_approved_run}
use intelligent_agent_platfo.Approvals.{RequestContext, approve_route, reject_route}

-- One step of the machine: a run is launched from the queue, put back into it after an approval,
-- set aside until an approval, or ended.
pub data Step : RunStatus → RunStatus → Type 0 where
  launched : Step queued running
  released : Step waiting_approval queued
  paused : {a : RunStatus} → is_terminal a ≡ false → Step a waiting_approval
  ended : {a b : RunStatus} → is_terminal a ≡ false → is_terminal b ≡ true → Step a b

pub data Reachable : RunStatus → RunStatus → Type 0 where
  here : {a : RunStatus} → Reachable a a
  there : {a b c : RunStatus} → Step a b → Reachable b c → Reachable a c

-- How a run can end.
pub data Verdict : Type 0 where
  completed failed cancelled : Verdict

abbrev pub final_status : Verdict → RunStatus
final_status Verdict.completed = RunStatus.completed
final_status Verdict.failed = RunStatus.failed
final_status Verdict.cancelled = RunStatus.cancelled

pub data Operation : Type 0 where
  start_run : Text → Operation
  finish_run : Text → Verdict → Option ErrorCode → Bool → Time → Operation
  complete_run :
      (CompletionRequest → Text) → CompletionScope → Text → CompletionRequest → Text → Operation
  approve_call : (Text → Text) → Text → RequestContext → Option Text → Time → Operation
  reject_call : Text → RequestContext → Option Text → Time → Operation
  send_event :
      (Event → Option ℕ)
      → ℕ
      → (EventAppendRequest → Text)
      → Text
      → EventAppendRequest
      → Text
      → Operation
  pause_call : ToolServices → ToolCall → Tool → ToolExecutionContext → ℕ → Operation
  fail_call : Text → ErrorCode → Operation
  note_cleanup : Text → CleanupStatus → Operation
  revoke_tokens : Text → Time → Operation

unfoldable pub perform : Operation → Store → Store
perform (start_run run_id) s = (start run_id s).1
perform (finish_run run_id verdict code allow now) s =
    (finish run_id (final_status verdict) code allow now s).1
perform (complete_run digest scope run_id request key) s =
    (complete digest scope run_id request key s).1
perform (approve_call digest approval_id context reason now) s =
    (approve_route digest approval_id context reason now s).1
perform (reject_call approval_id context reason now) s =
    (reject_route approval_id context reason now s).1
perform (send_event encoded max_bytes digest run_id request key) s =
    (append_runner_event encoded max_bytes digest run_id request key s).1
perform (pause_call services call tool context n) s =
    (transaction (request_approval services call tool context n) s).1
perform (fail_call run_id code) s = (fail_approved_run run_id code s).1
perform (note_cleanup run_id outcome) s = (record_cleanup run_id outcome s).1
perform (revoke_tokens run_id now) s = (revoke_for_terminal_run run_id now s).1

-- A runner's event is not a `run.status` of a final status, which would forge an end.
abbrev pub is_honest : Operation → Bool
is_honest (send_event encoded max_bytes digest run_id request key) = not (is_verdict request.event)
is_honest _ = true

-- The operations in their order.
unfoldable pub perform_all : List Operation → Store → Store
unfolding perform
perform_all [] s = s
perform_all (operation ∷ rest) s = perform_all rest (perform operation s)
