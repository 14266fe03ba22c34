-- ===== src/Tools/Gateway/Execution.antt =====
-- `ToolGateway.execute` and `_pause_for_approval` of backend/app/tools/gateway.py.
pub mod Sessions
pub mod Starting
pub mod Once
use intelligent_agent_platfo.Base.{
  ℕ, Bool, true, false, ◌&&◌, ◌||◌, not, Option, none, some, List, elem, ◌==◌, if◌then◌else◌,
  is_some,
}
use intelligent_agent_platfo.Effects.{
  Result, ok, err, Action, ◌>>=◌, ◌>>◌, gets, modify, pure, raise, or_raise, raise_if,
}
use intelligent_agent_platfo.Database.{
  Text, Time, Store, AgentRun, RunStatus, ToolInvocation, InvocationStatus, RiskLevel, ErrorCode,
  Event, Exception, Approval, tool_runtime_error, Db,
}
use intelligent_agent_platfo.Conversations.Repository.{
  append_event, get_run_by_id, get_tool_invocation,
}
use intelligent_agent_platfo.Runtime.Lifecycle.{set_status}
use intelligent_agent_platfo.Approvals.{RequestContext, create_request}
use intelligent_agent_platfo.Tools.Gateway.{
  ToolSource, Tool, ToolCall, ToolExecutionContext, ToolServices, Answer, World, Io, refuse_when,
  lock_active_run, insert_invocation, commit_started, session, carry_out, catch,
}
use intelligent_agent_platfo.Tools.Gateway.Terminal.{commit_finished}

pub record ToolExecutionResult : Type 0 where
  pub invocation_id : Text
  pub result : Text

abbrev pub is_mcp : ToolSource → Bool
is_mcp ToolSource.mcp = true
is_mcp _ = false

-- `risk_level in {"high", "critical"}`
abbrev pub is_risky : RiskLevel → Bool
is_risky RiskLevel.high = true
is_risky RiskLevel.critical = true
is_risky _ = false

abbrev pub needs_approval : Tool → Bool
needs_approval tool = tool.requires_approval || is_risky tool.risk_level

abbrev pub new_invocation :
    ToolCall → ToolExecutionContext → InvocationStatus → Text → Text → Time → ToolInvocation
new_invocation call context status arguments_summary fresh now = record {
  id = fresh;
  run_id = context.run_id;
  tool_call_id = call.id;
  tool_id = call.name;
  is_script = false;
  status = status;
  arguments_summary = arguments_summary;
  error_code = none;
  duration_ms = none;
  created_at = now;
  completed_at = none;
}

-- What `_validate` raises.
abbrev pub reject_invalid : Option ErrorCode → Io (Unit {0})
reject_invalid none = pure tt
reject_invalid (some code) = raise (tool_runtime_error code)

-- What `execute` makes of an error of `_commit_started`, given whether the call is on record.
abbrev pub start_error : Exception → Bool → Exception
start_error (Exception.tool_runtime_error ErrorCode.run_not_active) duplicate =
    tool_runtime_error ErrorCode.run_not_active
start_error Exception.integrity_error true = tool_runtime_error ErrorCode.tool_duplicate_call
start_error _ duplicate = tool_runtime_error ErrorCode.tool_execution_failed

module _ (services : ToolServices) where
  -- The outcome of the work: a value that has passed the output schema, or the code of an error.
  abbrev pub checked : Text → Option ErrorCode → Result ErrorCode Text
  checked v none = ok v
  checked v (some code) = err code

  abbrev pub outcome_of : Tool → Answer → Result ErrorCode Text
  outcome_of tool (Answer.value v) = checked v (services.check_output tool v)
  outcome_of tool (Answer.tool_error code) = err code
  outcome_of tool Answer.failure = err ErrorCode.tool_execution_failed

  abbrev pub paused_invocation : ToolCall → ToolExecutionContext → ℕ → ToolInvocation
  paused_invocation call context n =
      new_invocation call context InvocationStatus.waiting_approval
        (services.summarize call.arguments) (services.fresh n) (services.clock n 0)

  -- `ApprovalService.create_request` as it is called here.
  abbrev pub ask_approval : ToolCall → Tool → ToolExecutionContext → ℕ → AgentRun → Db Approval
  ask_approval call tool context n run =
      create_request services.digest run (paused_invocation call context n)
        (record {
          user_id = context.user_id;
          project_id = context.project_id;
          unit_id = context.unit_id;
          roles = context.actor_roles;
        })
        tool.risk_level none services.project_admin (services.fresh n) (services.clock n 1)

  -- The session of `_pause_for_approval`.
  unfoldable pub request_approval : ToolCall → Tool → ToolExecutionContext → ℕ → Db (Unit {0})
  unfolding lock_active_run insert_invocation set_status
  request_approval call tool context n = do
    run ← lock_active_run context.run_id
    insert_invocation (paused_invocation call context n)
    approval ← ask_approval call tool context n run
    append_event context.run_id
        (Event.approval_requested approval.id (paused_invocation call context n).id)
    modify (set_status (λ r. r.id == context.run_id) RunStatus.waiting_approval)
    append_event context.run_id (Event.run_status RunStatus.waiting_approval)

  -- `_pause_for_approval`
  unfoldable pub pause_for_approval :
      ToolCall → Tool → ToolExecutionContext → Io ToolExecutionResult
  unfolding session request_approval
  pause_for_approval call tool context = do
    session services (request_approval call tool context)
    raise (tool_runtime_error ErrorCode.approval_required)

  -- `invocation = ToolInvocation(…)` and `_commit_started` with its errors: the identifier.
  unfoldable pub start_call : ToolCall → ToolExecutionContext → Io Text
  unfolding session
  start_call call context = do
    fresh ← gets (λ w. services.fresh w.tick)
    catch
        (do
          session services λ n.
              commit_started
                (new_invocation call context InvocationStatus.started
                  (services.summarize call.arguments) fresh (services.clock n 0))
                context
          pure fresh)
        (λ e. do
          duplicate ← gets (λ w. is_some (get_tool_invocation context.run_id call.id w.store))
          raise (start_error e duplicate))

  -- The end of `execute`, by the outcome.
  abbrev pub finish_call :
      ToolExecutionContext → Text → ℕ → Result ErrorCode Text → Io ToolExecutionResult
  finish_call context invocation_id duration_ms (ok v) =
      commit_finished services context invocation_id none duration_ms
      >> pure (record { invocation_id = invocation_id; result = v })
  finish_call context invocation_id duration_ms (err code) =
      commit_finished services context invocation_id (some code) duration_ms
      >> raise (tool_runtime_error code)

  -- `execute` of a call that needs no approval.
  unfoldable pub run_call : ToolCall → Tool → ToolExecutionContext → Io ToolExecutionResult
  unfolding start_call carry_out
  run_call call tool context = do
    invocation_id ← start_call call context
    answer ← carry_out services context.run_id call.id
    duration_ms ← gets (λ w. services.duration_ms w.tick)
    finish_call context invocation_id duration_ms (outcome_of tool answer)

  unfoldable pub execute : ToolCall → ToolExecutionContext → List Text → Io ToolExecutionResult
  unfolding pause_for_approval run_call
  execute call context authorized_tool_ids = do
    raise_if (not (elem call.name authorized_tool_ids))
        (tool_runtime_error ErrorCode.tool_not_authorized)
    tool ←
        or_raise (services.get_executable call.name)
          (tool_runtime_error ErrorCode.tool_not_authorized)
    raise_if (not (services.has_executor call.name) && not (is_mcp tool.source))
        (tool_runtime_error ErrorCode.tool_execution_failed)
    duplicate ← gets (λ w. is_some (get_tool_invocation context.run_id call.id w.store))
    raise_if duplicate (tool_runtime_error ErrorCode.tool_duplicate_call)
    reject_invalid (services.check_input tool call.arguments)
    if needs_approval tool then pause_for_approval call tool context else run_call call tool context
