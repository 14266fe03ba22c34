-- ===== src/Runtime/ScriptLifecycle.antt =====
-- backend/app/runtime/script_lifecycle.py: closing the leases of skill scripts. The instants that
-- one call reads from the clock are one argument, `now`.
use Prim.Native.Nat.{◌/◌}
use intelligent_agent_platfo.Base.{
  ℕ, ◌-◌, Bool, true, false, ◌&&◌, Option, none, some, List, [], ◌∷◌, filterb, count, map, ◌==◌,
  if◌then◌else◌,
}
use intelligent_agent_platfo.Effects.{◌>>=◌, ◌>>◌, gets, modify, pure}
use intelligent_agent_platfo.Database.{
  Text, Time, RunStatus, InvocationStatus, ErrorCode, sandbox_timeout, skill_script_timeout,
  skill_script_cancelled, skill_script_failed, ToolInvocation, AuditStatus, AuditKey, RiskLevel,
  Event, Db,
}
use intelligent_agent_platfo.Audit.Recorder.{audit_record}
use intelligent_agent_platfo.Conversations.Repository.{
  append_event, get_run_execution_context, ExecutionContext,
}

abbrev pub is_running_invocation : InvocationStatus → Bool
is_running_invocation InvocationStatus.running = true
is_running_invocation _ = false

-- `status="succeeded" if status == "completed" else status`
abbrev pub audit_status : InvocationStatus → AuditStatus
audit_status InvocationStatus.completed = AuditStatus.succeeded
audit_status InvocationStatus.cancelled = AuditStatus.cancelled
audit_status InvocationStatus.failed = AuditStatus.failed
audit_status _ = AuditStatus.started

-- The rows that `update(ToolInvocation).where(…)` changes.
abbrev pub open_lease : Text → ToolInvocation → Bool
open_lease id i = (i.id == id) && is_running_invocation i.status

abbrev pub close_lease :
    Text → InvocationStatus → Option ErrorCode → ℕ → Time → ToolInvocation → ToolInvocation
close_lease id status error_code duration_ms now i =
    if open_lease id i
    then record i {
      status = status;
      error_code = error_code;
      duration_ms = some duration_ms;
      completed_at = some now;
    }
    else i

abbrev pub record_in_context :
    Option ExecutionContext
    → ToolInvocation
    → InvocationStatus
    → Option ErrorCode
    → ℕ
    → Db (Unit {0})
record_in_context none invocation status error_code duration_ms = pure tt
record_in_context (some context) invocation status error_code duration_ms = audit_record (record {
  idempotency_key = AuditKey.skill_script_terminal invocation.id;
  unit_id = some context.unit_id;
  project_id = some context.project_id;
  user_id = some context.user_id;
  actor_roles = context.actor_roles;
  status = audit_status status;
  risk_level = RiskLevel.medium;
  run_id = invocation.run_id;
  resource_id = invocation.id;
  error_code = error_code;
  duration_ms = some duration_ms;
})

record_finished : ToolInvocation → InvocationStatus → Option ErrorCode → ℕ → Db (Unit {0})
record_finished invocation status error_code duration_ms = do
  context ← gets (get_run_execution_context invocation.run_id)
  record_in_context context invocation status error_code duration_ms

-- What follows the update if it reached a row.
unfoldable pub report_finished : ToolInvocation → InvocationStatus → Option ErrorCode → ℕ → Db Bool
unfolding record_finished
report_finished invocation status error_code duration_ms = do
  append_event invocation.run_id (Event.skill_script status invocation.id duration_ms error_code)
  record_finished invocation status error_code duration_ms
  pure true

unfoldable pub finish_script_invocation :
    ToolInvocation → InvocationStatus → Option ErrorCode → ℕ → Time → Db Bool
finish_script_invocation invocation status error_code duration_ms now = do
  rowcount ← gets (λ s. count (open_lease invocation.id) s.invocations)
  modify (λ s. record s {
    invocations = map (close_lease invocation.id status error_code duration_ms now) s.invocations;
  })
  if rowcount == 0 then pure false else report_finished invocation status error_code duration_ms

-- `status not in {"failed", "cancelled"}`
abbrev pub closing_status : RunStatus → Option InvocationStatus
closing_status RunStatus.failed = some InvocationStatus.failed
closing_status RunStatus.cancelled = some InvocationStatus.cancelled
closing_status _ = none

abbrev pub closing_code : RunStatus → Option ErrorCode → ErrorCode
closing_code status (some sandbox_timeout) = skill_script_timeout
closing_code RunStatus.cancelled _ = skill_script_cancelled
closing_code _ _ = skill_script_failed

-- The query: the running scripts of the run.
abbrev pub running_script : Text → ToolInvocation → Bool
running_script run_id i = (i.run_id == run_id) && is_running_invocation i.status && i.is_script

-- The loop over the rows that the query returned.
unfoldable pub finish_each :
    List ToolInvocation → InvocationStatus → ErrorCode → Time → Db (Unit {0})
unfolding finish_script_invocation
finish_each [] status code now = pure tt
finish_each (i ∷ is) status code now = do
  finish_script_invocation i status (some code) ((now - i.created_at) / 1000) now
  finish_each is status code now

abbrev pub close_found :
    Option InvocationStatus → Text → RunStatus → Option ErrorCode → Time → Db (Unit {0})
close_found none run_id status error_code now = pure tt
close_found (some closing) run_id status error_code now = do
  found ← gets (λ s. filterb (running_script run_id) s.invocations)
  finish_each found closing (closing_code status error_code) now

unfoldable pub finish_running_script_invocations :
    Text → RunStatus → Option ErrorCode → Time → Db (Unit {0})
unfolding finish_each
finish_running_script_invocations run_id status error_code now =
    close_found (closing_status status) run_id status error_code now
