-- ===== src/Tools/Gateway/Terminal.antt =====
-- How the outcome of a tool call is stored: `_persist_terminal`, `_compensate_failed_completion`
-- and `_commit_finished` of backend/app/tools/gateway.py. A failed call has an error code.
use intelligent_agent_platfo.Base.{
  ℕ, Bool, true, false, ◌&&◌, not, Option, none, some, count, map, find, ltb, ◌==◌, if◌then◌else◌,
  is_some,
}
use intelligent_agent_platfo.Effects.{◌>>=◌, ◌>>◌, gets, modify, pure, raise, or_raise, when}
use intelligent_agent_platfo.Database.{
  Text, Time, Store, AgentRun, ActorType, ToolInvocation, InvocationStatus, RiskLevel, ErrorCode,
  Event, AuditKey, AuditStatus, Exception, tool_runtime_error, runtime_error, Db,
}
use intelligent_agent_platfo.Audit.Recorder.{audit_record}
use intelligent_agent_platfo.Conversations.Repository.{append_event}
use intelligent_agent_platfo.Runtime.DeadlineCommit.{is_late}
use intelligent_agent_platfo.Tools.Gateway.{
  ToolExecutionContext, ToolServices, Io, refuse_when, lock_active_run, session, catch,
}

-- `_TERMINAL_FENCE_ERROR_CODES`, and the errors that have such a code
abbrev pub is_fence_code : ErrorCode → Bool
is_fence_code ErrorCode.run_not_active = true
is_fence_code ErrorCode.sandbox_timeout = true
is_fence_code _ = false

abbrev pub is_fence : Exception → Bool
is_fence (Exception.tool_runtime_error code) = is_fence_code code
is_fence _ = false

abbrev pub status_of : Option ErrorCode → InvocationStatus
status_of none = InvocationStatus.completed
status_of (some code) = InvocationStatus.failed

abbrev pub audit_status : Option ErrorCode → AuditStatus
audit_status none = AuditStatus.succeeded
audit_status (some code) = AuditStatus.failed

abbrev pub status_code : InvocationStatus → ℕ
status_code InvocationStatus.started = 0
status_code InvocationStatus.running = 1
status_code InvocationStatus.waiting_approval = 2
status_code InvocationStatus.completed = 3
status_code InvocationStatus.failed = 4
status_code InvocationStatus.cancelled = 5

abbrev pub replace_invocation :
    (ToolInvocation → Bool) → (ToolInvocation → ToolInvocation) → Store → Store
replace_invocation p f s = record s {
  invocations = map (λ i. if p i then f i else i) s.invocations;
}

-- What is assigned to the row; under a deadline its status waits for the commit.
abbrev pub closed : Option ErrorCode → Option Time → ℕ → Time → ToolInvocation → ToolInvocation
closed error guard duration_ms now i = record i {
  status = if is_some guard then i.status else status_of error;
  error_code = error;
  duration_ms = some duration_ms;
  completed_at = some now;
}

-- The row that `commit_status_transition_before_deadline` reaches.
abbrev pub awaits : Text → InvocationStatus → Time → Time → ToolInvocation → Bool
awaits id expected_status deadline now i =
    (i.id == id) && ((status_code i.status == status_code expected_status) && ltb now deadline)

-- The commit.
unfoldable pub commit_invocation : ToolInvocation → Option Time → Time → Db (Unit {0})
commit_invocation invocation none now = pure tt
commit_invocation invocation (some deadline) now = do
  let due = awaits invocation.id invocation.status deadline now
  rowcount ← gets (λ s. count due s.invocations)
  modify (replace_invocation due (λ i. record i { status = InvocationStatus.completed }))
  refuse_when (not (rowcount == 1)) ErrorCode.sandbox_timeout

unfoldable pub audit_finished :
    ToolInvocation → Option ErrorCode → ℕ → ToolExecutionContext → Db (Unit {0})
audit_finished invocation error duration_ms context = audit_record (record {
  idempotency_key = AuditKey.tool_finished invocation.id (audit_status error);
  unit_id = some context.unit_id;
  project_id = some context.project_id;
  user_id = some context.user_id;
  actor_roles = context.actor_roles;
  status = audit_status error;
  risk_level = if is_some error then RiskLevel.medium else RiskLevel.low;
  run_id = context.run_id;
  resource_id = invocation.tool_id;
  error_code = error;
  duration_ms = some duration_ms;
})

module _ (services : ToolServices) (context : ToolExecutionContext) where
  -- `_team_deadline_for_run`
  unfoldable pub team_deadline_for_run : AgentRun → Db (Option Time)
  team_deadline_for_run run = elim run.actor_type [
    | ActorType.agent ↦ pure none
    | ActorType.team ↦ do
      deadline ←
          or_raise (services.snapshot_deadline run.id)
            (tool_runtime_error ErrorCode.sandbox_timeout)
      pure (some deadline)
  ]

  -- `deadline`, which only a completed call has.
  abbrev pub deadline_of : Option ErrorCode → AgentRun → Db (Option Time)
  deadline_of none run = team_deadline_for_run run
  deadline_of (some code) run = pure none

  -- `_persist_terminal` of a row that is there.
  unfoldable pub persist_terminal :
      ToolInvocation → Option ErrorCode → ℕ → Bool → (ℕ → Time) → Db (Unit {0})
  unfolding lock_active_run commit_invocation audit_finished team_deadline_for_run
  persist_terminal invocation error duration_ms include_audit clock = do
    run ← lock_active_run invocation.run_id
    deadline ← deadline_of error run
    refuse_when (is_late deadline (clock 0)) ErrorCode.sandbox_timeout
    modify (
        replace_invocation (λ i. i.id == invocation.id)
          (closed error deadline duration_ms (clock 1)))
    append_event invocation.run_id (Event.tool_finished invocation.id error)
    when include_audit (audit_finished invocation error duration_ms context)
    refuse_when (is_late deadline (clock 2)) ErrorCode.sandbox_timeout
    commit_invocation invocation deadline (clock 3)

  -- A row that is gone fails the first attempt.
  unfoldable pub persist_loaded : Text → Option ErrorCode → ℕ → (ℕ → Time) → Db (Unit {0})
  unfolding persist_terminal
  persist_loaded invocation_id error duration_ms clock = do
    found ← gets (λ s. find (λ i. i.id == invocation_id) s.invocations)
    invocation ← or_raise found runtime_error
    persist_terminal invocation error duration_ms true clock

  abbrev pub persist_found :
      Option ToolInvocation → Option ErrorCode → ℕ → Bool → (ℕ → Time) → Db Bool
  persist_found none error duration_ms include_audit clock = pure false
  persist_found (some invocation) error duration_ms include_audit clock = do
    persist_terminal invocation error duration_ms include_audit clock
    pure true

  unfoldable pub persist_again : Text → Option ErrorCode → ℕ → Bool → (ℕ → Time) → Db Bool
  unfolding persist_terminal
  persist_again invocation_id error duration_ms include_audit clock = do
    found ← gets (λ s. find (λ i. i.id == invocation_id) s.invocations)
    persist_found found error duration_ms include_audit clock

  -- `_compensate_failed_completion`: once more, and then without the audit event.
  unfoldable pub compensate_failed_completion : Text → Option ErrorCode → ℕ → Io Bool
  unfolding session persist_again
  compensate_failed_completion invocation_id error duration_ms =
      catch
        (session services
          (λ n. persist_again invocation_id error duration_ms true (services.clock n)))
        λ e.
          if is_fence e
          then raise e
          else catch
              (session services
                  (λ n. persist_again invocation_id error duration_ms false (services.clock n))
                >> pure false)
              (λ f. if is_fence f then raise f else pure false)

  -- `_commit_finished`
  unfoldable pub commit_finished : Text → Option ErrorCode → ℕ → Io (Unit {0})
  unfolding session persist_loaded compensate_failed_completion
  commit_finished invocation_id error duration_ms =
      catch
        (session services (λ n. persist_loaded invocation_id error duration_ms (services.clock n)))
        λ e. if is_fence e then raise e else (do
          compensated ← compensate_failed_completion invocation_id error duration_ms
          if compensated
              then pure tt
              else raise (tool_runtime_error ErrorCode.audit_persistence_failed))
