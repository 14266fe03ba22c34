-- ===== src/Runtime/Lifecycle.antt =====
-- backend/app/runtime/run_lifecycle.py: the database transactions of `SandboxRunCoordinator`.
-- Each is one session; what runs between two sessions is in Runtime/Coordinator.antt.
pub mod Frame
pub mod Rows
pub mod Invariant
pub mod Sessions
pub mod Returning
pub mod Ending
pub mod Cleanup
use intelligent_agent_platfo.Base.{
  ℕ, Bool, true, false, ◌&&◌, ◌||◌, not, Option, none, some, List, [], ◌∷◌, count, map, filterb,
  find, ltb, ◌==◌, if◌then◌else◌, is_some,
}
use intelligent_agent_platfo.Effects.{
  Result, ok, err, ◌>>=◌, ◌>>◌, gets, modify, pure, raise, or_raise, when, transaction,
}
use intelligent_agent_platfo.Database.{
  Text, Time, Store, RunStatus, ErrorCode, AgentRun, RunEvent, AuditEvent, AuditStatus, AuditKey,
  RiskLevel, Event, EventType, CleanupStatus, Reason, of_status, of_error, Exception, key_error, Db,
  is_terminal, is_waiting_approval, is_running,
}
use intelligent_agent_platfo.Audit.Recorder.{audit_record}
use intelligent_agent_platfo.Conversations.Repository.{
  append_event, get_run_by_id, get_run_execution_context, ExecutionContext, latest_event,
}
use intelligent_agent_platfo.Runtime.ScriptLifecycle.{finish_running_script_invocations}
use intelligent_agent_platfo.Runtime.RunTokens.{revoke}

-- `_NON_STARTABLE_STATUSES`, and `running`
abbrev pub is_startable : RunStatus → Bool
is_startable status = not (is_terminal status || is_waiting_approval status || is_running status)

-- `_TOKEN_REVOCATION_STATUSES`
abbrev pub is_revocable : RunStatus → Bool
is_revocable status = is_terminal status || is_waiting_approval status

abbrev pub with_status : (AgentRun → Bool) → RunStatus → AgentRun → AgentRun
with_status p status r = if p r then record r { status = status } else r

-- `run.status = …`, or `update(AgentRun).where(…).values(status=…)`
unfoldable pub set_status : (AgentRun → Bool) → RunStatus → Store → Store
set_status p status s = record s { runs = map (with_status p status) s.runs }

unfoldable pub record_audit : AgentRun → AuditKey → AuditStatus → Option ErrorCode → Db (Unit {0})
record_audit run key status error_code = do
  context ← or_raise (← gets (get_run_execution_context run.id)) (key_error run.id)
  audit_record (record {
    idempotency_key = key;
    unit_id = some context.unit_id;
    project_id = some context.project_id;
    user_id = some context.user_id;
    actor_roles = context.actor_roles;
    status = status;
    risk_level = if is_some error_code then RiskLevel.medium else RiskLevel.low;
    run_id = run.id;
    resource_id = run.actor_id;
    error_code = error_code;
    duration_ms = none;
  })

unfoldable pub start_found : Text → AgentRun → Db Bool
unfolding record_audit set_status
start_found run_id run = do
  append_event run_id Event.sandbox_started
  modify (set_status (λ r. r.id == run_id) RunStatus.running)
  append_event run_id (Event.run_status RunStatus.running)
  record_audit run (AuditKey.sandbox_run_started run.id) AuditStatus.started none
  pure true

-- `_start`
unfoldable pub start_session : Text → Db Bool
start_session run_id = do
  run ← or_raise (← gets (get_run_by_id run_id)) (key_error run_id)
  if is_startable run.status then start_found run_id run else pure false

unfoldable pub start : Text → Db Bool
unfolding start_session
start run_id = transaction (start_session run_id)

abbrev pub audit_status : RunStatus → AuditStatus
audit_status RunStatus.completed = AuditStatus.succeeded
audit_status RunStatus.cancelled = AuditStatus.cancelled
audit_status _ = AuditStatus.failed

abbrev pub is_completed : RunStatus → Bool
is_completed RunStatus.completed = true
is_completed _ = false

-- The conditions of the update of `_finish`, but for the identifier.
abbrev pub may_finish : RunStatus → Bool → AgentRun → Bool
may_finish status allow_waiting_approval r =
    not (is_terminal r.status)
    && not (is_completed status && not allow_waiting_approval && is_waiting_approval r.status)

-- The rows that it reaches.
abbrev pub eligible : Text → RunStatus → Bool → AgentRun → Bool
eligible run_id status allow_waiting_approval r =
    (r.id == run_id) && may_finish status allow_waiting_approval r

abbrev pub append_error : Text → Option ErrorCode → Db (Unit {0})
append_error run_id none = pure tt
append_error run_id (some code) = append_event run_id (Event.run_error code)

unfoldable pub finish_found : Text → RunStatus → Option ErrorCode → Time → Db (Unit {0})
unfolding record_audit
finish_found run_id status error_code now = do
  run ← or_raise (← gets (get_run_by_id run_id)) (key_error run_id)
  finish_running_script_invocations run_id status error_code now
  append_event run_id (Event.sandbox_finished status error_code)
  append_error run_id error_code
  append_event run_id (Event.run_status status)
  record_audit run (AuditKey.sandbox_run_finished run.id status) (audit_status status) error_code

-- `if session.get(AgentRun, run_id) is None: raise KeyError(run_id)`
unfoldable pub require_run : Text → Db (Unit {0})
require_run run_id = do or_raise (← gets (get_run_by_id run_id)) (key_error run_id); pure tt

unfoldable pub finish_session : Text → RunStatus → Option ErrorCode → Bool → Time → Db (Unit {0})
unfolding set_status
finish_session run_id status error_code allow_waiting_approval now = do
  rowcount ← gets (λ s. count (eligible run_id status allow_waiting_approval) s.runs)
  modify (set_status (eligible run_id status allow_waiting_approval) status)
  if rowcount == 0 then require_run run_id else finish_found run_id status error_code now

-- `_finish`; its callers pass `completed`, `failed` or `cancelled`.
unfoldable pub finish : Text → RunStatus → Option ErrorCode → Bool → Time → Db (Unit {0})
unfolding finish_session
finish run_id status error_code allow_waiting_approval now =
    transaction (finish_session run_id status error_code allow_waiting_approval now)

abbrev pub is_error_event : Event → Bool
is_error_event (Event.run_error _) = true
is_error_event (Event.foreign EventType.run_error _) = true
is_error_event _ = false

abbrev pub is_completion_event : Event → Bool
is_completion_event (Event.runner_completion _ _) = true
is_completion_event (Event.foreign EventType.runner_completion _) = true
is_completion_event _ = false

abbrev reason_of_completion : Option RunEvent → Reason → Reason
reason_of_completion none reason = reason
reason_of_completion (some e) reason = elim e.event [
  | Event.runner_completion _ code ↦ elim code [ none ↦ reason | some c ↦ of_error c ]
  | _ ↦ reason
]

abbrev reason_of_error : Option RunEvent → Reason → Reason
reason_of_error none reason = reason
reason_of_error (some e) reason = elim e.event [ Event.run_error code ↦ of_error code | _ ↦ reason ]

-- The reason that is stored: the code of the last `run.error`, or else that of the last
-- `runner.completion`, or else the status.
unfoldable pub revocation_reason : Text → AgentRun → Store → Reason
revocation_reason run_id run s =
    reason_of_error (latest_event run_id is_error_event s.events) (
      reason_of_completion (latest_event run_id is_completion_event s.events)
        (of_status run.status))

unfoldable pub revoke_found : Text → Option AgentRun → Time → Db (Unit {0})
unfolding revocation_reason
revoke_found run_id none now = pure tt
revoke_found run_id (some run) now =
    if is_revocable run.status
    then (do reason ← gets (revocation_reason run_id run); revoke run_id reason now)
    else pure tt

-- `_revoke_for_terminal_run`, with a token service.
unfoldable pub revoke_for_terminal_run : Text → Time → Db (Unit {0})
unfolding revoke_found
revoke_for_terminal_run run_id now =
    transaction do found ← gets (get_run_by_id run_id); revoke_found run_id found now

-- `_is_terminal`
unfoldable pub run_is_terminal : Text → Db Bool
run_is_terminal run_id = do
  run ← or_raise (← gets (get_run_by_id run_id)) (key_error run_id)
  pure (is_terminal run.status)

-- `list_recoverable_run_ids`, in no particular order.
unfoldable pub list_recoverable_run_ids : Store → List Text
list_recoverable_run_ids s = map (λ r. r.id) (filterb (λ r. is_running r.status) s.runs)

abbrev pub is_cleanup_event : Event → Bool
is_cleanup_event (Event.sandbox_cleanup _) = true
is_cleanup_event (Event.foreign EventType.sandbox_cleanup _) = true
is_cleanup_event _ = false

abbrev pub is_cleaned_event : Event → Bool
is_cleaned_event (Event.sandbox_cleanup CleanupStatus.cleaned) = true
is_cleaned_event _ = false

-- `payload.get("status") == "failed"`
abbrev pub is_failed_event : Event → Bool
is_failed_event (Event.sandbox_cleanup CleanupStatus.failed) = true
is_failed_event _ = false

abbrev pub is_started_event : Event → Bool
is_started_event Event.sandbox_started = true
is_started_event (Event.foreign EventType.sandbox_started _) = true
is_started_event _ = false

abbrev follows : RunEvent → Option RunEvent → Bool
follows e none = true
follows e (some started) = ltb started.sequence e.sequence

-- The early return of `_cleanup`: the last cleanup succeeded, and after the last start.
unfoldable pub is_clean : Option RunEvent → Option RunEvent → Bool
is_clean none latest_started = false
is_clean (some cleanup) latest_started =
    is_cleaned_event cleanup.event && follows cleanup latest_started

abbrev started_after : Option RunEvent → Option RunEvent → Bool
started_after none latest_cleanup = false
started_after (some started) none = true
started_after (some started) (some cleanup) = ltb cleanup.sequence started.sequence

abbrev failed_cleanup : Option RunEvent → Bool
failed_cleanup none = false
failed_cleanup (some cleanup) = is_failed_event cleanup.event

-- The test in the loop of `list_cleanup_retry_run_ids`.
unfoldable pub needs_retry : Option RunEvent → Option RunEvent → Bool
needs_retry latest_cleanup latest_started =
    failed_cleanup latest_cleanup || started_after latest_started latest_cleanup

unfoldable pub cleanup_is_due : Text → Store → Bool
unfolding is_clean
cleanup_is_due run_id s = not (
    is_clean (latest_event run_id is_cleanup_event s.events)
      (latest_event run_id is_started_event s.events))

-- `list_cleanup_retry_run_ids`, in no particular order.
unfoldable pub list_cleanup_retry_run_ids : Store → List Text
unfolding needs_retry
list_cleanup_retry_run_ids s =
    map (λ r. r.id)
      (filterb
        (λ r.
          is_terminal r.status
          && needs_retry (latest_event r.id is_cleanup_event s.events)
              (latest_event r.id is_started_event s.events))
        s.runs)

-- The last session of `_cleanup`.
unfoldable pub record_cleanup : Text → CleanupStatus → Db (Unit {0})
record_cleanup run_id outcome = transaction do
  found ← gets (get_run_by_id run_id)
  when (is_some found) (append_event run_id (Event.sandbox_cleanup outcome))
