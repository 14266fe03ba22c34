-- ===== src/Runtime/RunnerGateway/Completion.antt =====
-- `RunnerGatewayService.complete`, with `add_assistant_message` of conversations/repository.py.
-- What the request meets outside of the tables is the record `CompletionScope`: the verified
-- snapshot, the artifacts that are stored, and the clock, by the number of its reading.
use intelligent_agent_platfo.Base.{
  ℕ, ◌+◌, max, Bool, true, false, ◌&&◌, not, Option, none, some, List, [], ◌∷◌, all, find, ◌==◌,
  if◌then◌else◌, is_some,
}
use intelligent_agent_platfo.Effects.{
  Result, ok, err, ◌>>=◌, ◌>>◌, gets, modify, pure, or_raise, when, transaction,
}
use intelligent_agent_platfo.Database.{
  Text, Time, AgentRun, RunStatus, Event, ErrorCode, AuditKey, AuditStatus, RiskLevel, Message,
  RunnerResponse, GatewayCode, CompletionStatus, Exception, key_error, runner_gateway_error, Db,
  is_terminal, is_waiting_approval,
}
use intelligent_agent_platfo.Database.Requests.{result_complete, run_completed}
use intelligent_agent_platfo.Audit.Recorder.{audit_record}
use intelligent_agent_platfo.Conversations.Repository.{append_event, get_run_by_id}
use intelligent_agent_platfo.Runtime.ScriptLifecycle.{finish_running_script_invocations}
use intelligent_agent_platfo.Runtime.Lifecycle.{set_status}
use intelligent_agent_platfo.Runtime.DeadlineCommit.{
  is_late, same_status, commit_status_transition_before_deadline,
}
use intelligent_agent_platfo.Runtime.RunnerGateway.{refuse_if, add_request, once}

pub record CompletionRequest : Type 0 where
  pub status : CompletionStatus
  pub final_assistant_content : Option Text
  pub error_code : Option ErrorCode
  pub checkpoint_key : Option Text
  pub artifact_refs : List Text

-- What `complete` reads of the snapshot of the claims.
pub record Snapshot : Type 0 where
  pub unit_id : Text
  pub project_id : Text
  pub user_id : Text
  -- `team_execution_deadline`
  pub deadline : Option Time

pub record CompletionScope : Type 0 where
  pub snapshot : Result Exception Snapshot
  pub has_artifact : Text → Bool
  pub clock : ℕ → Time

-- `target_status`
abbrev pub target_of : CompletionStatus → RunStatus
target_of CompletionStatus.completed = RunStatus.completed
target_of CompletionStatus.failed = RunStatus.failed
target_of CompletionStatus.cancelled = RunStatus.cancelled
target_of CompletionStatus.interrupted = RunStatus.waiting_approval

abbrev pub is_success : CompletionStatus → Bool
is_success CompletionStatus.completed = true
is_success _ = false

abbrev pub is_final : CompletionStatus → Bool
is_final CompletionStatus.interrupted = false
is_final _ = true

-- The deadline that `commit_guarded` is about.
abbrev pub guard_of : CompletionStatus → Option Time → Option Time
guard_of CompletionStatus.completed deadline = deadline
guard_of _ deadline = none

abbrev pub next_message : Text → List Message → ℕ
next_message conversation_id [] = 0
next_message conversation_id (m ∷ ms) =
    let rest = next_message conversation_id ms in
    if m.conversation_id == conversation_id then max m.sequence rest else rest

-- `next_message_sequence`
unfoldable pub next_message_sequence : Text → Db ℕ
next_message_sequence conversation_id = do
  found ← gets (λ s. find (λ c. c.id == conversation_id) s.conversations)
  or_raise found (key_error conversation_id)
  gets (λ s. next_message conversation_id s.messages + 1)

abbrev pub store_message : AgentRun → Text → ℕ → Db (Unit {0})
store_message run content n = modify (λ s. record s {
  messages =
      record {
        conversation_id = run.conversation_id;
        run_id = run.id;
        sequence = n;
        content = content;
      }
      ∷ s.messages;
})

unfoldable pub add_assistant_message : Text → Text → Db (Unit {0})
unfolding next_message_sequence
add_assistant_message run_id content = do
  found ← gets (get_run_by_id run_id)
  run ← or_raise found (key_error run_id)
  n ← next_message_sequence run.conversation_id
  store_message run content n

-- `if request.final_assistant_content:`
abbrev pub answer_message : Text → Option Text → Db (Unit {0})
answer_message run_id none = pure tt
answer_message run_id (some content) =
    when (not (content == 0)) (add_assistant_message run_id content)

-- `if run.status != target_status:`, where a guarded change waits for the commit.
unfoldable pub announce : Text → RunStatus → Option Time → Db (Unit {0})
unfolding set_status
announce run_id target guard = do
  when (not (is_some guard)) (modify (set_status (λ r. r.id == run_id) target))
  append_event run_id (Event.run_status target)

abbrev pub audit_status : CompletionStatus → AuditStatus
audit_status CompletionStatus.completed = AuditStatus.succeeded
audit_status CompletionStatus.cancelled = AuditStatus.cancelled
audit_status _ = AuditStatus.failed

unfoldable pub audit_completion : AgentRun → CompletionRequest → Snapshot → Db (Unit {0})
audit_completion run request snapshot = audit_record (record {
  idempotency_key = AuditKey.runner_run_terminal run.id;
  unit_id = some snapshot.unit_id;
  project_id = some snapshot.project_id;
  user_id = some snapshot.user_id;
  actor_roles = run.actor_roles;
  status = audit_status request.status;
  risk_level = if is_success request.status then RiskLevel.low else RiskLevel.medium;
  run_id = run.id;
  resource_id = run.id;
  error_code = request.error_code;
  duration_ms = none;
})

-- The commit.
abbrev pub commit_run : Text → RunStatus → RunStatus → Option Time → Time → Db (Unit {0})
commit_run run_id expected target none now = pure tt
commit_run run_id expected target (some deadline) now =
    commit_status_transition_before_deadline run_id expected target deadline now
      (runner_gateway_error GatewayCode.sandbox_timeout)

abbrev pub verified : Result Exception Snapshot → Db Snapshot
verified (ok snapshot) s = (ok snapshot, s)
verified (err e) s = (err e, s)

module _ (digest : CompletionRequest → Text) (scope : CompletionScope) where
  -- What may refuse a result before anything is written.
  unfoldable pub check_completion : CompletionRequest → Option Time → AgentRun → Db (Unit {0})
  check_completion request guard run = do
    refuse_if (is_terminal run.status) GatewayCode.completion_already_committed
    refuse_if (is_waiting_approval run.status && is_success request.status)
        GatewayCode.completion_conflicts_with_approval
    refuse_if (is_late guard (scope.clock 0)) GatewayCode.sandbox_timeout
    refuse_if (not (all scope.has_artifact request.artifact_refs)) GatewayCode.artifact_not_found
    refuse_if (is_late guard (scope.clock 1)) GatewayCode.sandbox_timeout

  -- `_store_response`
  unfoldable pub store_response : Text → CompletionRequest → Text → Db RunnerResponse
  unfolding add_request
  store_response run_id request idempotency_key = do
    let response = run_completed run_id request.status request.checkpoint_key request.artifact_refs
    add_request (record {
      run_id = run_id;
      action = result_complete;
      idempotency_key = idempotency_key;
      request_digest = digest request;
      response_json = response;
    })
    pure response

  -- The messages and events of the result.
  unfoldable pub write_completion :
      Text → CompletionRequest → Option Time → AgentRun → Db (Unit {0})
  unfolding announce
  write_completion run_id request guard run = do
    answer_message run_id request.final_assistant_content
    finish_running_script_invocations run_id (target_of request.status) request.error_code
        (scope.clock 2)
    append_event run_id (Event.runner_completion request.status request.error_code)
    when (not (same_status run.status (target_of request.status)))
        (announce run_id (target_of request.status) guard)

  -- From the audit event of the result to the commit.
  unfoldable pub close_completion :
      Text → CompletionRequest → Snapshot → Option Time → AgentRun → Db (Unit {0})
  unfolding audit_completion
  close_completion run_id request snapshot guard run = do
    when (is_final request.status) (audit_completion run request snapshot)
    refuse_if (is_late guard (scope.clock 3)) GatewayCode.sandbox_timeout
    commit_run run_id run.status (target_of request.status) guard (scope.clock 4)

  unfoldable pub complete_fresh :
      Text → CompletionRequest → Text → Snapshot → AgentRun → Db RunnerResponse
  unfolding check_completion write_completion store_response close_completion
  complete_fresh run_id request idempotency_key snapshot run = do
    let guard = guard_of request.status snapshot.deadline
    check_completion request guard run
    write_completion run_id request guard run
    response ← store_response run_id request idempotency_key
    close_completion run_id request snapshot guard run
    pure response

  unfoldable pub complete_session : Text → CompletionRequest → Text → Db RunnerResponse
  unfolding once complete_fresh
  complete_session run_id request idempotency_key = do
    snapshot ← verified scope.snapshot
    once run_id result_complete idempotency_key (digest request)
        (complete_fresh run_id request idempotency_key snapshot)

  unfoldable pub complete : Text → CompletionRequest → Text → Db RunnerResponse
  unfolding complete_session
  complete run_id request idempotency_key =
      transaction (complete_session run_id request idempotency_key)
