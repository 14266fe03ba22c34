-- ===== src/Database.antt =====
-- The tables that the run lifecycle, the approvals, the run tokens and the runner gateway share:
-- backend/app/conversations/models.py, approvals/models.py, audit/models.py,
-- runtime/run_tokens.py, and in Requests runtime/checkpoint_store.py. A row is a record with the columns that
-- the modelled code reads; a table is a list of rows, the newest first, and queries with an
-- `order_by` order it themselves.
--
-- An identifier or another text that the code only compares is a number that stands for it; 0
-- stands for the empty text, which Python tests as false. A point in time is a number of
-- microseconds.
mod Words
pub mod Requests
pub use Words.{Text, Time}
pub use Requests.{
  Message, CheckpointKey, StoredCheckpoint, RuntimeCheckpoint, CompletionStatus, GatewayAction,
  RunnerResponse, RuntimeRunnerRequest, GatewayCode,
}
use native.Mathlib.Decide.{ℕ_discrete}
use intelligent_agent_platfo.Base.{ℕ, Bool, true, false, Option, List}
use intelligent_agent_platfo.Effects.{Action}

-- `AgentRun.status`
pub data RunStatus : Type 0 where
  queued running waiting_approval completed failed cancelled : RunStatus

pub data ActorType : Type 0 where
  agent team : ActorType

-- `ToolInvocation.status`
pub data InvocationStatus : Type 0 where
  started running waiting_approval completed failed cancelled : InvocationStatus

-- `Approval.status`
pub data ApprovalStatus : Type 0 where
  pending approved rejected expired cancelled : ApprovalStatus

-- The codes that the modelled code itself writes; `other` is a code that a runner reports.
pub data ErrorCode : Type 0 where
  sandbox_failed sandbox_oom sandbox_cancelled sandbox_timeout launcher_unavailable : ErrorCode
  skill_script_timeout skill_script_cancelled skill_script_failed : ErrorCode
  run_not_active tool_not_authorized tool_execution_failed tool_duplicate_call : ErrorCode
  tool_invalid_arguments approval_required audit_persistence_failed : ErrorCode
  other : Text → ErrorCode

pub data CleanupStatus : Type 0 where
  cleaned : CleanupStatus
  -- with the code `launcher_unavailable`
  failed : CleanupStatus

-- The types of the events that the platform itself appends.
pub data EventType : Type 0 where
  sandbox_started sandbox_finished sandbox_cleanup run_status run_error : EventType
  runner_completion skill_script approval_requested approval_resolved : EventType
  tool_started tool_finished : EventType

-- `RunEvent.event_type` with what the code reads or writes of the payload.
pub data Event : Type 0 where
  sandbox_started : Event
  sandbox_finished : RunStatus → Option ErrorCode → Event
  sandbox_cleanup : CleanupStatus → Event
  run_status : RunStatus → Event
  run_error : ErrorCode → Event
  -- the status reported by the runner, and its error code
  runner_completion : CompletionStatus → Option ErrorCode → Event
  -- status, lease, duration and error code
  skill_script : InvocationStatus → Text → ℕ → Option ErrorCode → Event
  approval_requested : Text → Text → Event
  approval_resolved : Text → ApprovalStatus → Event
  tool_started : Text → Event
  tool_finished : Text → Option ErrorCode → Event
  -- any other type that a runner appends, and its payload
  runner_event : Text → Text → Event
  -- one of the types above that a runner appends with a payload that lacks what is read of it, or
  -- has another value there: a `sandbox.cleanup` of a status that is neither "cleaned" nor "failed",
  -- a `run.status` of no status of a run, an error or a completion without a code
  foreign : EventType → Text → Event

pub record Conversation : Type 0 where
  pub id : Text
  pub unit_id : Text
  pub project_id : Text
  pub owner_id : Text

pub record AgentRun : Type 0 where
  pub id : Text
  pub conversation_id : Text
  pub actor_type : ActorType
  pub actor_id : Text
  pub actor_roles : List Text
  pub status : RunStatus

pub record RunEvent : Type 0 where
  pub run_id : Text
  pub sequence : ℕ
  pub event : Event

pub record ToolInvocation : Type 0 where
  pub id : Text
  pub run_id : Text
  pub tool_call_id : Text
  pub tool_id : Text
  -- whether `tool_id` matches `skill.%.script.%`
  pub is_script : Bool
  pub status : InvocationStatus
  pub arguments_summary : Text
  pub error_code : Option ErrorCode
  pub duration_ms : Option ℕ
  pub created_at : Time
  pub completed_at : Option Time

pub data RiskLevel : Type 0 where
  low medium high critical : RiskLevel

pub record Approval : Type 0 where
  pub id : Text
  pub run_id : Text
  pub invocation_id : Text
  pub tool_id : Text
  pub unit_id : Text
  pub project_id : Text
  pub requester_id : Text
  pub assignee_role : Text
  pub risk_level : RiskLevel
  pub arguments_digest : Text
  pub status : ApprovalStatus
  pub expires_at : Time
  pub decided_by : Option Text
  pub decision_reason : Option Text
  pub decided_at : Option Time

-- `RuntimeRunTokenRevocation.reason`: the status of the run or an error code.
pub data Reason : Type 0 where
  of_status : RunStatus → Reason
  of_error : ErrorCode → Reason

-- The `jti` of a token is a fresh UUID; that of a revocation is f"run:{run_id}".
pub data TokenId : Type 0 where
  uuid : Text → TokenId
  of_run : Text → TokenId

-- `RuntimeRunTokenRevocation`
pub record Revocation : Type 0 where
  pub jti : TokenId
  pub run_id : Text
  pub revoked_at : Time
  pub reason : Reason

pub data AuditStatus : Type 0 where
  started succeeded failed cancelled : AuditStatus

-- `AuditEvent.idempotency_key`: the texts that the callers format, by their parts.
pub data AuditKey : Type 0 where
  -- f"sandbox:{run.id}:{action}", for `sandbox.run.started` and `sandbox.run.{status}`
  sandbox_run_started : Text → AuditKey
  sandbox_run_finished : Text → RunStatus → AuditKey
  -- f"skill-script:{invocation.id}:terminal"
  skill_script_terminal : Text → AuditKey
  -- f"approval:{approval.id}:{action}", for `approval.requested` (as `pending`) and the decisions
  approval_action : Text → ApprovalStatus → AuditKey
  -- f"runner-run:{run_id}:terminal"
  runner_run_terminal : Text → AuditKey
  -- f"tool:{invocation.id}:{step}"
  tool_started : Text → AuditKey
  tool_resumed : Text → AuditKey
  tool_finished : Text → AuditStatus → AuditKey

unfoldable pub AuditKey-discrete : Discrete AuditKey
AuditKey-discrete = hlevel (ℕ_discrete)

pub record AuditEvent : Type 0 where
  pub idempotency_key : AuditKey
  pub unit_id : Option Text
  pub project_id : Option Text
  pub user_id : Option Text
  pub actor_roles : List Text
  pub status : AuditStatus
  pub risk_level : RiskLevel
  pub run_id : Text
  pub resource_id : Text
  pub error_code : Option ErrorCode
  pub duration_ms : Option ℕ

pub record Store : Type 0 where
  pub conversations : List Conversation
  pub runs : List AgentRun
  pub events : List RunEvent
  pub invocations : List ToolInvocation
  pub approvals : List Approval
  pub revocations : List Revocation
  pub audits : List AuditEvent
  pub messages : List Message
  pub checkpoints : List RuntimeCheckpoint
  pub requests : List RuntimeRunnerRequest

-- `_TERMINAL_STATUSES` of run_lifecycle.py, and the sets of the same members elsewhere.
abbrev pub is_terminal : RunStatus → Bool
is_terminal completed = true
is_terminal failed = true
is_terminal cancelled = true
is_terminal _ = false

abbrev pub is_waiting_approval : RunStatus → Bool
is_waiting_approval waiting_approval = true
is_waiting_approval _ = false

abbrev pub is_running : RunStatus → Bool
is_running running = true
is_running _ = false

-- The exceptions that the modelled code raises.
pub data Exception : Type 0 where
  key_error : Text → Exception
  value_error : Exception
  -- the `ValueError` whose text names the size limit
  size_limit_error : Exception
  -- a unique constraint is violated
  integrity_error : Exception
  runtime_error : Exception
  -- `ApprovalNotFoundError`, `ApprovalForbiddenError`, `ApprovalConflictError`
  approval_not_found : Exception
  approval_forbidden : Exception
  approval_conflict : Exception
  -- `RunTokenInvalid`, `RunTokenForbidden`, `RunTokenNotFound`
  token_invalid : Exception
  token_forbidden : Exception
  token_not_found : Exception
  -- `RunnerUnavailableError`, and its subclass `RunnerDeadlineExceededError`
  runner_unavailable : Exception
  runner_deadline_exceeded : Exception
  runner_gateway_error : GatewayCode → Exception
  tool_runtime_error : ErrorCode → Exception

-- What a method does with the database.
abbrev pub Db : Type 0 → Type 0
Db = Action Store Exception
