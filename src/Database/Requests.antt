-- ===== src/Database/Requests.antt =====
-- The tables that runners write to: backend/app/conversations/models.py (messages) and
-- backend/app/runtime/checkpoint_store.py, with the responses of runner_gateway_schemas.py that
-- are stored for a replay.
--
-- A checkpoint's key is given by what two tests say of it, and by the rest of it. The one is
-- Python's `startswith` of the reserved prefix. The other is that of the query, which is
-- SQLAlchemy's without `autoescape`: LIKE '__runner_gateway__:%', where an underscore stands for
-- any character and SQLite ignores the case. Every key that passes the first passes the second.
use intelligent_agent_platfo.Base.{ℕ, Option, List}
use intelligent_agent_platfo.Database.Words.{Text, Time}

-- A message of the role "assistant" that a run has written.
pub record Message : Type 0 where
  pub conversation_id : Text
  pub run_id : Text
  pub sequence : ℕ
  pub content : Text

pub data CheckpointKey : Type 0 where
  -- passes both
  runner_gateway : Text → CheckpointKey
  -- passes that of the query only, such as `--runner-gateway--:x`
  lookalike : Text → CheckpointKey
  -- passes neither
  plain : Text → CheckpointKey

pub record StoredCheckpoint : Type 0 where
  pub checkpoint_key : CheckpointKey
  pub state : Text
  pub snapshot_digest : Option Text
  pub idempotency_key : Option Text

pub record RuntimeCheckpoint : Type 0 where
  pub id : ℕ
  pub run_id : Text
  pub stored : StoredCheckpoint
  pub updated_at : Time

-- `CompletionRequest.status`
pub data CompletionStatus : Type 0 where
  completed failed cancelled interrupted : CompletionStatus

-- `RuntimeRunnerRequest.action`
pub data GatewayAction : Type 0 where
  event_append checkpoint_write result_complete : GatewayAction

-- `EventAppendResponse`, `CheckpointResponse` and `CompletionResponse`, as they are stored.
pub data RunnerResponse : Type 0 where
  -- the platform's sequence number and the runner's
  event_appended : ℕ → ℕ → RunnerResponse
  -- key, snapshot digest and state
  checkpoint_saved : CheckpointKey → Text → Text → RunnerResponse
  -- run, status, checkpoint key and artifacts
  run_completed : Text → CompletionStatus → Option Text → List Text → RunnerResponse

pub record RuntimeRunnerRequest : Type 0 where
  pub run_id : Text
  pub action : GatewayAction
  pub idempotency_key : Text
  pub request_digest : Text
  pub response_json : RunnerResponse

-- `RunnerGatewayError.code`
pub data GatewayCode : Type 0 where
  run_not_found run_not_active idempotency_conflict snapshot_invalid : GatewayCode
  checkpoint_namespace_reserved checkpoint_too_large checkpoint_invalid : GatewayCode
  checkpoint_not_found checkpoint_snapshot_mismatch : GatewayCode
  event_payload_invalid event_payload_too_large event_sequence_invalid : GatewayCode
  completion_already_committed completion_conflicts_with_approval : GatewayCode
  sandbox_timeout artifact_not_found : GatewayCode
