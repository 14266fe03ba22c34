-- ===== src/Runtime/RunnerGateway.antt =====
-- backend/app/runtime/runner_gateway_service.py: what a sandbox asks of the platform with its run
-- token. This file has what the operations share, with `RunnerRequestStore` of checkpoint_store.py:
-- a request is stored with its response under an idempotency key, and is answered from there when
-- it comes again. `digest` stands for the SHA-256 of the canonical JSON of a request.
pub mod Events
pub mod Checkpoints
pub mod Completion
pub mod Replay
pub mod Sequences
pub mod Log
pub mod Outcomes
pub mod Commits
pub mod Landings
pub mod Ends
pub mod Stored
pub mod Retries
pub mod Recovery
use intelligent_agent_platfo.Base.{
  ℕ, Bool, true, false, ◌&&◌, not, Option, none, some, List, [], ◌∷◌, find, count, ◌==◌,
  if◌then◌else◌,
}
use intelligent_agent_platfo.Effects.{
  Result, ok, err, ◌>>=◌, ◌>>◌, gets, modify, pure, or_raise, raise, raise_if,
}
use intelligent_agent_platfo.Database.{
  Text, Store, AgentRun, RuntimeRunnerRequest, RunnerResponse, GatewayAction, GatewayCode,
  runner_gateway_error, Db, is_running, Exception,
}
use intelligent_agent_platfo.Database.Requests.{event_append, checkpoint_write, result_complete}
use intelligent_agent_platfo.Conversations.Repository.{get_run_by_id}

abbrev pub refuse : {A : Type 0} → GatewayCode → Db A
refuse code = raise (runner_gateway_error code)

abbrev pub refuse_if : Bool → GatewayCode → Db (Unit {0})
refuse_if b code = raise_if b (runner_gateway_error code)

abbrev pub same_action : GatewayAction → GatewayAction → Bool
same_action event_append event_append = true
same_action checkpoint_write checkpoint_write = true
same_action result_complete result_complete = true
same_action _ _ = false

-- The row of `RunnerRequestStore.get`.
abbrev pub is_request : Text → GatewayAction → Text → RuntimeRunnerRequest → Bool
is_request run_id action idempotency_key r =
    (r.run_id == run_id) && (same_action r.action action && (r.idempotency_key == idempotency_key))

-- `RunnerRequestStore.get`
unfoldable pub get_request :
    Text → GatewayAction → Text → List RuntimeRunnerRequest → Option RuntimeRunnerRequest
get_request run_id action idempotency_key = find (is_request run_id action idempotency_key)

-- `RunnerRequestStore.count`
unfoldable pub count_requests : Text → GatewayAction → List RuntimeRunnerRequest → ℕ
count_requests run_id action = count (λ r. (r.run_id == run_id) && same_action r.action action)

-- `RunnerRequestStore.add`
unfoldable pub add_request : RuntimeRunnerRequest → Db (Unit {0})
add_request row = modify (λ s. record s { requests = row ∷ s.requests })

-- `_lock_run`
unfoldable pub lock_run : Text → Db AgentRun
lock_run run_id = do
  found ← gets (get_run_by_id run_id)
  or_raise found (runner_gateway_error GatewayCode.run_not_found)

-- `_require_active_run`
unfoldable pub require_active_run : AgentRun → Db (Unit {0})
require_active_run run = refuse_if (not (is_running run.status)) GatewayCode.run_not_active

abbrev pub stored_response : Text → Option RuntimeRunnerRequest → Db (Option RunnerResponse)
stored_response request_digest none = pure none
stored_response request_digest (some r) =
    if r.request_digest == request_digest
    then pure (some r.response_json)
    else refuse GatewayCode.idempotency_conflict

-- `_replay_or_conflict`
unfoldable pub replay_or_conflict : Text → GatewayAction → Text → Text → Db (Option RunnerResponse)
replay_or_conflict run_id action idempotency_key request_digest = do
  stored ← gets (λ s. get_request run_id action idempotency_key s.requests)
  stored_response request_digest stored

-- `if replay is not None: return …`
abbrev pub answer_or : Option RunnerResponse → Db RunnerResponse → Db RunnerResponse
answer_or none fresh = fresh
answer_or (some response) fresh = pure response

-- What the operations do once the run's row is locked.
unfoldable pub once :
    Text → GatewayAction → Text → Text → (AgentRun → Db RunnerResponse) → Db RunnerResponse
unfolding lock_run replay_or_conflict
once run_id action idempotency_key request_digest fresh = do
  run ← lock_run run_id
  replay ← replay_or_conflict run_id action idempotency_key request_digest
  answer_or replay (fresh run)
