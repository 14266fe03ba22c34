-- ===== src/Runtime/RunnerGateway/Events.antt =====
-- `RunnerGatewayService.append_event`. `encoded` is the number of bytes of the JSON of a payload,
-- if it has one. The type of an event is what the runner says it is.
use intelligent_agent_platfo.Base.{ℕ, ◌+◌, not, Option, ◌∷◌, ltb, ◌==◌}
use intelligent_agent_platfo.Effects.{◌>>=◌, ◌>>◌, gets, modify, pure, or_raise, transaction}
use intelligent_agent_platfo.Database.{
  Text, Event, AgentRun, RunnerResponse, GatewayCode, runner_gateway_error, Db,
}
use intelligent_agent_platfo.Database.Requests.{event_append, event_appended}
use intelligent_agent_platfo.Conversations.Repository.{max_sequence}
use intelligent_agent_platfo.Runtime.RunnerGateway.{
  refuse_if, require_active_run, count_requests, add_request, once,
}

pub record EventAppendRequest : Type 0 where
  pub sequence : ℕ
  pub event : Event

module _ (encoded : Event → Option ℕ) (event_payload_max_bytes : ℕ)
    (digest : EventAppendRequest → Text) where
  -- From `_require_active_run` on.
  unfoldable pub append_fresh : Text → EventAppendRequest → Text → AgentRun → Db RunnerResponse
  unfolding require_active_run add_request count_requests
  append_fresh run_id request idempotency_key run = do
    require_active_run run
    n ← gets (λ s. count_requests run_id event_append s.requests)
    refuse_if (not (request.sequence == n + 1)) GatewayCode.event_sequence_invalid
    platform_sequence ← gets (λ s. max_sequence run_id s.events + 1)
    modify (λ s. record s {
      events =
          record { run_id = run_id; sequence = platform_sequence; event = request.event }
          ∷ s.events;
    })
    add_request (record {
      run_id = run_id;
      action = event_append;
      idempotency_key = idempotency_key;
      request_digest = digest request;
      response_json = event_appended platform_sequence request.sequence;
    })
    pure (event_appended platform_sequence request.sequence)

  unfoldable pub append_session : Text → EventAppendRequest → Text → Db RunnerResponse
  unfolding once append_fresh
  append_session run_id request idempotency_key = do
    size ← or_raise (encoded request.event) (runner_gateway_error GatewayCode.event_payload_invalid)
    refuse_if (ltb event_payload_max_bytes size) GatewayCode.event_payload_too_large
    once run_id event_append idempotency_key (digest request)
        (append_fresh run_id request idempotency_key)

  unfoldable pub append_runner_event : Text → EventAppendRequest → Text → Db RunnerResponse
  unfolding append_session
  append_runner_event run_id request idempotency_key =
      transaction (append_session run_id request idempotency_key)
