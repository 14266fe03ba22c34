-- ===== src/Runtime/RunnerGateway/Checkpoints.antt =====
-- `RunnerGatewayService.save_checkpoint` and `get_latest_checkpoint`, over `CheckpointStore`. The
-- claims enter by their snapshot digest; `now` is the clock that stamps the row.
use intelligent_agent_platfo.Base.{ℕ, Bool, false, not, Option, none, some, ◌==◌}
use intelligent_agent_platfo.Effects.{ok, err, ◌>>=◌, ◌>>◌, gets, pure, or_raise, transaction}
use intelligent_agent_platfo.Database.{
  Text, Time, AgentRun, CheckpointKey, StoredCheckpoint, RunnerResponse, GatewayCode,
  runner_gateway_error, value_error, size_limit_error, Exception, Db,
}
use intelligent_agent_platfo.Database.Requests.{checkpoint_write, checkpoint_saved}
use intelligent_agent_platfo.Runtime.CheckpointStore.{
  Checkpoints, is_reserved, save, load_latest_record,
}
use intelligent_agent_platfo.Runtime.RunnerGateway.{
  refuse_if, require_active_run, add_request, once,
}

-- The checkpoint store, on its table.
abbrev pub in_checkpoints : {A : Type 0} → Checkpoints A → Db A
in_checkpoints m s = let (r, rows) = m s.checkpoints in (r, record s { checkpoints = rows })

-- `except ValueError`
abbrev pub checkpoint_error : Exception → Exception
checkpoint_error size_limit_error = runner_gateway_error GatewayCode.checkpoint_too_large
checkpoint_error value_error = runner_gateway_error GatewayCode.checkpoint_invalid
checkpoint_error e = e

abbrev pub except_value_error : {A : Type 0} → Db A → Db A
except_value_error m s =
    let (r, t) = m s in elim r [ ok a ↦ (ok a, t) | err e ↦ (err (checkpoint_error e), t) ]

abbrev pub same_digest : Option Text → Text → Bool
same_digest none digest = false
same_digest (some d) digest = d == digest

unfoldable pub get_latest_checkpoint : Text → Text → Db StoredCheckpoint
get_latest_checkpoint run_id snapshot_digest = do
  found ← gets (λ s. load_latest_record run_id s.checkpoints)
  checkpoint ← or_raise found (runner_gateway_error GatewayCode.checkpoint_not_found)
  refuse_if (not (same_digest checkpoint.snapshot_digest snapshot_digest))
      GatewayCode.checkpoint_snapshot_mismatch
  pure checkpoint

module _ (encoded : Text → Option ℕ) (max_bytes : ℕ)
    (digest : CheckpointKey → Text → Text → Text) where
  -- From `_require_active_run` on.
  unfoldable pub save_fresh :
      Text → CheckpointKey → Text → Text → Text → Time → AgentRun → Db RunnerResponse
  unfolding require_active_run add_request
  save_fresh run_id checkpoint_key state snapshot_digest idempotency_key now run = do
    require_active_run run
    checkpoint ← except_value_error (
        in_checkpoints (
          save encoded max_bytes run_id
            (record {
              checkpoint_key = checkpoint_key;
              state = state;
              snapshot_digest = some snapshot_digest;
              idempotency_key = some idempotency_key;
            })
            now))
    add_request (record {
      run_id = run_id;
      action = checkpoint_write;
      idempotency_key = idempotency_key;
      request_digest = digest checkpoint_key snapshot_digest state;
      response_json = checkpoint_saved checkpoint.checkpoint_key snapshot_digest checkpoint.state;
    })
    pure (checkpoint_saved checkpoint.checkpoint_key snapshot_digest checkpoint.state)

  unfoldable pub save_session : Text → CheckpointKey → Text → Text → Text → Time → Db RunnerResponse
  unfolding once save_fresh
  save_session run_id checkpoint_key state snapshot_digest idempotency_key now = do
    refuse_if (is_reserved checkpoint_key) GatewayCode.checkpoint_namespace_reserved
    once run_id checkpoint_write idempotency_key (digest checkpoint_key snapshot_digest state)
        (save_fresh run_id checkpoint_key state snapshot_digest idempotency_key now)

  unfoldable pub save_checkpoint :
      Text → CheckpointKey → Text → Text → Text → Time → Db RunnerResponse
  unfolding save_session
  save_checkpoint run_id checkpoint_key state snapshot_digest idempotency_key now =
      transaction (save_session run_id checkpoint_key state snapshot_digest idempotency_key now)
