-- ===== src/Runtime/RunnerGateway/Recovery.antt =====
-- A checkpoint that a runner saves, and the runner that takes over from it.
use intelligent_agent_platfo.Base.{
  ℕ, ◌≡◌, ◌≢◌, ◌∙◌, refl, inl, inr, false, not, Option, none, some, List, arith,
}
use intelligent_agent_platfo.Effects.{Result, ok, err, ◌>>=◌, ◌>>◌, pure}
use intelligent_agent_platfo.Effects.Inversion.{bind_ok, raise_if_ok, transaction_ok}
use intelligent_agent_platfo.Database.{
  Text, Time, Store, AgentRun, CheckpointKey, StoredCheckpoint, RuntimeCheckpoint, RunnerResponse,
  GatewayCode, Db, Exception, RuntimeRunnerRequest, runner_gateway_error, is_running,
}
use intelligent_agent_platfo.Database.Requests.{checkpoint_write, checkpoint_saved}
use intelligent_agent_platfo.Runtime.CheckpointStore.{
  Checkpoints, is_reserved, is_like_reserved, load_latest_record, save,
}
use intelligent_agent_platfo.Runtime.CheckpointStore.Latest.{WrittenBefore, load_latest_record-save}
use intelligent_agent_platfo.Runtime.RunnerGateway.{
  get_request, require_active_run, add_request, refuse_if, once,
}
use intelligent_agent_platfo.Runtime.RunnerGateway.Replay.{once_ok}
use intelligent_agent_platfo.Runtime.RunnerGateway.Checkpoints.{
  in_checkpoints, except_value_error, get_latest_checkpoint, save_fresh, save_session,
  save_checkpoint,
}

saved_ok :
    (m : Checkpoints StoredCheckpoint) (s t : Store) (out : StoredCheckpoint)
    → except_value_error (in_checkpoints m) s ≡ (ok out, t)
    → (rows : List RuntimeCheckpoint) × (m s.checkpoints ≡ (ok out, rows))
      × (t ≡ record s { checkpoints = rows })
saved_ok m s t out h = go (m s.checkpoints) refl h
  where
    go :
        (x : Result Exception StoredCheckpoint × List RuntimeCheckpoint)
        → m s.checkpoints ≡ x
        → except_value_error (λ u. (x.0, record u { checkpoints = x.1 })) s ≡ (ok out, t)
        → (rows : List RuntimeCheckpoint) × (m s.checkpoints ≡ (ok out, rows))
          × (t ≡ record s { checkpoints = rows })
    go (ok a, rows) e h = (rows, ground arith, ground arith)
    go (err x, rows) e h = cc

module _ (encoded : Text → Option ℕ) (max_bytes : ℕ) (digest : CheckpointKey → Text → Text → Text)
    (run_id : Text) (checkpoint_key : CheckpointKey) (state snapshot_digest key : Text)
    (now : Time) where
  abbrev saved : StoredCheckpoint
  saved = record {
    checkpoint_key = checkpoint_key;
    state = state;
    snapshot_digest = some snapshot_digest;
    idempotency_key = some key;
  }

  save_fresh_ok :
      (run : AgentRun) (response : RunnerResponse) (s t : Store)
      → save_fresh encoded max_bytes digest run_id checkpoint_key state snapshot_digest key now run
          s
        ≡ (ok response, t)
      → (out : StoredCheckpoint) × (rows : List RuntimeCheckpoint) × (save encoded max_bytes run_id
            saved now s.checkpoints
          ≡ (ok out, rows))
        × (t.checkpoints ≡ rows)
  unfolding save_fresh require_active_run add_request
  save_fresh_ok run response s t h =
      let (v, s1, active, rest) =
        bind_ok (refuse_if (not (is_running run.status)) GatewayCode.run_not_active)
          (λ _. write >>= answer) s h in
      let (running, same) =
        raise_if_ok (not (is_running run.status)) (runner_gateway_error GatewayCode.run_not_active)
          s active in
      let (out, s2, wrote, last) = bind_ok write answer s1 rest in
      let (rows, put, s2_is) = saved_ok (save encoded max_bytes run_id saved now) s1 s2 out wrote in
      (out, rows, rw (← same) put, ground arith)
    where
      write : Db StoredCheckpoint
      write = except_value_error (in_checkpoints (save encoded max_bytes run_id saved now))

      row : StoredCheckpoint → RuntimeRunnerRequest
      row checkpoint = record {
        run_id = run_id;
        action = checkpoint_write;
        idempotency_key = key;
        request_digest = digest checkpoint_key snapshot_digest state;
        response_json = checkpoint_saved checkpoint.checkpoint_key snapshot_digest checkpoint.state;
      }

      answer : StoredCheckpoint → Db RunnerResponse
      answer checkpoint =
          add_request (row checkpoint)
          >> pure (checkpoint_saved checkpoint.checkpoint_key snapshot_digest checkpoint.state)

  -- A checkpoint that was accepted under a new idempotency key, and whose checkpoint key the query
  -- of the latest one does not hide, from the clock's reading past every earlier
  -- write, is what the run resumes from: with the same snapshot it is loaded as it was saved, and
  -- with another snapshot it is refused.
  pub get_latest_checkpoint-save_checkpoint :
      (response : RunnerResponse) (s t : Store)
      → is_like_reserved checkpoint_key ≡ false
      → WrittenBefore now s.checkpoints
      → get_request run_id checkpoint_write key s.requests ≡ none
      → save_checkpoint encoded max_bytes digest run_id checkpoint_key state snapshot_digest key now
          s
        ≡ (ok response, t)
      → (get_latest_checkpoint run_id snapshot_digest t ≡ (ok saved, t))
        × ((other : Text)
            → other ≢ snapshot_digest
            → get_latest_checkpoint run_id other t
              ≡ (err (runner_gateway_error GatewayCode.checkpoint_snapshot_mismatch), t))
  unfolding save_checkpoint save_session get_latest_checkpoint
  get_latest_checkpoint-save_checkpoint response s t shown before new done =
      let fresh =
        save_fresh encoded max_bytes digest run_id checkpoint_key state snapshot_digest key now in
      let served =
        once run_id checkpoint_write key (digest checkpoint_key snapshot_digest state) fresh in
      let session =
        save_session encoded max_bytes digest run_id checkpoint_key state snapshot_digest key now in
      let (v, s1, passed, rest) =
        bind_ok (refuse_if (is_reserved checkpoint_key) GatewayCode.checkpoint_namespace_reserved)
          (λ _. served) s (transaction_ok session s done) in
      let (plain, same) =
        raise_if_ok (is_reserved checkpoint_key)
          (runner_gateway_error GatewayCode.checkpoint_namespace_reserved) s passed in
      elim (once_ok run_id checkpoint_write key (digest checkpoint_key snapshot_digest state) fresh
        response s t (rw (← same) rest)) [
          | inl (answered, _) ↦ cc (answered.stored)
          | inr (run, there, _, wrote) ↦
              let (out, rows, put, rows_is) = save_fresh_ok run response s t wrote in
              let loaded : load_latest_record run_id rows ≡ some saved =
                load_latest_record-save encoded max_bytes run_id saved now s.checkpoints rows out
                  before put
                ∙ rw shown refl in
              (ground arith, λ other differ. ground arith)
        ]
