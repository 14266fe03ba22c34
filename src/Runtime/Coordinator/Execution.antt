-- ===== src/Runtime/Coordinator/Execution.antt =====
-- The invariant of the runs in `execute`, `recover` and `cancel` of the coordinator.
use intelligent_agent_platfo.Base.{ℕ, ◌+◌, ◌-◌, refl, true, Option, some, if◌then◌else◌}
use intelligent_agent_platfo.Effects.{Result, ok, err, ◌>>=◌, ◌>>◌, pure}
use intelligent_agent_platfo.Effects.Stays.{Stays, Stays-bind, Stays-if}
use intelligent_agent_platfo.Database.{
  Text, Time, RunStatus, ErrorCode, Exception, runner_unavailable, runner_deadline_exceeded,
}
use intelligent_agent_platfo.Runtime.Lifecycle.{start, run_is_terminal}
use intelligent_agent_platfo.Runtime.Lifecycle.Sessions.{start-IsConsistent}
use intelligent_agent_platfo.Runtime.Coordinator.{
  load_snapshot, Environment, Settings, World, Io, ExecutionSnapshot, Ending, settled, db, ask,
  finish_now, revoke_now, terminate_safely, cleanup, poll, give_up, handle_unavailable,
  except_unavailable, finally_close, prepare_execution, submit_and_poll, attempt, execute_started,
  execute, recover_open, recover, cancel_open, cancel, execution_deadline, recovery_deadline,
}
use intelligent_agent_platfo.Runtime.Coordinator.Keeps.{
  Sound, IsQuiet, ask-Stays, finish_now-Stays, revoke_now-Stays, terminate_safely-Stays,
  cleanup-Stays, poll-Stays,
}
use intelligent_agent_platfo.Runtime.Coordinator.Phases.{
  load_snapshot-Stays, run_is_terminal-Stays, except-Stays, finally-Stays, give_up-Stays,
  handle_unavailable-Stays, prepare_execution-Stays, submit_and_poll-Stays,
}

module _ (env : Environment) (settings : Settings) (quiet : IsQuiet env) where
  attempt-Stays :
      (fuel : ℕ) (run_id : Text) (started_at wall : Time)
      → Stays Sound (attempt env settings fuel run_id started_at wall)
  unfolding attempt
  attempt-Stays fuel run_id started_at wall w p =
      go (prepare_execution env settings w) (prepare_execution-Stays env settings quiet w p)
    where
      guarded : ExecutionSnapshot → Io Ending
      guarded snapshot =
          let deadline = execution_deadline snapshot (wall + settings.timeout) in
          let watchdog = started_at + (deadline - wall) in
          except_unavailable env settings (submit_and_poll env settings fuel run_id watchdog)
            (handle_unavailable env settings run_id watchdog deadline)

      go :
          (x : Result Exception ExecutionSnapshot × World)
          → Sound x.1
          → Sound
              (let (r, u) = x in
                elim r as (λ _. Result Exception Ending × World) [
                  | ok snapshot ↦ guarded snapshot u
                  | err e ↦ elim e as (λ _. Result Exception Ending × World) [
                    | runner_unavailable ↦ give_up env settings run_id u
                    | runner_deadline_exceeded ↦ give_up env settings run_id u
                    | another ↦ (err another, u)
                  ]
                ]).1
      go (ok snapshot, u) q =
          let deadline = execution_deadline snapshot (wall + settings.timeout) in
          let watchdog = started_at + (deadline - wall) in
          except-Stays env settings quiet (submit_and_poll env settings fuel run_id watchdog)
            (handle_unavailable env settings run_id watchdog deadline)
            (submit_and_poll-Stays env settings quiet fuel run_id watchdog)
            (handle_unavailable-Stays env settings quiet run_id watchdog deadline) u q
      go (err runner_unavailable, u) q = give_up-Stays env settings quiet run_id u q
      go (err runner_deadline_exceeded, u) q = give_up-Stays env settings quiet run_id u q
      go (err (Exception.key_error id), u) q = q
      go (err Exception.value_error, u) q = q
      go (err Exception.runtime_error, u) q = q
      go (err Exception.approval_not_found, u) q = q
      go (err Exception.approval_forbidden, u) q = q
      go (err Exception.approval_conflict, u) q = q
      go (err Exception.token_invalid, u) q = q
      go (err Exception.token_forbidden, u) q = q
      go (err Exception.token_not_found, u) q = q
      go (err Exception.size_limit_error, u) q = q
      go (err Exception.integrity_error, u) q = q
      go (err (Exception.runner_gateway_error c), u) q = q
      go (err (Exception.tool_runtime_error c), u) q = q

  execute_started-Stays :
      (fuel : ℕ) (run_id : Text) → Stays Sound (execute_started env settings fuel run_id)
  unfolding execute_started
  execute_started-Stays fuel run_id =
      Stays-bind Sound (ask env settings env.monotonic) from
        (ask-Stays env settings quiet env.monotonic)
        λ started_at.
          Stays-bind Sound (ask env settings env.clock) (try started_at)
            (ask-Stays env settings quiet env.clock)
            (λ wall.
              finally-Stays env settings quiet run_id
                (attempt env settings fuel run_id started_at wall)
                (attempt-Stays fuel run_id started_at wall))
    where
      try : Time → Time → Io Ending
      try started_at wall =
          finally_close env settings run_id (attempt env settings fuel run_id started_at wall)

      from : Time → Io Ending
      from started_at = ask env settings env.clock >>= try started_at

  recover_open-Stays :
      (fuel : ℕ) (run_id : Text) → Stays Sound (recover_open env settings fuel run_id)
  unfolding recover_open
  recover_open-Stays fuel run_id =
      Stays-bind Sound (ask env settings env.monotonic) from
        (ask-Stays env settings quiet env.monotonic)
        λ started_at.
          Stays-bind Sound (ask env settings env.clock) (load started_at)
            (ask-Stays env settings quiet env.clock)
            λ wall.
              Stays-bind Sound (load_snapshot env settings) (try started_at wall)
                (load_snapshot-Stays env settings quiet)
                λ snapshot.
                  let deadline =
                    recovery_deadline env settings snapshot (wall + settings.timeout) in
                  let watchdog = started_at + (deadline - wall) in
                  finally-Stays env settings quiet run_id
                    (except_unavailable env settings (poll env settings fuel run_id watchdog)
                      (handle_unavailable env settings run_id watchdog deadline))
                    (except-Stays env settings quiet (poll env settings fuel run_id watchdog)
                      (handle_unavailable env settings run_id watchdog deadline)
                      (poll-Stays env settings quiet fuel run_id watchdog)
                      (handle_unavailable-Stays env settings quiet run_id watchdog deadline))
    where
      try : Time → Time → Option ExecutionSnapshot → Io Ending
      try started_at wall snapshot =
          let deadline = recovery_deadline env settings snapshot (wall + settings.timeout) in
          let watchdog = started_at + (deadline - wall) in
          finally_close env settings run_id (
            except_unavailable env settings (poll env settings fuel run_id watchdog)
              (handle_unavailable env settings run_id watchdog deadline))

      load : Time → Time → Io Ending
      load started_at wall = load_snapshot env settings >>= try started_at wall

      from : Time → Io Ending
      from started_at = ask env settings env.clock >>= load started_at

  cancel_open-Stays : (run_id : Text) → Stays Sound (cancel_open env settings run_id)
  unfolding cancel_open
  cancel_open-Stays run_id =
      Stays-bind Sound
        (finish_now env settings run_id RunStatus.cancelled (some ErrorCode.sandbox_cancelled) true)
        (λ _.
          revoke_now env settings run_id
          >> (terminate_safely env settings >> cleanup env settings run_id))
        (finish_now-Stays env settings quiet run_id RunStatus.cancelled
          (some ErrorCode.sandbox_cancelled) true refl)
        λ _.
          Stays-bind Sound (revoke_now env settings run_id)
            (λ _. terminate_safely env settings >> cleanup env settings run_id)
            (revoke_now-Stays env settings quiet run_id)
            λ _.
              Stays-bind Sound (terminate_safely env settings) (λ _. cleanup env settings run_id)
                (terminate_safely-Stays env settings quiet)
                (λ _. cleanup-Stays env settings quiet run_id)

  -- Executing a run keeps the runs and their log consistent, however many rounds of polling it
  -- takes, whatever the runner answers or raises and whenever the clocks are read, if what the
  -- other sessions write meanwhile keeps them consistent.
  pub execute-IsConsistent :
      (fuel : ℕ) (run_id : Text) (w : World)
      → Sound w
      → Sound (execute env settings fuel run_id w).1
  unfolding execute
  execute-IsConsistent fuel run_id =
      Stays-bind Sound (db (start run_id))
        (λ begun. if begun then execute_started env settings fuel run_id else pure settled)
        (λ w h. start-IsConsistent run_id w.store h)
        (λ begun.
          Stays-if Sound begun (execute_started env settings fuel run_id) (pure settled)
            (execute_started-Stays fuel run_id) (λ w h. h))

  -- Recovering a run after a restart keeps the runs and their log consistent, under the same
  -- condition on the other sessions.
  pub recover-IsConsistent :
      (fuel : ℕ) (run_id : Text) (w : World)
      → Sound w
      → Sound (recover env settings fuel run_id w).1
  unfolding recover
  recover-IsConsistent fuel run_id =
      Stays-bind Sound (db (run_is_terminal run_id))
        (λ ended. if ended then pure settled else recover_open env settings fuel run_id)
        (run_is_terminal-Stays run_id)
        (λ ended.
          Stays-if Sound ended (pure settled) (recover_open env settings fuel run_id) (λ w h. h)
            (recover_open-Stays fuel run_id))

  -- Cancelling a run keeps the runs and their log consistent, under the same condition on the
  -- other sessions.
  pub cancel-IsConsistent :
      (run_id : Text) (w : World) → Sound w → Sound (cancel env settings run_id w).1
  unfolding cancel
  cancel-IsConsistent run_id =
      Stays-bind Sound (db (run_is_terminal run_id))
        (λ ended. if ended then pure tt else cancel_open env settings run_id)
        (run_is_terminal-Stays run_id)
        (λ ended.
          Stays-if Sound ended (pure tt) (cancel_open env settings run_id) (λ w h. h)
            (cancel_open-Stays run_id))
