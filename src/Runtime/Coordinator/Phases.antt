-- ===== src/Runtime/Coordinator/Phases.antt =====
-- The invariant of the runs in what is around the polling loop: errors, `finally`, submission.
use intelligent_agent_platfo.Base.{
  ◌≡◌, ℕ, refl, Bool, true, false, ◌||◌, Option, none, some, leb, if◌then◌else◌,
}
use intelligent_agent_platfo.Effects.{or_raise, Result, ok, err, ◌>>=◌, ◌>>◌, pure, raise}
use intelligent_agent_platfo.Effects.Stays.{Stays, Stays-bind, Stays-if}
use intelligent_agent_platfo.Database.{
  Store, AgentRun, key_error, is_terminal, Text, Time, RunStatus, ErrorCode, Exception,
  runner_unavailable, runner_deadline_exceeded,
}
use intelligent_agent_platfo.Conversations.Repository.{get_run_by_id}
use intelligent_agent_platfo.Runtime.Lifecycle.{run_is_terminal}
use intelligent_agent_platfo.Runtime.Coordinator.{
  load_snapshot, Environment, Settings, World, Io, Ending, settled, timed_out, polling, db, ask,
  call, finish_now, revoke_now, timeout_run, cleanup, poll, passed, give_up, handle_unavailable,
  except_unavailable, close_run, finally_close, returned, prepare_execution, submit_and_poll,
}
use intelligent_agent_platfo.Runtime.Coordinator.Keeps.{
  Sound, IsQuiet, ask-Stays, finish_now-Stays, revoke_now-Stays, timeout_run-Stays, cleanup-Stays,
  call-Stays, poll-Stays,
}

run_is_terminal-same : (run_id : Text) (s : Store) → (run_is_terminal run_id s).1 ≡ s
unfolding run_is_terminal
run_is_terminal-same run_id s = go (get_run_by_id run_id s)
  where
    go :
        (o : Option AgentRun)
        → ((or_raise {S = Store} o (key_error run_id) >>= λ r. pure (is_terminal r.status)) s).1 ≡ s
    go none = refl
    go (some r) = refl

pub run_is_terminal-Stays : (run_id : Text) → Stays Sound (db (run_is_terminal run_id))
run_is_terminal-Stays run_id w h = rw (run_is_terminal-same run_id w.store) h

module _ (env : Environment) (settings : Settings) (quiet : IsQuiet env) where
  passed-Stays :
      (watchdog deadline : Time) (late : Bool)
      → Stays Sound (passed env settings watchdog deadline late)
  unfolding passed
  passed-Stays watchdog deadline true = λ w h. h
  passed-Stays watchdog deadline false =
      Stays-bind Sound (ask env settings env.monotonic) wall
        (ask-Stays env settings quiet env.monotonic)
        λ now.
          Stays-bind Sound (ask env settings env.clock) (both now)
            (ask-Stays env settings quiet env.clock) (λ _ w h. h)
    where
      both : ℕ → ℕ → Io Bool
      both now wall = pure (leb watchdog now || leb deadline wall)

      wall : ℕ → Io Bool
      wall now = ask env settings env.clock >>= both now

  pub give_up-Stays : (run_id : Text) → Stays Sound (give_up env settings run_id)
  unfolding give_up
  give_up-Stays run_id =
      Stays-bind Sound
        (finish_now env settings run_id RunStatus.failed (some ErrorCode.launcher_unavailable)
          false)
        (λ _. pure settled)
        (finish_now-Stays env settings quiet run_id RunStatus.failed
          (some ErrorCode.launcher_unavailable) false refl)
        (λ _ w h. h)

  pub handle_unavailable-Stays :
      (run_id : Text) (watchdog deadline : Time) (late : Bool)
      → Stays Sound (handle_unavailable env settings run_id watchdog deadline late)
  unfolding handle_unavailable
  handle_unavailable-Stays run_id watchdog deadline late =
      Stays-bind Sound (passed env settings watchdog deadline late)
        (λ over. if over then timeout_run env settings run_id else give_up env settings run_id)
        (passed-Stays watchdog deadline late)
        (λ over.
          Stays-if Sound over (timeout_run env settings run_id) (give_up env settings run_id)
            (timeout_run-Stays env settings quiet run_id) (give_up-Stays run_id))

  pub except-Stays :
      (m : Io Ending) (handler : Bool → Io Ending)
      → Stays Sound m
      → ((late : Bool) → Stays Sound (handler late))
      → Stays Sound (except_unavailable env settings m handler)
  except-Stays m handler h k w p = go (m w) (h w p)
    where
      go :
          (x : Result Exception Ending × World)
          → Sound x.1
          → Sound (except_unavailable env settings (λ _. x) handler w).1
      go (ok ending, u) q = q
      go (err runner_unavailable, u) q = k false u q
      go (err runner_deadline_exceeded, u) q = k true u q
      go (err (Exception.key_error id), u) q = q
      go (err Exception.value_error, u) q = q
      go (err Exception.runtime_error, u) q = q
      go (err Exception.approval_not_found, u) q = q
      go (err Exception.approval_forbidden, u) q = q
      go (err Exception.approval_conflict, u) q = q
      go (err Exception.token_invalid, u) q = q
      go (err Exception.token_forbidden, u) q = q
      go (err Exception.token_not_found, u) q = q
      go (err Exception.size_limit_error, u) q = q
      go (err Exception.integrity_error, u) q = q
      go (err (Exception.runner_gateway_error c), u) q = q
      go (err (Exception.tool_runtime_error c), u) q = q

  close_run-Stays :
      (run_id : Text) (control : Option Time) → Stays Sound (close_run env settings run_id control)
  unfolding close_run
  close_run-Stays run_id none =
      Stays-bind Sound (revoke_now env settings run_id) (λ _. cleanup env settings run_id)
        (revoke_now-Stays env settings quiet run_id) (λ _. cleanup-Stays env settings quiet run_id)
  close_run-Stays run_id (some t) = cleanup-Stays env settings quiet run_id

  closed-Stays :
      {A : Type 0} (run_id : Text) (control : Option Time) (last : Io A)
      → Stays Sound last
      → Stays Sound (close_run env settings run_id control >> last)
  closed-Stays run_id control last h =
      Stays-bind Sound (close_run env settings run_id control) (λ _. last)
        (close_run-Stays run_id control) (λ _. h)

  pub finally-Stays :
      (run_id : Text) (m : Io Ending)
      → Stays Sound m
      → Stays Sound (finally_close env settings run_id m)
  finally-Stays run_id m h w p = go (m w) (h w p)
    where
      go :
          (x : Result Exception Ending × World)
          → Sound x.1
          → Sound (finally_close env settings run_id (λ _. x) w).1
      go (ok settled, u) q = closed-Stays run_id none (pure settled) (λ w h. h) u q
      go (ok (timed_out t), u) q = closed-Stays run_id (some t) (pure (timed_out t)) (λ w h. h) u q
      go (ok polling, u) q = q
      go (err e, u) q = closed-Stays {A = Ending} run_id none (raise e) (λ w h. h) u q

  returned-Stays : {A : Type 0} (r : Result Exception A) → Stays Sound (returned env settings r)
  returned-Stays (ok a) w h = h
  returned-Stays (err e) w h = h

  pub prepare_execution-Stays : Stays Sound (prepare_execution env settings)
  unfolding prepare_execution
  prepare_execution-Stays =
      Stays-if Sound settings.configured (ask env settings env.prepared >>= returned env settings)
        (raise Exception.runtime_error)
        (Stays-bind Sound (ask env settings env.prepared) (returned env settings)
          (ask-Stays env settings quiet env.prepared) returned-Stays)
        (λ w h. h)

  pub submit_and_poll-Stays :
      (fuel : ℕ) (run_id : Text) (watchdog : Time)
      → Stays Sound (submit_and_poll env settings fuel run_id watchdog)
  unfolding submit_and_poll
  submit_and_poll-Stays fuel run_id watchdog =
      Stays-bind Sound (db (run_is_terminal run_id))
        (λ _. call env settings env.submit >> poll env settings fuel run_id watchdog)
        (run_is_terminal-Stays run_id)
        (λ _.
          Stays-bind Sound (call env settings env.submit)
            (λ _. poll env settings fuel run_id watchdog) (call-Stays env settings quiet env.submit)
            (λ _. poll-Stays env settings quiet fuel run_id watchdog))

  pub load_snapshot-Stays : Stays Sound (load_snapshot env settings)
  unfolding load_snapshot
  load_snapshot-Stays =
      Stays-bind Sound (ask env settings env.recorded) (returned env settings)
        (ask-Stays env settings quiet env.recorded) returned-Stays
