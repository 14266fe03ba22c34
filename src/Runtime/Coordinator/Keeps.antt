-- ===== src/Runtime/Coordinator/Keeps.antt =====
-- The invariant of the runs in the calls of the coordinator and in its polling loop.
use intelligent_agent_platfo.Base.{
  ℕ, zero, suc, ◌+◌, ◌≡◌, refl, Bool, true, false, not, Option, none, some, leb, ◌==◌,
  if◌then◌else◌,
}
use intelligent_agent_platfo.Effects.{◌>>=◌, pure, when}
use intelligent_agent_platfo.Effects.Stays.{Stays, Stays-bind, Stays-if, Stays-when}
use intelligent_agent_platfo.Database.{Text, Time, Store, RunStatus, ErrorCode, is_terminal}
use intelligent_agent_platfo.Runtime.Lifecycle.{
  finish, revoke_for_terminal_run, cleanup_is_due, record_cleanup,
}
use intelligent_agent_platfo.Runtime.Lifecycle.Invariant.{IsConsistent, finish-IsConsistent}
use intelligent_agent_platfo.Runtime.Lifecycle.Sessions.{
  revoke_for_terminal_run-IsConsistent, record_cleanup-IsConsistent,
}
use intelligent_agent_platfo.Runtime.Coordinator.{
  Environment, Settings, World, Io, Reply, ContainerState, ContainerStatus, Ending, settled,
  timed_out, db, ask, call, replied, finish_now, revoke_now, terminate_safely, timeout_run, cleanup,
  run_cleanup, outcome_of, apply_container_status, pause, settle_or, read_status, poll, code_is,
  is_active, allowance,
}

abbrev pub Sound : World → Type 0
Sound w = IsConsistent w.store

-- The other sessions keep the invariant.
abbrev pub IsQuiet : Environment → Type 0
IsQuiet env = (n : ℕ) (s : Store) → IsConsistent s → IsConsistent (env.others n s)

module _ (env : Environment) (settings : Settings) (quiet : IsQuiet env) where
  pub ask-Stays : {A : Type 0} (f : ℕ → A) → Stays Sound (ask env settings f)
  unfolding ask
  ask-Stays f w h = quiet w.tick w.store h

  replied-Stays : {A : Type 0} (r : Reply A) → Stays Sound (replied env settings r)
  replied-Stays (Reply.answer a) w h = h
  replied-Stays Reply.unavailable w h = h
  replied-Stays Reply.deadline_exceeded w h = h

  pub call-Stays : {A : Type 0} (f : ℕ → Reply A) → Stays Sound (call env settings f)
  unfolding call
  call-Stays f =
      Stays-bind Sound (ask env settings f) (replied env settings) (ask-Stays f) replied-Stays

  pub finish_now-Stays :
      (run_id : Text) (status : RunStatus) (code : Option ErrorCode) (allow : Bool)
      → is_terminal status ≡ true
      → Stays Sound (finish_now env settings run_id status code allow)
  unfolding finish_now
  finish_now-Stays run_id status code allow final =
      Stays-bind Sound (ask env settings env.clock)
        (λ now. db (finish run_id status code allow now)) (ask-Stays env.clock)
        (λ now w h. finish-IsConsistent run_id status code allow now w.store final h)

  pub revoke_now-Stays : (run_id : Text) → Stays Sound (revoke_now env settings run_id)
  unfolding revoke_now
  revoke_now-Stays run_id =
      Stays-bind Sound (ask env settings env.clock)
        (λ now. when settings.has_tokens (db (revoke_for_terminal_run run_id now)))
        (ask-Stays env.clock)
        (λ now.
          Stays-when Sound settings.has_tokens (db (revoke_for_terminal_run run_id now))
            (λ w h. revoke_for_terminal_run-IsConsistent run_id now w.store h))

  pub terminate_safely-Stays : Stays Sound (terminate_safely env settings)
  unfolding terminate_safely
  terminate_safely-Stays =
      Stays-bind Sound (ask env settings env.terminate) (λ _. pure tt) (ask-Stays env.terminate)
        (λ _ w h. h)

  pub timeout_run-Stays : (run_id : Text) → Stays Sound (timeout_run env settings run_id)
  unfolding timeout_run
  timeout_run-Stays run_id =
      Stays-bind Sound
        (finish_now env settings run_id RunStatus.failed (some ErrorCode.sandbox_timeout) false)
        (λ _. revoke_then)
        (finish_now-Stays run_id RunStatus.failed (some ErrorCode.sandbox_timeout) false refl)
        λ _.
          Stays-bind Sound (revoke_now env settings run_id) (λ _. read_clock)
            (revoke_now-Stays run_id)
            λ _.
              Stays-bind Sound (ask env settings env.monotonic) stop (ask-Stays env.monotonic)
                λ now.
                  Stays-bind Sound (terminate_safely env settings)
                    (λ _. pure (timed_out (now + allowance))) terminate_safely-Stays (λ _ w h. h)
    where
      stop : ℕ → Io Ending
      stop now = terminate_safely env settings >>= λ _. pure (timed_out (now + allowance))

      read_clock : Io Ending
      read_clock = ask env settings env.monotonic >>= stop

      revoke_then : Io Ending
      revoke_then = revoke_now env settings run_id >>= λ _. read_clock

  run_cleanup-Stays : (run_id : Text) → Stays Sound (run_cleanup env settings run_id)
  unfolding run_cleanup
  run_cleanup-Stays run_id =
      Stays-bind Sound (ask env settings env.cleanup)
        (λ reply. db (record_cleanup run_id (outcome_of env settings reply)))
        (ask-Stays env.cleanup)
        (λ reply w h. record_cleanup-IsConsistent run_id (outcome_of env settings reply) w.store h)

  pub cleanup-Stays : (run_id : Text) → Stays Sound (cleanup env settings run_id)
  unfolding cleanup
  cleanup-Stays run_id w h =
      Stays-when Sound (cleanup_is_due run_id w.store) (run_cleanup env settings run_id)
        (run_cleanup-Stays run_id) w h

  apply_container_status-Stays :
      (run_id : Text) (status : ContainerStatus)
      → Stays Sound (apply_container_status env settings run_id status)
  unfolding apply_container_status
  apply_container_status-Stays run_id status = go status.state
    where
      fails :
          (code : ErrorCode)
          → Stays Sound (finish_now env settings run_id RunStatus.failed (some code) false)
      fails code = finish_now-Stays run_id RunStatus.failed (some code) false refl

      exit : Io (Unit {0})
      exit =
          if code_is env settings 4 status.exit_code
          then finish_now env settings run_id RunStatus.failed (some ErrorCode.sandbox_timeout)
              false
          else finish_now env settings run_id RunStatus.failed (some ErrorCode.sandbox_failed) false

      leave : Io (Unit {0})
      leave =
          if code_is env settings 0 status.exit_code
          then finish_now env settings run_id RunStatus.completed none false
          else exit

      exit-Stays : Stays Sound exit
      exit-Stays =
          Stays-if Sound (code_is env settings 4 status.exit_code)
            (finish_now env settings run_id RunStatus.failed (some ErrorCode.sandbox_timeout) false)
            (finish_now env settings run_id RunStatus.failed (some ErrorCode.sandbox_failed) false)
            (fails ErrorCode.sandbox_timeout) (fails ErrorCode.sandbox_failed)

      leave-Stays : Stays Sound leave
      leave-Stays =
          Stays-if Sound (code_is env settings 0 status.exit_code)
            (finish_now env settings run_id RunStatus.completed none false) exit
            (finish_now-Stays run_id RunStatus.completed none false refl) exit-Stays

      exited-Stays : Stays Sound (
          if status.oom_killed
          then finish_now env settings run_id RunStatus.failed (some ErrorCode.sandbox_oom) false
          else leave)
      exited-Stays =
          Stays-if Sound status.oom_killed
            (finish_now env settings run_id RunStatus.failed (some ErrorCode.sandbox_oom) false)
            leave (fails ErrorCode.sandbox_oom) leave-Stays

      go :
          (state : ContainerState)
          → Stays Sound
              (apply_container_status env settings run_id (record status { state = state }))
      go ContainerState.terminated =
          finish_now-Stays run_id RunStatus.cancelled (some ErrorCode.sandbox_cancelled) false refl
      go ContainerState.exited = exited-Stays
      go ContainerState.running = fails ErrorCode.sandbox_failed
      go ContainerState.created = fails ErrorCode.sandbox_failed
      go ContainerState.accepted = fails ErrorCode.sandbox_failed
      go ContainerState.unknown = fails ErrorCode.sandbox_failed

  pause-Stays : Stays Sound (pause env settings)
  unfolding pause
  pause-Stays =
      Stays-when Sound (not (settings.poll_interval == 0))
        (ask env settings env.monotonic >>= λ _. ask env settings (λ _. tt))
        (Stays-bind Sound (ask env settings env.monotonic) (λ _. ask env settings (λ _. tt))
          (ask-Stays env.monotonic) (λ _. ask-Stays (λ _. tt)))

  settle_or-Stays :
      (run_id : Text) (status : ContainerStatus) (again : Io Ending)
      → Stays Sound again
      → Stays Sound (settle_or env settings run_id status again)
  unfolding settle_or
  settle_or-Stays run_id status again next =
      Stays-if Sound (is_active env settings status.state) (pause env settings >>= λ _. again)
        (apply_container_status env settings run_id status >>= λ _. pure settled)
        (Stays-bind Sound (pause env settings) (λ _. again) pause-Stays (λ _. next))
        (Stays-bind Sound (apply_container_status env settings run_id status) (λ _. pure settled)
          (apply_container_status-Stays run_id status) (λ _ w h. h))

  read_status-Stays :
      (run_id : Text) (watchdog : Time) (again : Io Ending)
      → Stays Sound again
      → Stays Sound (read_status env settings run_id watchdog again)
  unfolding read_status
  read_status-Stays run_id watchdog again next =
      Stays-bind Sound (call env settings env.status) (λ status. look status)
        (call-Stays env.status)
        λ status.
          Stays-bind Sound (ask env settings env.monotonic) (act status) (ask-Stays env.monotonic)
            λ now.
              Stays-if Sound (leb watchdog now) (timeout_run env settings run_id)
                (settle_or env settings run_id status again) (timeout_run-Stays run_id)
                (settle_or-Stays run_id status again next)
    where
      act : ContainerStatus → ℕ → Io Ending
      act status now =
          if leb watchdog now
          then timeout_run env settings run_id
          else settle_or env settings run_id status again

      look : ContainerStatus → Io Ending
      look status = ask env settings env.monotonic >>= act status

  pub poll-Stays :
      (fuel : ℕ) (run_id : Text) (watchdog : Time)
      → Stays Sound (poll env settings fuel run_id watchdog)
  unfolding poll
  poll-Stays zero run_id watchdog w h = h
  poll-Stays (suc fuel) run_id watchdog w h =
      let again = poll env settings fuel run_id watchdog in
      Stays-bind Sound (ask env settings env.monotonic)
        (λ now.
          if leb watchdog now
          then timeout_run env settings run_id
          else read_status env settings run_id watchdog again)
        (ask-Stays env.monotonic)
        (λ now.
          Stays-if Sound (leb watchdog now) (timeout_run env settings run_id)
            (read_status env settings run_id watchdog again) (timeout_run-Stays run_id)
            (read_status-Stays run_id watchdog again (poll-Stays fuel run_id watchdog)))
        w h
