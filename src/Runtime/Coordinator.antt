-- ===== src/Runtime/Coordinator.antt =====
-- backend/app/runtime/run_lifecycle.py: `SandboxRunCoordinator`, one run at a time. Its sessions
-- are those of Runtime/Lifecycle.antt; between them it reads clocks and calls the runner, and
-- other sessions write to the database. What it meets there is the parameter `Environment`, by the
-- number of the call; `others` is what the rest of the system writes meanwhile. The lock of
-- `_cleanup` orders the cleanups of one run in one process; a cleanup is one call of `cleanup`.
pub mod Keeps
pub mod Phases
pub mod Execution
pub mod Polling
pub mod Termination
use intelligent_agent_platfo.Base.{
  ℕ, zero, suc, ◌+◌, ◌-◌, min, Bool, true, false, ◌||◌, not, Option, none, some, List, leb, ◌==◌,
  if◌then◌else◌, is_some,
}
use intelligent_agent_platfo.Effects.{Result, ok, err, Action, ◌>>=◌, ◌>>◌, gets, pure, raise, when}
use intelligent_agent_platfo.Database.{
  Text, Time, Store, RunStatus, ErrorCode, CleanupStatus, Exception, runtime_error,
  runner_unavailable, runner_deadline_exceeded, ActorType, Db, sandbox_cancelled, sandbox_failed,
  sandbox_oom, sandbox_timeout, launcher_unavailable,
}
use intelligent_agent_platfo.Runtime.Lifecycle.{
  start, finish, revoke_for_terminal_run, run_is_terminal, cleanup_is_due, record_cleanup,
}

-- `status` of the runner's answer.
pub data ContainerState : Type 0 where
  running created accepted exited terminated unknown : ContainerState

-- The answer of `WorkflowRunnerClient.status`; a missing or negative exit code is `none`.
pub record ContainerStatus : Type 0 where
  pub state : ContainerState
  pub oom_killed : Bool
  pub exit_code : Option ℕ

-- How a call of the runner ends: with a value, or with one of its two errors.
pub data Reply (A : Type 0) : Type 0 where
  answer : A → Reply A
  unavailable : Reply A
  deadline_exceeded : Reply A

-- What the coordinator reads of the snapshot that it made.
pub record ExecutionSnapshot : Type 0 where
  pub actor : ActorType
  pub created_at : Time
  pub timeout : Time

pub record Environment : Type 0 where
  pub monotonic : ℕ → Time
  pub clock : ℕ → Time
  pub submit : ℕ → Reply (Unit {0})
  pub status : ℕ → Reply ContainerStatus
  pub terminate : ℕ → Reply (Unit {0})
  pub cleanup : ℕ → Reply (Unit {0})
  -- `_prepare_execution` past its first test: the snapshot and the token, or what they raise
  pub prepared : ℕ → Result Exception ExecutionSnapshot
  -- `get_for_run` of the snapshot service, if there is one, or what it raises
  pub recorded : ℕ → Result Exception (Option ExecutionSnapshot)
  pub others : ℕ → Store → Store

pub record Settings : Type 0 where
  pub timeout : Time
  pub poll_interval : Time
  -- both service factories and the gateway's address are set
  pub configured : Bool
  pub has_tokens : Bool

pub record World : Type 0 where
  pub store : Store
  -- how many calls were made
  pub tick : ℕ

abbrev pub Io : Type 0 → Type 0
Io = Action World Exception

-- A session.
abbrev pub db : {A : Type 0} → Db A → Io A
db m w = let (r, s) = m w.store in (r, record w { store = s })

-- `_TIMEOUT_CONTROL_ALLOWANCE_SECONDS`
abbrev pub allowance : Time
allowance = 1000000

-- How polling ends: with the status of the container, with a timeout and the deadline for the
-- control calls, or not within the fuel.
pub data Ending : Type 0 where
  settled : Ending
  timed_out : Time → Ending
  polling : Ending

-- `_execution_deadline`
unfoldable pub execution_deadline : ExecutionSnapshot → Time → Time
execution_deadline snapshot request_deadline = elim snapshot.actor [
  | ActorType.team ↦ min request_deadline (snapshot.created_at + snapshot.timeout)
  | ActorType.agent ↦ request_deadline
]

module _ (env : Environment) (settings : Settings) where
  -- A call to the outside; other sessions may write meanwhile.
  unfoldable pub ask : {A : Type 0} → (ℕ → A) → Io A
  ask f w = (ok (f w.tick), record w { store = env.others w.tick w.store; tick = suc w.tick })

  abbrev pub replied : {A : Type 0} → Reply A → Io A
  replied (answer a) w = (ok a, w)
  replied unavailable w = (err runner_unavailable, w)
  replied deadline_exceeded w = (err runner_deadline_exceeded, w)

  unfoldable pub call : {A : Type 0} → (ℕ → Reply A) → Io A
  unfolding ask
  call f = do reply ← ask f; replied reply

  -- `_finish`, with the clock that it reads.
  unfoldable pub finish_now : Text → RunStatus → Option ErrorCode → Bool → Io (Unit {0})
  unfolding ask
  finish_now run_id status code allow = do
    now ← ask env.clock
    db (finish run_id status code allow now)

  unfoldable pub revoke_now : Text → Io (Unit {0})
  unfolding ask
  revoke_now run_id = do
    now ← ask env.clock
    when settings.has_tokens (db (revoke_for_terminal_run run_id now))

  -- `_terminate_safely`
  unfoldable pub terminate_safely : Io (Unit {0})
  unfolding ask
  terminate_safely = do _ ← ask env.terminate; pure tt

  -- `_timeout_run`
  unfoldable pub timeout_run : Text → Io Ending
  unfolding finish_now revoke_now terminate_safely ask
  timeout_run run_id = do
    finish_now run_id RunStatus.failed (some sandbox_timeout) false
    revoke_now run_id
    now ← ask env.monotonic
    terminate_safely
    pure (timed_out (now + allowance))

  abbrev pub outcome_of : Reply (Unit {0}) → CleanupStatus
  outcome_of (answer _) = CleanupStatus.cleaned
  outcome_of _ = CleanupStatus.failed

  unfoldable pub run_cleanup : Text → Io (Unit {0})
  unfolding ask
  run_cleanup run_id = do reply ← ask env.cleanup; db (record_cleanup run_id (outcome_of reply))

  -- `_cleanup`
  unfoldable pub cleanup : Text → Io (Unit {0})
  unfolding run_cleanup
  cleanup run_id = do due ← gets (λ w. cleanup_is_due run_id w.store); when due (run_cleanup run_id)

  abbrev pub code_is : ℕ → Option ℕ → Bool
  code_is n none = false
  code_is n (some m) = m == n

  -- `_apply_container_status`
  unfoldable pub apply_container_status : Text → ContainerStatus → Io (Unit {0})
  unfolding finish_now
  apply_container_status run_id status = elim status.state [
    | ContainerState.terminated ↦
        finish_now run_id RunStatus.cancelled (some sandbox_cancelled) false
    | ContainerState.exited ↦
        if status.oom_killed
        then finish_now run_id RunStatus.failed (some sandbox_oom) false
        else if code_is 0 status.exit_code
        then finish_now run_id RunStatus.completed none false
        else if code_is 4 status.exit_code
        then finish_now run_id RunStatus.failed (some sandbox_timeout) false
        else finish_now run_id RunStatus.failed (some sandbox_failed) false
    | _ ↦ finish_now run_id RunStatus.failed (some sandbox_failed) false
  ]

  abbrev pub is_active : ContainerState → Bool
  is_active ContainerState.running = true
  is_active ContainerState.created = true
  is_active ContainerState.accepted = true
  is_active _ = false

  -- The pause between two polls.
  unfoldable pub pause : Io (Unit {0})
  unfolding ask
  pause = when (not (settings.poll_interval == 0)) (do _ ← ask env.monotonic; ask (λ _. tt))

  -- A round of the loop, `again` being the next one.
  unfoldable pub settle_or : Text → ContainerStatus → Io Ending → Io Ending
  unfolding apply_container_status pause
  settle_or run_id status again =
      if is_active status.state
      then pause >> again
      else apply_container_status run_id status >> pure settled

  unfoldable pub read_status : Text → Time → Io Ending → Io Ending
  unfolding call ask settle_or timeout_run
  read_status run_id watchdog again = do
    status ← call env.status
    now ← ask env.monotonic
    if leb watchdog now then timeout_run run_id else settle_or run_id status again

  unfoldable pub poll : ℕ → Text → Time → Io Ending
  unfolding read_status timeout_run ask
  poll zero run_id watchdog = pure polling
  poll (suc fuel) run_id watchdog =
      let again = poll fuel run_id watchdog in
      ask env.monotonic >>= λ now.
      if leb watchdog now then timeout_run run_id else read_status run_id watchdog again

  -- The `except` clause once the deadlines are known: `late` if the runner itself met a deadline.
  unfoldable pub passed : Time → Time → Bool → Io Bool
  unfolding ask
  passed watchdog deadline true = pure true
  passed watchdog deadline false = do
    now ← ask env.monotonic
    wall ← ask env.clock
    pure (leb watchdog now || leb deadline wall)

  unfoldable pub give_up : Text → Io Ending
  unfolding finish_now
  give_up run_id = do
    finish_now run_id RunStatus.failed (some launcher_unavailable) false
    pure settled

  unfoldable pub handle_unavailable : Text → Time → Time → Bool → Io Ending
  unfolding passed give_up timeout_run
  handle_unavailable run_id watchdog deadline late =
      passed watchdog deadline late >>= λ over. if over then timeout_run run_id else give_up run_id

  -- `try: m` with `except RunnerUnavailableError`.
  abbrev pub except_unavailable : Io Ending → (Bool → Io Ending) → Io Ending
  except_unavailable m handler w =
      let (r, u) = m w in
      elim r [
        | ok ending ↦ (ok ending, u)
        | err e ↦ elim e [
          | runner_unavailable ↦ handler false u
          | runner_deadline_exceeded ↦ handler true u
          | another ↦ (err another, u)
        ]
      ]

  -- The `finally` clause.
  unfoldable pub close_run : Text → Option Time → Io (Unit {0})
  unfolding revoke_now cleanup
  close_run run_id none = revoke_now run_id >> cleanup run_id
  close_run run_id (some control_deadline) = cleanup run_id

  abbrev pub finally_close : Text → Io Ending → Io Ending
  finally_close run_id m w =
      let (r, u) = m w in
      elim r [
        | ok settled ↦ (close_run run_id none >> pure settled) u
        | ok (timed_out t) ↦ (close_run run_id (some t) >> pure (timed_out t)) u
        | ok polling ↦ (ok polling, u)
        | err e ↦ (close_run run_id none >> raise e) u
      ]

  abbrev pub returned : {A : Type 0} → Result Exception A → Io A
  returned (ok a) w = (ok a, w)
  returned (err e) w = (err e, w)

  unfoldable pub prepare_execution : Io ExecutionSnapshot
  unfolding ask
  prepare_execution =
      if settings.configured then (ask env.prepared >>= returned) else raise runtime_error

  -- `_agent_version` raises the `KeyError` of a run that is not there.
  unfoldable pub submit_and_poll : ℕ → Text → Time → Io Ending
  unfolding call poll
  submit_and_poll fuel run_id watchdog =
      db (run_is_terminal run_id) >> (call env.submit >> poll fuel run_id watchdog)

  -- The `try` block of `execute`, from `started_at` and `started_wall_clock` on. Until the snapshot
  -- is there no watchdog is set, and an unavailable runner only fails the run.
  unfoldable pub attempt : ℕ → Text → Time → Time → Io Ending
  unfolding prepare_execution submit_and_poll handle_unavailable give_up
  attempt fuel run_id started_at wall w =
      let (r, u) = prepare_execution w in
      elim r [
        | ok snapshot ↦
            let deadline = execution_deadline snapshot (wall + settings.timeout) in
            let watchdog = started_at + (deadline - wall) in
            except_unavailable (submit_and_poll fuel run_id watchdog)
              (handle_unavailable run_id watchdog deadline) u
        | err e ↦ elim e [
          | runner_unavailable ↦ give_up run_id u
          | runner_deadline_exceeded ↦ give_up run_id u
          | another ↦ (err another, u)
        ]
      ]

  unfoldable pub execute_started : ℕ → Text → Io Ending
  unfolding attempt ask
  execute_started fuel run_id = do
    started_at ← ask env.monotonic
    wall ← ask env.clock
    finally_close run_id (attempt fuel run_id started_at wall)

  -- `execute`
  unfoldable pub execute : ℕ → Text → Io Ending
  unfolding execute_started
  execute fuel run_id =
      db (start run_id) >>= λ begun. if begun then execute_started fuel run_id else pure settled

  abbrev recovery_deadline : Option ExecutionSnapshot → Time → Time
  recovery_deadline none request = request
  recovery_deadline (some snapshot) request = execution_deadline snapshot request

  -- The snapshot that `_recovery_execution_deadline` reads.
  unfoldable pub load_snapshot : Io (Option ExecutionSnapshot)
  unfolding ask
  load_snapshot = ask env.recorded >>= returned

  unfoldable pub recover_open : ℕ → Text → Io Ending
  unfolding ask load_snapshot poll handle_unavailable
  recover_open fuel run_id = do
    started_at ← ask env.monotonic
    wall ← ask env.clock
    snapshot ← load_snapshot
    let deadline = recovery_deadline snapshot (wall + settings.timeout)
    let watchdog = started_at + (deadline - wall)
    finally_close run_id (
        except_unavailable (poll fuel run_id watchdog)
          (handle_unavailable run_id watchdog deadline))

  -- `recover`
  unfoldable pub recover : ℕ → Text → Io Ending
  unfolding recover_open
  recover fuel run_id = db (run_is_terminal run_id) >>= λ ended.
      if ended then pure settled else recover_open fuel run_id

  unfoldable pub cancel_open : Text → Io (Unit {0})
  unfolding finish_now revoke_now terminate_safely cleanup
  cancel_open run_id = do
    finish_now run_id RunStatus.cancelled (some sandbox_cancelled) true
    revoke_now run_id
    terminate_safely
    cleanup run_id

  -- `cancel`
  unfoldable pub cancel : Text → Io (Unit {0})
  unfolding cancel_open
  cancel run_id =
      db (run_is_terminal run_id) >>= λ ended. if ended then pure tt else cancel_open run_id
