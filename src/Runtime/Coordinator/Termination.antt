-- ===== src/Runtime/Coordinator/Termination.antt =====
-- Fuel for `SandboxRunCoordinator.execute`.
use intelligent_agent_platfo.Base.{
  ℕ, suc, ◌+◌, ◌-◌, ◌≤◌, ◌≡◌, ◌≢◌, refl, Bool, true, false, none, some, leb, if◌then◌else◌, arith,
}
use intelligent_agent_platfo.Effects.{Result, ok, err, ◌>>=◌, ◌>>◌, pure, raise}
use intelligent_agent_platfo.Effects.Stays.{Stays, Stays-bind, Stays-if}
use intelligent_agent_platfo.Database.{
  Text, Time, RunStatus, ErrorCode, Exception, runner_unavailable, runner_deadline_exceeded,
  ActorType,
}
use intelligent_agent_platfo.Runtime.Lifecycle.{start, run_is_terminal}
use intelligent_agent_platfo.Runtime.Coordinator.{
  Environment, Settings, World, Io, ExecutionSnapshot, Ending, settled, timed_out, polling, db, ask,
  call, finish_now, timeout_run, poll, passed, give_up, handle_unavailable, except_unavailable,
  close_run, finally_close, returned, prepare_execution, submit_and_poll, attempt, execute_started,
  execute, execution_deadline,
}
use intelligent_agent_platfo.Runtime.Coordinator.Polling.{
  Ends, Late, Ends-bind, Ends-if, then-Ends, settled-Ends, timed_out-Ends, ask-Late, call-Late,
  timeout_run-Ends, poll_ends,
}

execution_deadline_bound :
    (snapshot : ExecutionSnapshot) (d : Time) → execution_deadline snapshot d ≤ d
unfolding execution_deadline
execution_deadline_bound snapshot d = go snapshot.actor
  where
    go : (actor : ActorType) → execution_deadline (record snapshot { actor = actor }) d ≤ d
    go ActorType.team = ground arith
    go ActorType.agent = omega arith

leb-true : (a b : ℕ) → a ≤ b → leb a b ≡ true
leb-true a b h = ground arith

raise-Ends : (e : Exception) → Ends 0 (raise e)
raise-Ends e w p h = cc

module _ (env : Environment) (settings : Settings) where
  give_up-Ends : (run_id : Text) → Ends 0 (give_up env settings run_id)
  unfolding give_up
  give_up-Ends run_id =
      then-Ends
        (finish_now env settings run_id RunStatus.failed (some ErrorCode.launcher_unavailable)
          false)
        (λ _. pure settled) (λ _. settled-Ends)

  handle_unavailable-Ends :
      (run_id : Text) (watchdog deadline : Time) (late : Bool)
      → Ends 0 (handle_unavailable env settings run_id watchdog deadline late)
  unfolding handle_unavailable
  handle_unavailable-Ends run_id watchdog deadline late =
      then-Ends (passed env settings watchdog deadline late)
        (λ over. if over then timeout_run env settings run_id else give_up env settings run_id)
        (λ over.
          Ends-if 0 over (timeout_run env settings run_id) (give_up env settings run_id)
            (timeout_run-Ends env settings run_id) (give_up-Ends run_id))

  except-Ends :
      (n : ℕ) (m : Io Ending) (handler : Bool → Io Ending)
      → Ends n m
      → ((late : Bool) → Ends 0 (handler late))
      → Ends n (except_unavailable env settings m handler)
  except-Ends n m handler h k w p = go (m w) (h w p)
    where
      go :
          (x : Result Exception Ending × World)
          → x.0 ≢ ok polling
          → (except_unavailable env settings (λ _. x) handler w).0 ≢ ok polling
      go (ok ending, u) q = q
      go (err runner_unavailable, u) q = k false u (omega arith)
      go (err runner_deadline_exceeded, u) q = k true u (omega arith)
      go (err (Exception.key_error id), u) q = q
      go (err Exception.value_error, u) q = q
      go (err Exception.runtime_error, u) q = q
      go (err Exception.approval_not_found, u) q = q
      go (err Exception.approval_forbidden, u) q = q
      go (err Exception.approval_conflict, u) q = q
      go (err Exception.token_invalid, u) q = q
      go (err Exception.token_forbidden, u) q = q
      go (err Exception.token_not_found, u) q = q
      go (err Exception.size_limit_error, u) q = q
      go (err Exception.integrity_error, u) q = q
      go (err (Exception.runner_gateway_error c), u) q = q
      go (err (Exception.tool_runtime_error c), u) q = q

  finally-Ends :
      (n : ℕ) (run_id : Text) (m : Io Ending)
      → Ends n m
      → Ends n (finally_close env settings run_id m)
  finally-Ends n run_id m h w p = go (m w) (h w p)
    where
      go :
          (x : Result Exception Ending × World)
          → x.0 ≢ ok polling
          → (finally_close env settings run_id (λ _. x) w).0 ≢ ok polling
      go (ok settled, u) q =
          then-Ends (close_run env settings run_id none) (λ _. pure settled) (λ _. settled-Ends) u
            (omega arith)
      go (ok (timed_out t), u) q =
          then-Ends (close_run env settings run_id (some t)) (λ _. pure (timed_out t))
            (λ _. timed_out-Ends t) u (omega arith)
      go (ok polling, u) q = absurd (q refl)
      go (err e, u) q =
          then-Ends (close_run env settings run_id none) (λ _. raise e) (λ _. raise-Ends e) u
            (omega arith)

  returned-Late :
      {A : Type 0} (n : ℕ) (r : Result Exception A) → Stays (Late n) (returned env settings r)
  returned-Late n (ok a) w p = p
  returned-Late n (err e) w p = p

  prepare_execution-Late : (n : ℕ) → Stays (Late n) (prepare_execution env settings)
  unfolding prepare_execution
  prepare_execution-Late n =
      Stays-if (Late n) settings.configured
        (ask env settings env.prepared >>= returned env settings) (raise Exception.runtime_error)
        (Stays-bind (Late n) (ask env settings env.prepared) (returned env settings)
          (ask-Late env settings n env.prepared) (returned-Late n))
        (λ w p. p)

  -- When the clock passes what a watchdog can be.
  abbrev pub IsTimed : ℕ → Time → Type 0
  IsTimed last started_at = (k : ℕ) → last ≤ k → started_at + settings.timeout ≤ env.monotonic k

  submit_and_poll-Ends :
      (n fuel last : ℕ) (run_id : Text) (watchdog : Time)
      → ((k : ℕ) → last ≤ k → leb watchdog (env.monotonic k) ≡ true)
      → last ≤ fuel + n
      → Ends n (submit_and_poll env settings (suc fuel) run_id watchdog)
  unfolding submit_and_poll
  submit_and_poll-Ends n fuel last run_id watchdog over enough =
      Ends-bind n (db (run_is_terminal run_id))
        (λ _. call env settings env.submit >> poll env settings (suc fuel) run_id watchdog)
        (λ w p. p)
        (λ _.
          Ends-bind n (call env settings env.submit)
            (λ _. poll env settings (suc fuel) run_id watchdog)
            (call-Late env settings n env.submit)
            (λ _ w p. poll_ends env settings run_id watchdog fuel last w over (omega arith)))

  attempt-Ends :
      (n fuel last : ℕ) (run_id : Text) (started_at wall : Time)
      → IsTimed last started_at
      → last ≤ fuel + n
      → Ends n (attempt env settings (suc fuel) run_id started_at wall)
  unfolding attempt
  attempt-Ends n fuel last run_id started_at wall timed enough w p =
      go (prepare_execution env settings w) (prepare_execution-Late n w p)
    where
      go :
          (x : Result Exception ExecutionSnapshot × World)
          → Late n x.1
          → (let (r, u) = x in
              elim r as (λ _. Result Exception Ending × World) [
                | ok snapshot ↦
                    let deadline = execution_deadline snapshot (wall + settings.timeout) in
                    let watchdog = started_at + (deadline - wall) in
                    except_unavailable env settings
                      (submit_and_poll env settings (suc fuel) run_id watchdog)
                      (handle_unavailable env settings run_id watchdog deadline)
                      u
                | err e ↦ elim e as (λ _. Result Exception Ending × World) [
                  | runner_unavailable ↦ give_up env settings run_id u
                  | runner_deadline_exceeded ↦ give_up env settings run_id u
                  | another ↦ (err another, u)
                ]
              ]).0
            ≢ ok polling
      go (ok snapshot, u) q =
          let deadline = execution_deadline snapshot (wall + settings.timeout) in
          let watchdog = started_at + (deadline - wall) in
          let bound = execution_deadline_bound snapshot (wall + settings.timeout) in
          let over : (k : ℕ) → last ≤ k → leb watchdog (env.monotonic k) ≡ true =
            λ k later. leb-true watchdog (env.monotonic k) (omega (arith, bound, timed k later)) in
          except-Ends n (submit_and_poll env settings (suc fuel) run_id watchdog)
            (handle_unavailable env settings run_id watchdog deadline)
            (submit_and_poll-Ends n fuel last run_id watchdog over enough)
            (handle_unavailable-Ends run_id watchdog deadline) u q
      go (err runner_unavailable, u) q = give_up-Ends run_id u (omega arith)
      go (err runner_deadline_exceeded, u) q = give_up-Ends run_id u (omega arith)
      go (err (Exception.key_error id), u) q = λ h. cc
      go (err Exception.value_error, u) q = λ h. cc
      go (err Exception.runtime_error, u) q = λ h. cc
      go (err Exception.approval_not_found, u) q = λ h. cc
      go (err Exception.approval_forbidden, u) q = λ h. cc
      go (err Exception.approval_conflict, u) q = λ h. cc
      go (err Exception.token_invalid, u) q = λ h. cc
      go (err Exception.token_forbidden, u) q = λ h. cc
      go (err Exception.token_not_found, u) q = λ h. cc
      go (err Exception.size_limit_error, u) q = λ h. cc
      go (err Exception.integrity_error, u) q = λ h. cc
      go (err (Exception.runner_gateway_error c), u) q = λ h. cc
      go (err (Exception.tool_runtime_error c), u) q = λ h. cc

  execute_started_ends :
      (fuel last : ℕ) (run_id : Text) (w : World)
      → IsTimed last (env.monotonic w.tick)
      → last ≤ fuel + w.tick
      → (execute_started env settings (suc fuel) run_id w).0 ≢ ok polling
  unfolding execute_started ask
  execute_started_ends fuel last run_id w timed enough =
      let started_at = env.monotonic w.tick in
      let wall = env.clock (suc w.tick) in
      finally-Ends w.tick run_id (attempt env settings (suc fuel) run_id started_at wall)
        (attempt-Ends w.tick fuel last run_id started_at wall timed enough) _ (omega arith)

  begun_ends :
      (fuel last : ℕ) (run_id : Text) (x : Result Exception Bool × World)
      → IsTimed last (env.monotonic x.1.tick)
      → last ≤ fuel + x.1.tick
      → (let (r, u) = x in
          elim r as (λ _. Result Exception Ending × World) [
            | ok begun ↦
                (if begun then execute_started env settings (suc fuel) run_id else pure settled) u
            | err e ↦ (err e, u)
          ]).0
        ≢ ok polling
  begun_ends fuel last run_id (ok true, u) timed enough h =
      execute_started_ends fuel last run_id u timed enough h
  begun_ends fuel last run_id (ok false, u) timed enough h = cc
  begun_ends fuel last run_id (err e, u) timed enough h = cc

  -- An execution ends: if from its reading number `last` on the monotonic clock shows at least the
  -- first reading plus the timeout, then with at least `last - w.tick + 1` rounds of fuel it returns
  -- or raises, whatever the runner answers, and never because the fuel is gone.
  pub execute_ends :
      (fuel last : ℕ) (run_id : Text) (w : World)
      → IsTimed last (env.monotonic w.tick)
      → last ≤ fuel + w.tick
      → (execute env settings (suc fuel) run_id w).0 ≢ ok polling
  unfolding execute
  execute_ends fuel last run_id w timed enough =
      begun_ends fuel last run_id (db (start run_id) w) timed enough
