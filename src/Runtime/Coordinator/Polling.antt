-- ===== src/Runtime/Coordinator/Polling.antt =====
-- Fuel for the polling loop of `SandboxRunCoordinator`.
use intelligent_agent_platfo.Base.{
  ℕ, zero, suc, ◌+◌, ◌≤◌, ◌≡◌, ◌≢◌, refl, Bool, true, false, not, leb, ◌==◌, if◌then◌else◌, arith,
  some,
}
use intelligent_agent_platfo.Effects.{Result, ok, err, ◌>>=◌, pure}
use intelligent_agent_platfo.Effects.Stays.{Stays, Stays-bind, Stays-when}
use intelligent_agent_platfo.Database.{Text, Time, RunStatus, ErrorCode, Exception}
use intelligent_agent_platfo.Runtime.Coordinator.{
  Environment, Settings, World, Io, Reply, ContainerStatus, Ending, settled, timed_out, polling,
  ask, call, replied, finish_now, revoke_now, terminate_safely, timeout_run, apply_container_status,
  pause, settle_or, read_status, poll, is_active, allowance,
}

-- From tick `n` on, `m` does not end by running out of fuel.
abbrev pub Ends : ℕ → Io Ending → Type 0
Ends n m = (w : World) → n ≤ w.tick → (m w).0 ≢ ok polling

abbrev pub Late : ℕ → World → Type 0
Late n w = n ≤ w.tick

err≢ok : (e : Exception) (r : Result Exception Ending) → r ≡ err e → r ≢ ok polling
err≢ok e r h k = cc

Ends-of :
    {A : Type 0} (n : ℕ) (f : A → Io Ending) (x : Result Exception A × World)
    → Late n x.1
    → ((a : A) → Ends n (f a))
    → (let (r, t) = x in
        elim r as (λ _. Result Exception Ending × World) [ ok a ↦ f a t | err e ↦ (err e, t) ]).0
      ≢ ok polling
Ends-of n f (ok a, s) p k = k a s p
Ends-of n f (err e, s) p k = err≢ok e (err e) refl

pub Ends-bind :
    {A : Type 0} (n : ℕ) (m : Io A) (f : A → Io Ending)
    → Stays (Late n) m
    → ((a : A) → Ends n (f a))
    → Ends n (m >>= f)
Ends-bind n m f h k w p = Ends-of n f (m w) (h w p) k

pub Ends-if :
    (n : ℕ) (b : Bool) (x y : Io Ending) → Ends n x → Ends n y → Ends n (if b then x else y)
Ends-if n true x y h k = h
Ends-if n false x y h k = k

-- Whatever comes before, if the rest does not depend on the tick.
pub then-Ends :
    {A : Type 0} (m : Io A) (f : A → Io Ending) → ((a : A) → Ends 0 (f a)) → Ends 0 (m >>= f)
then-Ends m f h = Ends-bind 0 m f (λ w p. omega arith) h

pub at_once : (n : ℕ) (m : Io Ending) → Ends 0 m → Ends n m
at_once n m h w p = h w (omega arith)

pub settled-Ends : Ends 0 (pure settled)
settled-Ends w p h = cc

pub timed_out-Ends : (t : Time) → Ends 0 (pure (timed_out t))
timed_out-Ends t w p h = cc

module _ (env : Environment) (settings : Settings) where
  pub ask-Late : {A : Type 0} (n : ℕ) (f : ℕ → A) → Stays (Late n) (ask env settings f)
  unfolding ask
  ask-Late n f w p = omega arith

  pub ask_then-Ends :
      {A : Type 0} (n : ℕ) (f : ℕ → A) (k : A → Io Ending)
      → ((a : A) → Ends n (k a))
      → Ends n (ask env settings f >>= k)
  ask_then-Ends n f k h = Ends-bind n (ask env settings f) k (ask-Late n f) h

  replied-Late : {A : Type 0} (n : ℕ) (r : Reply A) → Stays (Late n) (replied env settings r)
  replied-Late n (Reply.answer a) w p = p
  replied-Late n Reply.unavailable w p = p
  replied-Late n Reply.deadline_exceeded w p = p

  pub call-Late : {A : Type 0} (n : ℕ) (f : ℕ → Reply A) → Stays (Late n) (call env settings f)
  unfolding call
  call-Late n f =
      Stays-bind (Late n) (ask env settings f) (replied env settings) (ask-Late n f)
        (replied-Late n)

  pub timeout_run-Ends : (run_id : Text) → Ends 0 (timeout_run env settings run_id)
  unfolding timeout_run
  timeout_run-Ends run_id =
      then-Ends
        (finish_now env settings run_id RunStatus.failed (some ErrorCode.sandbox_timeout) false)
        (λ _. revoke_then)
        λ _.
          then-Ends (revoke_now env settings run_id) (λ _. ask env settings env.monotonic >>= stop)
            λ _. ask_then-Ends 0 env.monotonic stop λ now.
              then-Ends (terminate_safely env settings) (λ _. pure (timed_out (now + allowance)))
                (λ _. timed_out-Ends (now + allowance))
    where
      stop : ℕ → Io Ending
      stop now = terminate_safely env settings >>= λ _. pure (timed_out (now + allowance))

      revoke_then : Io Ending
      revoke_then = revoke_now env settings run_id >>= λ _. ask env settings env.monotonic >>= stop

  pause-Late : (n : ℕ) → Stays (Late n) (pause env settings)
  unfolding pause
  pause-Late n =
      Stays-when (Late n) (not (settings.poll_interval == 0))
        (ask env settings env.monotonic >>= λ _. ask env settings (λ _. tt))
        (Stays-bind (Late n) (ask env settings env.monotonic) (λ _. ask env settings (λ _. tt))
          (ask-Late n env.monotonic) (λ _. ask-Late n (λ _. tt)))

  settle_or-Ends :
      (n : ℕ) (run_id : Text) (status : ContainerStatus) (again : Io Ending)
      → Ends n again
      → Ends n (settle_or env settings run_id status again)
  unfolding settle_or
  settle_or-Ends n run_id status again next =
      Ends-if n (is_active env settings status.state) (pause env settings >>= λ _. again)
        (apply_container_status env settings run_id status >>= λ _. pure settled)
        (Ends-bind n (pause env settings) (λ _. again) (pause-Late n) (λ _. next))
        (at_once n (apply_container_status env settings run_id status >>= λ _. pure settled) (
          then-Ends (apply_container_status env settings run_id status) (λ _. pure settled)
            (λ _. settled-Ends)))

  read_status-Ends :
      (n : ℕ) (run_id : Text) (watchdog : Time) (again : Io Ending)
      → Ends n again
      → Ends n (read_status env settings run_id watchdog again)
  unfolding read_status
  read_status-Ends n run_id watchdog again next =
      Ends-bind n (call env settings env.status) look (call-Late n env.status) λ status.
        ask_then-Ends n env.monotonic (act status) λ now.
          Ends-if n (leb watchdog now) (timeout_run env settings run_id)
            (settle_or env settings run_id status again)
            (at_once n (timeout_run env settings run_id) (timeout_run-Ends run_id))
            (settle_or-Ends n run_id status again next)
    where
      act : ContainerStatus → ℕ → Io Ending
      act status now =
          if leb watchdog now
          then timeout_run env settings run_id
          else settle_or env settings run_id status again

      look : ContainerStatus → Io Ending
      look status = ask env settings env.monotonic >>= act status

  module _ (run_id : Text) (watchdog : Time) where
    abbrev round : Io Ending → Time → Io Ending
    round again now =
        if leb watchdog now
        then timeout_run env settings run_id
        else read_status env settings run_id watchdog again

    -- The first reading of the clock is at the tick of the call itself.
    last_round :
        (n : ℕ) (again : Io Ending)
        → ((k : ℕ) → n ≤ k → leb watchdog (env.monotonic k) ≡ true)
        → Ends n (ask env settings env.monotonic >>= round again)
    unfolding ask
    last_round n again over w p = rw (over w.tick p) (timeout_run-Ends run_id _ (omega arith))

    next_round :
        (n : ℕ) (again : Io Ending)
        → Ends (suc n) again
        → Ends n (ask env settings env.monotonic >>= round again)
    unfolding ask
    next_round n again next w p =
        Ends-if (suc n) (leb watchdog (env.monotonic w.tick)) (timeout_run env settings run_id)
          (read_status env settings run_id watchdog again)
          (at_once (suc n) (timeout_run env settings run_id) (timeout_run-Ends run_id))
          (read_status-Ends (suc n) run_id watchdog again next) _ (omega arith)

    -- If the monotonic clock has reached the watchdog from its reading number `last` on, then
    -- polling that starts at call number `w.tick` never runs out of fuel, the fuel being at least
    -- `last - w.tick + 1`: the loop settles the run, times it out, or raises.
    pub poll_ends :
        (fuel last : ℕ) (w : World)
        → ((k : ℕ) → last ≤ k → leb watchdog (env.monotonic k) ≡ true)
        → last ≤ fuel + w.tick
        → (poll env settings (suc fuel) run_id watchdog w).0 ≢ ok polling
    unfolding poll
    poll_ends zero last w over enough =
        last_round last (poll env settings zero run_id watchdog) over w (omega arith)
    poll_ends (suc fuel) last w over enough =
        next_round w.tick (poll env settings (suc fuel) run_id watchdog)
          (λ v later. poll_ends fuel last v over (omega arith)) w (omega arith)
