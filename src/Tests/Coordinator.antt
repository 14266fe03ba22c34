-- ===== src/Tests/Coordinator.antt =====
-- The coordinator against a sandbox that exits with code 0 once its status is asked late enough.
use intelligent_agent_platfo.Base.{
  ℕ, ◌≡◌, ◌≢◌, ◌≤◌, ◌+◌, true, false, none, some, leb, arith, if◌then◌else◌,
}
use intelligent_agent_platfo.Effects.{ok}
use intelligent_agent_platfo.Database.{ActorType}
use intelligent_agent_platfo.Runtime.Coordinator.{
  Environment, Settings, World, Reply, ContainerState, ContainerStatus, polling, poll, execute,
  recover, cancel,
}
use intelligent_agent_platfo.Runtime.Coordinator.Keeps.{Sound, IsQuiet}
use intelligent_agent_platfo.Runtime.Coordinator.Execution.{
  execute-IsConsistent, recover-IsConsistent, cancel-IsConsistent,
}
use intelligent_agent_platfo.Runtime.Coordinator.Polling.{poll_ends}
use intelligent_agent_platfo.Runtime.Coordinator.Termination.{IsTimed, execute_ends}
use intelligent_agent_platfo.Tests.Data.{base}
use intelligent_agent_platfo.Tests.Lifecycle.{base-IsConsistent}

abbrev status_at : ℕ → Reply ContainerStatus
status_at k = Reply.answer (record {
  state = if leb 12 k then ContainerState.exited else ContainerState.running;
  oom_killed = false;
  exit_code = some 0;
})

abbrev env : Environment
env = record {
  monotonic = λ k. k;
  clock = λ k. 1000 + k;
  submit = λ k. Reply.answer tt;
  status = status_at;
  terminate = λ k. Reply.answer tt;
  cleanup = λ k. Reply.unavailable;
  prepared = λ k. ok (record { actor = ActorType.team; created_at = 990; timeout = 300 });
  recorded = λ k. ok none;
  others = λ k s. s;
}

abbrev settings : Settings
settings = record { timeout = 300; poll_interval = 5; configured = true; has_tokens = true }

quiet : IsQuiet env
quiet n s h = h

abbrev start_world : World
start_world = record { store = base; tick = 0 }

execute-IsConsistent_example : Sound (execute env settings 20 10 start_world).1
execute-IsConsistent_example =
    execute-IsConsistent env settings quiet 20 10 start_world base-IsConsistent

recover-IsConsistent_example : Sound (recover env settings 20 11 start_world).1
recover-IsConsistent_example =
    recover-IsConsistent env settings quiet 20 11 start_world base-IsConsistent

cancel-IsConsistent_example : Sound (cancel env settings 11 start_world).1
cancel-IsConsistent_example =
    cancel-IsConsistent env settings quiet 11 start_world base-IsConsistent

clock-passes : (k : ℕ) → 9 ≤ k → leb 9 k ≡ true
clock-passes k h = ground arith

poll_ends_example : (poll env settings 10 11 9 start_world).0 ≢ ok polling
poll_ends_example = poll_ends env settings 11 9 9 9 start_world clock-passes (omega arith)

timed : IsTimed env settings 300 0
timed k h = omega arith

execute_ends_example : (execute env settings 301 10 start_world).0 ≢ ok polling
execute_ends_example = execute_ends env settings 300 300 10 start_world timed (omega arith)
