-- ===== src/Runtime/RunStates/Refines.antt =====
-- Sequences of sessions as runs of the machine.
use mathlib.Core.Path.{subst}
use intelligent_agent_platfo.Base.{
  ◌≡◌, ◌⊎◌, refl, ap, inl, inr, true, Option, none, some, List, [], ◌∷◌, All, arith,
}
use intelligent_agent_platfo.Database.{Text, Store, AgentRun, RunStatus, is_terminal}
use intelligent_agent_platfo.Runtime.Lifecycle.Frame.{verdicts}
use intelligent_agent_platfo.Runtime.Lifecycle.Rows.{find_run}
use intelligent_agent_platfo.Runtime.Lifecycle.Invariant.{IsConsistent, finish-IsConsistent}
use intelligent_agent_platfo.Runtime.Lifecycle.Sessions.{
  start-IsConsistent, IsConsistent-Frame, record_cleanup-IsConsistent,
  revoke_for_terminal_run-IsConsistent,
}
use intelligent_agent_platfo.Runtime.RunnerGateway.Ends.{complete-IsConsistent}
use intelligent_agent_platfo.Runtime.RunStates.{
  Step, Reachable, Verdict, final_status, Operation, start_run, finish_run, complete_run,
  approve_call, reject_call, send_event, pause_call, fail_call, note_cleanup, revoke_tokens,
  perform, perform_all, is_honest,
}
use intelligent_agent_platfo.Runtime.RunStates.Moves.{Moves, Moved, Moved-same, Reachable-ended}
use intelligent_agent_platfo.Runtime.RunnerGateway.Replay.{written}
use intelligent_agent_platfo.Runtime.RunnerGateway.Log.{
  append_runner_event-keeps, append_runner_event-IsConsistent,
}
use intelligent_agent_platfo.Runtime.RunStates.Pauses.{pause-Moved}
use intelligent_agent_platfo.Runtime.RunStates.Failures.{fail-Moved}
use intelligent_agent_platfo.Runtime.RunStates.Sessions.{
  start-Moved, finish-Moved, complete-Moved, cleanup-Moved, revoke-Moved,
}
use intelligent_agent_platfo.Runtime.RunStates.Decisions.{
  approve-Moved, approve-IsConsistent, reject-keeps,
}

verdict_final : (verdict : Verdict) → is_terminal (final_status verdict) ≡ true
verdict_final Verdict.completed = refl
verdict_final Verdict.failed = refl
verdict_final Verdict.cancelled = refl

-- One operation is a step of each run, or none, and keeps the invariant.
perform-Moved :
    (operation : Operation) (s : Store)
    → is_honest operation ≡ true
    → IsConsistent s
    → Moved s (perform operation s) × IsConsistent (perform operation s)
unfolding perform
perform-Moved (start_run run_id) s honest h =
    (start-Moved run_id s h, start-IsConsistent run_id s h)
perform-Moved (finish_run run_id verdict code allow now) s honest h = (
  finish-Moved run_id (final_status verdict) code allow now s (verdict_final verdict) h,
  finish-IsConsistent run_id (final_status verdict) code allow now s (verdict_final verdict) h,
)
perform-Moved (complete_run digest scope run_id request key) s honest h = (
  complete-Moved digest scope run_id request key s h,
  complete-IsConsistent digest scope run_id request key s h,
)
perform-Moved (approve_call digest approval_id context reason now) s honest h = (
  approve-Moved digest approval_id context reason now s h,
  approve-IsConsistent digest approval_id context reason now s h,
)
perform-Moved (reject_call approval_id context reason now) s honest h = (
  reject-keeps approval_id context reason now (Moved s) s (Moved-same s s refl)
      (λ t runs events. Moved-same s t runs),
  reject-keeps approval_id context reason now IsConsistent s h (λ t runs events.
      IsConsistent-Frame s t h (runs, rw events h.dense, λ id. ap (verdicts id) events)),
)
perform-Moved (send_event encoded max_bytes digest run_id request key) s honest h = (
  append_runner_event-keeps encoded max_bytes digest (Moved s) run_id request key s
      (Moved-same s s refl)
      (Moved-same s (written encoded max_bytes digest run_id request key s) refl),
  append_runner_event-IsConsistent encoded max_bytes digest run_id request key s (ground arith) h,
)
perform-Moved (pause_call services call tool context n) s honest h =
    pause-Moved services call tool context n s h
perform-Moved (fail_call run_id code) s honest h = fail-Moved run_id code s h
perform-Moved (note_cleanup run_id outcome) s honest h =
    (cleanup-Moved run_id outcome s h, record_cleanup-IsConsistent run_id outcome s h)
perform-Moved (revoke_tokens run_id now) s honest h =
    (revoke-Moved run_id now s, revoke_for_terminal_run-IsConsistent run_id now s h)

moved_run :
    (run : AgentRun) (o : Option AgentRun)
    → Moves (some run) o
    → (next : AgentRun) × (o ≡ some next)
      × ((next.status ≡ run.status) ⊎ Step run.status next.status)
moved_run run none h = absurd h
moved_run run (some next) h = (next, refl, h)

go_on : {a b c : RunStatus} → (b ≡ a) ⊎ Step a b → Reachable b c → Reachable a c
go_on {a} {b} {c} (inl same) rest = subst (λ x. Reachable x c) same rest
go_on (inr step) rest = Reachable.there step rest

-- From a consistent state, in any sequence of the operations of `Operation` (starts, ends, cleanups
-- and revocations of the lifecycle, decisions on approvals, results and events of runners, pauses of
-- tool calls, failures of approved calls), if no runner forges the event of an end: a run that is
-- there stays, its status follows the machine, and once it has ended it does not change any more;
-- runs and log stay consistent.
pub perform_all-refines :
    (operations : List Operation) (id : Text) (run : AgentRun) (s : Store)
    → All (λ operation. is_honest operation ≡ true) operations
    → IsConsistent s
    → find_run id s.runs ≡ some run
    → (after : AgentRun) × (find_run id (perform_all operations s).runs ≡ some after)
      × Reachable run.status after.status
      × (is_terminal run.status ≡ true → after.status ≡ run.status)
      × IsConsistent (perform_all operations s)
unfolding perform_all
perform_all-refines [] id run s honest h found = (run, found, Reachable.here, (λ ended. refl), h)
perform_all-refines (operation ∷ rest) id run s (honest, others) h found =
    let (moved, kept) = perform-Moved operation s honest h in
    let (next, there, step) =
      moved_run run (find_run id (perform operation s).runs)
        (subst (λ o. Moves o (find_run id (perform operation s).runs)) found (moved id)) in
    let (after, last, reached, ended, consistent) =
      perform_all-refines rest id next (perform operation s) others kept there in
    let whole = go_on step reached in (after, last, whole, Reachable-ended whole, consistent)
