-- ===== src/Tests/RunStates.antt =====
-- Sessions that act on the runs of the small database, in one order.
use intelligent_agent_platfo.Base.{◌≡◌, refl, true, false, none, some, List, [], ◌∷◌}
use intelligent_agent_platfo.Database.{AgentRun, ErrorCode, CleanupStatus, is_terminal}
use intelligent_agent_platfo.Runtime.Lifecycle.Rows.{find_run}
use intelligent_agent_platfo.Runtime.Lifecycle.Invariant.{IsConsistent}
use intelligent_agent_platfo.Runtime.RunStates.{
  Reachable, Verdict, Operation, start_run, finish_run, complete_run, send_event, pause_call,
  fail_call, note_cleanup, perform_all,
}
use intelligent_agent_platfo.Runtime.RunStates.Refines.{perform_all-refines}
use intelligent_agent_platfo.Tests.Data.{base, running_run}
use intelligent_agent_platfo.Tests.Tools.{services, lookup_call, lookup_tool, context}
use intelligent_agent_platfo.Tests.Lifecycle.{base-IsConsistent}
use intelligent_agent_platfo.Tests.RunnerGateway.{
  size_of, event_digest, first_event, result, result_digest, scope,
}

-- One run is launched and fails after an approved call; another sends an event and reports its
-- result, is asked to end once more, and a tool call asks for its approval too late.
abbrev sessions : List Operation
sessions =
    start_run 10
    ∷ send_event size_of 100 event_digest 11 first_event 5
    ∷ complete_run result_digest scope 11 result 5
    ∷ finish_run 11 Verdict.cancelled none false 70
    ∷ fail_call 10 ErrorCode.tool_execution_failed
    ∷ pause_call services lookup_call lookup_tool context 3
    ∷ note_cleanup 11 CleanupStatus.cleaned
    ∷ []

perform_all-refines_example :
    (after : AgentRun) × (find_run 11 (perform_all sessions base).runs ≡ some after)
    × Reachable running_run.status after.status
    × (is_terminal running_run.status ≡ true → after.status ≡ running_run.status)
    × IsConsistent (perform_all sessions base)
perform_all-refines_example =
    perform_all-refines sessions 11 running_run base
      (refl, (refl, (refl, (refl, (refl, (refl, (refl, tt))))))) base-IsConsistent refl
