-- ===== src/Tests/Lifecycle.antt =====
-- The lifecycle of runs at concrete inputs.
use intelligent_agent_platfo.Base.{
  ◌≡◌, ◌≢◌, ◌+◌, ◌-◌, refl, inl, inr, false, none, some, arith, ◌==◌, Bool-cases,
}
use intelligent_agent_platfo.Effects.{ok}
use intelligent_agent_platfo.Effects.Total.{Returned}
use intelligent_agent_platfo.Database.{RunStatus, Event, CleanupStatus, ErrorCode, RunEvent}
use intelligent_agent_platfo.Conversations.Repository.{list_events, get_run_by_id}
use intelligent_agent_platfo.Conversations.Repository.Log.{IsDense, event_count}
use intelligent_agent_platfo.Conversations.Repository.Resume.{
  list_events_resumes, numbers, range_from,
}
use intelligent_agent_platfo.Runtime.Lifecycle.{finish, start, cleanup_is_due, record_cleanup}
use intelligent_agent_platfo.Runtime.Lifecycle.Rows.{IsKeyed, find_run}
use intelligent_agent_platfo.Runtime.Lifecycle.Invariant.{IsConsistent, finish-IsConsistent}
use intelligent_agent_platfo.Runtime.Lifecycle.Sessions.{start-IsConsistent}
use intelligent_agent_platfo.Runtime.Lifecycle.Ending.{finish_ends, finish_ended}
use intelligent_agent_platfo.Runtime.Lifecycle.Returning.{HasContext}
use intelligent_agent_platfo.Runtime.Lifecycle.Cleanup.{cleanup_once}
use intelligent_agent_platfo.Tests.Data.{talk, running_run, ended_run, base}

base-IsDense : IsDense base.events
base-IsDense id = elim (Bool-cases (11 == id)) [
  | inl eleven ↦ ground arith
  | inr other ↦ ground arith
]

base-IsKeyed : IsKeyed base.runs
base-IsKeyed id = ground arith

pub base-IsConsistent : IsConsistent base
base-IsConsistent = record {
  dense = base-IsDense;
  keyed = base-IsKeyed;
  announced = λ id. ground arith;
}

talk-unit : talk.unit_id ≢ 0
talk-unit = omega arith

talk-project : talk.project_id ≢ 0
talk-project = omega arith

abbrev running-HasContext : HasContext 11 base.runs base.conversations
running-HasContext = record {
  run = running_run;
  conversation = talk;
  found = refl;
  placed = refl;
  unit = talk-unit;
  project = talk-project;
}

list_events_resumes_example :
    numbers (list_events 12 1 base) ≡ range_from (1 + 1) (event_count 12 base.events - 1)
list_events_resumes_example = list_events_resumes 12 1 base base-IsDense

finish-IsConsistent_example :
    IsConsistent (finish 11 RunStatus.failed (some ErrorCode.sandbox_oom) false 5 base).1
finish-IsConsistent_example =
    finish-IsConsistent 11 RunStatus.failed (some ErrorCode.sandbox_oom) false 5 base refl
      base-IsConsistent

start-IsConsistent_example : IsConsistent (start 10 base).1
start-IsConsistent_example = start-IsConsistent 10 base base-IsConsistent

finish_ends_example :
    Returned
      (λ t. find_run 11 t.runs ≡ some (record running_run { status = RunStatus.completed }))
      (finish 11 RunStatus.completed none false 5 base)
finish_ends_example =
    finish_ends 11 RunStatus.completed none false 5 base base-IsKeyed running-HasContext refl

finish_ended_example : finish 12 RunStatus.failed none false 5 base ≡ (ok tt, base)
finish_ended_example =
    finish_ended 12 RunStatus.failed none false 5 base ended_run base-IsKeyed refl refl

cleanup_once_example : cleanup_is_due 12 (record_cleanup 12 CleanupStatus.cleaned base).1 ≡ false
cleanup_once_example = cleanup_once 12 base ended_run (unfold get_run_by_id in refl)

abbrev first_start : RunEvent
first_start = record { run_id = 12; sequence = 1; event = Event.sandbox_started }
