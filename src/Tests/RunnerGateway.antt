-- ===== src/Tests/RunnerGateway.antt =====
-- Requests of a sandbox: events, checkpoints and results.
use intelligent_agent_platfo.Base.{
  ℕ, ◌+◌, ◌≡◌, ◌≢◌, ◌<◌, refl, true, false, Option, none, some, [], ◌∷◌,
}
use intelligent_agent_platfo.Effects.{Result, ok, err}
use intelligent_agent_platfo.Database.{
  Text, Store, AgentRun, RunStatus, Event, CleanupStatus, CheckpointKey, StoredCheckpoint,
  RunnerResponse, RuntimeRunnerRequest, CompletionStatus, GatewayCode, Exception,
  runner_gateway_error, is_terminal,
}
use intelligent_agent_platfo.Database.Requests.{
  event_append, result_complete, event_appended, checkpoint_saved, run_completed,
}
use intelligent_agent_platfo.Conversations.Repository.{
  append_event, get_run_by_id, max_sequence, latest_event,
}
use intelligent_agent_platfo.Runtime.Lifecycle.{cleanup_is_due}
use intelligent_agent_platfo.Audit.Recorder.{audit_record}
use intelligent_agent_platfo.Runtime.ScriptLifecycle.{
  finish_running_script_invocations, finish_each,
}
use intelligent_agent_platfo.Runtime.DeadlineCommit.{commit_status_transition_before_deadline}
use intelligent_agent_platfo.Runtime.CheckpointStore.{save}
use intelligent_agent_platfo.Runtime.Lifecycle.Invariant.{IsConsistent}
use intelligent_agent_platfo.Runtime.RunnerGateway.{get_request, count_requests}
use intelligent_agent_platfo.Runtime.RunnerGateway.Events.{EventAppendRequest, append_runner_event}
use intelligent_agent_platfo.Runtime.RunnerGateway.Replay.{IsLater, append_runner_event_replay}
use intelligent_agent_platfo.Runtime.RunnerGateway.Sequences.{
  IsInOrder, append_runner_event-IsInOrder,
}
use intelligent_agent_platfo.Runtime.RunnerGateway.Log.{
  append_runner_event-IsConsistent, append_runner_event_forges,
}
use intelligent_agent_platfo.Runtime.RunnerGateway.Completion.{
  CompletionRequest, Snapshot, CompletionScope, add_assistant_message, announce, audit_completion,
  complete,
}
use intelligent_agent_platfo.Runtime.RunnerGateway.Ends.{complete-IsConsistent, complete_status}
use intelligent_agent_platfo.Runtime.RunnerGateway.Retries.{
  complete_replay, complete_in_time, complete-complete,
}
use intelligent_agent_platfo.Runtime.RunnerGateway.Checkpoints.{
  get_latest_checkpoint, save_checkpoint,
}
use intelligent_agent_platfo.Runtime.RunnerGateway.Recovery.{get_latest_checkpoint-save_checkpoint}
use intelligent_agent_platfo.Tests.Data.{running_run, base}
use intelligent_agent_platfo.Tests.Lifecycle.{base-IsConsistent}

abbrev pub size_of : Event → Option ℕ
size_of e = some 10

abbrev pub event_digest : EventAppendRequest → Text
event_digest request = request.sequence

abbrev pub first_event : EventAppendRequest
first_event = record { sequence = 1; event = Event.runner_event 4 9 }

abbrev send : EventAppendRequest → Store → Result Exception RunnerResponse × Store
send request = append_runner_event size_of 100 event_digest 11 request 5

sent : send first_event base ≡ (ok (event_appended 2 1), (send first_event base).1)
unfolding append_runner_event get_run_by_id get_request max_sequence
sent = refl

-- Another event comes between the first and its repetition.
abbrev second_event : EventAppendRequest
second_event = record { sequence = 2; event = Event.runner_event 6 2 }

abbrev after_first : Store
after_first = (send first_event base).1

abbrev after_second : Store
after_second = (append_runner_event size_of 100 event_digest 11 second_event 6 after_first).1

second-IsLater : IsLater 11 event_append 5 after_first after_second
unfolding append_runner_event get_request count_requests get_run_by_id max_sequence
second-IsLater = record {
  newer =
      record {
        run_id = 11;
        action = event_append;
        idempotency_key = 6;
        request_digest = event_digest second_event;
        response_json = event_appended 3 2;
      }
      ∷ [];
  rows = refl;
  others = (refl, tt);
  run = running_run;
  there = refl;
}

append_runner_event_replay_example :
    send first_event after_second ≡ (ok (event_appended 2 1), after_second)
append_runner_event_replay_example =
    append_runner_event_replay size_of 100 event_digest 11 first_event 5 (event_appended 2 1) base
      after_first after_second sent second-IsLater

append_runner_event-IsInOrder_example : IsInOrder (send first_event base).1.requests
unfolding count_requests
append_runner_event-IsInOrder_example =
    append_runner_event-IsInOrder size_of 100 event_digest 11 first_event 5 base (λ id. refl)

append_runner_event-IsConsistent_example : IsConsistent (send first_event base).1
append_runner_event-IsConsistent_example =
    append_runner_event-IsConsistent size_of 100 event_digest 11 first_event 5 base refl
      base-IsConsistent

abbrev forged_event : EventAppendRequest
forged_event = record { sequence = 1; event = Event.sandbox_cleanup CleanupStatus.cleaned }

forged_sent : send forged_event base ≡ (ok (event_appended 2 1), (send forged_event base).1)
unfolding append_runner_event get_run_by_id get_request max_sequence
forged_sent = refl

-- The sandbox of run 11 has started and was never cleaned up.
due_before : cleanup_is_due 11 base ≡ true
unfolding cleanup_is_due latest_event
due_before = refl

append_runner_event_forges_example : cleanup_is_due 11 (send forged_event base).1 ≡ false
unfolding get_request
append_runner_event_forges_example =
    append_runner_event_forges size_of 100 event_digest 11 forged_event 5 (event_appended 2 1) base
      (send forged_event base).1 refl refl forged_sent

abbrev pub result_digest : CompletionRequest → Text
result_digest request = 1

abbrev pub result : CompletionRequest
result = record {
  status = CompletionStatus.completed;
  final_assistant_content = some 8;
  error_code = none;
  checkpoint_key = none;
  artifact_refs = 6 ∷ [];
}

abbrev pub project_snapshot : Snapshot
project_snapshot = record { unit_id = 1; project_id = 2; user_id = 3; deadline = some 100 }

abbrev pub scope : CompletionScope
scope = record { snapshot = ok project_snapshot; has_artifact = λ _. true; clock = λ n. n + 50 }

abbrev late_scope : CompletionScope
late_scope = record {
  snapshot = ok project_snapshot;
  has_artifact = λ _. false;
  clock = λ n. n + 500;
}

abbrev report :
    CompletionScope → CompletionRequest → Text → Store → Result Exception RunnerResponse × Store
report at request key = complete result_digest at 11 request key

abbrev completion : RunnerResponse
completion = run_completed 11 CompletionStatus.completed none (6 ∷ [])

reported : report scope result 5 base ≡ (ok completion, (report scope result 5 base).1)
unfolding complete get_run_by_id get_request max_sequence add_assistant_message
    finish_running_script_invocations finish_each append_event announce audit_completion
    audit_record commit_status_transition_before_deadline
reported = refl

complete-IsConsistent_example : IsConsistent (report scope result 5 base).1
complete-IsConsistent_example =
    complete-IsConsistent result_digest scope 11 result 5 base base-IsConsistent

complete_status_example :
    (run : AgentRun) × (get_run_by_id 11 base ≡ some run)
    × (is_terminal run.status ≡ false)
    × (get_run_by_id 11 (report scope result 5 base).1
        ≡ some (record run { status = RunStatus.completed }))
unfolding get_request
complete_status_example =
    complete_status result_digest scope 11 result 5 completion base (report scope result 5 base).1
      base-IsConsistent refl reported

-- Also later, when the artifact is gone, the deadline has passed, and another run has sent an event.
abbrev other_request : RuntimeRunnerRequest
other_request = record {
  run_id = 12;
  action = event_append;
  idempotency_key = 5;
  request_digest = 1;
  response_json = event_appended 4 1;
}

abbrev after_report : Store
after_report = (report scope result 5 base).1

abbrev after_other : Store
after_other = record after_report { requests = other_request ∷ after_report.requests }

other-IsLater : IsLater 11 result_complete 5 after_report after_other
unfolding complete get_run_by_id get_request max_sequence add_assistant_message
    finish_running_script_invocations finish_each append_event announce audit_completion
    audit_record commit_status_transition_before_deadline
other-IsLater = record {
  newer = other_request ∷ [];
  rows = refl;
  others = (refl, tt);
  run = record running_run { status = RunStatus.completed };
  there = refl;
}

complete_replay_example : report late_scope result 5 after_other ≡ (ok completion, after_other)
complete_replay_example =
    complete_replay result_digest scope 11 result 5 late_scope completion base after_report
      after_other refl reported other-IsLater

complete_in_time_example : 54 < 100
unfolding get_request
complete_in_time_example =
    complete_in_time result_digest scope 11 result 5 completion project_snapshot 100 base
      (report scope result 5 base).1 refl refl refl refl reported

-- A result of `completed` after the deadline is refused.
report_late :
    (report (record late_scope { has_artifact = λ _. true }) result 5 base).0
    ≡ err (runner_gateway_error GatewayCode.sandbox_timeout)
unfolding complete get_run_by_id get_request
report_late = refl

abbrev failure : CompletionRequest
failure = record result { status = CompletionStatus.failed }

base_is_new : get_request 11 result_complete 5 base.requests ≡ none
unfolding get_request
base_is_new = refl

other_key_is_new : get_request 11 result_complete 9 (report scope result 5 base).1.requests ≡ none
unfolding complete get_run_by_id get_request max_sequence add_assistant_message
    finish_running_script_invocations finish_each append_event announce audit_completion
    audit_record commit_status_transition_before_deadline
other_key_is_new = refl

complete-complete_example : report scope failure 9 (report scope result 5 base).1 ≡ (
  err (runner_gateway_error GatewayCode.completion_already_committed),
  (report scope result 5 base).1,
)
complete-complete_example =
    complete-complete result_digest scope scope 11 result failure 5 9 completion project_snapshot
      base (report scope result 5 base).1 base-IsConsistent refl refl base_is_new other_key_is_new
      reported

abbrev state_size : Text → Option ℕ
state_size state = some 20

abbrev checkpoint_digest : CheckpointKey → Text → Text → Text
checkpoint_digest key snapshot_digest state = state

abbrev keep : Store → Result Exception RunnerResponse × Store
keep = save_checkpoint state_size 100 checkpoint_digest 11 (CheckpointKey.plain 4) 30 77 5 60

kept : keep base ≡ (ok (checkpoint_saved (CheckpointKey.plain 4) 77 30), (keep base).1)
unfolding save_checkpoint get_run_by_id get_request save
kept = refl

abbrev kept_checkpoint : StoredCheckpoint
kept_checkpoint = record {
  checkpoint_key = CheckpointKey.plain 4;
  state = 30;
  snapshot_digest = some 77;
  idempotency_key = some 5;
}

get_latest_checkpoint-save_checkpoint_example :
    (get_latest_checkpoint 11 77 (keep base).1 ≡ (ok kept_checkpoint, (keep base).1))
    × ((other : Text)
        → other ≢ 77
        → get_latest_checkpoint 11 other (keep base).1
          ≡ (err (runner_gateway_error GatewayCode.checkpoint_snapshot_mismatch), (keep base).1))
unfolding get_request
get_latest_checkpoint-save_checkpoint_example =
    get_latest_checkpoint-save_checkpoint state_size 100 checkpoint_digest 11
      (CheckpointKey.plain 4) 30 77 5 60 (checkpoint_saved (CheckpointKey.plain 4) 77 30) base
      (keep base).1 refl tt refl kept
