-- ===== src/Runtime/RunnerGateway/Retries.antt =====
-- A result that is reported again, and one that is reported late.
use intelligent_agent_platfo.Base.{◌≡◌, ◌<◌, inl, inr, refl, ◌∙◌, true, none, some, arith}
use intelligent_agent_platfo.Effects.{ok, err}
use intelligent_agent_platfo.Effects.Inversion.{transaction_ok}
use intelligent_agent_platfo.Effects.Total.{transaction_of_ok, transaction_of_err}
use intelligent_agent_platfo.Database.{
  Text, Time, Store, AgentRun, CompletionStatus, RunnerResponse, GatewayCode, runner_gateway_error,
  is_terminal,
}
use intelligent_agent_platfo.Database.Requests.{result_complete}
use intelligent_agent_platfo.Conversations.Repository.{get_run_by_id}
use intelligent_agent_platfo.Runtime.RunnerGateway.{get_request}
use intelligent_agent_platfo.Runtime.RunnerGateway.Replay.{
  IsAnswered, IsLater, IsAnswered-later, once_there, once_again, once_ok,
}
use intelligent_agent_platfo.Runtime.RunnerGateway.Completion.{
  CompletionRequest, Snapshot, CompletionScope, target_of, is_final, check_completion,
  complete_fresh, verified, complete_session, complete,
}
use intelligent_agent_platfo.Runtime.Lifecycle.Invariant.{IsConsistent}
use intelligent_agent_platfo.Runtime.RunnerGateway.Ends.{
  complete_ok, complete_session_ok, complete_status,
}
use intelligent_agent_platfo.Runtime.RunnerGateway.Stored.{complete-Stored}

module _ (digest : CompletionRequest → Text) (scope : CompletionScope) (run_id : Text)
    (request : CompletionRequest) (key : Text) where
  -- A result of `completed` that is accepted under a new key, of a run whose snapshot has a
  -- deadline, was committed before that deadline.
  pub complete_in_time :
      (response : RunnerResponse) (snapshot : Snapshot) (deadline : Time) (s t : Store)
      → scope.snapshot ≡ ok snapshot
      → snapshot.deadline ≡ some deadline
      → request.status ≡ CompletionStatus.completed
      → get_request run_id result_complete key s.requests ≡ none
      → complete digest scope run_id request key s ≡ (ok response, t)
      → scope.clock 4 < deadline
  complete_in_time response snapshot deadline s t verified due success new done =
      let (found, run, is, there, wrote) =
        complete_ok digest scope run_id request key response s t done new in
      (complete-Stored digest scope run_id request key response found run s t wrote).1 deadline
        (let same_snapshot : found ≡ snapshot = ground arith in rw (success, same_snapshot) due)

  complete_session_again :
      (later : CompletionScope) (response : RunnerResponse) (snapshot : Snapshot) (t : Store)
      → later.snapshot ≡ ok snapshot
      → IsAnswered run_id result_complete key (digest request) response t
      → complete_session digest later run_id request key t ≡ (ok response, t)
  unfolding complete_session
  complete_session_again later response snapshot t verified answered = rw verified (
      once_again run_id result_complete key (digest request)
        (complete_fresh digest later run_id request key snapshot) response t answered)

  -- A runner that reports its result again under the same key, at any later time and with the same
  -- snapshot, is given the first response, and nothing is written: whatever other requests were
  -- stored in the meantime, and whatever the status of the run is now.
  pub complete_replay :
      (later : CompletionScope) (response : RunnerResponse) (s t u : Store)
      → later.snapshot ≡ scope.snapshot
      → complete digest scope run_id request key s ≡ (ok response, t)
      → IsLater run_id result_complete key t u
      → complete digest later run_id request key u ≡ (ok response, u)
  unfolding complete
  complete_replay later response s t u same_snapshot done after =
      let again = IsAnswered-later run_id result_complete key (digest request) response in
      let (snapshot, verified, made) =
        complete_session_ok digest scope run_id request key response s t
          (transaction_ok (complete_session digest scope run_id request key) s done) in
      let fresh = complete_fresh digest scope run_id request key snapshot in
      transaction_of_ok (complete_session digest later run_id request key) u (
        complete_session_again later response snapshot u (same_snapshot ∙ verified)
          (elim (once_ok run_id result_complete key (digest request) fresh response s t made) [
            | inl (answered, same) ↦
                again answered.row t u (rw same answered.stored) answered.digested answered.answered
                  after
            | inr (run, there, new, wrote) ↦
                let ((row, stored, digested, is), in_time) =
                  complete-Stored digest scope run_id request key response snapshot run s t wrote in
                again row t u stored digested is after
          ]))

  -- What a result meets whose run has ended.
  complete_ended :
      (run : AgentRun) (snapshot : Snapshot) (s : Store)
      → scope.snapshot ≡ ok snapshot
      → get_run_by_id run_id s ≡ some run
      → is_terminal run.status ≡ true
      → get_request run_id result_complete key s.requests ≡ none
      → complete digest scope run_id request key s
        ≡ (err (runner_gateway_error GatewayCode.completion_already_committed), s)
  unfolding complete complete_session complete_fresh check_completion
  complete_ended run snapshot s verified there ended new =
      let fresh = complete_fresh digest scope run_id request key snapshot in
      transaction_of_err (complete_session digest scope run_id request key) s {t = s} (
        rw verified (
          once_there run_id result_complete key (digest request) fresh s run there
          ∙ rw (new, ended) refl))

-- A run ends once: after a final result was accepted under a new key in a consistent state, every
-- result under another key that is new, of any status, is refused as already committed and
-- changes nothing.
pub complete-complete :
    (digest : CompletionRequest → Text) (scope later : CompletionScope) (run_id : Text)
    (request other : CompletionRequest) (key other_key : Text) (response : RunnerResponse)
    (snapshot : Snapshot) (s t : Store)
    → IsConsistent s
    → is_final request.status ≡ true
    → later.snapshot ≡ ok snapshot
    → get_request run_id result_complete key s.requests ≡ none
    → get_request run_id result_complete other_key t.requests ≡ none
    → complete digest scope run_id request key s ≡ (ok response, t)
    → complete digest later run_id other other_key t
      ≡ (err (runner_gateway_error GatewayCode.completion_already_committed), t)
complete-complete digest scope later run_id request other key other_key response snapshot s t h
      final verified new new_too done =
    let (run, was, live, there) =
      complete_status digest scope run_id request key response s t h new done in
    complete_ended digest later run_id other other_key
      (record run { status = target_of request.status }) snapshot t verified there (ground arith)
      new_too
