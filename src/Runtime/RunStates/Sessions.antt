-- ===== src/Runtime/RunStates/Sessions.antt =====
-- Each session as a step of the machine, or none.
use intelligent_agent_platfo.Base.{
  ℕ, ◌+◌, ◌≡◌, refl, ap, inl, inr, Bool, true, false, Option, none, some, List, arith, map, count,
  ◌==◌, ==_iff, is_some, Bool-cases, Option-cases,
}
use intelligent_agent_platfo.Effects.{when}
use intelligent_agent_platfo.Effects.Hoare.{Outcome, Keeps-when, Outcome-map, transaction_keeps}
use intelligent_agent_platfo.Effects.Inversion.{Outcome-of_ok}
use intelligent_agent_platfo.Database.{
  Text, Time, Store, AgentRun, RunStatus, ErrorCode, CleanupStatus, Event, CompletionStatus, Reason,
  is_terminal,
}
use intelligent_agent_platfo.Database.Requests.{result_complete}
use intelligent_agent_platfo.Conversations.Repository.{get_run_by_id, append_event}
use intelligent_agent_platfo.Runtime.Lifecycle.{
  start, start_session, start_found, is_startable, finish, finish_session, finish_found,
  require_run, eligible, with_status, is_revocable, revocation_reason, record_cleanup,
  revoke_for_terminal_run, revoke_found,
}
use intelligent_agent_platfo.Runtime.Lifecycle.Frame.{verdicts, Frame, append_event-Keeps}
use intelligent_agent_platfo.Runtime.Lifecycle.Rows.{has_id, find_run, map-with_status_none}
use intelligent_agent_platfo.Runtime.Lifecycle.Invariant.{
  IsConsistent, one_verdict, finish_found-Meets,
}
use intelligent_agent_platfo.Runtime.Lifecycle.Sessions.{started, start_found-Meets}
use intelligent_agent_platfo.Runtime.RunTokens.{revoke}
use intelligent_agent_platfo.Runtime.RunnerGateway.Replay.{once_ok}
use intelligent_agent_platfo.Runtime.RunnerGateway.Completion.{
  CompletionRequest, CompletionScope, target_of, complete_fresh, complete_session, complete,
}
use intelligent_agent_platfo.Runtime.DeadlineCommit.{same_status}
use intelligent_agent_platfo.Runtime.RunnerGateway.Outcomes.{Landed}
use intelligent_agent_platfo.Runtime.RunnerGateway.Ends.{complete_session_ok, complete_fresh-Landed}
use intelligent_agent_platfo.Runtime.RunStates.{Step}
use intelligent_agent_platfo.Runtime.RunStates.Moves.{
  Moves-refl, Moved, Moved-same, Moved-updated, Moved-one,
}

pub start-Moved : (run_id : Text) (s : Store) → IsConsistent s → Moved s (start run_id s).1
unfolding start start_session started
start-Moved run_id s h =
    transaction_keeps (Moved s) (start_session run_id) s (Moved-same s s refl)
      (elim (Option-cases (get_run_by_id run_id s)) [
        | inl absent ↦ rw absent tt
        | inr (run, found) ↦ rw found (elim (Bool-cases (is_startable run.status)) [
          | inl startable ↦ rw startable (
              Outcome-map (λ _. Frame (started s.runs V run_id) V) (λ _ t. Moved s t)
                (start_found run_id run s)
                (λ _ t (runs, dense, seen).
                  Moved-one run_id run (has_id run_id) RunStatus.running s t
                    (unfold get_run_by_id in found) (λ r named. (==_iff r.id run_id).0 named)
                    (launch run.status startable) runs)
                (start_found-Meets s.runs V run_id run s (refl, h.dense, λ id. refl)))
          | inr other ↦ rw other (Moved-same s s refl)
        ])
      ])
  where
    V : Text → ℕ
    V id = verdicts id s.events

    launch : (status : RunStatus) → is_startable status ≡ true → Step status RunStatus.running
    launch RunStatus.queued startable = Step.launched
    launch RunStatus.running startable = absurd (cc)
    launch RunStatus.waiting_approval startable = absurd (cc)
    launch RunStatus.completed startable = absurd (cc)
    launch RunStatus.failed startable = absurd (cc)
    launch RunStatus.cancelled startable = absurd (cc)

pub finish-Moved :
    (run_id : Text) (status : RunStatus) (code : Option ErrorCode) (allow : Bool) (now : ℕ)
    (s : Store)
    → is_terminal status ≡ true
    → IsConsistent s
    → Moved s (finish run_id status code allow now s).1
unfolding finish finish_session one_verdict require_run
finish-Moved run_id status code allow now s final h =
    transaction_keeps (Moved s) (finish_session run_id status code allow now) s
      (Moved-same s s refl)
      (elim (Bool-cases (count p s.runs == 0)) [
        | inl zero_rows ↦
            rw
              (
                zero_rows,
                map-with_status_none p status s.runs ((==_iff (count p s.runs) 0).0 zero_rows),
              )
              (elim (Option-cases (get_run_by_id run_id s)) [
                | inl absent ↦ rw absent tt
                | inr (run, found) ↦ rw found (Moved-same s s refl)
              ])
        | inr hit ↦ rw hit (
            Outcome-map (λ _. Frame rows (λ id. one_verdict run_id status id + V id))
              (λ _ t. Moved s t) (finish_found run_id status code now (record s { runs = rows }))
              (λ _ t (runs, dense, seen).
                Moved-updated p status s t (λ id r found reached. Step.ended (ground arith) final)
                  runs)
              (finish_found-Meets rows V run_id status code now (record s { runs = rows })
                (refl, h.dense, λ id. refl)))
      ])
  where
    V : Text → ℕ
    V id = verdicts id s.events

    p : AgentRun → Bool
    p = eligible run_id status allow

    rows : List AgentRun
    rows = map (with_status p status) s.runs

complete_step :
    (status : CompletionStatus) (current : RunStatus)
    → is_terminal current ≡ false
    → Step current (target_of status)
complete_step CompletionStatus.completed current live = Step.ended live refl
complete_step CompletionStatus.failed current live = Step.ended live refl
complete_step CompletionStatus.cancelled current live = Step.ended live refl
complete_step CompletionStatus.interrupted current live = Step.paused live

Moved-Landed :
    (run_id : Text) (status : CompletionStatus) (run : AgentRun) (same : Bool) (V : Text → ℕ)
    (s t : Store)
    → find_run run_id s.runs ≡ some run
    → is_terminal run.status ≡ false
    → Landed run_id (target_of status) s.runs V same t
    → Moved s t
Moved-Landed run_id status run true V s t found live (runs, dense, seen) = Moved-same s t runs
Moved-Landed run_id status run false V s t found live (p, (only, reached), (runs, dense, seen)) =
    Moved-one run_id run p (target_of status) s t found only (complete_step status run.status live)
      runs

pub complete-Moved :
    (digest : CompletionRequest → Text) (scope : CompletionScope) (run_id : Text)
    (request : CompletionRequest) (key : Text) (s : Store)
    → IsConsistent s
    → Moved s (complete digest scope run_id request key s).1
unfolding complete
complete-Moved digest scope run_id request key s h =
    transaction_keeps (Moved s) (complete_session digest scope run_id request key) s
      (Moved-same s s refl)
      (Outcome-of_ok (λ _ t. Moved s t) (complete_session digest scope run_id request key s)
        λ response t done.
          let (snapshot, verified, made) =
            complete_session_ok digest scope run_id request key response s t done in
          elim (once_ok run_id result_complete key (digest request)
            (complete_fresh digest scope run_id request key snapshot) response s t made) [
              | inl (answered, same) ↦ Moved-same s t (ap (λ (x : Store). x.runs) same)
              | inr (run, there, new, wrote) ↦
                  let (live, landed) =
                    complete_fresh-Landed digest scope run_id request key snapshot run response s t
                      h wrote in
                  Moved-Landed run_id request.status run
                    (same_status run.status (target_of request.status)) (λ id. verdicts id s.events)
                    s t (unfold get_run_by_id in there) live landed
            ])

pub cleanup-Moved :
    (run_id : Text) (outcome : CleanupStatus) (s : Store)
    → IsConsistent s
    → Moved s (record_cleanup run_id outcome s).1
unfolding record_cleanup
cleanup-Moved run_id outcome s h =
    let event = Event.sandbox_cleanup outcome in
    let V : Text → ℕ = λ id. verdicts id s.events in
    transaction_keeps (Moved s)
      (λ t. when (is_some (get_run_by_id run_id t)) (append_event run_id event) t) s
      (Moved-same s s refl)
      (Outcome-map (λ _. Frame s.runs V) (λ _ t. Moved s t)
        (when (is_some (get_run_by_id run_id s)) (append_event run_id event) s)
        (λ _ t (runs, dense, seen). Moved-same s t runs)
        (Keeps-when (Frame s.runs V) (is_some (get_run_by_id run_id s)) (append_event run_id event)
          (append_event-Keeps s.runs V run_id event refl) s (refl, h.dense, λ id. refl)))

revoked-Moved :
    (run_id : Text) (reason : Reason) (now : Time) (s : Store)
    → Outcome (λ _ t. Moved s t) (revoke run_id reason now s)
unfolding revoke
revoked-Moved run_id reason now s id = Moves-refl (find_run id s.runs)

pub revoke-Moved :
    (run_id : Text) (now : Time) (s : Store) → Moved s (revoke_for_terminal_run run_id now s).1
unfolding revoke_for_terminal_run
revoke-Moved run_id now s =
    transaction_keeps (Moved s) (λ t. revoke_found run_id (get_run_by_id run_id t) now t) s
      (Moved-same s s refl) (revoked (get_run_by_id run_id s))
  where
    revoked : (o : Option AgentRun) → Outcome (λ _ t. Moved s t) (revoke_found run_id o now s)
    revoked none = Moved-same s s refl
    revoked (some run) = elim (Bool-cases (is_revocable run.status)) [
      | inl due ↦ rw due (revoked-Moved run_id (revocation_reason run_id run s) now s)
      | inr early ↦ rw early (Moved-same s s refl)
    ]
