-- ===== src/Runtime/RunnerGateway/Ends.antt =====
-- The invariant of the runs, and the run's status, under a result that `complete` accepts.
use mathlib.Core.Path.{subst}
use intelligent_agent_platfo.Base.{
  ℕ, ◌≡◌, inl, inr, refl, Bool, true, false, ◌&&◌, not, all, Option, none, some, List, arith,
  is_some,
}
use intelligent_agent_platfo.Effects.{Result, ok, err, ◌>>=◌, ◌>>◌, pure}
use intelligent_agent_platfo.Effects.Hoare.{
  Outcome, Meets, Keeps-bind, meets_bind, transaction_keeps,
}
use intelligent_agent_platfo.Effects.Inversion.{Outcome-of_ok, bind_ok, transaction_ok}
use intelligent_agent_platfo.Database.{
  Text, Time, Store, AgentRun, RunStatus, CompletionStatus, RunnerResponse, GatewayCode,
  is_terminal, is_waiting_approval, Exception, Db,
}
use intelligent_agent_platfo.Database.Requests.{result_complete}
use intelligent_agent_platfo.Conversations.Repository.{get_run_by_id}
use intelligent_agent_platfo.Runtime.Lifecycle.Frame.{verdicts, Frame}
use intelligent_agent_platfo.Runtime.Lifecycle.Rows.{IsKeyed}
use intelligent_agent_platfo.Runtime.Lifecycle.Invariant.{IsConsistent}
use intelligent_agent_platfo.Runtime.DeadlineCommit.{is_late, same_status}
use intelligent_agent_platfo.Runtime.RunnerGateway.{get_request, once, refuse_if}
use intelligent_agent_platfo.Runtime.RunnerGateway.Replay.{once_ok}
use intelligent_agent_platfo.Runtime.RunnerGateway.Completion.{
  CompletionRequest, Snapshot, CompletionScope, target_of, guard_of, is_success, check_completion,
  write_completion, store_response, close_completion, complete_fresh, verified, complete_session,
  complete,
}
use intelligent_agent_platfo.Runtime.RunnerGateway.Outcomes.{
  Drafted, Landed, write_completion-Meets,
}
use intelligent_agent_platfo.Runtime.RunnerGateway.Commits.{
  refuse_if-Meets, refuse_if-Keeps, store_response-Meets, close_completion-Meets,
}
use intelligent_agent_platfo.Runtime.RunnerGateway.Landings.{
  same_status-eq, IsConsistent-Landed, Landed-run,
}

-- The commit waits for a deadline only where the status changes.
guarded_differs :
    (status : CompletionStatus) (deadline : Option Time) (current : RunStatus)
    → is_terminal current ≡ false
    → is_some (guard_of status deadline) ≡ true
    → same_status current (target_of status) ≡ false
guarded_differs CompletionStatus.completed deadline current live guarded = ground arith
guarded_differs CompletionStatus.failed deadline current live guarded = cc
guarded_differs CompletionStatus.cancelled deadline current live guarded = cc
guarded_differs CompletionStatus.interrupted deadline current live guarded = cc

verified_ok :
    (r : Result Exception Snapshot) (snapshot : Snapshot) (s t : Store)
    → verified r s ≡ (ok snapshot, t)
    → (r ≡ ok snapshot) × (t ≡ s)
verified_ok (ok x) snapshot s t h = ground arith
verified_ok (err e) snapshot s t h = cc

module _ (digest : CompletionRequest → Text) (scope : CompletionScope) (run_id : Text)
    (request : CompletionRequest) where
  check_completion-Meets :
      (guard : Option Time) (run : AgentRun) (P : Store → Type 0)
      → Meets P
          (check_completion digest scope request guard run)
          (λ _ s. P s × (is_terminal run.status ≡ false))
  unfolding check_completion
  check_completion-Meets guard run P =
      meets_bind P (λ _. Q) (λ _. Q) ended (λ _. conflict >> (late >> (missing >> later)))
        (refuse_if-Meets P (is_terminal run.status) GatewayCode.completion_already_committed)
        λ _.
          Keeps-bind Q conflict (λ _. late >> (missing >> later)) (refuse_if-Keeps Q _ _)
            λ _.
              Keeps-bind Q late (λ _. missing >> later) (refuse_if-Keeps Q _ _)
                (λ _.
                  Keeps-bind Q missing (λ _. later) (refuse_if-Keeps Q _ _)
                    (λ _. refuse_if-Keeps Q _ _))
    where
      Q : Store → Type 0
      Q s = P s × (is_terminal run.status ≡ false)

      ended : Db (Unit {0})
      ended = refuse_if (is_terminal run.status) GatewayCode.completion_already_committed

      conflict : Db (Unit {0})
      conflict =
          refuse_if (is_waiting_approval run.status && is_success request.status)
            GatewayCode.completion_conflicts_with_approval

      late : Db (Unit {0})
      late = refuse_if (is_late guard (scope.clock 0)) GatewayCode.sandbox_timeout

      missing : Db (Unit {0})
      missing =
          refuse_if (not (all scope.has_artifact request.artifact_refs))
            GatewayCode.artifact_not_found

      later : Db (Unit {0})
      later = refuse_if (is_late guard (scope.clock 1)) GatewayCode.sandbox_timeout

  complete_fresh-Meets :
      (key : Text) (snapshot : Snapshot) (run : AgentRun) (runs : List AgentRun) (V : Text → ℕ)
      → IsKeyed runs
      → Meets (Frame runs V) (complete_fresh digest scope run_id request key snapshot run) (λ _ t.
        (is_terminal run.status ≡ false)
        × Landed run_id
            (target_of request.status)
            runs
            V
            (same_status run.status (target_of request.status))
            t)
  unfolding complete_fresh
  complete_fresh-Meets key snapshot run runs V keyed =
      meets_bind F (λ _ s. F s × (is_terminal run.status ≡ false)) L
        (check_completion digest scope request guard run)
        (λ _. write >> (store >>= λ r. close >> pure r)) (check_completion-Meets guard run F)
        λ _ s (h, live).
          meets_bind F (λ _. D) L write (λ _. store >>= λ r. close >> pure r)
            (write_completion-Meets run_id target runs V digest scope request guard run refl)
            (λ _.
              meets_bind D (λ _. D) L store (λ r. close >> pure r)
                (store_response-Meets run_id target runs V digest scope request refl key same guard)
                λ r.
                  meets_bind D (λ _. Landed run_id target runs V same) L close (λ _. pure r)
                    (close_completion-Meets run_id target runs V digest scope request refl run
                      snapshot same guard keyed
                      (guarded_differs request.status snapshot.deadline run.status live))
                    (λ _ t landed. (live, landed)))
            s h
    where
      target : RunStatus
      target = target_of request.status

      guard : Option Time
      guard = guard_of request.status snapshot.deadline

      same : Bool
      same = same_status run.status target

      F : Store → Type 0
      F = Frame runs V

      D : Store → Type 0
      D = Drafted run_id target runs V (same_status run.status target) guard

      L : RunnerResponse → Store → Type 0
      L _ t =
          (is_terminal run.status ≡ false)
          × Landed run_id target runs V (same_status run.status target) t

      write : Db (Unit {0})
      write = write_completion digest scope run_id request guard run

      store : Db RunnerResponse
      store = store_response digest scope run_id request key

      close : Db (Unit {0})
      close = close_completion digest scope run_id request snapshot guard run

  -- What a result that was accepted afresh leaves.
  pub complete_fresh-Landed :
      (key : Text) (snapshot : Snapshot) (run : AgentRun) (response : RunnerResponse) (s t : Store)
      → IsConsistent s
      → complete_fresh digest scope run_id request key snapshot run s ≡ (ok response, t)
      → (is_terminal run.status ≡ false)
        × Landed run_id
            (target_of request.status)
            s.runs
            (λ id. verdicts id s.events)
            (same_status run.status (target_of request.status))
            t
  complete_fresh-Landed key snapshot run response s t h done =
      let V : Text → ℕ = λ id. verdicts id s.events in
      let Q : RunnerResponse → Store → Type 0 = λ _ u.
        (is_terminal run.status ≡ false)
        × Landed run_id (target_of request.status) s.runs V
            (same_status run.status (target_of request.status)) u in
      subst (Outcome {E = Exception} Q) done
        (complete_fresh-Meets key snapshot run s.runs V h.keyed s (refl, h.dense, λ id. refl))

  -- A session that returns was given a verified snapshot, and has gone on from there.
  pub complete_session_ok :
      (key : Text) (response : RunnerResponse) (s t : Store)
      → complete_session digest scope run_id request key s ≡ (ok response, t)
      → (snapshot : Snapshot) × (scope.snapshot ≡ ok snapshot)
        × (once run_id result_complete key
              (digest request)
              (complete_fresh digest scope run_id request key snapshot)
              s
            ≡ (ok response, t))
  unfolding complete_session
  complete_session_ok key response s t done =
      let (snapshot, u, got, rest) =
        bind_ok (verified scope.snapshot)
          (λ snapshot.
            once run_id result_complete key (digest request)
              (complete_fresh digest scope run_id request key snapshot))
          s done in
      let (is, same) = verified_ok scope.snapshot snapshot s u got in
      (snapshot, is, rw (← same) rest)

  -- Whatever a runner reports of its run, the runs and their log stay consistent.
  pub complete-IsConsistent :
      (key : Text) (s : Store)
      → IsConsistent s
      → IsConsistent (complete digest scope run_id request key s).1
  unfolding complete
  complete-IsConsistent key s h =
      transaction_keeps IsConsistent (complete_session digest scope run_id request key) s h (
        Outcome-of_ok (λ _ t. IsConsistent t) (complete_session digest scope run_id request key s)
          λ response t done.
            let (snapshot, verified, made) = complete_session_ok key response s t done in
            elim (once_ok run_id result_complete key (digest request)
              (complete_fresh digest scope run_id request key snapshot) response s t made) [
                | inl (answered, same) ↦ rw same h
                | inr (run, there, new, wrote) ↦
                    let (live, landed) =
                      complete_fresh-Landed key snapshot run response s t h wrote in
                    IsConsistent-Landed run_id (target_of request.status) run live
                      (same_status run.status (target_of request.status)) s t h
                      (unfold get_run_by_id in there) landed
              ])

  pub complete_ok :
      (key : Text) (response : RunnerResponse) (s t : Store)
      → complete digest scope run_id request key s ≡ (ok response, t)
      → get_request run_id result_complete key s.requests ≡ none
      → (snapshot : Snapshot) × (run : AgentRun) × (scope.snapshot ≡ ok snapshot)
        × (get_run_by_id run_id s ≡ some run)
        × (complete_fresh digest scope run_id request key snapshot run s ≡ (ok response, t))
  unfolding complete
  complete_ok key response s t h new =
      let (snapshot, verified, made) =
        complete_session_ok key response s t
          (transaction_ok (complete_session digest scope run_id request key) s h) in
      elim (once_ok run_id result_complete key (digest request)
        (complete_fresh digest scope run_id request key snapshot) response s t made) [
          | inl (answered, same) ↦ cc (answered.stored)
          | inr (run, there, _, wrote) ↦ (snapshot, run, verified, there, wrote)
        ]

  -- A result under a new key that is accepted in a consistent state found the run before its
  -- end, and leaves it with the status that the result stands for: `completed`, `failed` or
  -- `cancelled`, or waiting for an approval if the runner was interrupted.
  pub complete_status :
      (key : Text) (response : RunnerResponse) (s t : Store)
      → IsConsistent s
      → get_request run_id result_complete key s.requests ≡ none
      → complete digest scope run_id request key s ≡ (ok response, t)
      → (run : AgentRun) × (get_run_by_id run_id s ≡ some run)
        × (is_terminal run.status ≡ false)
        × (get_run_by_id run_id t ≡ some (record run { status = target_of request.status }))
  unfolding get_run_by_id
  complete_status key response s t h new done =
      let (snapshot, run, verified, there, wrote) = complete_ok key response s t done new in
      let (live, landed) = complete_fresh-Landed key snapshot run response s t h wrote in
      let same = same_status run.status (target_of request.status) in
      (
        run,
        there,
        live,
        Landed-run run_id (target_of request.status) run live same s t there
            (same_status-eq run.status (target_of request.status)) landed,
      )
