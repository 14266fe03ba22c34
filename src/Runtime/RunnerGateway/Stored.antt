-- ===== src/Runtime/RunnerGateway/Stored.antt =====
-- The response that `complete` stores, and the clock at its commit.
use mathlib.Core.Path.{subst}
use intelligent_agent_platfo.Base.{
  ◌≡◌, ◌<◌, inl, inr, refl, Bool, Option, none, some, List, [], ◌∷◌, arith, count, ◌==◌, ==_iff,
  ==-self, Bool-cases,
}
use intelligent_agent_platfo.Effects.{ok, ◌>>=◌, ◌>>◌, pure, when}
use intelligent_agent_platfo.Effects.Hoare.{Outcome, Meets, Keeps, Keeps-when, meets_bind}
use intelligent_agent_platfo.Effects.Inversion.{Outcome-of_ok}
use intelligent_agent_platfo.Database.{
  Text, Time, Store, AgentRun, RunStatus, RuntimeRunnerRequest, RunnerResponse, GatewayCode,
  Exception, Db,
}
use intelligent_agent_platfo.Database.Requests.{result_complete, run_completed}
use intelligent_agent_platfo.Audit.Recorder.{audit_record_ok}
use intelligent_agent_platfo.Runtime.Lifecycle.{set_status}
use intelligent_agent_platfo.Runtime.DeadlineCommit.{
  is_late, awaits, commit_status_transition_before_deadline,
}
use intelligent_agent_platfo.Runtime.RunnerGateway.{get_request, add_request, refuse_if}
use intelligent_agent_platfo.Runtime.RunnerGateway.Completion.{
  CompletionRequest, Snapshot, CompletionScope, target_of, guard_of, is_final, audit_completion,
  commit_run, check_completion, write_completion, store_response, close_completion, complete_fresh,
}
use intelligent_agent_platfo.Runtime.RunnerGateway.Commits.{refuse_if-Keeps}

Anything : Store → Type 0
Anything s = Unit

meets-Anything : {A : Type 0} (m : Db A) → Meets Anything m (λ _. Anything)
unfolding Anything
meets-Anything m s h = Outcome-of_ok (λ _ _. Unit) (m s) (λ _ _ _. tt)

-- An update before a deadline reaches no row once the deadline has passed.
count-awaits :
    (run_id : Text) (expected : RunStatus) (deadline now : Time) (runs : List AgentRun)
    → count (awaits run_id expected deadline now) runs ≡ 1
    → now < deadline
count-awaits run_id expected deadline now [] h = absurd (omega arith)
count-awaits run_id expected deadline now (r ∷ rs) h =
    elim (Bool-cases (awaits run_id expected deadline now r)) [
      | inl hit ↦ ground arith
      | inr miss ↦ count-awaits run_id expected deadline now rs (ground arith)
    ]

module _ (digest : CompletionRequest → Text) (scope : CompletionScope) (run_id : Text)
    (request : CompletionRequest) (key : Text) where
  -- The response is stored under the key.
  abbrev pub Stored : RunnerResponse → Store → Type 0
  Stored response t =
      (row : RuntimeRunnerRequest) × (get_request run_id result_complete key t.requests ≡ some row)
      × (row.request_digest ≡ digest request)
      × (row.response_json ≡ response)

  abbrev pub InTime : Option Time → Type 0
  InTime guard = (deadline : Time) → guard ≡ some deadline → scope.clock 4 < deadline

  store_response-Stored :
      Meets Anything (store_response digest scope run_id request key) (λ response. Stored response)
  unfolding store_response add_request get_request
  store_response-Stored s h = (
    record {
      run_id = run_id;
      action = result_complete;
      idempotency_key = key;
      request_digest = digest request;
      response_json =
          run_completed run_id request.status request.checkpoint_key request.artifact_refs;
    },
    rw (==-self run_id, ==-self key) refl,
    refl,
    refl,
  )

  audit_completion-Stored :
      (response : RunnerResponse) (b : Bool) (run : AgentRun) (snapshot : Snapshot)
      → Keeps (Stored response) (when b (audit_completion run request snapshot))
  unfolding audit_completion
  audit_completion-Stored response b run snapshot =
      Keeps-when (Stored response) b (audit_completion run request snapshot) λ s h.
        Outcome-of_ok (λ _. Stored response) (audit_completion run request snapshot s)
          λ v t done. let (audits, t_is) = audit_record_ok _ s t v done in rw t_is h

  commit_run-Stored :
      (response : RunnerResponse) (guard : Option Time) (expected target : RunStatus)
      → Meets
          (Stored response)
          (commit_run run_id expected target guard (scope.clock 4))
          (λ _ t. Stored response t × InTime guard)
  unfolding commit_status_transition_before_deadline set_status
  commit_run-Stored response none expected target s h = (h, λ deadline e. cc)
  commit_run-Stored response (some due) expected target s h =
      let rows = count (awaits run_id expected due (scope.clock 4)) s.runs in
      elim (Bool-cases (rows == 1)) [
        | inl one ↦ rw one (
          h,
          λ deadline e.
              let before =
                count-awaits run_id expected due (scope.clock 4) s.runs ((==_iff rows 1).0 one) in
              ground arith,
        )
        | inr other ↦ rw other tt
      ]

  close_completion-Stored :
      (response : RunnerResponse) (run : AgentRun) (snapshot : Snapshot) (guard : Option Time)
      → Meets
          (Stored response)
          (close_completion digest scope run_id request snapshot guard run)
          (λ _ t. Stored response t × InTime guard)
  unfolding close_completion
  close_completion-Stored response run snapshot guard =
      let K = Stored response in
      let K' : Unit {0} → Store → Type 0 = λ _ t. Stored response t × InTime guard in
      let commit = commit_run run_id run.status (target_of request.status) guard (scope.clock 4) in
      let late = refuse_if (is_late guard (scope.clock 3)) GatewayCode.sandbox_timeout in
      meets_bind K (λ _. K) K'
        (when (is_final request.status) (audit_completion run request snapshot))
        (λ _. late >> commit)
        (audit_completion-Stored response (is_final request.status) run snapshot)
        λ _.
          meets_bind K (λ _. K) K' late (λ _. commit) (refuse_if-Keeps K _ _)
            λ _. commit_run-Stored response guard run.status (target_of request.status)

  complete_fresh-Stored :
      (snapshot : Snapshot) (run : AgentRun)
      → Meets Anything
          (complete_fresh digest scope run_id request key snapshot run)
          (λ response t. Stored response t × InTime (guard_of request.status snapshot.deadline))
  unfolding complete_fresh Anything
  complete_fresh-Stored snapshot run =
      meets_bind Anything (λ _. Anything) K' check (λ _. write >> (store >>= λ r. close >> pure r))
        (meets-Anything check)
        λ _.
          meets_bind Anything (λ _. Anything) K' write (λ _. store >>= λ r. close >> pure r)
            (meets-Anything write)
            λ _.
              meets_bind Anything Stored K' store (λ r. close >> pure r) store_response-Stored
                λ r.
                  meets_bind (Stored r) (λ _ t. K' r t) K' close (λ _. pure r)
                    (close_completion-Stored r run snapshot guard) (λ _ t h. h)
    where
      guard : Option Time
      guard = guard_of request.status snapshot.deadline

      K' : RunnerResponse → Store → Type 0
      K' response t = Stored response t × InTime guard

      check : Db (Unit {0})
      check = check_completion digest scope request guard run

      write : Db (Unit {0})
      write = write_completion digest scope run_id request guard run

      store : Db RunnerResponse
      store = store_response digest scope run_id request key

      close : Db (Unit {0})
      close = close_completion digest scope run_id request snapshot guard run

  -- What a result accepted under a new key leaves to be read later.
  pub complete-Stored :
      (response : RunnerResponse) (snapshot : Snapshot) (run : AgentRun) (s t : Store)
      → complete_fresh digest scope run_id request key snapshot run s ≡ (ok response, t)
      → Stored response t × InTime (guard_of request.status snapshot.deadline)
  unfolding Anything
  complete-Stored response snapshot run s t done =
      let Q : RunnerResponse → Store → Type 0 =
        λ r u. Stored r u × InTime (guard_of request.status snapshot.deadline) in
      subst (Outcome {E = Exception} Q) done (complete_fresh-Stored snapshot run s tt)
