-- ===== src/Runtime/RunnerGateway/Commits.antt =====
-- `complete` from the response that it stores to the commit of the session.
use intelligent_agent_platfo.Base.{
  ℕ, ◌≡◌, inl, inr, refl, ap, ◌∙◌, Bool, true, false, ◌&&◌, Option, none, some, List, arith, count,
  map, ltb, ◌==◌, ==_iff, Bool-cases, is_some,
}
use intelligent_agent_platfo.Effects.{◌>>◌, when}
use intelligent_agent_platfo.Effects.Hoare.{Meets, Keeps, meets_bind, Keeps-when}
use intelligent_agent_platfo.Effects.Inversion.{Outcome-of_ok}
use intelligent_agent_platfo.Database.{Text, Time, Store, AgentRun, RunStatus, GatewayCode}
use intelligent_agent_platfo.Audit.Recorder.{audit_record_ok}
use intelligent_agent_platfo.Runtime.Lifecycle.{with_status, set_status}
use intelligent_agent_platfo.Runtime.Lifecycle.Frame.{Frame}
use intelligent_agent_platfo.Runtime.Lifecycle.Rows.{has_id, IsKeyed, count_and, find_run-id}
use intelligent_agent_platfo.Runtime.DeadlineCommit.{
  is_late, same_status, awaits, commit_status_transition_before_deadline,
}
use intelligent_agent_platfo.Runtime.RunnerGateway.{add_request, refuse_if}
use intelligent_agent_platfo.Runtime.RunnerGateway.Completion.{
  CompletionRequest, Snapshot, CompletionScope, target_of, is_final, audit_completion, commit_run,
  store_response, close_completion,
}
use intelligent_agent_platfo.Runtime.RunnerGateway.Outcomes.{announced_as, Reaches, Drafted, Landed}

Frame-of :
    (runs : List AgentRun) (V : Text → ℕ) (s t : Store)
    → t.runs ≡ s.runs
    → t.events ≡ s.events
    → Frame runs V s
    → Frame runs V t
Frame-of runs V s t same_runs same_events (same, dense, seen) =
    (same_runs ∙ same, rw same_events dense, λ id. rw same_events (seen id))

pub refuse_if-Meets :
    (P : Store → Type 0) (b : Bool) (code : GatewayCode)
    → Meets P (refuse_if b code) (λ _ s. P s × (b ≡ false))
refuse_if-Meets P true code s h = tt
refuse_if-Meets P false code s h = (h, refl)

pub refuse_if-Keeps :
    (P : Store → Type 0) (b : Bool) (code : GatewayCode) → Keeps P (refuse_if b code)
refuse_if-Keeps P true code s h = tt
refuse_if-Keeps P false code s h = h

module _ (run_id : Text) (target : RunStatus) (runs : List AgentRun) (V : Text → ℕ) where
  Drafted-of :
      (same : Bool) (guard : Option Time) (s t : Store)
      → t.runs ≡ s.runs
      → t.events ≡ s.events
      → Drafted run_id target runs V same guard s
      → Drafted run_id target runs V same guard t
  Drafted-of true guard s t r e h = Frame-of runs V s t r e h
  Drafted-of false none s t r e h =
      Frame-of (map (with_status (has_id run_id) target) runs) (announced_as run_id target V) s t r
        e h
  Drafted-of false (some deadline) s t r e h =
      Frame-of runs (announced_as run_id target V) s t r e h

  Reaches-has_id : Reaches run_id runs (has_id run_id)
  Reaches-has_id = (
    λ r h. (==_iff r.id run_id).0 h,
    λ r found. (==_iff r.id run_id).1 (find_run-id run_id runs r found),
  )

  -- An update that reached one row reached the run.
  Reaches-awaits :
      (expected : RunStatus) (deadline now : Time)
      → IsKeyed runs
      → count (awaits run_id expected deadline now) runs ≡ 1
      → Reaches run_id runs (awaits run_id expected deadline now)
  Reaches-awaits expected deadline now keyed one =
      let due = λ (r : AgentRun). same_status r.status expected && ltb now deadline in
      (
        λ r h. ground (arith, ==_iff r.id run_id),
        λ r found. ground (
          arith,
          count_and (has_id run_id) due runs (keyed run_id),
          find_run-id run_id runs r found,
          ==_iff r.id run_id,
        ),
      )

  commit_run-Meets :
      (same : Bool) (guard : Option Time) (expected : RunStatus) (now : Time)
      → IsKeyed runs
      → (is_some guard ≡ true → same ≡ false)
      → Meets
          (Drafted run_id target runs V same guard)
          (commit_run run_id expected target guard now)
          (λ _. Landed run_id target runs V same)
  unfolding commit_status_transition_before_deadline set_status
  commit_run-Meets true none expected now keyed plain s h = h
  commit_run-Meets true (some deadline) expected now keyed plain s h = cc (plain refl)
  commit_run-Meets false none expected now keyed plain s h = (has_id run_id, Reaches-has_id, h)
  commit_run-Meets false (some deadline) expected now keyed plain s (same, dense, seen) =
      let due = awaits run_id expected deadline now in
      elim (Bool-cases (count due s.runs == 1)) [
        | inl one ↦ rw one (
          due,
          Reaches-awaits expected deadline now keyed
              (rw (← same) ((==_iff (count due s.runs) 1).0 one)),
          (ap (map (with_status due target)) same, dense, seen),
        )
        | inr other ↦ rw other tt
      ]

  module _ (digest : CompletionRequest → Text) (scope : CompletionScope)
      (request : CompletionRequest) (final : target_of request.status ≡ target) where
    pub store_response-Meets :
        (key : Text) (same : Bool) (guard : Option Time)
        → Meets
            (Drafted run_id target runs V same guard)
            (store_response digest scope run_id request key)
            (λ _. Drafted run_id target runs V same guard)
    unfolding store_response add_request
    store_response-Meets key same guard s h = Drafted-of same guard s _ refl refl h

    audit_completion-Keeps :
        (b : Bool) (run : AgentRun) (snapshot : Snapshot) (same : Bool) (guard : Option Time)
        → Keeps
            (Drafted run_id target runs V same guard)
            (when b (audit_completion run request snapshot))
    unfolding audit_completion
    audit_completion-Keeps b run snapshot same guard =
        Keeps-when (Drafted run_id target runs V same guard) b
          (audit_completion run request snapshot)
          λ s h.
            Outcome-of_ok (λ _. Drafted run_id target runs V same guard)
              (audit_completion run request snapshot s)
              λ v t done.
                let (audits, t_is) = audit_record_ok _ s t v done in
                rw t_is (Drafted-of same guard s (record s { audits = audits }) refl refl h)

    pub close_completion-Meets :
        (run : AgentRun) (snapshot : Snapshot) (same : Bool) (guard : Option Time)
        → IsKeyed runs
        → (is_some guard ≡ true → same ≡ false)
        → Meets
            (Drafted run_id target runs V same guard)
            (close_completion digest scope run_id request snapshot guard run)
            (λ _. Landed run_id target runs V same)
    unfolding close_completion
    close_completion-Meets run snapshot same guard keyed plain =
        let commit = commit_run run_id run.status target guard (scope.clock 4) in
        let late = refuse_if (is_late guard (scope.clock 3)) GatewayCode.sandbox_timeout in
        let D = Drafted run_id target runs V same guard in
        rw final (
          meets_bind D (λ _. D) (λ _. Landed run_id target runs V same)
            (when (is_final request.status) (audit_completion run request snapshot))
            (λ _. late >> commit)
            (audit_completion-Keeps (is_final request.status) run snapshot same guard)
            λ _.
              meets_bind D (λ _. D) (λ _. Landed run_id target runs V same) late (λ _. commit)
                (refuse_if-Keeps D (is_late guard (scope.clock 3)) GatewayCode.sandbox_timeout)
                λ _. commit_run-Meets same guard run.status (scope.clock 4) keyed plain)
