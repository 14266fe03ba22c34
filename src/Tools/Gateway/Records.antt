-- ===== src/Tools/Gateway/Records.antt =====
-- The rows of the tool calls under the sessions of the gateway.
use intelligent_agent_platfo.Base.{
  ℕ, ◌≡◌, refl, inl, inr, Bool, true, false, ◌&&◌, not, Option, none, some, List, [], ◌∷◌, arith,
  count, map, find, ◌==◌, if◌then◌else◌, is_some, Bool-cases, Option-cases,
}
use intelligent_agent_platfo.Effects.{◌>>=◌, ◌>>◌, modify, pure, when}
use intelligent_agent_platfo.Effects.Hoare.{Keeps, Keeps-bind, Keeps-when}
use intelligent_agent_platfo.Effects.Inversion.{Outcome-of_ok}
use intelligent_agent_platfo.Database.{
  Text, Time, Store, AgentRun, ToolInvocation, InvocationStatus, ErrorCode, Event, AuditEvent, Db,
  is_running,
}
use intelligent_agent_platfo.Audit.Recorder.{audit_record, audit_record_ok}
use intelligent_agent_platfo.Conversations.Repository.{
  append_event, get_run_by_id, get_tool_invocation,
}
use intelligent_agent_platfo.Conversations.Repository.Log.{append_event_ok}
use intelligent_agent_platfo.Runtime.DeadlineCommit.{is_late}
use intelligent_agent_platfo.Tools.Gateway.{
  ToolExecutionContext, ToolServices, refuse_when, lock_active_run, insert_invocation,
  announce_started, commit_started,
}
use intelligent_agent_platfo.Tools.Gateway.Terminal.{
  replace_invocation, closed, awaits, commit_invocation, audit_finished, team_deadline_for_run,
  deadline_of, persist_terminal, persist_loaded, persist_again,
}

module _ (run_id call_id : Text) where
  -- The call is on record.
  abbrev pub Held : Store → Type 0
  Held s =
      is_some (find (λ i. (i.run_id == run_id) && (i.tool_call_id == call_id)) s.invocations) ≡ true

  pub append_event-Held : (id : Text) (event : Event) → Keeps Held (append_event id event)
  append_event-Held id event s h =
      Outcome-of_ok (λ _. Held) (append_event id event s)
        λ v t done. rw (append_event_ok id event s t v done) h

  pub audit_record-Held : (request : AuditEvent) → Keeps Held (audit_record request)
  audit_record-Held request s h =
      Outcome-of_ok (λ _. Held) (audit_record request s)
        λ v t done. let (audits, t_is) = audit_record_ok request s t v done in rw t_is h

  pub refuse_when-Held : (b : Bool) (code : ErrorCode) → Keeps Held (refuse_when b code)
  refuse_when-Held true code s h = tt
  refuse_when-Held false code s h = h

  pub lock_active_run-Held : (id : Text) → Keeps Held (lock_active_run id)
  unfolding lock_active_run
  lock_active_run-Held id s h = elim (Option-cases (get_run_by_id id s)) [
    | inl absent ↦ rw absent tt
    | inr (run, there) ↦ elim (Bool-cases (is_running run.status)) [
      | inl active ↦ rw (there, active) h
      | inr ended ↦ rw (there, ended) tt
    ]
  ]

  -- A change of rows that keeps the run and the call of each.
  found-map :
      (p : ToolInvocation → Bool) (f : ToolInvocation → ToolInvocation) (rows : List ToolInvocation)
      → ((i : ToolInvocation) → (f i).run_id ≡ i.run_id)
      → ((i : ToolInvocation) → (f i).tool_call_id ≡ i.tool_call_id)
      → is_some (find (λ i. (i.run_id == run_id) && (i.tool_call_id == call_id)) rows) ≡ true
      → is_some (
          find
            (λ i. (i.run_id == run_id) && (i.tool_call_id == call_id))
            (map (λ i. if p i then f i else i) rows))
        ≡ true
  found-map p f [] run call h = h
  found-map p f (i ∷ is) run call h = ground (arith, run i, call i, found-map p f is run call)

  commit_invocation-Held :
      (invocation : ToolInvocation) (guard : Option Time) (now : Time)
      → Keeps Held (commit_invocation invocation guard now)
  unfolding commit_invocation
  commit_invocation-Held invocation none now s h = h
  commit_invocation-Held invocation (some deadline) now s h =
      let due = awaits invocation.id invocation.status deadline now in
      let update = λ (i : ToolInvocation). record i { status = InvocationStatus.completed } in
      refuse_when-Held (not (count due s.invocations == 1)) ErrorCode.sandbox_timeout
        (replace_invocation due update s)
        (found-map due update s.invocations (λ i. refl) (λ i. refl) h)

  pub insert_invocation-Held :
      (invocation : ToolInvocation) → Keeps Held (insert_invocation invocation)
  unfolding insert_invocation get_tool_invocation
  insert_invocation-Held invocation s h =
      elim (Option-cases (get_tool_invocation invocation.run_id invocation.tool_call_id s)) [
        | inl new ↦ rw new (ground arith)
        | inr (old, there) ↦ rw there tt
      ]

  pub announce_started-Held :
      (invocation : ToolInvocation) (context : ToolExecutionContext)
      → Keeps Held (announce_started invocation context)
  unfolding announce_started
  announce_started-Held invocation context =
      Keeps-bind Held (append_event invocation.run_id (Event.tool_started invocation.id))
        (λ _. audit_record _)
        (append_event-Held invocation.run_id (Event.tool_started invocation.id))
        (λ _. audit_record-Held _)

  pub commit_started-Held :
      (invocation : ToolInvocation) (context : ToolExecutionContext)
      → Keeps Held (commit_started invocation context)
  unfolding commit_started
  commit_started-Held invocation context =
      let insert = insert_invocation invocation in
      let announce = announce_started invocation context in
      Keeps-bind Held (lock_active_run invocation.run_id) (λ _. insert >> announce)
        (lock_active_run-Held invocation.run_id)
        λ _.
          Keeps-bind Held insert (λ _. announce) (insert_invocation-Held invocation)
            (λ _. announce_started-Held invocation context)

  module _ (services : ToolServices) (context : ToolExecutionContext) where
    team_deadline_for_run-Held :
        (run : AgentRun) → Keeps Held (team_deadline_for_run services context run)
    unfolding team_deadline_for_run
    team_deadline_for_run-Held run s h = elim (Option-cases (services.snapshot_deadline run.id)) [
      | inl missing ↦ ground (arith, missing)
      | inr (deadline, there) ↦ ground (arith, there)
    ]

    deadline_of-Held :
        (error : Option ErrorCode) (run : AgentRun)
        → Keeps Held (deadline_of services context error run)
    deadline_of-Held none run s h = team_deadline_for_run-Held run s h
    deadline_of-Held (some code) run s h = h

    audit_finished-Held :
        (error : Option ErrorCode) (duration_ms : ℕ) (invocation : ToolInvocation)
        → Keeps Held (audit_finished invocation error duration_ms context)
    unfolding audit_finished
    audit_finished-Held error duration_ms invocation s h = audit_record-Held _ s h

    module _ (error : Option ErrorCode) (duration_ms : ℕ) (clock : ℕ → Time) where
      persist_terminal-Held :
          (invocation : ToolInvocation) (include_audit : Bool)
          → Keeps Held
              (persist_terminal services context invocation error duration_ms include_audit clock)
      unfolding persist_terminal
      persist_terminal-Held invocation include_audit =
          Keeps-bind Held (lock_active_run invocation.run_id)
            (λ run. deadline_of services context error run >>= write)
            (lock_active_run-Held invocation.run_id)
            λ run.
              Keeps-bind Held (deadline_of services context error run) write
                (deadline_of-Held error run)
                λ d.
                  Keeps-bind Held (refuse_when (is_late d (clock 0)) late)
                    (λ _. close d >> (announce >> (audit >> (again d >> commit d))))
                    (refuse_when-Held (is_late d (clock 0)) late)
                    λ _.
                      Keeps-bind Held (close d) (λ _. announce >> (audit >> (again d >> commit d)))
                        (close-Held d)
                        λ _.
                          Keeps-bind Held announce (λ _. audit >> (again d >> commit d))
                            (append_event-Held _ _)
                            λ _.
                              Keeps-bind Held audit (λ _. again d >> commit d) audit-Held
                                λ _.
                                  Keeps-bind Held (again d) (λ _. commit d)
                                    (refuse_when-Held (is_late d (clock 2)) late)
                                    (λ _. commit_invocation-Held invocation d (clock 3))
        where
          late : ErrorCode
          late = ErrorCode.sandbox_timeout

          close : Option Time → Db (Unit {0})
          close d = modify (
              replace_invocation (λ i. i.id == invocation.id)
                (closed error d duration_ms (clock 1)))

          announce : Db (Unit {0})
          announce = append_event invocation.run_id (Event.tool_finished invocation.id error)

          audit : Db (Unit {0})
          audit = when include_audit (audit_finished invocation error duration_ms context)

          again : Option Time → Db (Unit {0})
          again d = refuse_when (is_late d (clock 2)) late

          commit : Option Time → Db (Unit {0})
          commit d = commit_invocation invocation d (clock 3)

          write : Option Time → Db (Unit {0})
          write d =
              refuse_when (is_late d (clock 0)) late
              >> (close d >> (announce >> (audit >> (again d >> commit d))))

          close-Held : (d : Option Time) → Keeps Held (close d)
          close-Held d s h =
              found-map (λ i. i.id == invocation.id) (closed error d duration_ms (clock 1))
                s.invocations (λ i. refl) (λ i. refl) h

          audit-Held : Keeps Held audit
          audit-Held =
              Keeps-when Held include_audit (audit_finished invocation error duration_ms context)
                (audit_finished-Held error duration_ms invocation)

      pub persist_loaded-Held :
          (invocation_id : Text)
          → Keeps Held (persist_loaded services context invocation_id error duration_ms clock)
      unfolding persist_loaded
      persist_loaded-Held invocation_id s h =
          elim (Option-cases (find (λ i. i.id == invocation_id) s.invocations)) [
            | inl gone ↦ rw gone tt
            | inr (invocation, there) ↦ rw there (persist_terminal-Held invocation true s h)
          ]

      pub persist_again-Held :
          (invocation_id : Text) (include_audit : Bool)
          → Keeps Held
              (persist_again services context invocation_id error duration_ms include_audit clock)
      unfolding persist_again
      persist_again-Held invocation_id include_audit s h =
          elim (Option-cases (find (λ i. i.id == invocation_id) s.invocations)) [
            | inl gone ↦ rw gone h
            | inr (invocation, there) ↦ rw there (
                Keeps-bind Held
                  (persist_terminal services context invocation error duration_ms include_audit
                    clock)
                  (λ _. pure true) (persist_terminal-Held invocation include_audit) (λ _ u k. k) s
                  h)
          ]
