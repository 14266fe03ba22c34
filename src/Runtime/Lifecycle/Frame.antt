-- ===== src/Runtime/Lifecycle/Frame.antt =====
-- What the steps inside a session of the coordinator leave alone: the runs, and the events that
-- announce the end of a run.
use Prim.Native.Nat.{◌/◌}
use intelligent_agent_platfo.Base.{
  map, ◌-◌, ℕ, ◌+◌, ◌≡◌, refl, inl, inr, Bool, true, false, ◌&&◌, not, Option, none, some, List, [],
  ◌∷◌, arith, count, ◌==◌, if◌then◌else◌, Option-cases, find,
}
use intelligent_agent_platfo.Effects.{◌>>=◌, pure, raise_if}
use intelligent_agent_platfo.Effects.Hoare.{Meets, Keeps, Keeps-bind, Keeps-if}
use intelligent_agent_platfo.Database.{
  Text, Store, RunStatus, InvocationStatus, ErrorCode, AgentRun, RunEvent, Event, AuditEvent,
  AuditKey, AuditStatus, ToolInvocation, is_terminal, Exception, Db,
}
use intelligent_agent_platfo.Audit.Recorder.{audit_record, insert_once, has_key, validate}
use intelligent_agent_platfo.Conversations.Repository.{
  append_event, get_run_by_id, ExecutionContext, get_run_execution_context,
}
use intelligent_agent_platfo.Conversations.Repository.Log.{
  IsDense, appended, appended-IsDense, append_event_of_run, append_event_no_run,
}
use intelligent_agent_platfo.Runtime.ScriptLifecycle.{
  finish_script_invocation, report_finished, record_in_context, finish_each, close_found,
  closing_status, finish_running_script_invocations, open_lease, close_lease, closing_code,
}
use intelligent_agent_platfo.Runtime.Lifecycle.{record_audit}

-- An event that announces that a run has ended.
abbrev pub is_verdict : Event → Bool
is_verdict (Event.run_status status) = is_terminal status
is_verdict _ = false

abbrev pub verdicts : Text → List RunEvent → ℕ
verdicts run_id = count (λ e. (e.run_id == run_id) && is_verdict e.event)

abbrev pub Frame : List AgentRun → (Text → ℕ) → Store → Type 0
Frame runs V s = (s.runs ≡ runs) × IsDense s.events × ((id : Text) → verdicts id s.events ≡ V id)

-- What `append_event` does to the number of verdicts.
pub verdicts-appended :
    (run_id : Text) (event : Event) (s : Store) (id : Text)
    → verdicts id (appended run_id event s).events
      ≡ (if (run_id == id) && is_verdict event then 1 else 0) + verdicts id s.events
verdicts-appended run_id event s id = ground arith

module _ (runs : List AgentRun) (V : Text → ℕ) where
  pub append_event-Meets :
      (run_id : Text) (event : Event)
      → Meets
          (Frame runs V)
          (append_event run_id event)
          (λ _. Frame runs (λ id. (if (run_id == id) && is_verdict event then 1 else 0) + V id))
  append_event-Meets run_id event s (same, dense, seen) =
      elim (Option-cases (get_run_by_id run_id s)) [
        | inl absent ↦ rw (append_event_no_run run_id event s absent) tt
        | inr (r, found) ↦ rw (append_event_of_run run_id event s r found) (
          same,
          appended-IsDense run_id event s dense,
          λ id. ground (arith, verdicts-appended run_id event s id, seen id),
        )
      ]

  -- An event that announces no end is a step within the frame.
  pub append_event-Keeps :
      (run_id : Text) (event : Event)
      → is_verdict event ≡ false
      → Keeps (Frame runs V) (append_event run_id event)
  append_event-Keeps run_id event quiet s (same, dense, seen) =
      elim (Option-cases (get_run_by_id run_id s)) [
        | inl absent ↦ rw (append_event_no_run run_id event s absent) tt
        | inr (r, found) ↦ rw (append_event_of_run run_id event s r found) (
          same,
          appended-IsDense run_id event s dense,
          λ id. ground (arith, verdicts-appended run_id event s id, seen id),
        )
      ]

  insert_once-Frame :
      (o : Option AuditEvent) (request : AuditEvent) (s : Store)
      → Frame runs V s
      → Frame runs V (insert_once o request s)
  insert_once-Frame none request s h = h
  insert_once-Frame (some _) request s h = h

  raise_if-Keeps : (b : Bool) (e : Exception) → Keeps (Frame runs V) (raise_if b e)
  raise_if-Keeps true e s h = tt
  raise_if-Keeps false e s h = h

  pub audit_record-Keeps : (request : AuditEvent) → Keeps (Frame runs V) (audit_record request)
  unfolding audit_record
  audit_record-Keeps request =
      Keeps-bind (Frame runs V) (raise_if (not (validate request)) _) _
        (raise_if-Keeps (not (validate request)) _)
        λ _ s h. insert_once-Frame (find (has_key request.idempotency_key) s.audits) request s h

  pub record_audit-Keeps :
      (run : AgentRun) (key : AuditKey) (status : AuditStatus) (code : Option ErrorCode)
      → Keeps (Frame runs V) (record_audit run key status code)
  unfolding record_audit
  record_audit-Keeps run key status code s h =
      elim (Option-cases (get_run_execution_context run.id s)) [
        | inl absent ↦ rw absent tt
        | inr (context, found) ↦ rw found (audit_record-Keeps _ s h)
      ]

  record_in_context-Keeps :
      (o : Option ExecutionContext) (i : ToolInvocation) (status : InvocationStatus)
      (code : Option ErrorCode) (duration : ℕ)
      → Keeps (Frame runs V) (record_in_context o i status code duration)
  record_in_context-Keeps none i status code duration s h = h
  record_in_context-Keeps (some context) i status code duration s h = audit_record-Keeps _ s h

  report_finished-Keeps :
      (i : ToolInvocation) (status : InvocationStatus) (code : Option ErrorCode) (duration : ℕ)
      → Keeps (Frame runs V) (report_finished i status code duration)
  unfolding report_finished
  report_finished-Keeps i status code duration =
      let event = Event.skill_script status i.id duration code in
      let report : Db (Unit {0}) =
        λ s. record_in_context (get_run_execution_context i.run_id s) i status code duration s in
      Keeps-bind (Frame runs V) (append_event i.run_id event) (λ _. report >>= λ _. pure true)
        (append_event-Keeps i.run_id event refl)
        λ _.
          Keeps-bind (Frame runs V) report (λ _. pure true)
            (λ s h.
              record_in_context-Keeps (get_run_execution_context i.run_id s) i status code duration
                s h)
            λ _ s h. h

  pub finish_script_invocation-Keeps :
      (i : ToolInvocation) (status : InvocationStatus) (code : Option ErrorCode) (duration now : ℕ)
      → Keeps (Frame runs V) (finish_script_invocation i status code duration now)
  unfolding finish_script_invocation
  finish_script_invocation-Keeps i status code duration now s h =
      Keeps-if (Frame runs V) (count (open_lease i.id) s.invocations == 0) (pure false)
        (report_finished i status code duration) (λ t g. g)
        (report_finished-Keeps i status code duration)
        (record s { invocations = map (close_lease i.id status code duration now) s.invocations }) h

  finish_each-Keeps :
      (is : List ToolInvocation) (status : InvocationStatus) (code : ErrorCode) (now : ℕ)
      → Keeps (Frame runs V) (finish_each is status code now)
  unfolding finish_each
  finish_each-Keeps [] status code now s h = h
  finish_each-Keeps (i ∷ is) status code now s h =
      Keeps-bind (Frame runs V)
        (finish_script_invocation i status (some code) ((now - i.created_at) / 1000) now)
        (λ _. finish_each is status code now)
        (finish_script_invocation-Keeps i status (some code) ((now - i.created_at) / 1000) now)
        (λ _. finish_each-Keeps is status code now) s h

  close_found-Keeps :
      (o : Option InvocationStatus) (run_id : Text) (status : RunStatus) (code : Option ErrorCode)
      (now : ℕ)
      → Keeps (Frame runs V) (close_found o run_id status code now)
  close_found-Keeps none run_id status code now s h = h
  close_found-Keeps (some closing) run_id status code now s h =
      finish_each-Keeps _ closing (closing_code status code) now s h

  -- Closing the script leases of a run changes no run and announces no end.
  pub finish_running_script_invocations-Keeps :
      (run_id : Text) (status : RunStatus) (code : Option ErrorCode) (now : ℕ)
      → Keeps (Frame runs V) (finish_running_script_invocations run_id status code now)
  unfolding finish_running_script_invocations
  finish_running_script_invocations-Keeps run_id status code now =
      close_found-Keeps (closing_status status) run_id status code now
