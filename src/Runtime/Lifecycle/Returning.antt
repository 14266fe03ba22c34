-- ===== src/Runtime/Lifecycle/Returning.antt =====
-- The steps of `_finish` on a run whose actions can be recorded.
use Prim.Native.Nat.{◌/◌}
use mathlib.Core.Path.{subst}
use intelligent_agent_platfo.Base.{
  refl, ℕ, ◌-◌, ◌≡◌, ◌≢◌, sym, inl, inr, Bool, true, Option, none, some, List, [], ◌∷◌, arith,
  count, ◌==◌, Bool-cases, find, map, All, filterb,
}
use intelligent_agent_platfo.Effects.{◌>>=◌, pure}
use intelligent_agent_platfo.Effects.Total.{Returns, returns_bind}
use intelligent_agent_platfo.Database.{
  Text, Store, RunStatus, InvocationStatus, ErrorCode, AgentRun, Conversation, Event, AuditEvent,
  AuditKey, AuditStatus, ToolInvocation, Db,
}
use intelligent_agent_platfo.Audit.Recorder.{audit_record, insert_once, validate}
use intelligent_agent_platfo.Conversations.Repository.{
  append_event, get_run_by_id, ExecutionContext, context_of, get_run_execution_context,
}
use intelligent_agent_platfo.Conversations.Repository.Log.{append_event_of_run}
use intelligent_agent_platfo.Runtime.ScriptLifecycle.{
  finish_script_invocation, report_finished, record_in_context, finish_each, close_found,
  closing_status, running_script, closing_code, open_lease, close_lease,
  finish_running_script_invocations,
}
use intelligent_agent_platfo.Runtime.Lifecycle.{
  record_audit, audit_status, append_error, finish_found,
}
use intelligent_agent_platfo.Runtime.Lifecycle.Rows.{find_run, find_run-id}

-- A run whose actions can be recorded: it is in the table, and its conversation is, with a unit
-- and a project.
pub record HasContext (run_id : Text) (runs : List AgentRun) (conversations : List Conversation)
    : Type 0 where
  pub run : AgentRun
  pub conversation : Conversation
  pub found : find_run run_id runs ≡ some run
  pub placed : find (λ c. c.id == run.conversation_id) conversations ≡ some conversation
  pub unit : conversation.unit_id ≢ 0
  pub project : conversation.project_id ≢ 0

valid_request :
    (request : AuditEvent) (unit_id project_id : Text)
    → request.unit_id ≡ some unit_id
    → request.project_id ≡ some project_id
    → unit_id ≢ 0
    → project_id ≢ 0
    → validate request ≡ true
unfolding validate
valid_request request unit_id project_id placed there unit project =
    rw (placed, there) (ground arith)

context_of_found :
    (r : AgentRun) (cs : List Conversation) (c : Conversation)
    → find (λ c. c.id == r.conversation_id) cs ≡ some c
    → context_of (some r) cs
      ≡ some (record {
        run_id = r.id;
        conversation_id = c.id;
        unit_id = c.unit_id;
        project_id = c.project_id;
        user_id = c.owner_id;
        actor_roles = r.actor_roles;
      })
context_of_found r cs c h = ground arith

module _ (runs : List AgentRun) (conversations : List Conversation) where
  abbrev Ready : Store → Type 0
  Ready s = (s.runs ≡ runs) × (s.conversations ≡ conversations)

  append_event-Returns :
      (run_id : Text) (event : Event) (r : AgentRun)
      → find_run run_id runs ≡ some r
      → Returns Ready (append_event run_id event) Ready
  append_event-Returns run_id event r found s (same, places) =
      let there : get_run_by_id run_id s ≡ some r = unfold get_run_by_id in rw same found in
      rw (append_event_of_run run_id event s r there) (same, places)

  audit_record-Returns :
      (request : AuditEvent) → validate request ≡ true → Returns Ready (audit_record request) Ready
  unfolding audit_record
  audit_record-Returns request valid s h = rw valid (insert_ready _)
    where
      insert_ready : (o : Option AuditEvent) → Ready (insert_once o request s)
      insert_ready none = h
      insert_ready (some _) = h

  module _ (run_id : Text) (here : HasContext run_id runs conversations) where
    abbrev context : ExecutionContext
    context = record {
      run_id = here.run.id;
      conversation_id = here.conversation.id;
      unit_id = here.conversation.unit_id;
      project_id = here.conversation.project_id;
      user_id = here.conversation.owner_id;
      actor_roles = here.run.actor_roles;
    }

    context-found : (s : Store) → Ready s → get_run_execution_context run_id s ≡ some context
    unfolding get_run_execution_context
    context-found s (same, places) =
        rw (same, here.found, places)
          (context_of_found here.run conversations here.conversation here.placed)

    in_context-Returns :
        (i : ToolInvocation) (status : InvocationStatus) (code : Option ErrorCode) (duration : ℕ)
        → Returns Ready (record_in_context (some context) i status code duration) Ready
    in_context-Returns i status code duration = audit_record-Returns _ (
        valid_request _ here.conversation.unit_id here.conversation.project_id refl refl here.unit
          here.project)

    report_finished-Returns :
        (i : ToolInvocation) (status : InvocationStatus) (code : Option ErrorCode) (duration : ℕ)
        → i.run_id ≡ run_id
        → Returns Ready (report_finished i status code duration) Ready
    unfolding report_finished
    report_finished-Returns i status code duration mine =
        returns_bind Ready Ready Ready (append_event i.run_id event) (λ _. rest)
          (rw mine (append_event-Returns run_id event here.run here.found))
          (λ _.
            returns_bind Ready Ready Ready report (λ _. pure true)
              (λ s h.
                let known : get_run_execution_context i.run_id s ≡ some context =
                  rw mine (context-found s h) in
                rw known (in_context-Returns i status code duration s h))
              (λ _ s h. h))
      where
        event : Event
        event = Event.skill_script status i.id duration code

        report : Db (Unit {0})
        report s = record_in_context (get_run_execution_context i.run_id s) i status code duration s

        rest : Db Bool
        rest = report >>= λ _. pure true

    finish_script_invocation-Returns :
        (i : ToolInvocation) (status : InvocationStatus) (code : Option ErrorCode)
        (duration now : ℕ)
        → i.run_id ≡ run_id
        → Returns Ready (finish_script_invocation i status code duration now) Ready
    unfolding finish_script_invocation
    finish_script_invocation-Returns i status code duration now mine s h =
        elim (Bool-cases (count (open_lease i.id) s.invocations == 0)) [
          | inl closed ↦ rw closed h
          | inr one ↦ rw one (
              report_finished-Returns i status code duration mine
                (record s {
                  invocations = map (close_lease i.id status code duration now) s.invocations;
                })
                h)
        ]

    finish_each-Returns :
        (is : List ToolInvocation) (status : InvocationStatus) (code : ErrorCode) (now : ℕ)
        → All (λ i. i.run_id ≡ run_id) is
        → Returns Ready (finish_each is status code now) Ready
    unfolding finish_each
    finish_each-Returns [] status code now mine s h = h
    finish_each-Returns (i ∷ is) status code now mine s h =
        returns_bind Ready Ready Ready
          (finish_script_invocation i status (some code) ((now - i.created_at) / 1000) now)
          (λ _. finish_each is status code now)
          (finish_script_invocation-Returns i status (some code) ((now - i.created_at) / 1000) now
            mine.0)
          (λ _. finish_each-Returns is status code now mine.1) s h

    running_scripts-All :
        (is : List ToolInvocation)
        → All (λ i. i.run_id ≡ run_id) (filterb (running_script run_id) is)
    running_scripts-All [] = tt
    running_scripts-All (i ∷ is) = ground (arith, running_scripts-All is)

    close_found-Returns :
        (o : Option InvocationStatus) (status : RunStatus) (code : Option ErrorCode) (now : ℕ)
        → Returns Ready (close_found o run_id status code now) Ready
    close_found-Returns none status code now s h = h
    close_found-Returns (some closing) status code now s h =
        finish_each-Returns (filterb (running_script run_id) s.invocations) closing
          (closing_code status code) now (running_scripts-All s.invocations) s h

    append_error-Returns :
        (code : Option ErrorCode) → Returns Ready (append_error run_id code) Ready
    append_error-Returns none s h = h
    append_error-Returns (some code) s h =
        append_event-Returns run_id (Event.run_error code) here.run here.found s h

    record_audit-Returns :
        (key : AuditKey) (status : AuditStatus) (code : Option ErrorCode)
        → Returns Ready (record_audit here.run key status code) Ready
    unfolding record_audit
    record_audit-Returns key status code s h =
        let named : here.run.id ≡ run_id = find_run-id run_id runs here.run here.found in
        let known : get_run_execution_context here.run.id s ≡ some context =
          subst (λ i. get_run_execution_context i s ≡ some context) (sym named)
            (context-found s h) in
        rw known (
          audit_record-Returns _
            (valid_request _ here.conversation.unit_id here.conversation.project_id refl refl
              here.unit here.project)
            s h)

    pub finish_found-Returns :
        (status : RunStatus) (code : Option ErrorCode) (now : ℕ)
        → Returns Ready (finish_found run_id status code now) Ready
    unfolding finish_found
    finish_found-Returns status code now s h =
        let there : get_run_by_id run_id s ≡ some here.run =
          unfold get_run_by_id in rw h.0 here.found in
        rw there (scripts s h)
      where
        audit : Db (Unit {0})
        audit =
            record_audit here.run (AuditKey.sandbox_run_finished here.run.id status)
              (audit_status status) code

        announce : Db (Unit {0})
        announce = append_event run_id (Event.run_status status) >>= λ _. audit

        explain : Db (Unit {0})
        explain = append_error run_id code >>= λ _. announce

        finished : Db (Unit {0})
        finished = append_event run_id (Event.sandbox_finished status code) >>= λ _. explain

        announce-Returns : Returns Ready announce Ready
        announce-Returns =
            returns_bind Ready Ready Ready (append_event run_id (Event.run_status status))
              (λ _. audit)
              (append_event-Returns run_id (Event.run_status status) here.run here.found)
              (λ _.
                record_audit-Returns (AuditKey.sandbox_run_finished here.run.id status)
                  (audit_status status) code)

        explain-Returns : Returns Ready explain Ready
        explain-Returns =
            returns_bind Ready Ready Ready (append_error run_id code) (λ _. announce)
              (append_error-Returns code) (λ _. announce-Returns)

        finished-Returns : Returns Ready finished Ready
        finished-Returns =
            returns_bind Ready Ready Ready
              (append_event run_id (Event.sandbox_finished status code)) (λ _. explain)
              (append_event-Returns run_id (Event.sandbox_finished status code) here.run here.found)
              (λ _. explain-Returns)

        scripts :
            Returns Ready
              (finish_running_script_invocations run_id status code now >>= λ _. finished)
              Ready
        scripts =
            returns_bind Ready Ready Ready
              (finish_running_script_invocations run_id status code now) (λ _. finished)
              (unfold finish_running_script_invocations in
                close_found-Returns (closing_status status) status code now)
              (λ _. finished-Returns)
