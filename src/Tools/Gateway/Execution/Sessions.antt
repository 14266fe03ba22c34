-- ===== src/Tools/Gateway/Execution/Sessions.antt =====
-- The record of tool calls under the sessions of `execute`.
use intelligent_agent_platfo.Base.{
  ℕ, ◌≤◌, ◌≡◌, refl, inl, inr, Bool, true, false, ◌&&◌, Option, none, some, arith, count, find,
  ◌==◌, if◌then◌else◌, is_some, Option-cases,
}
use intelligent_agent_platfo.Effects.{Result, ok, err, ◌>>=◌, ◌>>◌, modify, pure, raise}
use intelligent_agent_platfo.Effects.Hoare.{Keeps, Keeps-bind, keeps_transaction}
use intelligent_agent_platfo.Effects.Stays.{Stays, Stays-bind, Stays-if}
use intelligent_agent_platfo.Database.{
  Text, Time, Store, AgentRun, ToolInvocation, Approval, ErrorCode, Event, Exception, Db,
  tool_runtime_error, RunStatus, RiskLevel,
}
use intelligent_agent_platfo.Audit.Recorder.{audit_record}
use intelligent_agent_platfo.Conversations.Repository.{append_event, get_tool_invocation}
use intelligent_agent_platfo.Runtime.Lifecycle.{set_status}
use intelligent_agent_platfo.Approvals.{RequestContext, create_request, audit}
use intelligent_agent_platfo.Tools.Gateway.{
  Tool, ToolCall, ToolExecutionContext, ToolServices, World, Io, lock_active_run, insert_invocation,
  session, catch,
}
use intelligent_agent_platfo.Tools.Gateway.Records.{
  Held, append_event-Held, audit_record-Held, lock_active_run-Held, insert_invocation-Held,
  persist_loaded-Held, persist_again-Held,
}
use intelligent_agent_platfo.Tools.Gateway.Terminal.{
  is_fence, persist_loaded, persist_again, compensate_failed_completion, commit_finished,
}
use intelligent_agent_platfo.Tools.Gateway.Execution.{
  ToolExecutionResult, paused_invocation, ask_approval, request_approval, finish_call,
}

abbrev pub is_call : Text → Text → Text × Text → Bool
is_call run_id call_id (r, c) = (r == run_id) && (c == call_id)

abbrev pub recorded : Text → Text → Store → Bool
recorded run_id call_id s = is_some (get_tool_invocation run_id call_id s)

-- No call was carried out twice, and none without a row of its own.
abbrev pub IsOnce : World → Type 0
IsOnce w =
    (run_id call_id : Text)
    → count (is_call run_id call_id) w.carried_out
      ≤ (if recorded run_id call_id w.store then 1 else 0)

-- Other sessions delete no row of a tool call.
abbrev pub KeepsRecords : ToolServices → Type 0
KeepsRecords services =
    (n : ℕ) (run_id call_id : Text) (s : Store)
    → recorded run_id call_id s ≡ true
    → recorded run_id call_id (services.others n s) ≡ true

create_request-Held :
    (digest : Text → Text) (run : AgentRun) (invocation : ToolInvocation) (context : RequestContext)
    (risk_level : RiskLevel) (expires_at : Option Time) (role fresh : Text) (now : Time)
    (run_id call_id : Text)
    → Keeps
        (Held run_id call_id)
        (create_request digest run invocation context risk_level expires_at role fresh now)
unfolding create_request audit
create_request-Held digest run invocation context risk_level expires_at role fresh now run_id
      call_id s h =
    elim (Option-cases (find (λ a. a.invocation_id == invocation.id) s.approvals)) [
      | inl new ↦ rw new (
          Keeps-bind (Held run_id call_id) (audit_record _) (λ _. pure _)
            (audit_record-Held run_id call_id _) (λ _ u k. k) (record s { approvals = _ }) h)
      | inr (old, there) ↦ rw there tt
    ]

pub request_approval-Held :
    (services : ToolServices) (call : ToolCall) (tool : Tool) (context : ToolExecutionContext)
    (n : ℕ) (run_id call_id : Text)
    → Keeps (Held run_id call_id) (request_approval services call tool context n)
unfolding request_approval set_status
request_approval-Held services call tool context n run_id call_id =
    Keeps-bind K (lock_active_run context.run_id) (λ run. insert >> (ask run >>= announce))
      (lock_active_run-Held run_id call_id context.run_id)
      λ run.
        Keeps-bind K insert (λ _. ask run >>= announce)
          (insert_invocation-Held run_id call_id (paused_invocation services call context n))
          λ _.
            Keeps-bind K (ask run) announce (create_request-Held _ _ _ _ _ _ _ _ _ run_id call_id)
              λ approval.
                Keeps-bind K (say approval) (λ _. wait >> last)
                  (append_event-Held run_id call_id context.run_id _)
                  λ _.
                    Keeps-bind K wait (λ _. last) (λ s h. h)
                      (λ _.
                        append_event-Held run_id call_id context.run_id
                          (Event.run_status RunStatus.waiting_approval))
  where
    K : Store → Type 0
    K = Held run_id call_id

    insert : Db (Unit {0})
    insert = insert_invocation (paused_invocation services call context n)

    ask : AgentRun → Db Approval
    ask run = ask_approval services call tool context n run

    say : Approval → Db (Unit {0})
    say approval =
        append_event context.run_id
          (Event.approval_requested approval.id (paused_invocation services call context n).id)

    wait : Db (Unit {0})
    wait = modify (set_status (λ r. r.id == context.run_id) RunStatus.waiting_approval)

    last : Db (Unit {0})
    last = append_event context.run_id (Event.run_status RunStatus.waiting_approval)

    announce : Approval → Db (Unit {0})
    announce approval = say approval >> (wait >> last)

module _ (services : ToolServices) (keeps : KeepsRecords services) where
  pub at_most :
      (n : ℕ) (b c : Bool)
      → n ≤ (if b then 1 else 0)
      → (b ≡ true → c ≡ true)
      → n ≤ (if c then 1 else 0)
  at_most n true c h f = rw (f refl) h
  at_most n false c h f = ground arith

  pub session-IsOnce :
      {A : Type 0} (m : ℕ → Db A)
      → ((n : ℕ) (run_id call_id : Text) → Keeps (Held run_id call_id) (m n))
      → Stays IsOnce (session services m)
  unfolding session get_tool_invocation
  session-IsOnce m held w h run_id call_id =
      at_most _ (recorded run_id call_id w.store) _ (h run_id call_id) λ there.
        keeps_transaction (Held run_id call_id) (m w.tick) (held w.tick run_id call_id)
          (services.others w.tick w.store) (keeps w.tick run_id call_id w.store there)

  pub catch-IsOnce :
      {A : Type 0} (m : Io A) (handler : Exception → Io A)
      → Stays IsOnce m
      → ((e : Exception) → Stays IsOnce (handler e))
      → Stays IsOnce (catch m handler)
  catch-IsOnce {A} m handler h k w p = go (m w) (h w p)
    where
      go :
          (x : Result Exception A × World)
          → IsOnce x.1
          → IsOnce
              (let (r, v) = x in
                elim r as (λ _. Result Exception A × World) [
                  | ok a ↦ (ok a, v)
                  | err e ↦ handler e v
                ]).1
      go (ok a, v) q = q
      go (err e, v) q = k e v q

  pub raise-IsOnce : (A : Type 0) (e : Exception) → Stays IsOnce (raise {A = A} e)
  raise-IsOnce A e w h = h

  module _ (context : ToolExecutionContext) (invocation_id : Text) (error : Option ErrorCode)
      (duration_ms : ℕ) where
    again : Bool → Io Bool
    unfolding session
    again include_audit = session services (λ n.
        persist_again services context invocation_id error duration_ms include_audit
          (services.clock n))

    again-IsOnce : (include_audit : Bool) → Stays IsOnce (again include_audit)
    unfolding again
    again-IsOnce include_audit = session-IsOnce _ λ n run_id call_id.
        persist_again-Held run_id call_id services context error duration_ms (services.clock n)
          invocation_id include_audit

    compensate-IsOnce :
        Stays IsOnce (compensate_failed_completion services context invocation_id error duration_ms)
    unfolding compensate_failed_completion again
    compensate-IsOnce =
        catch-IsOnce (again true) handle (again-IsOnce true)
          λ e. Stays-if IsOnce (is_fence e) (raise e) last (raise-IsOnce Bool e) last-IsOnce
      where
        after : Exception → Io Bool
        after f = if is_fence f then raise f else pure false

        last : Io Bool
        last = catch (again false >> pure false) after

        handle : Exception → Io Bool
        handle e = if is_fence e then raise e else last

        last-IsOnce : Stays IsOnce last
        last-IsOnce =
            catch-IsOnce (again false >> pure false) after
              (Stays-bind IsOnce (again false) (λ _. pure false) (again-IsOnce false) (λ _ w h. h))
              (λ f.
                Stays-if IsOnce (is_fence f) (raise f) (pure false) (raise-IsOnce Bool f)
                  (λ w h. h))

    commit_finished-IsOnce :
        Stays IsOnce (commit_finished services context invocation_id error duration_ms)
    unfolding commit_finished
    commit_finished-IsOnce =
        catch-IsOnce store handle
          (session-IsOnce _ λ n run_id call_id.
            persist_loaded-Held run_id call_id services context error duration_ms (services.clock n)
              invocation_id)
          λ e.
            Stays-if IsOnce (is_fence e) (raise e) (compensate >>= answer) (raise-IsOnce Unit e) (
              Stays-bind IsOnce compensate answer compensate-IsOnce (λ done.
                Stays-if IsOnce done (pure tt) (raise failed) (λ w h. h)
                  (raise-IsOnce Unit failed)))
      where
        store : Io (Unit {0})
        store = session services (λ n.
            persist_loaded services context invocation_id error duration_ms (services.clock n))

        compensate : Io Bool
        compensate = compensate_failed_completion services context invocation_id error duration_ms

        failed : Exception
        failed = tool_runtime_error ErrorCode.audit_persistence_failed

        answer : Bool → Io (Unit {0})
        answer done = if done then pure tt else raise failed

        handle : Exception → Io (Unit {0})
        handle e = if is_fence e then raise e else (compensate >>= answer)

  pub finish_call-IsOnce :
      (context : ToolExecutionContext) (invocation_id : Text) (duration_ms : ℕ)
      (outcome : Result ErrorCode Text)
      → Stays IsOnce (finish_call services context invocation_id duration_ms outcome)
  finish_call-IsOnce context invocation_id duration_ms (ok v) =
      Stays-bind IsOnce (commit_finished services context invocation_id none duration_ms)
        (λ _. pure (record { invocation_id = invocation_id; result = v }))
        (commit_finished-IsOnce context invocation_id none duration_ms) (λ _ w h. h)
  finish_call-IsOnce context invocation_id duration_ms (err code) =
      Stays-bind IsOnce (commit_finished services context invocation_id (some code) duration_ms)
        (λ _. raise (tool_runtime_error code))
        (commit_finished-IsOnce context invocation_id (some code) duration_ms)
        (λ _. raise-IsOnce ToolExecutionResult (tool_runtime_error code))
