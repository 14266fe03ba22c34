-- ===== src/Runtime/RunStates/Pauses.antt =====
-- A tool call that waits for an approval, as a step of the machine: the session of
-- `_pause_for_approval`.
use mathlib.Core.Path.{subst}
use intelligent_agent_platfo.Base.{
  ℕ, ◌≡◌, refl, inl, inr, Bool, true, false, Option, some, List, arith, map, find, ◌==◌, ==_iff,
  Option-cases,
}
use intelligent_agent_platfo.Effects.{ok, ◌>>=◌, ◌>>◌, modify, pure, transaction}
use intelligent_agent_platfo.Effects.Hoare.{
  Outcome, Meets, Keeps, meets_bind, Keeps-bind, transaction_keeps,
}
use intelligent_agent_platfo.Effects.Inversion.{Outcome-of_ok, bind_ok}
use intelligent_agent_platfo.Database.{
  Text, Time, Store, AgentRun, RunStatus, Event, Approval, ToolInvocation, RiskLevel, Db,
  is_running, is_terminal,
}
use intelligent_agent_platfo.Audit.Recorder.{audit_record}
use intelligent_agent_platfo.Conversations.Repository.{
  append_event, get_run_by_id, get_tool_invocation,
}
use intelligent_agent_platfo.Approvals.{RequestContext, create_request, audit}
use intelligent_agent_platfo.Runtime.Lifecycle.{with_status, set_status}
use intelligent_agent_platfo.Runtime.Lifecycle.Frame.{
  verdicts, Frame, append_event-Keeps, audit_record-Keeps,
}
use intelligent_agent_platfo.Runtime.Lifecycle.Invariant.{IsConsistent}
use intelligent_agent_platfo.Tools.Gateway.{
  Tool, ToolCall, ToolExecutionContext, ToolServices, lock_active_run, insert_invocation,
}
use intelligent_agent_platfo.Tools.Gateway.Execution.{
  paused_invocation, ask_approval, request_approval,
}
use intelligent_agent_platfo.Runtime.RunStates.{Step}
use intelligent_agent_platfo.Runtime.RunStates.Moves.{Moved, Moved-same, Moved-one, same_run}
use intelligent_agent_platfo.Runtime.RunStates.Decisions.{IsConsistent-kept}

module _ (runs : List AgentRun) (V : Text → ℕ) where
  insert_invocation-Keeps :
      (invocation : ToolInvocation) → Keeps (Frame runs V) (insert_invocation invocation)
  unfolding insert_invocation get_tool_invocation
  insert_invocation-Keeps invocation s h =
      elim (Option-cases (get_tool_invocation invocation.run_id invocation.tool_call_id s)) [
        | inl new ↦ rw new h
        | inr (old, there) ↦ rw there tt
      ]

  create_request-Keeps :
      (digest : Text → Text) (run : AgentRun) (invocation : ToolInvocation)
      (context : RequestContext) (risk_level : RiskLevel) (expires_at : Option Time)
      (role fresh : Text) (now : Time)
      → Keeps
          (Frame runs V)
          (create_request digest run invocation context risk_level expires_at role fresh now)
  unfolding create_request audit
  create_request-Keeps digest run invocation context risk_level expires_at role fresh now s h =
      elim (Option-cases (find (λ a. a.invocation_id == invocation.id) s.approvals)) [
        | inl new ↦ rw new (
            Keeps-bind (Frame runs V) (audit_record _) (λ _. pure _) (audit_record-Keeps runs V _)
              (λ _ u k. k) (record s { approvals = _ }) h)
        | inr (old, there) ↦ rw there tt
      ]

module _ (services : ToolServices) (call : ToolCall) (tool : Tool) (context : ToolExecutionContext)
    (n : ℕ) where
  abbrev this_run : AgentRun → Bool
  this_run r = r.id == context.run_id

  abbrev waiting : List AgentRun → List AgentRun
  waiting runs = map (with_status this_run RunStatus.waiting_approval) runs

  abbrev wait : Db (Unit {0})
  wait = modify (set_status (λ r. r.id == context.run_id) RunStatus.waiting_approval)

  abbrev insert : Db (Unit {0})
  insert = insert_invocation (paused_invocation services call context n)

  abbrev say : Approval → Db (Unit {0})
  say approval =
      append_event context.run_id
        (Event.approval_requested approval.id (paused_invocation services call context n).id)

  abbrev last : Db (Unit {0})
  last = append_event context.run_id (Event.run_status RunStatus.waiting_approval)

  abbrev announce : Approval → Db (Unit {0})
  announce approval = say approval >> (wait >> last)

  -- What follows the locking of the run.
  abbrev pause_locked : AgentRun → Db (Unit {0})
  pause_locked run = insert >> (ask_approval services call tool context n run >>= announce)

  pause_locked-Meets :
      (runs : List AgentRun) (V : Text → ℕ) (run : AgentRun)
      → Meets (Frame runs V) (pause_locked run) (λ _. Frame (waiting runs) V)
  unfolding set_status
  pause_locked-Meets runs V run =
      meets_bind F (λ _. F) (λ _. G) insert
        (λ _. ask_approval services call tool context n run >>= announce)
        (insert_invocation-Keeps runs V (paused_invocation services call context n))
        λ _.
          meets_bind F (λ _. F) (λ _. G) (ask_approval services call tool context n run) announce
            (create_request-Keeps runs V _ _ _ _ _ _ _ _ _)
            λ approval.
              meets_bind F (λ _. F) (λ _. G) (say approval) (λ _. wait >> last)
                (append_event-Keeps runs V context.run_id _ refl)
                λ _.
                  meets_bind F (λ _. G) (λ _. G) wait (λ _. last)
                    (λ s (same, dense, seen). (rw same refl, dense, seen))
                    (λ _. append_event-Keeps (waiting runs) V context.run_id _ refl)
    where
      F : Store → Type 0
      F = Frame runs V

      G : Store → Type 0
      G = Frame (waiting runs) V

  lock_active_run_ok :
      (s t : Store) (run : AgentRun)
      → lock_active_run context.run_id s ≡ (ok run, t)
      → (get_run_by_id context.run_id s ≡ some run) × (is_running run.status ≡ true) × (t ≡ s)
  unfolding lock_active_run
  lock_active_run_ok s t run h = ground arith

  -- The session sets the run, which is running, aside until the approval, or changes nothing.
  pub pause-Moved :
      (s : Store)
      → IsConsistent s
      → Moved s (transaction (request_approval services call tool context n) s).1
        × IsConsistent (transaction (request_approval services call tool context n) s).1
  unfolding request_approval get_run_by_id
  pause-Moved s h =
      let V : Text → ℕ = λ id. verdicts id s.events in
      transaction_keeps (λ t. Moved s t × IsConsistent t)
        (request_approval services call tool context n) s (Moved-same s s refl, h)
        (Outcome-of_ok (λ _ t. Moved s t × IsConsistent t)
          (request_approval services call tool context n s)
          λ v t done.
            let (run, u, locked, rest) =
              bind_ok (lock_active_run context.run_id) pause_locked s done in
            let (found, active, same) = lock_active_run_ok s u run locked in
            let live : is_terminal run.status ≡ false = ground arith in
            let frame : Frame (waiting s.runs) V t =
              subst (Outcome (λ _ x. Frame (waiting s.runs) V x)) rest
                (pause_locked-Meets s.runs V run u (rw same (refl, h.dense, λ id. refl))) in
            (
              Moved-one context.run_id run this_run RunStatus.waiting_approval s t found
                  (λ r named. (==_iff r.id context.run_id).0 named) (Step.paused live) (frame.0),
              IsConsistent-kept this_run RunStatus.waiting_approval s t refl
                  (λ id r found_r hit.
                    let is =
                      same_run context.run_id id run r s.runs found found_r
                        ((==_iff r.id context.run_id).0 hit) in
                    subst (λ (x : AgentRun). is_terminal x.status ≡ false) is live)
                  h frame,
            ))
