-- ===== src/Runtime/Lifecycle/Sessions.antt =====
-- The invariant of the runs in `_start`, `_revoke_for_terminal_run` and the end of `_cleanup`.
use mathlib.Core.Path.{subst}
use intelligent_agent_platfo.Base.{
  ℕ, ◌≡◌, refl, sym, ap, inl, inr, Bool, true, false, Option, none, some, List, arith, ◌==◌, ==_iff,
  ◌∙◌, Bool-cases, Option-cases, map, is_some,
}
use intelligent_agent_platfo.Effects.{◌>>=◌, modify, pure, when}
use intelligent_agent_platfo.Effects.Hoare.{
  Outcome, Meets, Keeps, meets_bind, Keeps-bind, Keeps-when, Outcome-map, transaction_keeps,
}
use intelligent_agent_platfo.Database.{
  Text, Store, RunStatus, AgentRun, Event, AuditKey, AuditStatus, CleanupStatus, Reason,
  is_terminal, Exception, Db,
}
use intelligent_agent_platfo.Conversations.Repository.{append_event, get_run_by_id}
use intelligent_agent_platfo.Runtime.Lifecycle.{
  record_audit, start, start_session, start_found, is_startable, set_status, with_status,
  revoke_for_terminal_run, revoke_found, revocation_reason, is_revocable, record_cleanup,
}
use intelligent_agent_platfo.Runtime.RunTokens.{revoke}
use intelligent_agent_platfo.Runtime.Lifecycle.Frame.{
  is_verdict, verdicts, Frame, append_event-Keeps, record_audit-Keeps,
}
use intelligent_agent_platfo.Runtime.Lifecycle.Rows.{
  has_id, find_run, updated, find_run-map, count-has_id-map, find_run-id,
}
use intelligent_agent_platfo.Runtime.Lifecycle.Invariant.{IsConsistent, announcements}

module _ (runs : List AgentRun) (V : Text → ℕ) (run_id : Text) where
  unfoldable pub started : List AgentRun
  started = map (with_status (has_id run_id) RunStatus.running) runs

  set_running-Meets :
      Meets {E = Exception}
        (Frame runs V)
        (modify (set_status (has_id run_id) RunStatus.running))
        (λ _. Frame started V)
  unfolding set_status started
  set_running-Meets s (same, dense, seen) =
      (ap (map (with_status (has_id run_id) RunStatus.running)) same, dense, seen)

  pub start_found-Meets :
      (r : AgentRun) → Meets (Frame runs V) (start_found run_id r) (λ _. Frame started V)
  unfolding start_found
  start_found-Meets r =
      meets_bind F (λ _. F) (λ _. G) (append_event run_id Event.sandbox_started) (λ _. set_running)
        (append_event-Keeps runs V run_id Event.sandbox_started refl)
        λ _.
          meets_bind F (λ _. G) (λ _. G) (modify (set_status (has_id run_id) RunStatus.running))
            (λ _. announce) set_running-Meets
            λ _.
              Keeps-bind G (append_event run_id (Event.run_status RunStatus.running)) (λ _. audit)
                (append_event-Keeps started V run_id (Event.run_status RunStatus.running) refl)
                λ _.
                  Keeps-bind G recorded (λ _. pure true)
                    (record_audit-Keeps started V r (AuditKey.sandbox_run_started r.id)
                      AuditStatus.started none)
                    (λ _ t g. g)
    where
      F : Store → Type 0
      F = Frame runs V

      G : Store → Type 0
      G = Frame started V

      recorded : Db (Unit {0})
      recorded = record_audit r (AuditKey.sandbox_run_started r.id) AuditStatus.started none

      audit : Db Bool
      audit = recorded >>= λ _. pure true

      announce : Db Bool
      announce = append_event run_id (Event.run_status RunStatus.running) >>= λ _. audit

      set_running : Db Bool
      set_running = modify (set_status (has_id run_id) RunStatus.running) >>= λ _. announce

-- A run that has not ended is not announced more often after it is set to running.
announcements-started :
    (run_id : Text) (found : Option AgentRun)
    → ((r : AgentRun) → found ≡ some r → r.id ≡ run_id → is_terminal r.status ≡ false)
    → announcements (updated (has_id run_id) RunStatus.running found) ≡ announcements found
unfolding updated
announcements-started run_id none live = refl
announcements-started run_id (some r) live = elim (Bool-cases (r.id == run_id)) [
  | inl same ↦ ground (arith, live r refl ((==_iff r.id run_id).0 same))
  | inr differ ↦ ground arith
]

IsConsistent-started :
    (run_id : Text) (run : AgentRun) (s t : Store)
    → IsConsistent s
    → find_run run_id s.runs ≡ some run
    → is_terminal run.status ≡ false
    → Frame (started s.runs (λ id. verdicts id s.events) run_id) (λ id. verdicts id s.events) t
    → IsConsistent t
unfolding started
IsConsistent-started run_id run s t h found live (runs, dense, seen) = record {
  dense = dense;
  keyed =
      λ id. rw (runs, count-has_id-map (has_id run_id) RunStatus.running id s.runs) (h.keyed id);
  announced = λ id.
      rw (runs, seen id, h.announced id, find_run-map (has_id run_id) RunStatus.running id s.runs)
        (sym (
          announcements-started run_id (find_run id s.runs) (λ r e named.
            let same : find_run run_id s.runs ≡ some r =
              subst (λ i. find_run i s.runs ≡ some r) (sym (find_run-id id s.runs r e) ∙ named) e in
            cc)));
}

start_session-IsConsistent :
    (run_id : Text) (s : Store)
    → IsConsistent s
    → Outcome (λ _ t. IsConsistent t) (start_session run_id s)
unfolding start_session
start_session-IsConsistent run_id s h = elim (Option-cases (get_run_by_id run_id s)) [
  | inl absent ↦ rw absent tt
  | inr (run, found) ↦ rw found (elim (Bool-cases (is_startable run.status)) [
    | inl startable ↦ rw startable (
        Outcome-map
          (λ _.
            Frame (started s.runs (λ id. verdicts id s.events) run_id) (λ id. verdicts id s.events))
          (λ _ t. IsConsistent t) (start_found run_id run s)
          (λ _ t.
            IsConsistent-started run_id run s t h (unfold get_run_by_id in found) (ground arith))
          (start_found-Meets s.runs (λ id. verdicts id s.events) run_id run s
            (refl, h.dense, λ id. refl)))
    | inr other ↦ rw other h
  ])
]

-- Starting a run keeps the invariant, whether it is not there, cannot be started, or is started.
pub start-IsConsistent :
    (run_id : Text) (s : Store) → IsConsistent s → IsConsistent (start run_id s).1
unfolding start
start-IsConsistent run_id s h =
    transaction_keeps IsConsistent (start_session run_id) s h
      (start_session-IsConsistent run_id s h)

pub IsConsistent-Frame :
    (s t : Store) → IsConsistent s → Frame s.runs (λ id. verdicts id s.events) t → IsConsistent t
IsConsistent-Frame s t h (runs, dense, seen) = record {
  dense = dense;
  keyed = λ id. rw runs (h.keyed id);
  announced = λ id. rw (runs, seen id) (h.announced id);
}

revoke-IsConsistent :
    (run_id : Text) (reason : Reason) (now : ℕ) → Keeps IsConsistent (revoke run_id reason now)
unfolding revoke
revoke-IsConsistent run_id reason now s h = record {
  dense = h.dense;
  keyed = h.keyed;
  announced = h.announced;
}

revoke_found-IsConsistent :
    (run_id : Text) (found : Option AgentRun) (now : ℕ)
    → Keeps IsConsistent (revoke_found run_id found now)
unfolding revoke_found
revoke_found-IsConsistent run_id none now s h = h
revoke_found-IsConsistent run_id (some run) now s h = elim (Bool-cases (is_revocable run.status)) [
  | inl due ↦ rw due (revoke-IsConsistent run_id (revocation_reason run_id run s) now s h)
  | inr early ↦ rw early h
]

-- Revoking the tokens of an ended run keeps the invariant.
pub revoke_for_terminal_run-IsConsistent :
    (run_id : Text) (now : ℕ) (s : Store)
    → IsConsistent s
    → IsConsistent (revoke_for_terminal_run run_id now s).1
unfolding revoke_for_terminal_run
revoke_for_terminal_run-IsConsistent run_id now s h =
    transaction_keeps IsConsistent (λ t. revoke_found run_id (get_run_by_id run_id t) now t) s h
      (revoke_found-IsConsistent run_id (get_run_by_id run_id s) now s h)

append_quiet-IsConsistent :
    (run_id : Text) (event : Event)
    → is_verdict event ≡ false
    → Keeps IsConsistent (append_event run_id event)
append_quiet-IsConsistent run_id event quiet s h =
    Outcome-map (λ _. Frame s.runs (λ id. verdicts id s.events)) (λ _ t. IsConsistent t)
      (append_event run_id event s) (λ _ t. IsConsistent-Frame s t h)
      (append_event-Keeps s.runs (λ id. verdicts id s.events) run_id event quiet s
        (refl, h.dense, λ id. refl))

-- Recording the outcome of a cleanup keeps the invariant.
pub record_cleanup-IsConsistent :
    (run_id : Text) (outcome : CleanupStatus) (s : Store)
    → IsConsistent s
    → IsConsistent (record_cleanup run_id outcome s).1
unfolding record_cleanup
record_cleanup-IsConsistent run_id outcome s h =
    let event = Event.sandbox_cleanup outcome in
    transaction_keeps IsConsistent
      (λ t. when (is_some (get_run_by_id run_id t)) (append_event run_id event) t) s h
      (Keeps-when IsConsistent (is_some (get_run_by_id run_id s)) (append_event run_id event)
        (append_quiet-IsConsistent run_id event refl) s h)
